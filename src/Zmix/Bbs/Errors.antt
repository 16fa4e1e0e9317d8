-- ===== src/Zmix/Bbs/Errors.antt =====
-- ursa_Master/libzmix/src/errors.rs
use smartchaindb_driver.Prelude.{ℕ}
use smartchaindb_driver.Zmix.PokVc.{PokVcErrorKind}

-- The text of `GeneralError`, by its format string and arguments.
pub data Message : Type 0 where
  index_should_be_less : (idx count : ℕ) → Message
  blindings_ne_hidden : (blindings hidden : ℕ) → Message

pub data BbsErrorKind : Type 0 where
  key_gen_error : BbsErrorKind
  signing_error_message_count_mismatch : (expected found : ℕ) → BbsErrorKind
  signature_incorrect_size : (found : ℕ) → BbsErrorKind
  signature_value_incorrect_size : BbsErrorKind
  malformed_public_key : BbsErrorKind
  pokvc_error : PokVcErrorKind → BbsErrorKind
  general_error : Message → BbsErrorKind
