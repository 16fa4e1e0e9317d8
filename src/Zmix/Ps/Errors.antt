-- ===== src/Zmix/Ps/Errors.antt =====
-- ursa_Master/libzmix/src/signatures/ps/errors.rs
use smartchaindb_driver.Prelude.{ℕ}
use smartchaindb_driver.Zmix.PokVc.{PokVcErrorKind}

-- The text of `GeneralError`, by its format string and arguments.
pub data Message : Type 0 where
  index_should_be_less : (idx count : ℕ) → Message
  blindings_ne_hidden : (blindings hidden : ℕ) → Message

pub data PsErrorKind : Type 0 where
  invalid_verkey : (y y_tilde : ℕ) → PsErrorKind
  unsupported_no_of_messages : (expected given : ℕ) → PsErrorKind
  unequal_no_of_bases_exponents : (bases exponents : ℕ) → PsErrorKind
  pokvc_error : PokVcErrorKind → PsErrorKind
  general_error : Message → PsErrorKind
