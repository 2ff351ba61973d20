-- ===== src/Aslib/Error.antt =====
-- `sim::Error` of sim/simlib/error.hpp, and `std::expected`. A message is the format string that makes
-- it, as a constructor, with the values that are put in.
pub mod Texts
use smol_gpu.Prelude.{ℕ, Bool, Text}
use smol_gpu.Prelude.Int.{ℤ}
use smol_gpu.Isa.Register.{Register}

-- The two errors of `std::from_chars`.
pub data Errc : Type 0 where
  invalid_argument result_out_of_range : Errc

pub data Message : Type 0 where
  -- parse_num
  expected_number : Text → Message
  invalid_digit : Text → ℕ → ℕ → Message
  failed_number : Text → Errc → Message
  -- str_to_reg
  invalid_register_name : Text → Message
  failed_register_number : Text → Errc → Message
  -- Lexer
  whitespace_after_dot : Message
  unknown_directive : Text → Message
  unexpected_keyword : Text → Message
  unexpected_character : ℕ → Message
  -- Parser
  register_should_be : Register → Bool → Message
  unexpected_token : Text → Text → Message
  unexpected_end_of_stream : Text → Message
  unknown_mnemonic : Text → Message
  invalid_count : Text → ℤ → Message
  expected_end_of_line : Text → Message
  expected_mnemonic_or_directive : Text → Message
  -- parse_program
  duplicate_label : ℕ → Message
  duplicate_blocks duplicate_warps : Message

pub record Error : Type 0 where
  pub message : Message
  pub column : ℕ
  pub line : ℕ

-- `Error(message)`
abbrev pub error : Message → Error
error m = record { message = m; column = 0; line = 0 }

abbrev pub with_column : ℕ → Error → Error
with_column col e = record e { column = col }

abbrev pub with_line : ℕ → Error → Error
with_line ln e = record e { line = ln }

pub data Expected {ℓ} (A : Type ℓ) : Type ℓ where
  expected : A → Expected A
  unexpected : Error → Expected A
