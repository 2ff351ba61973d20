-- ===== src/Aslib/Error/Texts.antt =====
-- The texts of the errors, as `std::format` makes them, and `print_error` of sim/simlib/error.hpp.
-- What `std::make_error_code(ec).message()` returns is a parameter.
use smol_gpu.Prelude.{ℕ, Bool, [], ◌∷◌, ◌++◌, Text, codes, if◌then◌else◌}
use smol_gpu.Prelude.Decimal.{decimal, decimal_ℤ}
use smol_gpu.Prelude.Int.{ℤ}
use smol_gpu.Isa.Register
use smol_gpu.Isa.Register.{Register}
use smol_gpu.Aslib.Error
use smol_gpu.Aslib.Error.{Errc, Message}

abbrev expected_number_text : Text → Text
expected_number_text found = codes "Expected a number, found '" ++ found ++ codes "'"

abbrev invalid_digit_text : Text → ℕ → ℕ → Text
invalid_digit_text part digit base =
    codes "Failed to parse number: '"
    ++ part
    ++ codes "': Invalid digit '"
    ++ (digit ∷ [])
    ++ codes "' for base "
    ++ decimal base

abbrev failed_number_text : Text → Text → Text
failed_number_text part reason = codes "Failed to parse number '" ++ part ++ codes "': " ++ reason

abbrev invalid_register_name_text : Text → Text
invalid_register_name_text name = codes "Invalid register name: '" ++ name ++ codes "'"

abbrev failed_register_number_text : Text → Text → Text
failed_register_number_text digits reason =
    codes "Failed to parse register number '" ++ digits ++ codes "': " ++ reason

abbrev whitespace_after_dot_text : Text
whitespace_after_dot_text =
    codes "Unexpected whitespace after '.',  expected a directive name after '.'"

abbrev unknown_directive_text : Text → Text
unknown_directive_text keyword = codes "Unknown directive '." ++ keyword ++ codes "'"

abbrev unexpected_keyword_text : Text → Text
unexpected_keyword_text word = codes "Unexpected keyword '" ++ word ++ codes "'"

abbrev unexpected_character_text : ℕ → Text
unexpected_character_text c = codes "Unexpected character '" ++ (c ∷ []) ++ codes "'"

abbrev register_should_be_text : Register → Bool → Text
register_should_be_text r scalar =
    codes "Register '"
    ++ Register.to_str r
    ++ codes "' should be "
    ++ (if scalar then codes "scalar" else codes "vector")

abbrev unexpected_token_text : Text → Text → Text
unexpected_token_text expected found =
    codes "Unexpected token: Expected " ++ expected ++ codes ", instead found " ++ found

abbrev unexpected_end_of_stream_text : Text → Text
unexpected_end_of_stream_text expected = codes "Unexpected end of stream: Expected " ++ expected

abbrev unknown_mnemonic_text : Text → Text
unknown_mnemonic_text name = codes "Unknown mnemonic: '" ++ name ++ codes "'"

abbrev invalid_count_text : Text → ℤ → Text
invalid_count_text name value =
    codes "Invalid number of " ++ name ++ codes ": '" ++ decimal_ℤ value ++ codes "'"

abbrev expected_end_of_line_text : Text → Text
expected_end_of_line_text found =
    codes "Unexpected token: Expected end of line, instead found '" ++ found ++ codes "'"

abbrev expected_mnemonic_or_directive_text : Text → Text
expected_mnemonic_or_directive_text found =
    codes "Unexpected token: Expected mnemonic or directive, instead found '" ++ found ++ codes "'"

abbrev duplicate_label_text : ℕ → Text
duplicate_label_text line = codes "Duplicate label declaration on line " ++ decimal line

abbrev duplicate_blocks_text : Text
duplicate_blocks_text = codes "Duplicate blocks directive"

abbrev duplicate_warps_text : Text
duplicate_warps_text = codes "Duplicate warps directive"

-- `error.message`
unfoldable pub message_text : (Errc → Text) → Message → Text
unfolding decimal decimal_ℤ Register.to_str
message_text errc_message (Error.expected_number found) = expected_number_text found
message_text errc_message (Error.invalid_digit part digit base) = invalid_digit_text part digit base
message_text errc_message (Error.failed_number part ec) = failed_number_text part (errc_message ec)
message_text errc_message (Error.invalid_register_name name) = invalid_register_name_text name
message_text errc_message (Error.failed_register_number digits ec) =
    failed_register_number_text digits (errc_message ec)
message_text errc_message Error.whitespace_after_dot = whitespace_after_dot_text
message_text errc_message (Error.unknown_directive keyword) = unknown_directive_text keyword
message_text errc_message (Error.unexpected_keyword word) = unexpected_keyword_text word
message_text errc_message (Error.unexpected_character c) = unexpected_character_text c
message_text errc_message (Error.register_should_be r scalar) = register_should_be_text r scalar
message_text errc_message (Error.unexpected_token expected found) =
    unexpected_token_text expected found
message_text errc_message (Error.unexpected_end_of_stream expected) =
    unexpected_end_of_stream_text expected
message_text errc_message (Error.unknown_mnemonic name) = unknown_mnemonic_text name
message_text errc_message (Error.invalid_count name value) = invalid_count_text name value
message_text errc_message (Error.expected_end_of_line found) = expected_end_of_line_text found
message_text errc_message (Error.expected_mnemonic_or_directive found) =
    expected_mnemonic_or_directive_text found
message_text errc_message (Error.duplicate_label line) = duplicate_label_text line
message_text errc_message Error.duplicate_blocks = duplicate_blocks_text
message_text errc_message Error.duplicate_warps = duplicate_warps_text

-- `std::println(stderr, "Error:{}:{}: {}.", ...)`
unfoldable pub error_text : (Errc → Text) → Error.Error → Text
unfolding message_text decimal
error_text errc_message e =
    codes "Error:"
    ++ (decimal e.line
        ++ (codes ":"
            ++ (decimal e.column
                ++ (codes ": " ++ (message_text errc_message e.message ++ codes ".")))))
