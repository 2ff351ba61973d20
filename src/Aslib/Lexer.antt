-- ===== src/Aslib/Lexer.antt =====
-- sim/aslib/lexer.{hpp,cpp}: the tokens of one line. The lexer's state is the text that is left and
-- the column; a string_view into the line is the text that it shows. Columns are `uint32_t`.
pub mod Progress
pub mod Stall
pub mod Hangs
pub mod Suffix
pub mod Terminates
pub mod Iterator
use smol_gpu.Prelude.{
  ℕ, zero, suc, ◌+◌, ◌-◌, ◌^◌, ◌%◌, Bool, true, false, not, ◌&&◌, ◌||◌, Option, none, some, List,
  [], ◌∷◌, ◌++◌, all, ◌==◌, if◌then◌else◌, length, Text, codes, equal,
}
use mathlib.Core.Option
use smol_gpu.Prelude.Word.{u32}
use smol_gpu.Prelude.Int.{ℤ}
use smol_gpu.Isa.Mnemonic.{str_to_mnemonic}
use smol_gpu.Aslib.Chars.{is_whitespace, is_numeric, is_alphabetic, is_alphanumeric, is_label_char}
use smol_gpu.Aslib.Error.{
  Message, whitespace_after_dot, unknown_directive, unexpected_keyword, unexpected_character, Error,
  Expected, expected, unexpected,
}
use smol_gpu.Aslib.Number.{parse_num, str_check_predicate, str_to_reg}
use smol_gpu.Aslib.Token.{
  TokenType, blocks_directive, warps_directive, mnemonic, label, label_ref, immediate, register,
  comma, lparen, rparen, Token,
}

pub record Lexer : Type 0 where
  pub column_number : ℕ
  pub source : Text

abbrev pub advance : ℕ → ℕ
advance col = u32 (col + 1)

-- `chop_while`, on the column and the text.
unfoldable pub chop_while : (ℕ → Bool) → ℕ → Text → Text × Lexer
chop_while predicate col [] = ([], record { column_number = col; source = [] })
chop_while predicate col (c ∷ cs) =
    let (taken, lexer) = chop_while predicate (advance col) cs in
    if predicate c
    then (c ∷ taken, lexer)
    else ([], record { column_number = col; source = c ∷ cs })

-- `trim_whitespace`, on the column and the text: `peek` and `chop` in a loop.
unfoldable pub trim_whitespace : ℕ → Text → Lexer
trim_whitespace col [] = record { column_number = col; source = [] }
trim_whitespace col (c ∷ cs) =
    if c == b' ' || c == b'\t' || c == b'\r' || c == b'\n'
    then trim_whitespace (advance col) cs
    else record { column_number = col; source = c ∷ cs }

-- `make_error` from a message, and from an error whose line is kept.
abbrev pub make_error : Message → ℕ → Error
make_error message col = record { message = message; column = col; line = 0 }

abbrev pub make_error_from : Error → ℕ → Error
make_error_from e col = record { message = e.message; column = col; line = e.line }

abbrev pub token : TokenType → ℕ → Expected Token
token t col = expected (record { token_type = t; col = col })

-- `parse_directive`, on the name behind the dot; the column is the one behind the name.
unfoldable pub directive_token : Text → ℕ → Expected Token
unfolding equal
directive_token keyword col =
    if equal keyword (codes "blocks")
    then token blocks_directive col
    else if equal keyword (codes "warps")
    then token warps_directive col
    else if equal keyword []
    then unexpected (make_error whitespace_after_dot col)
    else unexpected (make_error (unknown_directive keyword) col)

unfoldable pub parse_directive : ℕ → Text → Expected Token × Lexer
unfolding chop_while directive_token is_whitespace
parse_directive col source =
    let (keyword, lexer) = chop_while (λ c. not (is_whitespace c)) col source in
    (directive_token keyword lexer.column_number, lexer)

-- `parse_number`, on what `parse_num` returns. An error leaves the column alone.
unfoldable pub number_token : ℕ → Text → Expected ℤ × Text → Expected Token × Lexer
number_token col source (expected n, rest) = (
  token (immediate n) col,
  record { column_number = u32 (col + (length source - length rest)); source = rest },
)
number_token col source (unexpected e, rest) =
    (unexpected (make_error_from e col), record { column_number = col; source = rest })

unfoldable pub parse_number : ℕ → Text → Expected Token × Lexer
unfolding parse_num number_token
parse_number col source = number_token col source (parse_num source)

-- `word.back() == ':'`, and `word.remove_suffix(1)`, on a word that is not empty.
unfoldable pub ends_with_colon : Text → Bool
ends_with_colon [] = false
ends_with_colon (c ∷ []) = c == b':'
ends_with_colon (c ∷ d ∷ ds) = ends_with_colon (d ∷ ds)

unfoldable pub remove_last : Text → Text
remove_last [] = []
remove_last (c ∷ []) = []
remove_last (c ∷ d ∷ ds) = c ∷ remove_last (d ∷ ds)

-- `word[0] == 'x' || word[0] == 's' || word == "pc"`
unfoldable pub may_be_register : Text → Bool
unfolding equal
may_be_register [] = false
may_be_register (c ∷ cs) = c == b'x' || c == b's' || equal (c ∷ cs) (codes "pc")

-- Steps 4 and 5 of `parse_keyword`, with the error of step 3 if there was one.
unfoldable pub label_ref_token : Text → ℕ → Option Error → Expected Token
unfolding is_label_char
label_ref_token word col reg_error =
    if str_check_predicate word is_label_char then token (label_ref word) col else elim reg_error [
      | some e ↦ unexpected (make_error_from e col)
      | none ↦ unexpected (make_error (unexpected_keyword word) col)
    ]

-- Steps 3 to 5.
unfoldable pub register_token : Text → ℕ → Expected Token
unfolding may_be_register str_to_reg label_ref_token
register_token word col =
    if may_be_register word
    then elim (str_to_reg word) [
      | expected reg ↦ token (register reg) col
      | unexpected e ↦ label_ref_token word col (some e)
    ]
    else label_ref_token word col none

-- Steps 1 to 5. The colon that step 2 takes off stays off in the later steps.
unfoldable pub keyword_token : Text → ℕ → Expected Token
unfolding str_to_mnemonic ends_with_colon remove_last register_token is_label_char
keyword_token word col = elim (str_to_mnemonic word) [
  | some m ↦ token (mnemonic m) col
  | none ↦
      if ends_with_colon word
      then (if str_check_predicate (remove_last word) is_label_char
          then token (label (remove_last word)) col
          else register_token (remove_last word) col)
      else register_token word col
]

unfoldable pub is_keyword_char : ℕ → Bool
unfolding is_alphanumeric is_label_char
is_keyword_char c = is_alphanumeric c || is_label_char c || c == b'.' || c == b':'

unfoldable pub parse_keyword : ℕ → Text → Expected Token × Lexer
unfolding chop_while keyword_token is_keyword_char
parse_keyword col source =
    let (word, lexer) = chop_while is_keyword_char col source in (keyword_token word col, lexer)

-- The `switch` of `next_token`, behind the `chop` of `c`, which stood in column `first`.
unfoldable pub punctuation : ℕ → ℕ → Lexer → Expected Token × Lexer
unfolding parse_directive
punctuation c first lexer =
    if c == b'('
    then (token lparen first, lexer)
    else if c == b')'
    then (token rparen first, lexer)
    else if c == b','
    then (token comma first, lexer)
    else if c == b'.'
    then parse_directive lexer.column_number lexer.source
    else (unexpected (make_error (unexpected_character c) first), lexer)

abbrev pub found : Expected Token × Lexer → Option (Expected Token) × Lexer
found (t, lexer) = (some t, lexer)

-- `next_token`, on the text without the leading white space.
unfoldable pub token_at : ℕ → Text → Option (Expected Token) × Lexer
unfolding parse_number parse_keyword punctuation
token_at col [] = (none, record { column_number = col; source = [] })
token_at col (c ∷ cs) =
    if c == b'#'
    then (none, record { column_number = col; source = c ∷ cs })
    else if c == b'-' || is_numeric c 10
    then found (parse_number col (c ∷ cs))
    else if is_alphabetic c
    then found (parse_keyword col (c ∷ cs))
    else found (punctuation c col (record { column_number = advance col; source = cs }))

unfoldable pub next_token : Lexer → Option (Expected Token) × Lexer
unfolding trim_whitespace token_at
next_token lexer =
    let trimmed = trim_whitespace lexer.column_number lexer.source in
    token_at trimmed.column_number trimmed.source

abbrev pub Tokens : Type 0
Tokens = List Token × List Error

abbrev pub push_result : Expected Token → Tokens → Tokens
push_result (expected t) (tokens, errors) = (t ∷ tokens, errors)
push_result (unexpected e) (tokens, errors) = (tokens, e ∷ errors)

-- The body of the loop over the lexer's iterator, on what `next_token` gave.
abbrev pub collect_after : (Lexer → Option Tokens) → Option (Expected Token) × Lexer → Option Tokens
collect_after rest (none, lexer) = some ([], [])
collect_after rest (some t, lexer) = Option.map (push_result t) (rest lexer)

-- The loop, one unit of fuel for each call of `next_token`.
unfoldable pub collect : ℕ → Lexer → Option Tokens
unfolding next_token
collect zero lexer = none
collect (suc fuel) lexer = collect_after (collect fuel) (next_token lexer)

abbrev pub start : Text → Lexer
start source = record { column_number = 1; source = source }

-- `collect_tokens`: `none` is a run that does not end (see Lexer.Stall).
unfoldable pub collect_tokens : Text → Option Tokens
unfolding collect is_numeric is_alphabetic
collect_tokens source = collect (suc (length source)) (start source)
