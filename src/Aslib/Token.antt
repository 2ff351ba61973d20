-- ===== src/Aslib/Token.antt =====
-- sim/aslib/token.hpp: the tokens and their texts.
use smol_gpu.Prelude.{ℕ, Bool, true, false, ◌||◌, List, [], ◌∷◌, ◌++◌, Text, codes}
use smol_gpu.Prelude.Int.{ℤ}
use smol_gpu.Prelude.Decimal.{decimal_ℤ}
use smol_gpu.Isa.Register
use smol_gpu.Isa.Register.{Register}
use smol_gpu.Isa.Mnemonic
use smol_gpu.Isa.Mnemonic.{Mnemonic}

pub data TokenType : Type 0 where
  blocks_directive warps_directive : TokenType
  mnemonic : Mnemonic → TokenType
  label : Text → TokenType
  label_ref : Text → TokenType
  immediate : ℤ → TokenType
  register : Register → TokenType
  comma lparen rparen : TokenType

-- The alternatives of the variant, which `is_of_type` and `token_type_to_str` are given.
pub data Kind : Type 0 where
  blocks_kind warps_kind mnemonic_kind label_kind label_ref_kind : Kind
  immediate_kind register_kind comma_kind lparen_kind rparen_kind : Kind

-- `token_type_to_str` of one alternative
unfoldable pub kind_to_str : Kind → Text
kind_to_str blocks_kind = codes ".blocks"
kind_to_str warps_kind = codes ".warps"
kind_to_str mnemonic_kind = codes "mnemonic"
kind_to_str label_kind = codes "label"
kind_to_str label_ref_kind = codes "label_ref"
kind_to_str immediate_kind = codes "immediate"
kind_to_str register_kind = codes "register"
kind_to_str comma_kind = codes "','"
kind_to_str lparen_kind = codes "'('"
kind_to_str rparen_kind = codes "')'"

-- `token_type_to_str` of several, joined by " or "
unfoldable pub token_type_to_str : Kind → List Kind → Text
unfolding kind_to_str
token_type_to_str t [] = kind_to_str t
token_type_to_str t (u ∷ us) = kind_to_str t ++ (codes " or " ++ token_type_to_str u us)

-- `std::holds_alternative`
unfoldable pub holds : Kind → TokenType → Bool
holds blocks_kind blocks_directive = true
holds warps_kind warps_directive = true
holds mnemonic_kind (mnemonic m) = true
holds label_kind (label name) = true
holds label_ref_kind (label_ref name) = true
holds immediate_kind (immediate value) = true
holds register_kind (register r) = true
holds comma_kind comma = true
holds lparen_kind lparen = true
holds rparen_kind rparen = true
holds _ _ = false

pub record Token : Type 0 where
  pub token_type : TokenType
  pub col : ℕ

-- `is_of_type`
unfoldable pub is_of_type : List Kind → Token → Bool
unfolding holds
is_of_type [] t = false
is_of_type (k ∷ ks) t = holds k t.token_type || is_of_type ks t

-- `Token::to_str`; a `.blocks` directive prints as ".threads".
unfoldable pub token_to_str : TokenType → Text
unfolding Mnemonic.to_str Register.to_str decimal_ℤ
token_to_str blocks_directive = codes ".threads"
token_to_str warps_directive = codes ".warps"
token_to_str (mnemonic m) = Mnemonic.to_str m
token_to_str (label name) = name
token_to_str (label_ref name) = name
token_to_str (immediate value) = decimal_ℤ value
token_to_str (register r) = Register.to_str r
token_to_str comma = codes "','"
token_to_str lparen = codes "'('"
token_to_str rparen = codes "')'"
