-- ===== src/Tests/LexerRuns.antt =====
-- Lexer runs, on inputs of test/assembler.
use smol_gpu.Prelude.{some, none, [], ◌∷◌, ◌≡◌, refl, codes, false}
use smol_gpu.Prelude.Int.{negsuc}
use smol_gpu.Isa.Mnemonic
use smol_gpu.Isa.Register.{x_register, s_register}
use smol_gpu.Aslib.Token.{
  Token, TokenType, mnemonic, label, immediate, register, comma, lparen, rparen,
}
use smol_gpu.Aslib.Lexer.{collect_tokens}

abbrev at : TokenType → Token
at t = record { token_type = t; col = 1 }

lex_store :
    collect_tokens (codes "label_90: sw x1, -0x1F(s2) # c")
    ≡ some (
      record { token_type = label (codes "label_90"); col = 1 }
          ∷ record {
            token_type = mnemonic (record { name = Mnemonic.sw; has_s_prefix = false });
            col = 11;
          }
          ∷ record { token_type = register (x_register 1); col = 14 }
          ∷ record { token_type = comma; col = 16 }
          ∷ record { token_type = immediate (negsuc 30); col = 18 }
          ∷ record { token_type = lparen; col = 23 }
          ∷ record { token_type = register (s_register 2); col = 24 }
          ∷ record { token_type = rparen; col = 26 }
          ∷ [],
      [],
    )
unfolding collect_tokens
lex_store = refl

lex_hang : collect_tokens (codes "addi x1, x1, 2147483648") ≡ none
unfolding collect_tokens
lex_hang = refl
