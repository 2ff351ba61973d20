-- ===== src/Aslib.antt =====
-- sim/aslib: the assembler.
pub mod Error
pub mod Chars
pub mod Number
pub mod Token
pub mod Lexer
pub mod Syntax
pub mod Parser
pub mod Labels
pub mod Program
pub mod Emitter
pub mod RoundTrip
pub mod DataReader
