-- ===== src/Aslib/RoundTrip/Files.antt =====
-- Files of printed lines, under `parse_program`.
use smol_gpu.Prelude.{◌≡◌, refl, subst, some, List, [], ◌∷◌, map, Text, All}
use smol_gpu.Aslib.Token.{Token}
use smol_gpu.Aslib.Lexer.{collect_tokens}
use smol_gpu.Aslib.Syntax.{Line, Program, line_to_str}
use smol_gpu.Aslib.Parser.{ok, parse_line}
use smol_gpu.Aslib.Program.{parsed, parse_program}
use smol_gpu.Aslib.Program.Accepts.{parse_program_iff}
use smol_gpu.Aslib.Program.Distinct.{AreDistinct}
use smol_gpu.Aslib.Program.Layout.{Reads, done, blank, line}
use smol_gpu.Aslib.Program.Reading.{IsProgramOf, parse_program-IsProgramOf}
use smol_gpu.Aslib.RoundTrip.Tokens.{IsLine}
use smol_gpu.Aslib.RoundTrip.Lines.{IsReadable, parse_line-line_to_str}

-- A line that is read has tokens.
read_line :
    (text : Text) (texts : List Text) (l : Line) (ls : List Line) (tokens : List Token)
    → collect_tokens text ≡ some (tokens, [])
    → parse_line tokens ≡ ok l
    → Reads texts ls
    → Reads (text ∷ texts) (l ∷ ls)
unfolding parse_line
read_line text texts l ls [] lexed read h = cc
read_line text texts l ls (t ∷ ts) lexed read h = line lexed read h

printed-Reads : (ls : List Line) → All IsLine ls → All IsReadable ls → Reads (map line_to_str ls) ls
printed-Reads [] formed readable = done
printed-Reads (l ∷ ls) (here, formed) (one, readable) =
    let (tokens, lexed, read) = parse_line-line_to_str l here one in
    read_line (line_to_str l) (map line_to_str ls) l ls tokens lexed read
      (printed-Reads ls formed readable)

-- The lines of a file are determined by its text.
Reads-unique : {texts : List Text} {ls ms : List Line} → Reads texts ls → Reads texts ms → ls ≡ ms
Reads-unique done done = refl
Reads-unique (blank lexed h) (blank lexed' k) = Reads-unique h k
Reads-unique (blank lexed h) (line lexed' read' k) = cc
Reads-unique (line lexed read h) (blank lexed' k) = cc
Reads-unique (line lexed read h) (line lexed' read' k) = cc (Reads-unique h k)

-- A file of printed lines is assembled to the program of these lines, where they are well formed, of a
-- mnemonic with operands or of a directive's count from 1 to below 2^31, where no two of them have the
-- same label, both are `.blocks` or both are `.warps`, where the registers' numbers and the
-- immediates' absolute values are below 2^31, and where the labels are a letter with letters, digits and
-- underscores behind it, and those referred to are neither mnemonics nor registers.
pub parse_program-line_to_str :
    (ls : List Line)
    → All IsLine ls
    → All IsReadable ls
    → AreDistinct ls
    → (p : Program) × (parse_program (map line_to_str ls) ≡ some (parsed p)) × IsProgramOf ls p
parse_program-line_to_str ls formed readable distinct =
    let texts = map line_to_str ls in
    let reads = printed-Reads ls formed readable in
    let (p, returned) = (parse_program_iff texts).1 (ls, reads, distinct) in
    let (ms, others, accepted, is) = parse_program-IsProgramOf texts p returned in
    (p, returned, subst (λ (xs : List Line). IsProgramOf xs p) (Reads-unique others reads) is)
