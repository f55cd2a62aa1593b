-- ===== src/Config/Parse/Sections.antt =====
-- Only the [ARTS] section of a configuration file is read.
use carts.Base.{false, List, [], ◌∷◌, All, ◌≡◌, refl, ◌∙◌, arith}
use carts.Config.{Bytes, codes}
use carts.Config.Text.{bytes_eq, trim}
use carts.Config.Parse.{ParseState, parse_trimmed, parse_line, parse_lines}

-- The line does not open the [ARTS] section.
abbrev pub KeepsArtsClosed : Bytes → Type 0
KeepsArtsClosed line = bytes_eq (trim line) (codes "[ARTS]") ≡ false

abbrev Untouched : ParseState → ParseState → Type 0
Untouched st st' = (st'.config ≡ st.config) × (st'.in_arts_section ≡ false)

parse_trimmed_outside :
    (st : ParseState) (line : Bytes)
    → st.in_arts_section ≡ false
    → bytes_eq line (codes "[ARTS]") ≡ false
    → Untouched st (parse_trimmed st line)
unfolding parse_trimmed
parse_trimmed_outside st [] h e = (refl, h)
parse_trimmed_outside st (c ∷ cs) h e = ground arith

-- A file whose lines never open the [ARTS] section, each line trimmed first, changes nothing of
-- the configuration, whatever other sections and keys it holds, when the parser starts outside
-- the section.
pub parse_lines_outside :
    (st : ParseState) (lines : List Bytes)
    → st.in_arts_section ≡ false
    → All KeepsArtsClosed lines
    → (parse_lines st lines).config ≡ st.config
unfolding parse_lines parse_line
parse_lines_outside st [] h closed = refl
parse_lines_outside st (l ∷ ls) h (first, others) =
    let (same, shut) = parse_trimmed_outside st (trim l) h first in
    parse_lines_outside (parse_line st l) ls shut others ∙ same
