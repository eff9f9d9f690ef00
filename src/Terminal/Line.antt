-- ===== src/Terminal/Line.antt =====
-- tty.py: the builder of lines.
pub mod Plain
pub mod Colored
use kanta.Base.{Bool, true, false, Option, none, some, List, [], ◌∷◌, ◌++◌, if◌then◌else◌}
use kanta.Base.ParseInt.{codes}
use kanta.Terminal.{Text}
use kanta.Terminal.Sgr.{
  Sgr, Output, part, sequence, sgr_eq, sgr_transition, parse_sgr, is_empty, output_text,
}

-- `Line`, without its palette
pub record Line : Type 0 where
  pub parts : List Output
  pub active : Sgr
  pub pending : Sgr

-- `__init__`
abbrev pub new_line : Line
new_line = record { parts = []; active = []; pending = [] }

-- `__getattr__` with the name of a color, whose spec is given
unfoldable pub arm : Line → List Text → Line
unfolding parse_sgr
arm self spec = record self { pending = parse_sgr spec }

-- `__call__`, of a text that is joined and padded
unfoldable pub call : Line → Text → Line
unfolding sgr_transition
call self text =
    let self' = if sgr_eq self.pending self.active then self else record self {
      parts = self.parts ++ sgr_transition self.active self.pending;
      active = self.pending;
    } in
    record self' { parts = self'.parts ++ part text ∷ []; pending = [] }

-- `__str__`, as the list of its parts
unfoldable pub finish : Line → List Output
finish self =
    if is_empty self.active then self.parts else self.parts ++ sequence (codes "0" ∷ []) ∷ []

abbrev pub joined : List Output → Text
joined [] = []
joined (p ∷ parts) = output_text p ++ joined parts
