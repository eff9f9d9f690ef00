-- ===== src/Examples/Text.antt =====
-- The theorems on the line framer at a file of two lines.
use kanta.Base.{◌≡◌, refl, true, false, List, [], ◌∷◌, ◌++◌}
use kanta.Base.Bytes.{Bytes}
use kanta.Base.ParseInt.{codes, strip, is_space}
use kanta.Framing.Bin.Journal.{Entry}
use kanta.Framing.Line.{newline, starts, find_newline, line_records}
use kanta.Framing.Line.Lines.{AllLines, lines_written, line_records_at, line_records-written}
use kanta.Framing.Line.Ends.{Stops, line_records-Stops}

abbrev two_lines : List Entry
two_lines = (false, codes "{ }") ∷ (true, codes "[7]") ∷ []

abbrev text_file : Bytes
text_file = codes "{ }" ++ newline ∷ (codes "SNAPSHOT [7]" ++ newline ∷ [])

two_lines-AllLines : AllLines two_lines
unfolding strip is_space starts find_newline
two_lines-AllLines = (
  record { single = refl; stripped = refl; not_blank = λ e. cc; kind = refl },
  (record { single = refl; stripped = refl; not_blank = λ e. cc; kind = refl }, tt),
)

line_records-written_example : line_records text_file 0 ≡ line_records_at 0 1 two_lines
unfolding lines_written
line_records-written_example = line_records-written two_lines text_file two_lines-AllLines refl

line_records-Stops_example : Stops (line_records (codes "no end") 3)
line_records-Stops_example = line_records-Stops (codes "no end") 3
