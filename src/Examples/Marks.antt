-- ===== src/Examples/Marks.antt =====
-- A text with one color and two marks.
use kanta.Base.{ℕ, ◌≡◌, refl, false, List, [], ◌∷◌}
use kanta.Terminal.{Text, pieces, strip_ansi, escape_code}
use kanta.Terminal.Shown.{shown}
use kanta.Grep.Spans.{Span, merge_spans, mark_spans}
use kanta.Grep.Spans.Merged.{Separated, covers, merge_spans-covers}
use kanta.Grep.Spans.Painted.{painted}
use kanta.Grep.Spans.Visible.{
  with_background, background, mark_spans-visible, mark_spans-background, IsUnmarked,
}

-- "ab\x1b[34mcd"
abbrev blue : Text
blue = b'a' ∷ b'b' ∷ escape_code ∷ b'[' ∷ b'3' ∷ b'4' ∷ b'm' ∷ b'c' ∷ b'd' ∷ []

abbrev two_spans : List Span
two_spans = record { start = 3; stop = 4 } ∷ record { start = 1; stop = 3 } ∷ []

two_spans-merged : merge_spans two_spans ≡ record { start = 1; stop = 4 } ∷ []
unfolding merge_spans
two_spans-merged = refl

blue-IsUnmarked : IsUnmarked blue
unfolding background kanta.Terminal.pieces_from
blue-IsUnmarked = (refl, tt)

merge_spans-covers_example :
    Separated 0 (merge_spans two_spans)
    × ((i : ℕ) → covers (merge_spans two_spans) i ≡ covers two_spans i)
merge_spans-covers_example = merge_spans-covers two_spans

mark_spans-visible_example : strip_ansi (mark_spans blue two_spans) ≡ strip_ansi blue
mark_spans-visible_example = mark_spans-visible blue two_spans

mark_spans-background_example :
    shown with_background background false (pieces (mark_spans blue two_spans))
    ≡ painted with_background (covers two_spans) 0 (strip_ansi blue)
mark_spans-background_example = mark_spans-background blue two_spans blue-IsUnmarked
