-- ===== src/Grep/Spans/Visible.antt =====
-- What a reader sees of a text that grep.py has marked.
use kanta.Base.{
  ℕ, suc, Bool, true, false, List, [], ◌∷◌, if◌then◌else◌, ◌≡◌, refl, sym, ◌∙◌, ap, map,
}
use kanta.Base.Bytes.{bytes_eq}
use kanta.Terminal.{Text, Pieces, last_run, run_then, pieces, visible, strip_ansi}
use kanta.Terminal.Shown.{shown}
use kanta.Grep.Spans.{Span, merge_spans, mark_spans, mark_code, unmark_code}
use kanta.Grep.Spans.Painted.{painted, painted-agree}
use kanta.Grep.Spans.Merged.{covers, merge_spans-covers}
use kanta.Grep.Spans.Marked.{IsQuiet, mark_merged-shown}

-- the background of what follows a match, true where it is the mark's
unfoldable pub background : Text → Bool → Bool
unfolding bytes_eq
background match yellow =
    if bytes_eq match mark_code then true else if bytes_eq match unmark_code then false else yellow

abbrev pub with_background : Bool → ℕ → ℕ × Bool
with_background yellow c = (c, yellow)

-- no match in the text is the mark
abbrev pub IsUnmarked : Text → Type 0
IsUnmarked text = IsQuiet background (pieces text)

mark_code-background : background mark_code false ≡ true
unfolding background
mark_code-background = refl

unmark_code-background : background unmark_code (background mark_code false) ≡ false
unfolding background
unmark_code-background = refl

painted-visible : (f : ℕ → Bool) (i : ℕ) (s : Text) → painted (λ yellow c. c) f i s ≡ s
painted-visible f i [] = refl
painted-visible f i (c ∷ s) = ap (λ t. c ∷ t) (painted-visible f (suc i) s)

map-visible : (s : Text) → map (λ c. c) s ≡ s
map-visible [] = refl
map-visible (c ∷ s) = ap (λ t. c ∷ t) (map-visible s)

shown-visible :
    (p : Pieces) → shown (λ (yellow : Bool) c. c) (λ match yellow. false) false p ≡ visible p
shown-visible (last_run run) = map-visible run
shown-visible (run_then run match rest) = rw (map-visible run, shown-visible rest) refl

-- To see only the characters, no match is looked at.
abbrev character : Bool → ℕ → ℕ
character yellow c = c

abbrev ignored : Text → Bool → Bool
ignored match yellow = false

all-IsQuiet : (p : Pieces) → IsQuiet ignored p
all-IsQuiet (last_run run) = tt
all-IsQuiet (run_then run match rest) = (refl, all-IsQuiet rest)

-- Marking changes nothing that is visible: without its escape sequences, a marked text is the text
-- before, without its own, whatever the spans are.
pub mark_spans-visible :
    (styled : Text) (spans : List Span) → strip_ansi (mark_spans styled spans) ≡ strip_ansi styled
unfolding mark_spans strip_ansi
mark_spans-visible styled spans =
    let merged = merge_spans spans in
    sym (shown-visible (pieces (mark_spans styled spans)))
    ∙ mark_merged-shown character ignored (λ c. refl) refl styled merged
        (all-IsQuiet (pieces styled)) (merge_spans-covers spans).0
    ∙ painted-visible (covers merged) 0 (strip_ansi styled)

-- In a text that has no mark yet, marking makes exactly the visible characters yellow whose
-- positions the spans cover, and leaves the visible characters as they are.
pub mark_spans-background :
    (styled : Text) (spans : List Span)
    → IsUnmarked styled
    → shown with_background background false (pieces (mark_spans styled spans))
      ≡ painted with_background (covers spans) 0 (strip_ansi styled)
unfolding mark_spans
mark_spans-background styled spans unmarked =
    let (apart, same) = merge_spans-covers spans in
    mark_merged-shown with_background background
      (λ c. ap (λ yellow. (c, yellow)) mark_code-background) unmark_code-background styled
      (merge_spans spans) unmarked apart
    ∙ painted-agree with_background (covers (merge_spans spans)) (covers spans) 0
        (strip_ansi styled) (λ k low high. same k)
