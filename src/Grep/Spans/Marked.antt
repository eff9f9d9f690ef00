-- ===== src/Grep/Spans/Marked.antt =====
-- What the marks of grep.py add to a text, and where.
use kanta.Base.{
  ℕ, zero, suc, ◌+◌, ◌-◌, ◌≤◌, ◌<◌, min, Bool, true, false, ◌||◌, List, [], ◌∷◌, ◌++◌, length, drop,
  leb, ◌≡◌, refl, sym, ◌∙◌, ap, arith, map, append_assoc, length-drop, append-nil, if-cases,
}
use kanta.Base.Bytes.{slice}
use kanta.Terminal.{Text, Pieces, last_run, run_then, pieces, escape_length, visible, strip_ansi}
use kanta.Terminal.Escapes.{IsPlain, IsPlain-drop, IsPlain-take, Restarts}
use kanta.Terminal.Divided.{IsEscape, IsDivided, pieces_from-IsDivided, escape-Restarts}
use kanta.Terminal.Shown.{shown, shown-plain, shown-escape}
use kanta.Grep.Spans.{Span, wrap_from, wrap_run, wrap_pieces, mark_merged, mark_code, unmark_code}
use kanta.Grep.Spans.Painted.{painted, painted-append, painted-agree, painted-state, painted-split}
use kanta.Grep.Spans.Merged.{covers, Separated}

Separated-covers :
    (from : ℕ) (spans : List Span) (i : ℕ)
    → Separated from spans
    → i < from
    → covers spans i ≡ false
unfolding Separated covers
Separated-covers from [] i h k = refl
Separated-covers from (a ∷ spans) i h k = ground (arith, Separated-covers (suc a.stop) spans i)

IsPlain-slice : (p s : ℕ) (run : Text) → IsPlain run → IsPlain (slice p s run)
unfolding slice
IsPlain-slice p s run plain = IsPlain-take (s - p) (drop p run) (IsPlain-drop p run plain)

append-nested :
    (x m y u w t : Text) → (x ++ (m ++ (y ++ (u ++ w)))) ++ t ≡ x ++ (m ++ (y ++ (u ++ (w ++ t))))
append-nested x m y u w t = simp append_assoc

append-two {ℓ} : {A : Type ℓ} (x y z t : List A) → x ++ (y ++ (z ++ t)) ≡ (x ++ (y ++ z)) ++ t
append-two x y z t = simp append_assoc

mark_code-IsEscape : IsEscape mark_code
unfolding IsEscape escape_length
mark_code-IsEscape = (refl, refl)

unmark_code-IsEscape : IsEscape unmark_code
unfolding IsEscape escape_length
unmark_code-IsEscape = (refl, refl)

-- the matches of the text leave the state that the text begins with
abbrev pub IsQuiet : (Text → Bool → Bool) → Pieces → Type 0
IsQuiet effect (last_run run) = Unit
IsQuiet effect (run_then run match rest) = (effect match false ≡ false) × IsQuiet effect rest

-- A way to show a text on which a mark begins what its end takes back.
module _ {A : Type 0} (show : Bool → ℕ → A) (effect : Text → Bool → Bool)
    (lights : (c : ℕ) → show (effect mark_code false) c ≡ show true c)
    (ends : effect unmark_code (effect mark_code false) ≡ false) where
  map-lights : (s : Text) → map (show (effect mark_code false)) s ≡ map (show true) s
  map-lights [] = refl
  map-lights (c ∷ s) = rw (lights c) (ap (λ l. show true c ∷ l) (map-lights s))

  marked-shown :
      (s t : Text)
      → IsPlain s
      → shown show effect false (pieces (mark_code ++ (s ++ (unmark_code ++ t))))
        ≡ map (show true) s ++ shown show effect false (pieces t)
  marked-shown s t plain =
      let lit = effect mark_code false in
      let tail = unmark_code ++ t in
      shown-escape show effect false mark_code (s ++ tail) mark_code-IsEscape
      ∙ shown-plain show effect lit s tail plain
          (escape-Restarts unmark_code t unmark_code-IsEscape)
      ∙ ap (λ l. l ++ shown show effect lit (pieces tail)) (map-lights s)
      ∙ ap (λ l. map (show true) s ++ l)
          (shown-escape show effect lit unmark_code t unmark_code-IsEscape
            ∙ ap (λ state. shown show effect state (pieces t)) ends)

  plain_then_marked :
      (x y r : Text)
      → IsPlain x
      → IsPlain y
      → shown show effect false (pieces (x ++ (mark_code ++ (y ++ (unmark_code ++ r)))))
        ≡ map (show false) x ++ (map (show true) y ++ shown show effect false (pieces r))
  plain_then_marked x y r plain_x plain_y =
      let rest = y ++ (unmark_code ++ r) in
      shown-plain show effect false x (mark_code ++ rest) plain_x
        (escape-Restarts mark_code rest mark_code-IsEscape)
      ∙ ap (λ l. map (show false) x ++ l) (marked-shown y r plain_y)

  pub wrap_from-shown :
      (run tail : Text) (plain_start pos from : ℕ) (spans : List Span)
      → IsPlain run
      → Restarts tail
      → pos ≤ length run
      → pos ≤ from - plain_start
      → Separated from spans
      → shown show effect false (pieces (wrap_from run plain_start pos spans ++ tail))
        ≡ painted show (covers spans) (plain_start + pos) (drop pos run)
          ++ shown show effect false (pieces tail)
  unfolding wrap_from covers Separated
  wrap_from-shown run tail plain_start pos from [] plain restarts inside behind apart =
      shown-plain show effect false (drop pos run) tail (IsPlain-drop pos run plain) restarts
      ∙ ap (λ l. l ++ shown show effect false (pieces tail))
          (sym (
            painted-state show (covers []) false (plain_start + pos) (drop pos run)
              (λ k low high. refl)))
  wrap_from-shown run tail plain_start pos from (a ∷ spans) plain restarts inside behind apart =
      let s = a.start - plain_start in
      let e = min (a.stop - plain_start) (length run) in
      if-cases
        (λ text.
          shown show effect false (pieces (text ++ tail))
          ≡ painted show (covers (a ∷ spans)) (plain_start + pos) (drop pos run)
            ++ shown show effect false (pieces tail))
        (leb e s || leb e pos)
        (λ skipped.
          wrap_from-shown run tail plain_start pos (suc a.stop) spans plain restarts inside
            (omega arith) apart.2
          ∙ ap (λ l. l ++ shown show effect false (pieces tail))
              (painted-agree show (covers spans) (covers (a ∷ spans)) (plain_start + pos)
                (drop pos run) (λ k low high. ground (arith, length-drop pos run))))
        (λ marked.
          let x = slice pos s run in
          let y = slice s e run in
          let w = wrap_from run plain_start e spans in
          let T = shown show effect false (pieces tail) in
          let after =
            wrap_from-shown run tail plain_start e (suc a.stop) spans plain restarts (omega arith)
              (omega arith) apart.2 in
          let split =
            painted-split show (covers (a ∷ spans)) (covers spans) plain_start pos s e run
              (ground arith) (ground arith) (omega arith)
              (λ k low high. ground (arith, Separated-covers (suc a.stop) spans k))
              (λ k low high. ground arith) (λ k low high. ground arith) in
          ap (λ t. shown show effect false (pieces t))
            (append-nested x mark_code y unmark_code w tail)
          ∙ plain_then_marked x y (w ++ tail) (IsPlain-slice pos s run plain)
              (IsPlain-slice s e run plain)
          ∙ ap (λ l. map (show false) x ++ (map (show true) y ++ l)) after
          ∙ append-two (map (show false) x) (map (show true) y)
              (painted show (covers spans) (plain_start + e) (drop e run)) T
          ∙ ap (λ l. l ++ T) (sym split))

  wrap_run-shown :
      (run tail : Text) (i : ℕ) (spans : List Span)
      → IsPlain run
      → Restarts tail
      → Separated 0 spans
      → shown show effect false (pieces (wrap_run run i spans ++ tail))
        ≡ painted show (covers spans) i run ++ shown show effect false (pieces tail)
  unfolding wrap_run
  wrap_run-shown [] tail i spans plain restarts apart = refl
  wrap_run-shown (c ∷ run) tail i spans plain restarts apart =
      wrap_from-shown (c ∷ run) tail i 0 0 spans plain restarts (omega arith) (omega arith) apart
      ∙ ap (λ k. painted show (covers spans) k (c ∷ run) ++ shown show effect false (pieces tail))
          (omega arith)

  pub wrap_pieces-shown :
      (p : Pieces) (i : ℕ) (spans : List Span)
      → IsDivided p
      → IsQuiet effect p
      → Separated 0 spans
      → shown show effect false (pieces (wrap_pieces p i spans))
        ≡ painted show (covers spans) i (visible p)
  unfolding wrap_pieces IsDivided kanta.Terminal.pieces_from
  wrap_pieces-shown (last_run run) i spans divided quiet apart =
      ap (λ t. shown show effect false (pieces t)) (sym (append-nil (wrap_run run i spans)))
      ∙ wrap_run-shown run [] i spans divided tt apart
      ∙ append-nil (painted show (covers spans) i run)
  wrap_pieces-shown (run_then run match rest) i spans divided quiet apart =
      let after = wrap_pieces rest (i + length run) spans in
      wrap_run-shown run (match ++ after) i spans divided.0 (escape-Restarts match after divided.1)
        apart
      ∙ ap (λ l. painted show (covers spans) i run ++ l)
          (shown-escape show effect false match after divided.1
            ∙ ap (λ state. shown show effect state (pieces after)) quiet.0
            ∙ wrap_pieces-shown rest (i + length run) spans divided.2 quiet.1 apart)
      ∙ sym (painted-append show (covers spans) i run (visible rest))

  -- a text that is not marked
  pub shown-quiet :
      (p : Pieces) (i : ℕ)
      → IsQuiet effect p
      → shown show effect false p ≡ painted show (λ k. false) i (visible p)
  shown-quiet (last_run run) i quiet =
      sym (painted-state show (λ k. false) false i run (λ k low high. refl))
  shown-quiet (run_then run match rest) i quiet =
      ap (λ state. map (show false) run ++ shown show effect state rest) quiet.0
      ∙ ap (λ l. map (show false) run ++ l) (shown-quiet rest (i + length run) quiet.1)
      ∙ ap (λ l. l ++ painted show (λ k. false) (i + length run) (visible rest))
          (sym (painted-state show (λ k. false) false i run (λ k low high. refl)))
      ∙ sym (painted-append show (λ k. false) i run (visible rest))

  pub mark_merged-shown :
      (styled : Text) (spans : List Span)
      → IsQuiet effect (pieces styled)
      → Separated 0 spans
      → shown show effect false (pieces (mark_merged styled spans))
        ≡ painted show (covers spans) 0 (strip_ansi styled)
  unfolding mark_merged covers strip_ansi
  mark_merged-shown styled [] quiet apart = shown-quiet (pieces styled) 0 quiet
  mark_merged-shown styled (a ∷ spans) quiet apart =
      wrap_pieces-shown (pieces styled) 0 (a ∷ spans) (pieces_from-IsDivided zero styled) quiet
        apart
