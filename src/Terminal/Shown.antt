-- ===== src/Terminal/Shown.antt =====
-- What a terminal shows of a text: each character that is visible, with a state that the escape
-- sequences before it have left.
use kanta.Base.{ℕ, List, [], ◌∷◌, ◌++◌, map, ◌≡◌, refl, ap, ◌∙◌}
use kanta.Terminal.{Text, Pieces, last_run, run_then, add, pieces}
use kanta.Terminal.Escapes.{IsPlain, Restarts, add_all, pieces-plain}
use kanta.Terminal.Divided.{IsEscape, pieces-escape}

module _ {State A : Type 0} (show : State → ℕ → A) (effect : Text → State → State) where
  abbrev pub shown : State → Pieces → List A
  shown state (last_run run) = map (show state) run
  shown state (run_then run match rest) = map (show state) run ++ shown (effect match state) rest

  add-shown :
      (state : State) (c : ℕ) (p : Pieces) → shown state (add c p) ≡ show state c ∷ shown state p
  add-shown state c (last_run run) = refl
  add-shown state c (run_then run match rest) = refl

  add_all-shown :
      (state : State) (s : Text) (p : Pieces)
      → shown state (add_all s p) ≡ map (show state) s ++ shown state p
  add_all-shown state [] p = refl
  add_all-shown state (c ∷ s) p =
      add-shown state c (add_all s p) ∙ ap (λ t. show state c ∷ t) (add_all-shown state s p)

  pub shown-plain :
      (state : State) (s t : Text)
      → IsPlain s
      → Restarts t
      → shown state (pieces (s ++ t)) ≡ map (show state) s ++ shown state (pieces t)
  shown-plain state s t h r =
      ap (shown state) (pieces-plain s t h r) ∙ add_all-shown state s (pieces t)

  pub shown-escape :
      (state : State) (match t : Text)
      → IsEscape match
      → shown state (pieces (match ++ t)) ≡ shown (effect match state) (pieces t)
  shown-escape state match t h = ap (shown state) (pieces-escape match t h)
