-- ===== src/Terminal/Escapes.antt =====
-- Runs without an escape sequence.
use kanta.Base.{
  ℕ, zero, suc, none, some, [], ◌∷◌, ◌++◌, take, drop, take-append-drop, ◌≡◌, refl, ◌∙◌, ap, arith,
  Option-cases, inl, inr,
}
use kanta.Base.ParseInt.{is_digit}
use kanta.Terminal.{
  Text, escape_code, is_letter, is_parameter, parameters_length, escape_length, Pieces, last_run,
  run_then, add, pieces_from, pieces, visible, strip_ansi,
}

-- no match begins in the text
abbrev pub IsPlain : Text → Type 0
IsPlain [] = Unit
IsPlain (c ∷ s) = (escape_length c s ≡ none) × IsPlain s

-- a text that is empty or begins with the escape code
abbrev pub Restarts : Text → Type 0
Restarts [] = Unit
Restarts (c ∷ s) = c ≡ escape_code

-- what follows a match does not matter to it
parameters_length-append :
    (s t : Text) (n : ℕ) → parameters_length s ≡ some n → parameters_length (s ++ t) ≡ some n
unfolding parameters_length
parameters_length-append [] t n h = cc
parameters_length-append (c ∷ s) t n h = elim (Option-cases (parameters_length s)) [
  | inl none_behind ↦ ground arith
  | inr (m, e) ↦ ground (arith, parameters_length-append s t m e)
]

pub escape_length-append-some :
    (c : ℕ) (s t : Text) (n : ℕ) → escape_length c s ≡ some n → escape_length c (s ++ t) ≡ some n
unfolding escape_length
escape_length-append-some c [] t n h = cc
escape_length-append-some c (d ∷ s) t n h = elim (Option-cases (parameters_length s)) [
  | inl none_behind ↦ ground arith
  | inr (m, e) ↦ ground (arith, parameters_length-append s t m e)
]

pub escape_length-append :
    (c : ℕ) (s t : Text) → escape_length c (s ++ t) ≡ none → escape_length c s ≡ none
unfolding escape_length
escape_length-append c [] t h = refl
escape_length-append c (d ∷ s) t h = elim (Option-cases (parameters_length s)) [
  | inl none_behind ↦ ground arith
  | inr (m, e) ↦ ground (arith, parameters_length-append s t m e)
]

pub IsPlain-left : (s t : Text) → IsPlain (s ++ t) → IsPlain s
IsPlain-left [] t h = tt
IsPlain-left (c ∷ s) t h = (escape_length-append c s t h.0, IsPlain-left s t h.1)

pub IsPlain-drop : (n : ℕ) (s : Text) → IsPlain s → IsPlain (drop n s)
IsPlain-drop zero s h = h
IsPlain-drop (suc n) [] h = tt
IsPlain-drop (suc n) (c ∷ s) h = IsPlain-drop n s h.1

pub IsPlain-take : (n : ℕ) (s : Text) → IsPlain s → IsPlain (take n s)
IsPlain-take n s h = IsPlain-left (take n s) (drop n s) (rw (take-append-drop n s) h)

-- a restart ends what could have been a match
parameters_length-Restarts :
    (s t : Text) → Restarts t → parameters_length s ≡ none → parameters_length (s ++ t) ≡ none
unfolding parameters_length is_parameter is_letter is_digit
parameters_length-Restarts [] [] r h = refl
parameters_length-Restarts [] (c ∷ t) r h = ground arith
parameters_length-Restarts (c ∷ s) t r h = elim (Option-cases (parameters_length s)) [
  | inl none_behind ↦ ground (arith, parameters_length-Restarts s t r none_behind)
  | inr (m, e) ↦ ground arith
]

escape_length-Restarts :
    (c : ℕ) (s t : Text) → Restarts t → escape_length c s ≡ none → escape_length c (s ++ t) ≡ none
unfolding escape_length
escape_length-Restarts c [] [] r h = refl
escape_length-Restarts c [] (d ∷ t) r h = ground arith
escape_length-Restarts c (d ∷ s) t r h = elim (Option-cases (parameters_length s)) [
  | inl none_behind ↦ ground (arith, parameters_length-Restarts s t r none_behind)
  | inr (m, e) ↦ ground arith
]

-- the pieces of a plain text before a restart
abbrev pub add_all : Text → Pieces → Pieces
add_all [] p = p
add_all (c ∷ s) p = add c (add_all s p)

pub pieces-plain : (s t : Text) → IsPlain s → Restarts t → pieces (s ++ t) ≡ add_all s (pieces t)
unfolding pieces_from
pieces-plain [] t h r = refl
pieces-plain (c ∷ s) t h r =
    rw (pieces_from, escape_length-Restarts c s t r h.0) (ap (add c) (pieces-plain s t h.1 r))

add-visible : (c : ℕ) (p : Pieces) → visible (add c p) ≡ c ∷ visible p
add-visible c (last_run run) = refl
add-visible c (run_then run match rest) = refl

add_all-visible : (s : Text) (p : Pieces) → visible (add_all s p) ≡ s ++ visible p
add_all-visible [] p = refl
add_all-visible (c ∷ s) p = add-visible c (add_all s p) ∙ ap (λ t. c ∷ t) (add_all-visible s p)

pub strip_ansi-plain :
    (s t : Text) → IsPlain s → Restarts t → strip_ansi (s ++ t) ≡ s ++ strip_ansi t
unfolding strip_ansi
strip_ansi-plain s t h r = ap visible (pieces-plain s t h r) ∙ add_all-visible s (pieces t)
