-- ===== src/Terminal/Divided.antt =====
-- The division of a text at its escape sequences.
use kanta.Base.{
  ℕ, zero, suc, ◌≤◌, none, some, [], ◌∷◌, ◌++◌, length, take, drop, take-append-drop, ◌≡◌, refl,
  sym, ◌∙◌, ap, arith, Option-cases, inl, inr, append-nil, take-append, length-take,
}
use mathlib.Core.Path.{subst}
use kanta.Terminal.{
  Text, escape_code, parameters_length, escape_length, Pieces, last_run, run_then, add, pieces_from,
  pieces,
}
use kanta.Terminal.Escapes.{IsPlain, Restarts, escape_length-append, escape_length-append-some}

-- the text that was divided
abbrev joined : Pieces → Text
joined (last_run run) = run
joined (run_then run match rest) = run ++ (match ++ joined rest)

-- a text that `ANSI_RE` matches in full
unfoldable pub IsEscape : Text → Type 0
IsEscape [] = ⊥
IsEscape (c ∷ s) = (c ≡ escape_code) × (escape_length c s ≡ some (length s))

unfoldable pub IsDivided : Pieces → Type 0
IsDivided (last_run run) = IsPlain run
IsDivided (run_then run match rest) = IsPlain run × IsEscape match × IsDivided rest

parameters_length-positive : (s : Text) (n : ℕ) → parameters_length s ≡ some n → 1 ≤ n
unfolding parameters_length
parameters_length-positive [] n h = cc
parameters_length-positive (c ∷ s) n h = elim (Option-cases (parameters_length s)) [
  | inl none_behind ↦ ground arith
  | inr (m, e) ↦ ground arith
]

parameters_length-take :
    (s t : Text) (n : ℕ)
    → parameters_length s ≡ some n
    → (n ≤ length s) × (parameters_length (take n s ++ t) ≡ some n)
unfolding parameters_length
parameters_length-take [] t n h = cc
parameters_length-take (c ∷ s) t zero h = ground (arith, parameters_length-positive (c ∷ s) 0 h)
parameters_length-take (c ∷ s) t (suc zero) h = elim (Option-cases (parameters_length s)) [
  | inl none_behind ↦ ground arith
  | inr (m, e) ↦ ground (arith, parameters_length-positive s m e)
]
parameters_length-take (c ∷ s) t (suc (suc n)) h = elim (Option-cases (parameters_length s)) [
  | inl none_behind ↦ ground arith
  | inr (m, e) ↦ ground (arith, parameters_length-take s t (suc n))
]

escape_length-take :
    (c : ℕ) (s t : Text) (n : ℕ)
    → escape_length c s ≡ some n
    → (n ≤ length s) × (c ≡ escape_code) × (escape_length c (take n s ++ t) ≡ some n)
unfolding escape_length
escape_length-take c [] t n h = cc
escape_length-take c (d ∷ s) t zero h = elim (Option-cases (parameters_length s)) [
  | inl none_behind ↦ ground arith
  | inr (m, e) ↦ ground arith
]
escape_length-take c (d ∷ s) t (suc n) h = elim (Option-cases (parameters_length s)) [
  | inl none_behind ↦ ground arith
  | inr (m, e) ↦ ground (arith, parameters_length-take s t n)
]

pieces_from-skip : (s t : Text) → pieces_from (length s) (s ++ t) ≡ pieces t
unfolding pieces_from
pieces_from-skip [] t = refl
pieces_from-skip (c ∷ s) t = pieces_from-skip s t

-- an escape sequence is found where it stands
pub pieces-escape :
    (match t : Text) → IsEscape match → pieces (match ++ t) ≡ run_then [] match (pieces t)
unfolding IsEscape pieces_from
pieces-escape [] t h = absurd h
pieces-escape (c ∷ s) t h =
    let long = escape_length-append-some c s t (length s) h.1 in
    rw (pieces_from, long, take-append s t, pieces_from-skip s t) refl

pub escape-Restarts : (match t : Text) → IsEscape match → Restarts (match ++ t)
unfolding IsEscape
escape-Restarts [] t h = absurd h
escape-Restarts (c ∷ s) t h = h.0

add-joined : (c : ℕ) (p : Pieces) → joined (add c p) ≡ c ∷ joined p
add-joined c (last_run run) = refl
add-joined c (run_then run match rest) = refl

joined-pieces_from : (skip : ℕ) (s : Text) → joined (pieces_from skip s) ≡ drop skip s
unfolding pieces_from
joined-pieces_from zero [] = refl
joined-pieces_from (suc skip) [] = refl
joined-pieces_from (suc skip) (c ∷ s) = joined-pieces_from skip s
joined-pieces_from zero (c ∷ s) = elim (Option-cases (escape_length c s)) [
  | inl nothing ↦
      rw (pieces_from, nothing)
        (add-joined c (pieces s) ∙ ap (λ t. c ∷ t) (joined-pieces_from zero s))
  | inr (n, e) ↦ rw (pieces_from, e, joined-pieces_from n s, take-append-drop n s) refl
]

add-IsDivided :
    (c : ℕ) (p : Pieces) → escape_length c (joined p) ≡ none → IsDivided p → IsDivided (add c p)
unfolding IsDivided
add-IsDivided c (last_run run) h d = (h, d)
add-IsDivided c (run_then run match rest) h d =
    ((escape_length-append c run (match ++ joined rest) h, d.0), d.1, d.2)

pub pieces_from-IsDivided : (skip : ℕ) (s : Text) → IsDivided (pieces_from skip s)
unfolding pieces_from IsDivided IsEscape
pieces_from-IsDivided zero [] = tt
pieces_from-IsDivided (suc skip) [] = tt
pieces_from-IsDivided (suc skip) (c ∷ s) = pieces_from-IsDivided skip s
pieces_from-IsDivided zero (c ∷ s) = elim (Option-cases (escape_length c s)) [
  | inl nothing ↦
      rw (pieces_from, nothing)
        (add-IsDivided c (pieces s) (rw (joined-pieces_from zero s) nothing)
          (pieces_from-IsDivided zero s))
  | inr (n, e) ↦
      let (short, code, whole) = escape_length-take c s [] n e in
      let here = subst (λ l. escape_length c l ≡ some n) (append-nil (take n s)) whole in
      rw (pieces_from, e)
        (tt, (code, here ∙ ap some (sym (length-take n s short))), pieces_from-IsDivided n s)
]
