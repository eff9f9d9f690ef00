-- ===== src/Grep/Patterns/Window.antt =====
-- The window of a path that a dotted term matches.
use kanta.Base.{
  ℕ, zero, suc, ◌+◌, ◌<◌, Bool, true, false, Option, none, some, List, [], ◌∷◌, length, drop, ◌≡◌,
  ap, ◌∙◌, if-cases, arith,
}
use kanta.Terminal.{Text}
use kanta.Grep.Patterns.{match_path, match_from, window_matches, range_from, split_term}

-- the first window of a path that the patterns match, if one does
abbrev pub IsFirst : (List Text → Bool) → ℕ → ℕ → List Text → Option (List ℕ) → Type 0
IsFirst window start n path none = (j : ℕ) → j < length path → window (drop j path) ≡ false
IsFirst window start n path (some indices) =
    (k : ℕ) × (indices ≡ range_from (start + k) n)
    × (window (drop k path) ≡ true)
    × ((j : ℕ) → j < k → window (drop j path) ≡ false)

at_or_after :
    (window : List Text → Bool) (element : Text) (path : List Text) (n : ℕ)
    → window (element ∷ path) ≡ false
    → ((j : ℕ) → j < n → window (drop j path) ≡ false)
    → (j : ℕ) → j < suc n
    → window (drop j (element ∷ path)) ≡ false
at_or_after window element path n here after zero h = here
at_or_after window element path n here after (suc j) h = after j (omega arith)

IsFirst-next :
    (window : List Text → Bool) (start n : ℕ) (element : Text) (path : List Text)
    (found : Option (List ℕ))
    → window (element ∷ path) ≡ false
    → IsFirst window (suc start) n path found
    → IsFirst window start n (element ∷ path) found
IsFirst-next window start n element path none here after =
    at_or_after window element path (length path) here after
IsFirst-next window start n element path (some indices) here (k, same, found, before) = (
  suc k,
  same ∙ ap (λ i. range_from i n) (omega arith),
  found,
  at_or_after window element path k here before,
)

module _ (casefold : Text → Text) (fnmatchcase : Text → Text → Bool) where
  match_from-IsFirst :
      (start : ℕ) (patterns path : List Text)
      → IsFirst
          (window_matches casefold fnmatchcase patterns)
          start
          (length patterns)
          path
          (match_from casefold fnmatchcase start patterns path)
  unfolding match_from
  match_from-IsFirst start patterns [] = λ j h. absurd (omega arith)
  match_from-IsFirst start patterns (element ∷ path) =
      let window = window_matches casefold fnmatchcase patterns in
      if-cases (IsFirst window start (length patterns) (element ∷ path)) (window (element ∷ path))
        (λ here. (
          0,
          ap (λ i. range_from i (length patterns)) (omega arith),
          here,
          λ j h. absurd (omega arith),
        ))
        (λ other.
          IsFirst-next window start (length patterns) element path _ other
            (match_from-IsFirst (suc start) patterns path))

  -- A dotted term matches a path where its parts match, element by element, a window of the path:
  -- the indices are those of the first such window, and without one there is no match. (An empty
  -- term matches every path, and no index.)
  pub match_path-IsFirst :
      (c : ℕ) (term : Text) (path : List Text)
      → IsFirst
          (window_matches casefold fnmatchcase (split_term (c ∷ term)))
          0
          (length (split_term (c ∷ term)))
          path
          (match_path casefold fnmatchcase (c ∷ term) path)
  unfolding match_path
  match_path-IsFirst c term path = match_from-IsFirst 0 (split_term (c ∷ term)) path
