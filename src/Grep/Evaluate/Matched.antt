-- ===== src/Grep/Evaluate/Matched.antt =====
-- Which records patterns match.
use kanta.Base.{
  ℕ, Bool, true, false, ◌&&◌, ◌||◌, Option, none, some, ◌>>=◌, List, [], ◌∷◌, if◌then◌else◌, ◌≡◌,
  refl, sym, ap, ◌∙◌, Option-cases, inl, inr, arith, String,
}
use kanta.Base.ParseInt.{codes}
use kanta.Value.{text}
use kanta.Structs.{ChangeRecord}
use kanta.Terminal.{Text}
use kanta.Grep.Patterns.{
  GrepPattern, bare, sides, ValueMark, kind_of, a_str, match_path, match_value, dual_mark, RawKind,
}
use kanta.Grep.Evaluate.{
  Entry, Highlighter, Logfmt, pretty_of, either_side, both_sides, match_entry, matches_any,
  add_entries, add_if, add_user, add_header, evaluate_pattern, evaluate_all, highlight,
}

abbrev pub is_some {ℓ} : {A : Type ℓ} → Option A → Bool
is_some none = false
is_some (some a) = true

is_some-if {ℓ κ} :
    {A : Type ℓ} {B : Type κ} (b : Bool) (x : A) (f : A → Option B)
    → is_some ((if b then some x else none) >>= f) ≡ (b && is_some (f x))
is_some-if true x f = refl
is_some-if false x f = refl

or_true : (b : Bool) → true ≡ (b || true)
or_true true = refl
or_true false = refl

is_some-or {ℓ} :
    {A : Type ℓ} (o : Option A) (b : Bool)
    → (elim o [ none ↦ b | some a ↦ true ]) ≡ (is_some o || b)
is_some-or none b = refl
is_some-or (some a) b = refl

module _ (casefold : Text → Text) (fnmatchcase : Text → Text → Bool) where
  dual_mark-empty :
      (kind : RawKind) (shown : Text) (pretty : Option Text)
      → is_some (dual_mark casefold fnmatchcase [] kind shown pretty) ≡ true
  unfolding dual_mark match_value
  dual_mark-empty kind shown none = refl
  dual_mark-empty kind shown (some pretty) = refl

  module _ (logfmt : Logfmt) where
    both-left :
        (elements : Option (List ℕ)) (vmark : Option ValueMark)
        → is_some vmark ≡ true
        → is_some (both_sides elements vmark) ≡ is_some elements
    both-left none vmark h = refl
    both-left (some elements) none h = cc
    both-left (some elements) (some vmark) h = refl

    both-right :
        (elements : List ℕ) (vmark : Option ValueMark)
        → is_some (both_sides (some elements) vmark) ≡ is_some vmark
    both-right elements none = refl
    both-right elements (some vmark) = refl

    either-or :
        (elements : Option (List ℕ)) (vmark : Option ValueMark)
        → is_some (either_side elements vmark) ≡ (is_some elements || is_some vmark)
    either-or none none = refl
    either-or none (some vmark) = refl
    either-or (some elements) vmark = refl

    -- A bare pattern matches an entry exactly where the pattern with the term on the side of the
    -- path matches it, or the one with the term on the side of the value.
    pub match_entry-bare :
        (term : Text) (entry : Entry)
        → is_some (match_entry casefold fnmatchcase logfmt (bare term) entry) ≡ (
            is_some (match_entry casefold fnmatchcase logfmt (sides term []) entry)
            || is_some (match_entry casefold fnmatchcase logfmt (sides [] term) entry))
    unfolding match_entry match_path
    match_entry-bare term entry =
        let pretty = pretty_of logfmt entry.raw (kanta.Grep.Evaluate.join_path entry.path) in
        let elements = match_path casefold fnmatchcase term entry.path in
        let vmark = dual_mark casefold fnmatchcase term (kind_of entry.raw) entry.shown pretty in
        either-or elements vmark
        ∙ ap (λ b. b || is_some vmark)
            (sym (both-left elements _ (dual_mark-empty (kind_of entry.raw) entry.shown pretty)))
        ∙ ap
            (λ b.
              is_some (
                both_sides elements
                  (dual_mark casefold fnmatchcase [] (kind_of entry.raw) entry.shown pretty))
              || b)
            (sym (both-right [] vmark))

    module _ (change_record : ChangeRecord) (entries : List Entry) where
      -- whether a bare pattern matches the action or the user
      abbrev pub user_matches : Text → Option String → Bool
      user_matches term none = false
      user_matches term (some user) = elim (codes user) [
        | [] ↦ false
        | c ∷ name ↦ is_some (
            dual_mark casefold fnmatchcase term a_str (codes user)
              (pretty_of logfmt (text user) (codes "$user")))
      ]

      abbrev pub header_matches : GrepPattern → Bool
      header_matches (sides path_term value_term) = false
      header_matches (bare term) =
          is_some (match_value casefold fnmatchcase term a_str (codes change_record.a))
          || user_matches term change_record.u

      abbrev pub all_match : List GrepPattern → Bool
      all_match [] = true
      all_match (pattern ∷ patterns) =
          (header_matches pattern || matches_any casefold fnmatchcase logfmt pattern entries)
          && all_match patterns

      add_entries-matched :
          (pattern : GrepPattern) (self : Highlighter) (found : Bool) (es : List Entry)
          → (add_entries casefold fnmatchcase logfmt pattern self found es).1
            ≡ (found || matches_any casefold fnmatchcase logfmt pattern es)
      unfolding add_entries
      add_entries-matched pattern self found [] = ground arith
      add_entries-matched pattern self found (e ∷ es) =
          elim (Option-cases (match_entry casefold fnmatchcase logfmt pattern e)) [
            | inl nothing ↦
                rw (add_entries, nothing)
                  (add_entries-matched pattern self found es
                    ∙ ap (λ b. found || b)
                        (sym (
                            ap
                              (λ o. is_some o || matches_any casefold fnmatchcase logfmt pattern es)
                              nothing)
                          ∙ sym (is_some-or (match_entry casefold fnmatchcase logfmt pattern e) _)))
            | inr ((elements, vmark), this) ↦
                rw (add_entries, this)
                  (add_entries-matched pattern (highlight self e elements vmark) true es
                    ∙ or_true found
                    ∙ ap (λ b. found || b)
                        (sym (
                            ap
                              (λ o. is_some o || matches_any casefold fnmatchcase logfmt pattern es)
                              this)
                          ∙ sym (is_some-or (match_entry casefold fnmatchcase logfmt pattern e) _)))
          ]

      add_if-matched :
          (found : Highlighter × Bool) (name : Text) (mark : Option ValueMark)
          → (add_if casefold fnmatchcase logfmt found name mark).1 ≡ (found.1 || is_some mark)
      add_if-matched found name none = ground arith
      add_if-matched found name (some mark) = or_true found.1

      or_false : (b : Bool) → b ≡ (b || false)
      or_false true = refl
      or_false false = refl

      name-matched :
          (name : Text) (mark : Option ValueMark) (found : Highlighter × Bool)
          → (elim name as (λ x. Highlighter × Bool) [
            | [] ↦ found
            | c ∷ rest ↦ add_if casefold fnmatchcase logfmt found (codes "user") mark
          ]).1
            ≡ (found.1 || (elim name as (λ x. Bool) [ [] ↦ false | c ∷ rest ↦ is_some mark ]))
      name-matched [] mark found = or_false found.1
      name-matched (c ∷ rest) mark found = add_if-matched found (codes "user") mark

      add_user-matched :
          (term : Text) (user : Option String) (found : Highlighter × Bool)
          → (add_user casefold fnmatchcase logfmt term user found).1
            ≡ (found.1 || user_matches term user)
      add_user-matched term none found = or_false found.1
      add_user-matched term (some user) found =
          name-matched (codes user)
            (dual_mark casefold fnmatchcase term a_str (codes user)
              (pretty_of logfmt (text user) (codes "$user")))
            found

      add_header-matched :
          (pattern : GrepPattern) (self : Highlighter)
          → (add_header casefold fnmatchcase logfmt change_record pattern self).1
            ≡ header_matches pattern
      unfolding add_header
      add_header-matched (sides path_term value_term) self = refl
      add_header-matched (bare term) self =
          let action = match_value casefold fnmatchcase term a_str (codes change_record.a) in
          add_user-matched term change_record.u _
          ∙ ap (λ b. b || user_matches term change_record.u)
              (add_if-matched (self, false) (codes "action") action)

      -- Patterns select a record exactly where each one of them matches its action, its user or one
      -- of its entries, whatever the others match; only a bare pattern looks at the first two.
      pub evaluate_all-all_match :
          (patterns : List GrepPattern) (self : Highlighter)
          → is_some (evaluate_all casefold fnmatchcase logfmt change_record entries patterns self)
            ≡ all_match patterns
      unfolding evaluate_all evaluate_pattern
      evaluate_all-all_match [] self = refl
      evaluate_all-all_match (pattern ∷ patterns) self =
          let header = add_header casefold fnmatchcase logfmt change_record pattern self in
          let found = add_entries casefold fnmatchcase logfmt pattern header.0 header.1 entries in
          let later = λ (next : Highlighter).
            evaluate_all casefold fnmatchcase logfmt change_record entries patterns next in
          is_some-if found.1 found.0 later
          ∙ ap (λ b. b && is_some (later found.0))
              (add_entries-matched pattern header.0 header.1 entries
                ∙ ap (λ b. b || matches_any casefold fnmatchcase logfmt pattern entries)
                    (add_header-matched pattern self))
          ∙ ap
              (λ b.
                (header_matches pattern || matches_any casefold fnmatchcase logfmt pattern entries)
                && b)
              (evaluate_all-all_match patterns found.0)
