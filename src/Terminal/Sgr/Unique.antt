-- ===== src/Terminal/Sgr/Unique.antt =====
-- A state that is parsed has each class once.
use kanta.Base.{
  ℕ, zero, suc, take, false, List, [], ◌∷◌, ◌≡◌, refl, none, some, if◌then◌else◌, if-cases,
  Bool-cases, inl, inr, Option-cases,
}
use mathlib.Core.Path.{subst}
use kanta.Base.Bytes.{bytes_eq}
use kanta.Base.ParseInt.{codes}
use kanta.Terminal.{Text}
use kanta.Terminal.Sgr.{
  Class, Group, Sgr, get, put, class_eq, parse_sgr, parse_from, parse_token, color_class, class_of,
  color_length,
}
use kanta.Terminal.Sgr.Settings.{HasUniqueClasses, class_eq-apart}

lacks-cons :
    (key other_key : Class) (old : Group) (state : Sgr)
    → get key ((other_key, old) ∷ state) ≡ none
    → (class_eq other_key key ≡ false) × (get key state ≡ none)
unfolding get
lacks-cons key other_key old state lacks = elim (Bool-cases (class_eq other_key key)) [
  | inl same ↦
      let bad : some old ≡ none =
        subst (λ b. (if b then some old else get key state) ≡ none) same lacks in
      cc
  | inr apart ↦ (apart, subst (λ b. (if b then some old else get key state) ≡ none) apart lacks)
]

put-get :
    (cls key : Class) (group : Group) (state : Sgr)
    → class_eq key cls ≡ false
    → get key state ≡ none
    → get key (put cls group state) ≡ none
unfolding put get
put-get cls key group [] h lacks = rw (class_eq-apart key cls h) refl
put-get cls key group ((other_key, old) ∷ state) h lacks =
    let (apart, rest) = lacks-cons key other_key old state lacks in
    if-cases (λ (s : Sgr). get key s ≡ none) (class_eq other_key cls) (λ same. rw apart rest)
      (λ differ. rw apart (put-get cls key group state h rest))

put-HasUniqueClasses :
    (cls : Class) (group : Group) (state : Sgr)
    → HasUniqueClasses state
    → HasUniqueClasses (put cls group state)
unfolding put get
put-HasUniqueClasses cls group [] unique = (refl, tt)
put-HasUniqueClasses cls group ((key, old) ∷ state) unique =
    if-cases HasUniqueClasses (class_eq key cls) (λ same. unique)
      (λ apart.
        (put-get cls key group state apart unique.0, put-HasUniqueClasses cls group state unique.1))

parse_token-HasUniqueClasses :
    (state : Sgr) (token : Text) (rest : List Text)
    → HasUniqueClasses state
    → HasUniqueClasses (parse_token state token rest).0
unfolding parse_token
parse_token-HasUniqueClasses state token rest unique =
    if-cases (λ (next : Sgr × ℕ). HasUniqueClasses next.0) (bytes_eq token (codes "0"))
      (λ reset. tt)
      (λ other. elim (Option-cases (color_class token)) [
        | inl plain ↦ rw plain (put-HasUniqueClasses (class_of token) (token ∷ []) state unique)
        | inr (cls, e) ↦
            rw e (put-HasUniqueClasses cls (token ∷ take (color_length rest) rest) state unique)
      ])

parse_from-HasUniqueClasses :
    (skip : ℕ) (state : Sgr) (tokens : List Text)
    → HasUniqueClasses state
    → HasUniqueClasses (parse_from skip state tokens)
unfolding parse_from
parse_from-HasUniqueClasses skip state [] unique = unique
parse_from-HasUniqueClasses (suc skip) state (token ∷ rest) unique =
    parse_from-HasUniqueClasses skip state rest unique
parse_from-HasUniqueClasses zero state (token ∷ rest) unique =
    let next = parse_token state token rest in
    parse_from-HasUniqueClasses next.1 next.0 rest
      (parse_token-HasUniqueClasses state token rest unique)

pub parse_sgr-HasUniqueClasses : (tokens : List Text) → HasUniqueClasses (parse_sgr tokens)
unfolding parse_sgr
parse_sgr-HasUniqueClasses tokens = parse_from-HasUniqueClasses zero [] tokens tt
