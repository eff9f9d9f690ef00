-- ===== src/Terminal/Sgr/Readable.antt =====
-- Specs of colors that tty.py and a terminal read alike.
use kanta.Base.{
  ℕ, Bool, true, false, none, some, List, [], ◌∷◌, ◌≡◌, refl, sym, ap, ◌∙◌, Bool-cases, inl, inr,
  if-cases,
}
use mathlib.Core.Path.{subst}
use kanta.Base.Bytes.{bytes_eq}
use kanta.Base.ParseInt.{codes}
use kanta.Terminal.{Text}
use kanta.Terminal.Sgr.{
  Class, other, class_eq, Group, Sgr, get, put, number_of, class_of, color_class, parse_token,
  parse_from, parse_sgr,
}
use kanta.Terminal.Sgr.Look.{
  Look, blank, look, assign, read_token, read_from, IsComplete, alone, indexed, AllComplete,
}
use kanta.Terminal.Sgr.Settings.{class_eq-same, class_eq-apart}

-- a color of the tables, or one of their attributes
abbrev pub is_listed : Class → Bool
is_listed (other t) = false
is_listed _ = true

-- The tokens of a spec: resets, colors and attributes of the tables, and colors of the 256 by their
-- number; so no color by its components.
pub data IsReadable : List Text → Type 0 where
  no_token : IsReadable []
  reset : {t : Text} {ts : List Text} → t ≡ codes "0" → IsReadable ts → IsReadable (t ∷ ts)
  lone :
      {t : Text} {ts : List Text}
      → bytes_eq t (codes "0") ≡ false
      → color_class t ≡ none
      → is_listed (class_of t) ≡ true
      → IsReadable ts
      → IsReadable (t ∷ ts)
  by_number :
      {t kind n : Text} {ts : List Text} (cls : Class) (index : ℕ)
      → bytes_eq t (codes "0") ≡ false
      → color_class t ≡ some cls
      → kind ≡ codes "5"
      → number_of n ≡ some index
      → IsReadable ts
      → IsReadable (t ∷ (kind ∷ (n ∷ ts)))

put-assign :
    (cls : Class) (group : Group) (state : Sgr) (c : Class)
    → get c (put cls group state) ≡ assign cls group (look state) c
unfolding get put assign
put-assign cls group [] c = refl
put-assign cls group ((key, old) ∷ state) c = elim (Bool-cases (class_eq key cls)) [
  | inl same ↦
      let e = class_eq-same key cls same in
      rw same (elim (Bool-cases (class_eq key c)) [
        | inl here ↦ rw (here, subst (λ k. class_eq k c ≡ true) e here) refl
        | inr there ↦ rw (there, subst (λ k. class_eq k c ≡ false) e there) refl
      ])
  | inr apart ↦ rw apart (elim (Bool-cases (class_eq key c)) [
    | inl here ↦
        let e = class_eq-same key c here in
        let c_apart = class_eq-apart c cls (subst (λ k. class_eq k cls ≡ false) e apart) in
        rw (here, c_apart) refl
    | inr there ↦ rw there (put-assign cls group state c)
  ])
]

put-AllComplete :
    (cls : Class) (group : Group) (state : Sgr)
    → IsComplete cls group
    → AllComplete state
    → AllComplete (put cls group state)
unfolding put
put-AllComplete cls group [] here all = (here, tt)
put-AllComplete cls group ((key, old) ∷ state) here all =
    if-cases AllComplete (class_eq key cls)
      (λ same. (subst (λ k. IsComplete k group) (sym (class_eq-same key cls same)) here, all.1))
      (λ apart. (all.0, put-AllComplete cls group state here all.1))

-- the state that is parsed is complete, and what a terminal makes of the tokens
Agree : Sgr → List Text → Type 0
Agree state tokens =
    AllComplete (parse_from 0 state tokens)
    × (look (parse_from 0 state tokens) ≡ read_from 0 (look state) tokens)

-- behind one setting
Agree-put :
    (cls : Class) (group : Group) (state : Sgr) (rest : List Text)
    → Agree (put cls group state) rest
    → AllComplete (parse_from 0 (put cls group state) rest)
      × (look (parse_from 0 (put cls group state) rest)
          ≡ read_from 0 (assign cls group (look state)) rest)
unfolding Agree
Agree-put cls group state rest agree = (
  agree.0,
  agree.1 ∙ ap (λ (T : Look). read_from 0 T rest) (λ i c. put-assign cls group state c i),
)

-- a color of the 256
by_number-Agree :
    (cls : Class) (t n : Text) (ts : List Text) (state : Sgr)
    → bytes_eq t (codes "0") ≡ false
    → color_class t ≡ some cls
    → AllComplete (parse_from 0 (put cls (t ∷ codes "5" ∷ n ∷ []) state) ts)
      × (look (parse_from 0 (put cls (t ∷ codes "5" ∷ n ∷ []) state) ts)
          ≡ read_from 0 (assign cls (t ∷ codes "5" ∷ n ∷ []) (look state)) ts)
    → Agree state (t ∷ codes "5" ∷ n ∷ ts)
unfolding Agree parse_from parse_token read_from read_token bytes_eq
by_number-Agree cls t n ts state not_reset color next =
    rw (Agree, parse_from, read_from, not_reset, color) next

IsReadable-Agree :
    (tokens : List Text) (state : Sgr) → IsReadable tokens → AllComplete state → Agree state tokens
unfolding Agree parse_from parse_token read_from read_token bytes_eq get
IsReadable-Agree [] state no_token all = (all, refl)
IsReadable-Agree (t ∷ ts) state (reset is rest) all = rw is (IsReadable-Agree ts [] rest tt)
IsReadable-Agree (t ∷ ts) state (lone not_reset no_color known rest) all =
    let here : IsComplete (class_of t) (t ∷ []) = alone t not_reset no_color refl refl in
    let next = put (class_of t) (t ∷ []) state in
    rw (not_reset, no_color)
      (Agree-put (class_of t) (t ∷ []) state ts
        (IsReadable-Agree ts next rest (put-AllComplete (class_of t) (t ∷ []) state here all)))
IsReadable-Agree (t ∷ (kind ∷ (n ∷ ts))) state (by_number cls index not_reset color is number rest)
      all =
    let group = t ∷ codes "5" ∷ n ∷ [] in
    let here : IsComplete cls group = indexed t n not_reset color refl in
    subst (λ k. Agree state (t ∷ k ∷ n ∷ ts)) (sym is)
      (by_number-Agree cls t n ts state not_reset color (
        Agree-put cls group state ts (
          IsReadable-Agree ts (put cls group state) rest
            (put-AllComplete cls group state here all))))

pub parse_sgr-AllComplete : (spec : List Text) → IsReadable spec → AllComplete (parse_sgr spec)
unfolding parse_sgr Agree
parse_sgr-AllComplete spec readable = (IsReadable-Agree spec [] readable tt).0

pub parse_sgr-read :
    (spec : List Text) → IsReadable spec → look (parse_sgr spec) ≡ read_from 0 blank spec
unfolding parse_sgr Agree get
parse_sgr-read spec readable = (IsReadable-Agree spec [] readable tt).1
