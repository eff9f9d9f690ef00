-- ===== src/Terminal/Sgr/Settings.antt =====
-- The settings of an SGR state: what its lookup finds.
use kanta.Base.{
  Bool, true, false, Option, none, some, [], ◌∷◌, if◌then◌else◌, ◌≡◌, refl, sym, ap, ◌∙◌,
  Option-cases, Bool-cases, inl, inr, &&-left, &&-right,
}
use mathlib.Core.Path.{subst}
use kanta.Base.Bytes.{bytes_eq, bytes_eq_iff}
use kanta.Terminal.Sgr.{
  Class, foreground, background, attribute, other, class_eq, Group, Sgr, get, group_eq, is_same,
  within, sgr_eq, loses_key,
}

abbrev pub HasUniqueClasses : Sgr → Type 0
HasUniqueClasses [] = Unit
HasUniqueClasses ((key, group) ∷ state) = (get key state ≡ none) × HasUniqueClasses state

pub class_eq-same : (a b : Class) → class_eq a b ≡ true → a ≡ b
unfolding class_eq
class_eq-same foreground foreground h = refl
class_eq-same background background h = refl
class_eq-same (attribute t) (attribute u) h = ap attribute ((bytes_eq_iff t u).0 h)
class_eq-same (other t) (other u) h = ap other ((bytes_eq_iff t u).0 h)
class_eq-same foreground background h = cc
class_eq-same foreground (attribute u) h = cc
class_eq-same foreground (other u) h = cc
class_eq-same background foreground h = cc
class_eq-same background (attribute u) h = cc
class_eq-same background (other u) h = cc
class_eq-same (attribute t) foreground h = cc
class_eq-same (attribute t) background h = cc
class_eq-same (attribute t) (other u) h = cc
class_eq-same (other t) foreground h = cc
class_eq-same (other t) background h = cc
class_eq-same (other t) (attribute u) h = cc

pub class_eq_refl : (a : Class) → class_eq a a ≡ true
unfolding class_eq
class_eq_refl foreground = refl
class_eq_refl background = refl
class_eq_refl (attribute t) = (bytes_eq_iff t t).1 refl
class_eq_refl (other t) = (bytes_eq_iff t t).1 refl

group_eq-same : (a b : Group) → group_eq a b ≡ true → a ≡ b
unfolding group_eq
group_eq-same [] [] h = refl
group_eq-same [] (u ∷ us) h = cc
group_eq-same (t ∷ ts) [] h = cc
group_eq-same (t ∷ ts) (u ∷ us) h =
    let heads = (bytes_eq_iff t u).0 (&&-left (bytes_eq t u) (group_eq ts us) h) in
    let tails = group_eq-same ts us (&&-right (bytes_eq t u) (group_eq ts us) h) in
    ap (λ x. x ∷ ts) heads ∙ ap (λ xs. u ∷ xs) tails

pub is_same-some : (o : Option Group) (g : Group) → is_same o g ≡ true → o ≡ some g
is_same-some none g h = cc
is_same-some (some f) g h = ap some (group_eq-same f g h)

pub class_eq-apart : (a b : Class) → class_eq a b ≡ false → class_eq b a ≡ false
class_eq-apart a b h = elim (Bool-cases (class_eq b a)) [
  | inr apart ↦ apart
  | inl same ↦
      let e : class_eq a b ≡ true =
        subst (λ x. class_eq a x ≡ true) (sym (class_eq-same b a same)) (class_eq_refl a) in
      cc
]

within-get :
    (items state : Sgr) (c : Class) (g : Group)
    → within items state ≡ true
    → get c items ≡ some g
    → get c state ≡ some g
unfolding within get
within-get [] state c g h found = cc
within-get ((key, group) ∷ items) state c g h found = elim (Bool-cases (class_eq key c)) [
  | inl same ↦
      let e = class_eq-same key c same in
      let this : some group ≡ some g =
        subst (λ b. (if b then some group else get c items) ≡ some g) same found in
      sym (ap (λ k. get k state) e)
      ∙ is_same-some (get key state) group
          (&&-left (is_same (get key state) group) (within items state) h)
      ∙ this
  | inr apart ↦
      within-get items state c g (&&-right (is_same (get key state) group) (within items state) h)
        (subst (λ b. (if b then some group else get c items) ≡ some g) apart found)
]

pub sgr_eq-get :
    (current new : Sgr) (c : Class) → sgr_eq current new ≡ true → get c current ≡ get c new
sgr_eq-get current new c h =
    let forth = &&-left (within current new) (within new current) h in
    let back = &&-right (within current new) (within new current) h in
    elim (Option-cases (get c current)) [
      | inr (g, e) ↦ e ∙ sym (within-get current new c g forth e)
      | inl none_here ↦ elim (Option-cases (get c new)) [
        | inl none_there ↦ none_here ∙ sym none_there
        | inr (g, e) ↦ within-get new current c g back e ∙ sym e
      ]
    ]

pub loses-get :
    (current new : Sgr) (c : Class)
    → loses_key current new ≡ false
    → get c new ≡ none
    → get c current ≡ none
unfolding loses_key get
loses-get [] new c h lacks = refl
loses-get ((key, group) ∷ current) new c h lacks = elim (Option-cases (get key new)) [
  | inl lost ↦
      let bad : true ≡ false =
        subst
          (λ o. (elim o as (λ x. Bool) [ none ↦ true | some kept ↦ loses_key current new ]) ≡ false)
          lost h in
      cc
  | inr (kept, e) ↦
      let rest : loses_key current new ≡ false =
        subst
          (λ o. (elim o as (λ x. Bool) [ none ↦ true | some kept ↦ loses_key current new ]) ≡ false)
          e h in
      elim (Bool-cases (class_eq key c)) [
        | inl same ↦
            let bad : some kept ≡ none =
              sym e ∙ ap (λ k. get k new) (class_eq-same key c same) ∙ lacks in
            cc
        | inr apart ↦ rw apart (loses-get current new c rest lacks)
      ]
]
