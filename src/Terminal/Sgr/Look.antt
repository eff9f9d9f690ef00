-- ===== src/Terminal/Sgr/Look.antt =====
-- What a terminal makes of the parameters that tty.py writes.
use kanta.Base.{
  ℕ, zero, suc, Bool, true, false, not, ◌&&◌, ◌||◌, Option, none, some, List, [], ◌∷◌, ◌++◌,
  append_assoc, ◌==◌, if◌then◌else◌, ◌≡◌, refl, sym, ap, ◌∙◌, ◌↔◌, Option-cases, Bool-cases, inl,
  inr, if-cases, &&-left, &&-right, arith,
}
use mathlib.Core.Path.{subst}
use kanta.Base.Bytes.{bytes_eq}
use kanta.Base.ParseInt.{codes}
use kanta.Terminal.{Text}
use kanta.Terminal.Sgr.{
  Class, class_eq, Group, Sgr, get, class_of, color_class, values, is_same, sgr_eq, loses_key,
  changed, if_any, is_empty, sgr_transition, Output, part, sequence,
}
use kanta.Terminal.Sgr.Settings.{
  HasUniqueClasses, class_eq-same, is_same-some, class_eq-apart, sgr_eq-get, loses-get,
}

-- the attributes of a terminal
abbrev pub Look : Type 0
Look = Class → Option Group

abbrev pub blank : Look
blank cls = none

abbrev pub look : Sgr → Look
look state cls = get cls state

unfoldable pub assign : Class → Group → Look → Look
unfolding class_eq
assign cls group T c = if class_eq cls c then some group else T c

-- how many parameters behind 38 or 48 belong to the color: an index, or three components
abbrev pub components : List Text → ℕ
components [] = 0
components (kind ∷ rest) =
    if bytes_eq kind (codes "5") then 2 else if bytes_eq kind (codes "2") then 4 else 0

-- one parameter with those behind it, and how many of them belong to it
unfoldable pub read_token : Look → Text → List Text → Look × ℕ
unfolding assign color_class class_of
read_token T token rest =
    if bytes_eq token (codes "0") then (blank, 0) else elim (color_class token) [
      | some cls ↦ (assign cls (token ∷ kanta.Base.take (components rest) rest) T, components rest)
      | none ↦ (assign (class_of token) (token ∷ []) T, 0)
    ]

unfoldable pub read_from : ℕ → Look → List Text → Look
unfolding read_token
read_from skip T [] = T
read_from (suc skip) T (token ∷ rest) = read_from skip T rest
read_from zero T (token ∷ rest) = let next = read_token T token rest in read_from next.1 next.0 rest

-- A group that a terminal reads as one setting: a token alone, or an indexed color.
pub data IsComplete (cls : Class) (group : Group) : Type 0 where
  alone :
      (t : Text)
      → bytes_eq t (codes "0") ≡ false
      → color_class t ≡ none
      → class_of t ≡ cls
      → group ≡ t ∷ []
      → IsComplete cls group
  indexed :
      (t n : Text)
      → bytes_eq t (codes "0") ≡ false
      → color_class t ≡ some cls
      → group ≡ t ∷ codes "5" ∷ n ∷ []
      → IsComplete cls group

abbrev pub AllComplete : Sgr → Type 0
AllComplete [] = Unit
AllComplete ((key, group) ∷ state) = IsComplete key group × AllComplete state

read_complete :
    (cls : Class) (group : Group) (T : Look) (rest : List Text)
    → IsComplete cls group
    → read_from 0 T (group ++ rest) ≡ read_from 0 (assign cls group T) rest
unfolding read_from read_token bytes_eq
read_complete cls group T rest (alone t not_reset no_color here is) =
    rw (is, read_from, not_reset, no_color, here) refl
read_complete cls group T rest (indexed t n not_reset color is) =
    rw (is, read_from, not_reset, color) refl

-- a setting, or the one before where there is none
abbrev pub or_before : Option Group → Option Group → Option Group
or_before none before = before
or_before (some group) before = some group

-- Where a group is not written, the terminal has it already.
AgreeOn : Look → Sgr → Sgr → Type 0
AgreeOn T current [] = Unit
AgreeOn T current ((key, group) ∷ new) =
    (is_same (get key current) group ≡ true → T key ≡ some group) × AgreeOn T current new

AgreeOn-assign :
    (T : Look) (current : Sgr) (cls : Class) (g : Group) (new : Sgr)
    → get cls new ≡ none
    → AgreeOn T current new
    → AgreeOn (assign cls g T) current new
unfolding AgreeOn get assign
AgreeOn-assign T current cls g [] h agree = tt
AgreeOn-assign T current cls g ((key, group) ∷ new) h agree = elim (Bool-cases (class_eq key cls)) [
  | inl same ↦
      let bad : some group ≡ none =
        subst (λ b. (if b then some group else get cls new) ≡ none) same h in
      cc
  | inr apart ↦ (
    λ written.
        ap (λ b. if b then some g else T key) (class_eq-apart key cls apart) ∙ agree.0 written,
    AgreeOn-assign T current cls g new
        (subst (λ b. (if b then some group else get cls new) ≡ none) apart h) agree.1,
  )
]

kept-look :
    (key c : Class) (group : Group) (found before : Option Group)
    → (key ≡ c → found ≡ none)
    → (key ≡ c → before ≡ some group)
    → or_before found before ≡ or_before (if class_eq key c then some group else found) before
kept-look key c group found before lacks has = elim (Bool-cases (class_eq key c)) [
  | inl same ↦ let e = class_eq-same key c same in rw (same, lacks e, has e) refl
  | inr apart ↦ rw apart refl
]

written-look :
    (key c : Class) (group : Group) (found before : Option Group)
    → (key ≡ c → found ≡ none)
    → or_before found (if class_eq key c then some group else before)
      ≡ or_before (if class_eq key c then some group else found) before
written-look key c group found before lacks = elim (Bool-cases (class_eq key c)) [
  | inl same ↦ rw (same, lacks (class_eq-same key c same)) refl
  | inr apart ↦ rw apart refl
]

read-changed :
    (current new : Sgr) (T : Look) (c : Class)
    → AllComplete new
    → HasUniqueClasses new
    → AgreeOn T current new
    → read_from 0 T (changed current new) c ≡ or_before (get c new) (T c)
unfolding changed AgreeOn read_from get assign
read-changed current [] T c complete unique agree = refl
read-changed current ((key, group) ∷ new) T c complete unique agree =
    if-cases (λ tokens. read_from 0 T tokens c ≡ or_before (get c ((key, group) ∷ new)) (T c))
      (is_same (get key current) group)
      (λ kept.
        read-changed current new T c complete.1 unique.1 agree.1
        ∙ kept-look key c group (get c new) (T c)
            (λ same. sym (ap (λ k. get k new) same) ∙ unique.0)
            (λ same. sym (ap T same) ∙ agree.0 kept))
      (λ written.
        ap (λ (L : Look). L c) (read_complete key group T (changed current new) complete.0)
        ∙ read-changed current new (assign key group T) c complete.1 unique.1
            (AgreeOn-assign T current key group new unique.0 agree.1)
        ∙ written-look key c group (get c new) (T c)
            (λ same. sym (ap (λ k. get k new) same) ∙ unique.0))

-- with nothing before, all that is changed is all
changed-values : (new : Sgr) → changed [] new ≡ values new
unfolding changed get
changed-values [] = refl
changed-values ((key, group) ∷ new) = ap (λ ts. group ++ ts) (changed-values new)

AgreeOn-nothing : (T : Look) (new : Sgr) → AgreeOn T [] new
unfolding AgreeOn get
AgreeOn-nothing T [] = tt
AgreeOn-nothing T ((key, group) ∷ new) = (λ h. cc, AgreeOn-nothing T new)

AgreeOn-look : (current new : Sgr) → AgreeOn (look current) current new
unfolding AgreeOn
AgreeOn-look current [] = tt
AgreeOn-look current ((key, group) ∷ new) =
    (is_same-some (get key current) group, AgreeOn-look current new)

or_before-blank : (o : Option Group) → or_before o none ≡ o
or_before-blank none = refl
or_before-blank (some g) = refl

read-values :
    (new : Sgr) → AllComplete new → HasUniqueClasses new → read_from 0 blank (values new) ≡ look new
read-values new complete unique = λ i c.
    (ap (λ ts. read_from 0 blank ts c) (sym (changed-values new))
        ∙ read-changed [] new blank c complete unique (AgreeOn-nothing blank new)
        ∙ or_before-blank (get c new))
      i

pub sgr_eq-look : (current new : Sgr) → sgr_eq current new ≡ true → look current ≡ look new
sgr_eq-look current new h = λ i c. sgr_eq-get current new c h i

-- what a list of outputs leaves
abbrev pub state_after : Look → List Output → Look
state_after T [] = T
state_after T (part t ∷ outputs) = state_after T outputs
state_after T (sequence tokens ∷ outputs) = state_after (read_from 0 T tokens) outputs

if_any-after :
    (T : Look) (tokens : List Text) → state_after T (if_any tokens) ≡ read_from 0 T tokens
unfolding read_from
if_any-after T [] = refl
if_any-after T (token ∷ tokens) = refl

or_before-get :
    (current new : Sgr) (c : Class)
    → loses_key current new ≡ false
    → or_before (get c new) (get c current) ≡ get c new
or_before-get current new c kept = elim (Option-cases (get c new)) [
  | inl lacks ↦ rw lacks (loses-get current new c kept lacks)
  | inr (g, e) ↦ rw e refl
]

pub reset-read :
    (T : Look) (tokens : List Text) → read_from 0 T (codes "0" ∷ tokens) ≡ read_from 0 blank tokens
unfolding read_from read_token bytes_eq
reset-read T tokens = refl

pub empty-look : (state : Sgr) → is_empty state ≡ true → blank ≡ look state
unfolding get
empty-look [] h = refl
empty-look (item ∷ state) h = cc

-- Let the groups of the new state be complete, one for a class. On a terminal that shows the
-- current state, the transition leaves the new one.
pub sgr_transition-look :
    (current new : Sgr)
    → AllComplete new
    → HasUniqueClasses new
    → state_after (look current) (sgr_transition current new) ≡ look new
unfolding sgr_transition read_from
sgr_transition-look current new complete unique =
    if-cases (λ outputs. state_after (look current) outputs ≡ look new) (sgr_eq current new)
      (λ same. sgr_eq-look current new same)
      (λ differ.
        if-cases (λ outputs. state_after (look current) outputs ≡ look new) (is_empty new)
          (λ empty. reset-read (look current) [] ∙ empty-look new empty)
          (λ some_new.
            if-cases (λ outputs. state_after (look current) outputs ≡ look new) (is_empty current)
              (λ empty.
                ap (λ T. read_from 0 T (values new)) (sym (empty-look current empty))
                ∙ read-values new complete unique)
              (λ some_current.
                if-cases (λ outputs. state_after (look current) outputs ≡ look new)
                  (loses_key current new)
                  (λ loses.
                    reset-read (look current) (values new) ∙ read-values new complete unique)
                  (λ kept. if_any-after (look current) (changed current new) ∙ (λ i c.
                    (read-changed current new (look current) c complete unique
                          (AgreeOn-look current new)
                        ∙ or_before-get current new c kept)
                      i)))))
