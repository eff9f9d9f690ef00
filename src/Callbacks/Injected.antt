-- ===== src/Callbacks/Injected.antt =====
-- The arguments of the callbacks that a registry has taken.
use kanta.Base.{
  Bool, true, false, ◌&&◌, Option, none, some, List, [], ◌∷◌, String, str_eq, if◌then◌else◌, ◌≡◌,
  refl, Option-cases, ◌⊎◌, inl, inr, if-cases, arith,
}
use kanta.Callbacks.{
  Named, database_error, migration_report, Annotation, plain, is_plain, dict_type, str_type,
  StateKind, state_key, state_tag, state_attribute, unwrap_optional, Kind, bootstrap, fatal_error,
  logmigr, validate, logemit, unknown, takes_data, takes_kanta, is_fatal_error, is_logmigr,
  Attribute, kanta_attribute, data_attribute, error_attribute, previous_state, current_state,
  report_attribute, InjectionContext, is_expected, is_allowed_bare, is_allowed, resolve_bare,
  resolve_annotation, build_kwargs, Injected,
}
use kanta.Callbacks.Validate.{
  has_state_key, Verdict, refused, skipped, as_path, injected, unless_required, judge_annotated,
  judge, judge_all, collect, Param, is_variadic, resolve_raw_annotation,
}

-- the attributes that an event of a kind is about, beside the two states
unfoldable pub is_about : Kind → Attribute → Bool
is_about kind previous_state = true
is_about kind current_state = true
is_about bootstrap data_attribute = true
is_about validate data_attribute = true
is_about fatal_error error_attribute = true
is_about logmigr report_attribute = true
is_about logemit attribute = false
is_about unknown attribute = false
is_about kind kanta_attribute = true
is_about kind attribute = false

takes_data-is_about : (kind : Kind) → takes_data kind ≡ true → is_about kind data_attribute ≡ true
unfolding is_about
takes_data-is_about kind h = ground arith

takes_kanta-is_about :
    (kind : Kind) → takes_kanta kind ≡ true → is_about kind kanta_attribute ≡ true
unfolding is_about
takes_kanta-is_about kind h = ground arith

is_fatal_error-is_about :
    (kind : Kind) → is_fatal_error kind ≡ true → is_about kind error_attribute ≡ true
unfolding is_about
is_fatal_error-is_about kind h = ground arith

is_logmigr-is_about : (kind : Kind) → is_logmigr kind ≡ true → is_about kind report_attribute ≡ true
unfolding is_about
is_logmigr-is_about kind h = ground arith

is_about-state : (kind : Kind) (key : StateKind) → is_about kind (state_attribute key) ≡ true
unfolding is_about
is_about-state kind key = ground arith

-- an attribute that events of the kind are about
pub data Resolves (kind : Kind) : Option Attribute → Type 0 where
  resolves :
      (attribute : Attribute) → is_about kind attribute ≡ true → Resolves kind (some attribute)

branch :
    (kind : Kind) (b : Bool) {x y : Bool} {u v : Option Attribute}
    → (x ≡ true → Resolves kind u)
    → (y ≡ true → Resolves kind v)
    → (if b then x else y) ≡ true
    → Resolves kind (if b then u else v)
branch kind true f g = f
branch kind false f g = g

-- of the result, where there is one
abbrev pub OnSome : {A : Type 0} → (A → Type 0) → Option A → Type 0
OnSome P none = Unit
OnSome P (some a) = P a

module _ (kanta_class data_type : Option Named) where
  allowed-Resolves :
      (kind : Kind) (bare : Annotation)
      → state_tag bare ≡ none
      → is_allowed_bare kanta_class data_type kind bare ≡ true
      → Resolves kind (resolve_bare kanta_class data_type bare)
  unfolding is_allowed_bare resolve_bare
  allowed-Resolves kind bare untagged h =
      branch kind (is_plain bare database_error)
        (λ x. (resolves error_attribute (is_fatal_error-is_about kind x)))
        (branch kind (is_plain bare migration_report)
          (λ x. (resolves report_attribute (is_logmigr-is_about kind x)))
          (branch kind (is_expected data_type bare)
            (λ x. (resolves data_attribute (takes_data-is_about kind x)))
            (branch kind (is_expected kanta_class bare)
              (λ x. (resolves kanta_attribute (takes_kanta-is_about kind x))) (λ x. cc))))
        (rw (untagged, is_allowed_bare) at h)

  -- A parameter that is taken for its name or for its annotation resolves.
  taken-Resolves :
      (kind : Kind) (name : String) (ann : Annotation)
      → (has_state_key name ≡ true) ⊎ (is_allowed kanta_class data_type kind ann ≡ true)
      → Resolves kind (resolve_annotation kanta_class data_type name ann)
  unfolding resolve_annotation is_allowed
  taken-Resolves kind name ann taken = elim (Option-cases (state_tag (unwrap_optional ann))) [
    | inr (tag, e) ↦
        rw (e, resolve_annotation) (resolves (state_attribute tag) (is_about-state kind tag))
    | inl untagged ↦ elim (Option-cases (state_key name)) [
      | inr (key, e) ↦
          rw (untagged, e, resolve_annotation)
            (resolves (state_attribute key) (is_about-state kind key))
      | inl unnamed ↦ elim taken [
        | inl named ↦ cc (rw (unnamed, has_state_key) at named)
        | inr allowed ↦
            rw (untagged, unnamed, resolve_annotation)
              (allowed-Resolves kind (unwrap_optional ann) untagged allowed)
      ]
    ]
  ]

  abbrev pub AllResolve : Kind → List Injected → Type 0
  AllResolve kind [] = Unit
  AllResolve kind ((name, ann) ∷ params) =
      Resolves kind (resolve_annotation kanta_class data_type name ann) × AllResolve kind params

  -- where a parameter is injected, it resolves
  abbrev Suits : Kind → String → Verdict → Type 0
  Suits kind name (injected ann) = Resolves kind (resolve_annotation kanta_class data_type name ann)
  Suits kind name verdict = Unit

  unless_required-Suits :
      (kind : Kind) (name : String) (has_default : Bool)
      → Suits kind name (unless_required has_default)
  unless_required-Suits kind name true = tt
  unless_required-Suits kind name false = tt

  judge_annotated-Suits :
      (kind : Kind) (takes_path : Bool) (name : String) (has_default : Bool) (ann : Annotation)
      → Suits kind name (judge_annotated kanta_class data_type kind takes_path name has_default ann)
  unfolding judge_annotated
  judge_annotated-Suits kind takes_path name has_default ann =
      if-cases (Suits kind name) (has_state_key name)
        (λ named. taken-Resolves kind name ann (inl named))
        (λ unnamed.
          if-cases (Suits kind name)
            (takes_path && (str_eq name "path" && is_plain (unwrap_optional ann) str_type))
            (λ path. tt)
            (λ no_path.
              if-cases (Suits kind name) (is_allowed kanta_class data_type kind ann)
                (λ allowed. taken-Resolves kind name ann (inr allowed))
                (λ refused. unless_required-Suits kind name has_default)))

  judge-Suits :
      (kind : Kind) (takes_path : Bool) (evaluate : String → Option Annotation) (param : Param)
      → Suits kind param.name (judge kanta_class data_type kind takes_path evaluate param)
  unfolding judge
  judge-Suits kind takes_path evaluate param =
      if-cases (Suits kind param.name) (is_variadic param.kind) (λ variadic. tt)
        (λ single. elim (Option-cases param.annotation) [
          | inl bare ↦ rw bare (
              if-cases (Suits kind param.name) (has_state_key param.name)
                (λ named. taken-Resolves kind param.name (plain dict_type) (inl named))
                (λ unnamed. unless_required-Suits kind param.name param.has_default))
          | inr (raw, e) ↦ rw e (elim (Option-cases (resolve_raw_annotation evaluate raw)) [
            | inl unresolved ↦ rw unresolved tt
            | inr (ann, resolved) ↦
                rw resolved (judge_annotated-Suits kind takes_path param.name param.has_default ann)
          ])
        ])

  collect-AllResolve :
      (kind : Kind) (name : String) (verdict : Verdict) (rest : Option (List Injected × Bool))
      → Suits kind name verdict
      → OnSome (λ found. AllResolve kind found.0) rest
      → OnSome (λ found. AllResolve kind found.0) (collect name verdict rest)
  collect-AllResolve kind name refused rest suits all = tt
  collect-AllResolve kind name skipped rest suits all = all
  collect-AllResolve kind name as_path none suits all = tt
  collect-AllResolve kind name as_path (some found) suits all = all
  collect-AllResolve kind name (injected ann) none suits all = tt
  collect-AllResolve kind name (injected ann) (some found) suits all = (suits, all)

  pub judge_all-AllResolve :
      (kind : Kind) (takes_path : Bool) (evaluate : String → Option Annotation)
      (params : List Param)
      → OnSome
          (λ found. AllResolve kind found.0)
          (judge_all kanta_class data_type kind takes_path evaluate params)
  unfolding judge_all
  judge_all-AllResolve kind takes_path evaluate [] = tt
  judge_all-AllResolve kind takes_path evaluate (param ∷ params) =
      collect-AllResolve kind param.name
        (judge kanta_class data_type kind takes_path evaluate param)
        (judge_all kanta_class data_type kind takes_path evaluate params)
        (judge-Suits kind takes_path evaluate param)
        (judge_all-AllResolve kind takes_path evaluate params)

  -- every argument stands under the name of its parameter, and is an attribute of the context that
  -- events of the kind are about
  abbrev pub AreFrom :
      {V : Type 0} → Kind → InjectionContext V → List Injected → List (String × Option V) → Type 0
  AreFrom kind ctx [] [] = Unit
  AreFrom kind ctx ((name, ann) ∷ params) ((key, value) ∷ kwargs) =
      (key ≡ name)
      × ((attribute : Attribute) × (is_about kind attribute ≡ true) × (value ≡ ctx attribute))
      × AreFrom kind ctx params kwargs
  AreFrom kind ctx _ _ = ⊥

  -- the arguments can be made, and are such
  abbrev pub IsInjected : {V : Type 0} → Kind → InjectionContext V → List Injected → Type 0
  IsInjected {V} kind ctx params =
      (kwargs : List (String × Option V)) × (build_kwargs kanta_class data_type params ctx
        ≡ some kwargs)
      × AreFrom kind ctx params kwargs

  Resolves-attribute :
      (kind : Kind) (found : Option Attribute)
      → Resolves kind found
      → (attribute : Attribute) × (found ≡ some attribute) × (is_about kind attribute ≡ true)
  Resolves-attribute kind found (resolves attribute about) = (attribute, refl, about)

  pub build_kwargs-IsInjected :
      {V : Type 0} (kind : Kind) (ctx : InjectionContext V) (params : List Injected)
      → AllResolve kind params
      → IsInjected kind ctx params
  unfolding build_kwargs
  build_kwargs-IsInjected kind ctx [] all = ([], refl, tt)
  build_kwargs-IsInjected kind ctx ((name, ann) ∷ params) (here, all) =
      let (attribute, found, about) =
        Resolves-attribute kind (resolve_annotation kanta_class data_type name ann) here in
      let (kwargs, built, from) = build_kwargs-IsInjected kind ctx params all in
      (
        (name, ctx attribute) ∷ kwargs,
        rw (found, built) refl,
        (refl, (attribute, about, refl), from),
      )
