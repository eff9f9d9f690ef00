-- ===== src/Callbacks.antt =====
-- callbacks.py: annotations, and the arguments that they stand for.
pub mod Validate
pub mod Registry
pub mod Injected
pub mod Registered
pub mod Formats
use kanta.Base.{
  Bool, true, false, not, Option, none, some, ◌>>=◌, List, [], ◌∷◌, String, str_eq, ℕ, ◌==◌,
  if◌then◌else◌,
}

-- what `is` compares: the types that the source names, and those of the program
pub data Named : Type 0 where
  dict_type str_type none_type any_type database_error migration_report : Named
  program_type : ℕ → Named

unfoldable pub is_named : Named → Named → Bool
is_named dict_type dict_type = true
is_named str_type str_type = true
is_named none_type none_type = true
is_named any_type any_type = true
is_named database_error database_error = true
is_named migration_report migration_report = true
is_named (program_type a) (program_type b) = a == b
is_named _ _ = false

mutual
  -- `Annotated[…]` with its metadata, and unions; other forms are `plain`
  pub data Annotation : Type 0 where
    plain : Named → Annotation
    annotated : Annotation → List String → Annotation
    union : Annotations → Annotation

  pub data Annotations : Type 0 where
    nil : Annotations
    cons : Annotation → Annotations → Annotations

-- ann is t
unfoldable pub is_plain : Annotation → Named → Bool
unfolding is_named
is_plain (plain t) u = is_named t u
is_plain _ u = false

pub data StateKind : Type 0 where
  prev state : StateKind

-- `_state_key`
unfoldable pub state_key : String → Option StateKind
state_key text =
    if str_eq text "prev" then some prev else if str_eq text "state" then some state else none

unfoldable pub first_key : List String → Option StateKind
unfolding state_key
first_key [] = none
first_key (meta ∷ metas) = elim (state_key meta) [ some key ↦ some key | none ↦ first_key metas ]

-- `_state_tag`
unfoldable pub state_tag : Annotation → Option StateKind
unfolding is_plain first_key
state_tag (annotated ann metas) = if is_plain ann dict_type then first_key metas else none
state_tag _ = none

unfoldable pub without_none : Annotations → List Annotation
unfolding is_plain
without_none nil = []
without_none (cons arg args) =
    let rest = without_none args in if is_plain arg none_type then rest else arg ∷ rest

abbrev pub only_or : Annotation → List Annotation → Annotation
only_or ann (arg ∷ []) = arg
only_or ann _ = ann

-- `_unwrap_optional`
unfoldable pub unwrap_optional : Annotation → Annotation
unfolding without_none
unwrap_optional (union args) = only_or (union args) (without_none args)
unwrap_optional ann = ann

abbrev pub has_none : Annotations → Bool
has_none nil = false
has_none (cons arg args) = if is_plain arg none_type then true else has_none args

abbrev pub has_str : Annotations → Bool
has_str nil = false
has_str (cons arg args) = if is_plain arg str_type then true else has_str args

-- `_is_optional_str`
unfoldable pub is_optional_str : Annotation → Bool
unfolding is_plain
is_optional_str (union args) = if has_none args then has_str args else false
is_optional_str ann = is_plain ann str_type

-- an argument of `register`; a text that is none of these is unknown
pub data Kind : Type 0 where
  bootstrap fatal_error logmigr validate logfmt logemit unknown : Kind

-- the attributes of an `InjectionContext`
pub data Attribute : Type 0 where
  kanta_attribute data_attribute error_attribute previous_state current_state report_attribute :
      Attribute

-- an attribute that is not set is None
abbrev pub InjectionContext : Type 0 → Type 0
InjectionContext V = Attribute → Option V

-- `_STATE_KINDS`
abbrev pub state_attribute : StateKind → Attribute
state_attribute prev = previous_state
state_attribute state = current_state

abbrev pub is_logfmt : Kind → Bool
is_logfmt logfmt = true
is_logfmt kind = false

abbrev pub is_fatal_error : Kind → Bool
is_fatal_error fatal_error = true
is_fatal_error kind = false

abbrev pub is_logmigr : Kind → Bool
is_logmigr logmigr = true
is_logmigr kind = false

-- the kinds that the root object is injected into
abbrev pub takes_data : Kind → Bool
takes_data bootstrap = true
takes_data validate = true
takes_data kind = false

-- the kinds that the `Kanta` instance is injected into
abbrev pub takes_kanta : Kind → Bool
takes_kanta logemit = false
takes_kanta unknown = false
takes_kanta kind = true

-- `expected is not None and bare is expected`
abbrev pub is_expected : Option Named → Annotation → Bool
is_expected none bare = false
is_expected (some expected) bare = is_plain bare expected

-- a parameter with its annotation
abbrev pub Injected : Type 0
Injected = String × Annotation

module _ (kanta_class data_type : Option Named) where
  -- `_is_allowed`, of the unwrapped annotation
  unfoldable pub is_allowed_bare : Kind → Annotation → Bool
  unfolding state_tag is_plain
  is_allowed_bare kind bare = elim (state_tag bare) [
    | some tag ↦ is_logfmt kind
    | none ↦
        if is_plain bare database_error
        then is_fatal_error kind
        else if is_plain bare migration_report
        then is_logmigr kind
        else if is_expected data_type bare
        then takes_data kind
        else if is_expected kanta_class bare
        then takes_kanta kind
        else false
  ]

  -- `_is_allowed`
  unfoldable pub is_allowed : Kind → Annotation → Bool
  unfolding is_allowed_bare unwrap_optional
  is_allowed kind ann = is_allowed_bare kind (unwrap_optional ann)

  -- `_resolve_annotation`, behind the tag and the name
  unfoldable pub resolve_bare : Annotation → Option Attribute
  unfolding is_plain
  resolve_bare bare =
      if is_plain bare database_error
      then some error_attribute
      else if is_plain bare migration_report
      then some report_attribute
      else if is_expected data_type bare
      then some data_attribute
      else if is_expected kanta_class bare
      then some kanta_attribute
      else none

  -- `_resolve_annotation`, as the attribute that it reads; `none` is _UNRESOLVED
  unfoldable pub resolve_annotation : String → Annotation → Option Attribute
  unfolding resolve_bare state_key state_tag unwrap_optional
  resolve_annotation name ann = elim (state_tag (unwrap_optional ann)) [
    | some tag ↦ some (state_attribute tag)
    | none ↦ elim (state_key name) [
      | some key ↦ some (state_attribute key)
      | none ↦ resolve_bare (unwrap_optional ann)
    ]
  ]

  -- `_build_kwargs`; `none` is the RuntimeError
  unfoldable pub build_kwargs :
      {V : Type 0} → List Injected → InjectionContext V → Option (List (String × Option V))
  unfolding resolve_annotation
  build_kwargs [] ctx = some []
  build_kwargs ((name, ann) ∷ params) ctx = do
    attribute ← resolve_annotation name ann
    kwargs ← build_kwargs params ctx
    some ((name, ctx attribute) ∷ kwargs)
