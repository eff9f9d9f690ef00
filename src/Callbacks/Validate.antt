-- ===== src/Callbacks/Validate.antt =====
-- callbacks.py: the checks of a signature.
use kanta.Base.{
  Bool, true, false, ◌&&◌, Option, none, some, ◌>>=◌, ◌>>◌, List, [], ◌∷◌, String, str_eq,
  if◌then◌else◌,
}
use kanta.Callbacks.{
  Named, dict_type, str_type, any_type, Annotation, plain, is_plain, state_key, unwrap_optional,
  is_optional_str, Kind, logfmt, is_allowed, Injected,
}

pub data ParamKind : Type 0 where
  positional_only positional_or_keyword keyword_only var_positional var_keyword : ParamKind

-- an annotation as it stands: a text, or an object
pub data RawAnnotation : Type 0 where
  quoted : String → RawAnnotation
  given : Annotation → RawAnnotation

-- `inspect.Parameter`, with `none` for its `empty` annotation
pub record Param : Type 0 where
  pub name : String
  pub kind : ParamKind
  pub annotation : Option RawAnnotation
  pub has_default : Bool

-- a signature, with what `eval` makes of a text by the globals of the function
pub record Signature : Type 0 where
  pub params : List Param
  pub return_annotation : Option RawAnnotation
  pub evaluate : String → Option Annotation

abbrev pub is_variadic : ParamKind → Bool
is_variadic var_positional = true
is_variadic var_keyword = true
is_variadic kind = false

abbrev pub has_state_key : String → Bool
has_state_key name = elim (state_key name) [ some key ↦ true | none ↦ false ]

-- `_resolve_raw_annotation`
unfoldable pub resolve_raw_annotation :
    (String → Option Annotation) → RawAnnotation → Option Annotation
resolve_raw_annotation evaluate (quoted text) = evaluate text
resolve_raw_annotation evaluate (given ann) = some ann

-- what the loop over the parameters does with one of them
pub data Verdict : Type 0 where
  refused skipped as_path : Verdict
  injected : Annotation → Verdict

abbrev pub unless_required : Bool → Verdict
unless_required true = skipped
unless_required false = refused

-- the parameters so far, and whether one takes the path; `none` is a TypeError
abbrev pub collect :
    String → Verdict → Option (List Injected × Bool) → Option (List Injected × Bool)
collect name refused rest = none
collect name skipped rest = rest
collect name as_path rest = do found ← rest; some (found.0, true)
collect name (injected ann) rest = do found ← rest; some ((name, ann) ∷ found.0, found.1)

abbrev pub is_str_or_any : Annotation → Bool
is_str_or_any bare = if is_plain bare str_type then true else is_plain bare any_type

abbrev pub without_self : List Param → List Param
without_self [] = []
without_self (param ∷ params) = if str_eq param.name "self" then params else param ∷ params

-- the check of the value parameter; `value_type` is `str` where it is true, else `Any`
unfoldable pub value_type : (String → Option Annotation) → Param → Option Bool
unfolding resolve_raw_annotation is_plain unwrap_optional
value_type evaluate param = if is_variadic param.kind then none else do
  raw ← param.annotation
  ann ← resolve_raw_annotation evaluate raw
  if is_plain (unwrap_optional ann) str_type
      then some true
      else if is_plain (unwrap_optional ann) any_type
      then some false
      else none

-- a return annotation is absent or `str | None`
unfoldable pub checked_return : Signature → Option (Unit {0})
unfolding resolve_raw_annotation is_optional_str
checked_return sig = elim sig.return_annotation [
  | none ↦ some tt
  | some raw ↦ do
    ann ← resolve_raw_annotation sig.evaluate raw
    if is_optional_str ann then some tt else none
]

-- the annotation of a parameter of `resolve`, which may be absent
unfoldable pub accepts : (Annotation → Bool) → (String → Option Annotation) → Param → Option Bool
unfolding resolve_raw_annotation unwrap_optional
accepts fits evaluate param = elim param.annotation [
  | none ↦ some true
  | some raw ↦ do ann ← resolve_raw_annotation evaluate raw; some (fits (unwrap_optional ann))
]

unfoldable pub find_path : (String → Option Annotation) → List Param → Option (Unit {0})
unfolding accepts is_plain
find_path evaluate [] = none
find_path evaluate (param ∷ params) =
    let rest = find_path evaluate params in
    do
      fits ← accepts (λ bare. is_plain bare str_type) evaluate param
      if str_eq param.name "path" && fits then some tt else rest

-- the check of `resolve`
unfoldable pub checked_resolve : Signature → Option (Unit {0})
unfolding accepts find_path checked_return is_plain
checked_resolve sig = elim sig.params [
  | self_param ∷ value_param ∷ params ↦
      let checked = accepts is_str_or_any sig.evaluate value_param >>= λ fits.
      if fits then find_path sig.evaluate params >> checked_return sig else none in
      if str_eq self_param.name "self" then checked else none
  | _ ↦ none
]

module _ (kanta_class data_type : Option Named) where
  -- a parameter with an annotation; `takes_path` where the path is a parameter
  unfoldable pub judge_annotated : Kind → Bool → String → Bool → Annotation → Verdict
  unfolding state_key is_allowed is_plain unwrap_optional
  judge_annotated kind takes_path name has_default ann =
      if has_state_key name
      then injected ann
      else if takes_path && (str_eq name "path" && is_plain (unwrap_optional ann) str_type)
      then as_path
      else if is_allowed kanta_class data_type kind ann
      then injected ann
      else unless_required has_default

  -- the body of the loops
  unfoldable pub judge : Kind → Bool → (String → Option Annotation) → Param → Verdict
  unfolding judge_annotated resolve_raw_annotation
  judge kind takes_path evaluate param =
      if is_variadic param.kind then refused else elim param.annotation [
        | none ↦
            if has_state_key param.name
            then injected (plain dict_type)
            else unless_required param.has_default
        | some raw ↦ elim (resolve_raw_annotation evaluate raw) [
          | none ↦ refused
          | some ann ↦ judge_annotated kind takes_path param.name param.has_default ann
        ]
      ]

  unfoldable pub judge_all :
      Kind → Bool → (String → Option Annotation) → List Param → Option (List Injected × Bool)
  unfolding judge
  judge_all kind takes_path evaluate [] = some ([], false)
  judge_all kind takes_path evaluate (param ∷ params) =
      collect param.name (judge kind takes_path evaluate param)
        (judge_all kind takes_path evaluate params)

  -- `_validate_function`
  unfoldable pub validate_function : Signature → Kind → Option (List Injected)
  unfolding judge_all
  validate_function sig kind = do found ← judge_all kind false sig.evaluate sig.params; some found.0

  -- `_validate_logfmt_function`, of a function that is not async: whether the value is a `str`,
  -- the parameters, and whether one takes the path
  unfoldable pub validate_logfmt_function : Signature → Option (Bool × (List Injected × Bool))
  unfolding judge_all value_type checked_return
  validate_logfmt_function sig = elim sig.params [
    | [] ↦ none
    | ◌∷◌ value_param (params → rest) ↦ do
      only_str ← value_type sig.evaluate value_param
      found ← judge_all logfmt true sig.evaluate params
      done ← checked_return sig
      some (only_str, found)
  ]

  -- `_validate_logfmt_class`, of a subclass of `LogFmt`, with its `__init__` and its `resolve`
  unfoldable pub validate_logfmt_class : Signature → Signature → Option (List Injected)
  unfolding judge_all checked_resolve
  validate_logfmt_class init resolve = do
    found ← judge_all logfmt false init.evaluate (without_self init.params)
    done ← checked_resolve resolve
    some found.0
