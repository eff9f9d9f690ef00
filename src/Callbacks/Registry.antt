-- ===== src/Callbacks/Registry.antt =====
-- callbacks.py: the registry.
use kanta.Base.{
  Bool, true, false, not, ◌&&◌, ◌||◌, Option, none, some, ◌>>=◌, List, [], ◌∷◌, ◌++◌, String,
  if◌then◌else◌,
}
use kanta.Callbacks.{
  Named, Kind, bootstrap, fatal_error, logmigr, validate, logfmt, logemit, InjectionContext,
  Injected, build_kwargs,
}
use kanta.Callbacks.Validate.{
  Signature, validate_function, validate_logfmt_function, validate_logfmt_class,
}

-- what `inspect` says of a callback
pub record Callback : Type 0 where
  pub is_class : Bool
  pub is_callable : Bool
  pub is_async : Bool
  pub signature : Signature
  pub is_log_fmt : Bool
  pub init_is_async : Bool
  pub init : Signature
  pub resolve : Signature

-- `_CallbackRegistration`
pub record Registration : Type 0 where
  pub callback : Callback
  pub params : List Injected
  pub is_async : Bool

-- `_LogFmtFunctionSpec` and `_LogFmtClassSpec`
pub data LogFmtSpec : Type 0 where
  function_spec : Callback → Bool → Bool → List Injected → Option String → LogFmtSpec
  class_spec : Callback → List Injected → Option String → LogFmtSpec

abbrev pub inject_params : LogFmtSpec → List Injected
inject_params (function_spec callback value_is_str has_path params path) = params
inject_params (class_spec callback params path) = params

-- `CallbackRegistry`, with a list for each kind
pub record CallbackRegistry : Type 0 where
  pub callbacks : Kind → List Registration
  pub logfmt_callbacks : List LogFmtSpec
  pub logemit_callbacks : List Callback

-- `__init__`
abbrev pub new_registry : CallbackRegistry
new_registry = record { callbacks = λ kind. []; logfmt_callbacks = []; logemit_callbacks = [] }

abbrev pub is_kind : Kind → Kind → Bool
is_kind bootstrap bootstrap = true
is_kind fatal_error fatal_error = true
is_kind logmigr logmigr = true
is_kind validate validate = true
is_kind kind other_kind = false

-- kind in self._callbacks
abbrev pub is_known : Kind → Bool
is_known kind = is_kind kind kind

abbrev pub is_validate : Kind → Bool
is_validate kind = is_kind kind validate

-- self._callbacks[kind].append(registration)
abbrev pub append_callback : CallbackRegistry → Kind → Registration → CallbackRegistry
append_callback self kind registration = record self {
  callbacks = λ other_kind.
      if is_kind kind other_kind
      then self.callbacks other_kind ++ registration ∷ []
      else self.callbacks other_kind;
}

abbrev pub append_logfmt : CallbackRegistry → LogFmtSpec → CallbackRegistry
append_logfmt self spec = record self { logfmt_callbacks = self.logfmt_callbacks ++ spec ∷ [] }

module _ (kanta_class data_type : Option Named) where
  -- the spec of a formatter, which is a class or a function
  unfoldable pub logfmt_spec : Callback → Option String → Option LogFmtSpec
  unfolding validate_logfmt_function validate_logfmt_class
  logfmt_spec callback path =
      if callback.is_class
      then if callback.is_log_fmt
        then if callback.init_is_async
          then none
          else validate_logfmt_class kanta_class data_type callback.init callback.resolve
            >>= (λ params. some (class_spec callback params path))
        else none
      else if callback.is_async
      then none
      else do
        found ← validate_logfmt_function kanta_class data_type callback.signature
        some (function_spec callback found.0 found.1.1 found.1.0 path)

  -- the registration of the other kinds
  unfoldable pub registration_of : Kind → Callback → Option Registration
  unfolding validate_function
  registration_of kind callback =
      if callback.is_class
      then none
      else if not callback.is_callable
      then none
      else if is_validate kind && callback.is_async
      then none
      else do
        params ← validate_function kanta_class data_type callback.signature kind
        some (record { callback = callback; params = params; is_async = callback.is_async })

  -- `register`; `none` is a TypeError or a ValueError
  unfoldable pub register :
      CallbackRegistry → Kind → Callback → Option String → Option CallbackRegistry
  unfolding logfmt_spec registration_of
  register self logfmt callback path = do
    spec ← logfmt_spec callback path
    some (append_logfmt self spec)
  register self logemit callback path =
      if callback.is_class || not callback.is_callable
      then none
      else if callback.is_async
      then none
      else some (record self { logemit_callbacks = self.logemit_callbacks ++ callback ∷ [] })
  register self kind callback path =
      if is_known kind
      then registration_of kind callback
        >>= (λ registration. some (append_callback self kind registration))
      else none

-- what a callback does with its arguments; `none` is an exception
module _ {V : Type 0} (kanta_class data_type : Option Named)
    (run : Callback → List (String × Option V) → Option V) where
  -- one callback of `invoke`
  unfoldable pub invoke_one : InjectionContext V → Registration → Option V
  unfolding build_kwargs
  invoke_one ctx reg = do
    kwargs ← build_kwargs kanta_class data_type reg.params ctx
    run reg.callback kwargs

  -- the loop of `invoke`; `on_error` says whether to go on, and `none` is what it raises without
  -- one
  unfoldable pub invoke_all :
      Option (Callback → Bool) → InjectionContext V → List Registration → Option (List V)
  unfolding invoke_one
  invoke_all on_error ctx [] = some []
  invoke_all on_error ctx (reg ∷ regs) =
      let rest = invoke_all on_error ctx regs in
      elim (invoke_one ctx reg) [
        | some result ↦ rest >>= λ results. some (result ∷ results)
        | none ↦ elim on_error [
          | none ↦ none
          | some goes_on ↦ if goes_on reg.callback then rest else some []
        ]
      ]

  -- `invoke`
  unfoldable pub invoke :
      CallbackRegistry → Kind → InjectionContext V → Option (Callback → Bool) → Option (List V)
  unfolding invoke_all
  invoke self kind ctx on_error = invoke_all on_error ctx (self.callbacks kind)

  -- the loop of `invoke_sync`
  unfoldable pub run_sync : InjectionContext V → List Registration → Option (Unit {0})
  unfolding invoke_one
  run_sync ctx [] = some tt
  run_sync ctx (reg ∷ regs) = do result ← invoke_one ctx reg; run_sync ctx regs

  -- `invoke_sync`
  unfoldable pub invoke_sync : CallbackRegistry → Kind → InjectionContext V → Option (Unit {0})
  unfolding run_sync
  invoke_sync self kind ctx = run_sync ctx (self.callbacks kind)

abbrev pub any_of {ℓ} : {A : Type ℓ} → List A → Bool
any_of [] = false
any_of (a ∷ l) = true

-- `has`
unfoldable pub has : CallbackRegistry → Kind → Bool
has self logfmt = any_of self.logfmt_callbacks
has self logemit = any_of self.logemit_callbacks
has self kind = any_of (self.callbacks kind)
