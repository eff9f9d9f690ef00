-- ===== src/Callbacks/Registered.antt =====
-- What a registry has taken, whatever was registered.
use kanta.Base.{
  Bool, true, false, not, ◌&&◌, ◌||◌, Option, none, some, ◌>>=◌, List, [], ◌∷◌, ◌++◌, String, ◌≡◌,
  refl, ◌⊎◌, inl, inr, if-cases, if-holds, arith,
}
use mathlib.Core.Path.{subst}
use kanta.Callbacks.{
  Named, Kind, bootstrap, fatal_error, logmigr, validate, logfmt, logemit, unknown,
  InjectionContext, Injected, Annotation,
}
use kanta.Callbacks.Validate.{
  Signature, Param, value_type, checked_return, checked_resolve, judge_all, validate_function,
  validate_logfmt_function, validate_logfmt_class, without_self,
}
use kanta.Callbacks.Registry.{
  Callback, Registration, LogFmtSpec, function_spec, class_spec, inject_params, CallbackRegistry,
  new_registry, is_kind, is_validate, append_callback, append_logfmt, logfmt_spec, registration_of,
  register,
}
use kanta.Callbacks.Injected.{
  OnSome, AllResolve, judge_all-AllResolve, IsInjected, build_kwargs-IsInjected,
}

OnSome-bind :
    {A B : Type 0} (P : A → Type 0) (Q : B → Type 0) (m : Option A) (f : A → Option B)
    → OnSome P m
    → ((a : A) → P a → OnSome Q (f a))
    → OnSome Q (m >>= f)
OnSome-bind P Q none f h k = tt
OnSome-bind P Q (some a) f h k = k a h

-- of a result that does not depend on the value
OnSome-any :
    {A B : Type 0} (Q : B → Type 0) (m : Option A) (f : A → Option B)
    → ((a : A) → OnSome Q (f a))
    → OnSome Q (m >>= f)
OnSome-any Q none f k = tt
OnSome-any Q (some a) f k = k a

List-cases : {A : Type 0} (l : List A) → (l ≡ []) ⊎ ((a : A) × (as' : List A) × (l ≡ a ∷ as'))
List-cases [] = inl refl
List-cases (a ∷ l) = inr (a, l, refl)

is_kind-same : (kind other_kind : Kind) → is_kind kind other_kind ≡ true → kind ≡ other_kind
is_kind-same kind other_kind h = ground arith

abbrev pub All {ℓ ℓ'} : {A : Type ℓ} → (A → Type ℓ') → List A → Type ℓ'
All P [] = Unit
All P (a ∷ l) = P a × All P l

All-append {ℓ ℓ'} :
    {A : Type ℓ} (P : A → Type ℓ') (l : List A) (a : A) → All P l → P a → All P (l ++ a ∷ [])
All-append P [] a all here = (here, tt)
All-append P (x ∷ l) a all here = (all.0, All-append P l a all.1 here)

All-map {ℓ ℓ' ℓ''} :
    {A : Type ℓ} (P : A → Type ℓ') (Q : A → Type ℓ'') (l : List A)
    → ((a : A) → P a → Q a)
    → All P l
    → All Q l
All-map P Q [] f all = tt
All-map P Q (a ∷ l) f all = (f a all.0, All-map P Q l f all.1)

-- a call of `register`
pub record Request : Type 0 where
  pub kind : Kind
  pub callback : Callback
  pub path : Option String

module _ (kanta_class data_type : Option Named) where
  abbrev pub or_same : CallbackRegistry → Option CallbackRegistry → CallbackRegistry
  or_same self none = self
  or_same self (some registry) = registry

  -- calls one after the other; what is refused is not registered
  unfoldable pub register_all : CallbackRegistry → List Request → CallbackRegistry
  unfolding register
  register_all self [] = self
  register_all self (r ∷ requests) =
      register_all (or_same self (register kanta_class data_type self r.kind r.callback r.path))
        requests

  -- all parameters resolve
  abbrev Registered : CallbackRegistry → Type 0
  Registered self =
      ((kind : Kind)
        → All (λ (reg : Registration). AllResolve kanta_class data_type kind reg.params)
            (self.callbacks kind))
      × All (λ spec. AllResolve kanta_class data_type logfmt (inject_params spec))
          self.logfmt_callbacks

  abbrev SpecResolves : LogFmtSpec → Type 0
  SpecResolves spec = AllResolve kanta_class data_type logfmt (inject_params spec)

  -- what follows on the loop over the parameters
  judged :
      {B : Type 0} (kind : Kind) (takes_path : Bool) (evaluate : String → Option Annotation)
      (params : List Param) (Q : B → Type 0) (f : List Injected × Bool → Option B)
      → ((found : List Injected × Bool)
          → AllResolve kanta_class data_type kind found.0
          → OnSome Q (f found))
      → OnSome Q (judge_all kanta_class data_type kind takes_path evaluate params >>= f)
  judged kind takes_path evaluate params Q f =
      OnSome-bind (λ found. AllResolve kanta_class data_type kind found.0) Q
        (judge_all kanta_class data_type kind takes_path evaluate params) f
        (judge_all-AllResolve kanta_class data_type kind takes_path evaluate params)

  validate_class-AllResolve :
      (init resolve : Signature)
      → OnSome
          (AllResolve kanta_class data_type logfmt)
          (validate_logfmt_class kanta_class data_type init resolve)
  unfolding validate_logfmt_class
  validate_class-AllResolve init resolve =
      judged logfmt false init.evaluate (without_self init.params)
        (AllResolve kanta_class data_type logfmt)
        (λ found. checked_resolve resolve >>= (λ done. some found.0))
        (λ found all.
          OnSome-any (AllResolve kanta_class data_type logfmt) (checked_resolve resolve)
            (λ done. some found.0) (λ done. all))

  validate_function-AllResolve :
      (sig : Signature)
      → OnSome
          (λ found. AllResolve kanta_class data_type logfmt found.1.0)
          (validate_logfmt_function kanta_class data_type sig)
  unfolding validate_logfmt_function
  validate_function-AllResolve sig =
      let Good : Bool × (List Injected × Bool) → Type 0 =
        λ found. AllResolve kanta_class data_type logfmt found.1.0 in
      elim (List-cases sig.params) [
        | inl e ↦ rw e tt
        | inr (value_param, params, e) ↦ rw e (
            OnSome-any Good (value_type sig.evaluate value_param) _ (λ only_str.
              judged logfmt true sig.evaluate params Good _
                (λ found all. OnSome-any Good (checked_return sig) _ (λ done. all))))
      ]

  logfmt_spec-resolves :
      (callback : Callback) (path : Option String)
      → OnSome SpecResolves (logfmt_spec kanta_class data_type callback path)
  unfolding logfmt_spec
  logfmt_spec-resolves callback path =
      if-holds (OnSome SpecResolves) callback.is_class
        (if-holds (OnSome SpecResolves) callback.is_log_fmt
          (if-holds (OnSome SpecResolves) callback.init_is_async tt (
            OnSome-bind (AllResolve kanta_class data_type logfmt) SpecResolves
              (validate_logfmt_class kanta_class data_type callback.init callback.resolve)
              (λ params. some (class_spec callback params path))
              (validate_class-AllResolve callback.init callback.resolve) (λ params all. all)))
          tt)
        (if-holds (OnSome SpecResolves) callback.is_async tt (
          OnSome-bind (λ found. AllResolve kanta_class data_type logfmt found.1.0) SpecResolves
            (validate_logfmt_function kanta_class data_type callback.signature)
            (λ found. some (function_spec callback found.0 found.1.1 found.1.0 path))
            (validate_function-AllResolve callback.signature) (λ found all. all)))

  registration_of-resolves :
      (kind : Kind) (callback : Callback)
      → OnSome
          (λ (reg : Registration). AllResolve kanta_class data_type kind reg.params)
          (registration_of kanta_class data_type kind callback)
  unfolding registration_of validate_function
  registration_of-resolves kind callback =
      let Good : Registration → Type 0 = λ reg. AllResolve kanta_class data_type kind reg.params in
      if-holds (OnSome Good) callback.is_class tt (
        if-holds (OnSome Good) (not callback.is_callable) tt (
          if-holds (OnSome Good) (is_validate kind && callback.is_async) tt (
            OnSome-bind (AllResolve kanta_class data_type kind) Good
              (validate_function kanta_class data_type callback.signature kind) _
              (judged kind false callback.signature.evaluate callback.signature.params
                (AllResolve kanta_class data_type kind) (λ found. some found.0) (λ found all. all))
              (λ params all. all))))

  append_callback-Registered :
      (self : CallbackRegistry) (kind : Kind) (reg : Registration)
      → Registered self
      → AllResolve kanta_class data_type kind reg.params
      → Registered (append_callback self kind reg)
  append_callback-Registered self kind reg (all, specs) here = (
    λ other_kind.
        if-cases (All (λ (r : Registration). AllResolve kanta_class data_type other_kind r.params))
          (is_kind kind other_kind)
          (λ same.
            All-append (λ (r : Registration). AllResolve kanta_class data_type other_kind r.params)
              (self.callbacks other_kind) reg (all other_kind)
              (subst (λ k. AllResolve kanta_class data_type k reg.params)
                (is_kind-same kind other_kind same) here))
          (λ differ. all other_kind),
    specs,
  )

  append_logfmt-Registered :
      (self : CallbackRegistry) (spec : LogFmtSpec)
      → Registered self
      → SpecResolves spec
      → Registered (append_logfmt self spec)
  append_logfmt-Registered self spec (all, specs) here =
      (all, All-append SpecResolves self.logfmt_callbacks spec specs here)

  -- the clause of `register` for a kind that is in the dict
  known-Registered :
      (self : CallbackRegistry) (kind : Kind) (callback : Callback)
      → Registered self
      → OnSome Registered (
          registration_of kanta_class data_type kind callback
          >>= (λ reg. some (append_callback self kind reg)))
  known-Registered self kind callback now =
      OnSome-bind (λ (reg : Registration). AllResolve kanta_class data_type kind reg.params)
        Registered (registration_of kanta_class data_type kind callback)
        (λ reg. some (append_callback self kind reg)) (registration_of-resolves kind callback)
        (λ reg here. append_callback-Registered self kind reg now here)

  register-Registered :
      (self : CallbackRegistry) (kind : Kind) (callback : Callback) (path : Option String)
      → Registered self
      → OnSome Registered (register kanta_class data_type self kind callback path)
  unfolding register
  register-Registered self logfmt callback path now =
      OnSome-bind SpecResolves Registered (logfmt_spec kanta_class data_type callback path)
        (λ spec. some (append_logfmt self spec)) (logfmt_spec-resolves callback path)
        (λ spec here. append_logfmt-Registered self spec now here)
  register-Registered self logemit callback path now =
      if-holds (OnSome Registered) (callback.is_class || not callback.is_callable) tt
        (if-holds (OnSome Registered) callback.is_async tt now)
  register-Registered self bootstrap callback path now =
      known-Registered self bootstrap callback now
  register-Registered self fatal_error callback path now =
      known-Registered self fatal_error callback now
  register-Registered self logmigr callback path now = known-Registered self logmigr callback now
  register-Registered self validate callback path now = known-Registered self validate callback now
  register-Registered self unknown callback path now = tt

  or_same-Registered :
      (self : CallbackRegistry) (result : Option CallbackRegistry)
      → Registered self
      → OnSome Registered result
      → Registered (or_same self result)
  or_same-Registered self none now next = now
  or_same-Registered self (some registry) now next = next

  register_all-Registered :
      (self : CallbackRegistry) (requests : List Request)
      → Registered self
      → Registered (register_all self requests)
  unfolding register_all
  register_all-Registered self [] now = now
  register_all-Registered self (r ∷ requests) now =
      let result = register kanta_class data_type self r.kind r.callback r.path in
      register_all-Registered (or_same self result) requests
        (or_same-Registered self result now (register-Registered self r.kind r.callback r.path now))

  -- Whatever is registered in a new registry, refused or not: for every callback that was taken,
  -- and every context, `_build_kwargs` raises nothing, and makes one argument for each parameter,
  -- under its name. The argument is an attribute of the context that the callback's kind of event
  -- is about: the data only for `bootstrap` and `validate`, the error only for `fatal_error`, the
  -- report only for `logmigr`; or one of the two states, or the `Kanta` instance.
  pub register_all-IsInjected :
      {V : Type 0} (requests : List Request) (ctx : InjectionContext V)
      → ((kind : Kind)
          → All
              (λ (reg : Registration). IsInjected kanta_class data_type kind ctx reg.params)
              ((register_all new_registry requests).callbacks kind))
        × All
            (λ spec. IsInjected kanta_class data_type logfmt ctx (inject_params spec))
            (register_all new_registry requests).logfmt_callbacks
  register_all-IsInjected requests ctx =
      let (all, specs) = register_all-Registered new_registry requests ((λ kind. tt), tt) in
      (
        λ kind.
            All-map (λ (reg : Registration). AllResolve kanta_class data_type kind reg.params) _
              ((register_all new_registry requests).callbacks kind)
              (λ reg here. build_kwargs-IsInjected kanta_class data_type kind ctx reg.params here)
              (all kind),
        All-map SpecResolves _ (register_all new_registry requests).logfmt_callbacks
            (λ spec here.
              build_kwargs-IsInjected kanta_class data_type logfmt ctx (inject_params spec) here)
            specs,
      )
