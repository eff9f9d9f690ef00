-- ===== src/Callbacks/Formats.antt =====
-- callbacks.py: the chain of formatters.
use kanta.Base.{
  Bool, true, false, not, ◌&&◌, Option, none, some, ◌>>=◌, List, [], ◌∷◌, ◌++◌, String, str_eq,
  if◌then◌else◌, ◌≡◌, ◌≢◌, refl, ap, ◌⊎◌, inl, inr, Bool-cases, Option-cases,
}
use kanta.Value.{Value, null, num, text, arr, obj}
use kanta.Callbacks.{Named, logfmt, InjectionContext, build_kwargs}
use kanta.Callbacks.Registry.{
  Callback, CallbackRegistry, LogFmtSpec, function_spec, class_spec, inject_params, new_registry,
}
use kanta.Callbacks.Injected.{IsInjected}
use kanta.Callbacks.Registered.{All, Request, register_all, register_all-IsInjected}

-- what a formatter makes of a value at a path: an exception, None, or a text
abbrev pub Formatting : Type 0
Formatting = Value → String → Option (Option String)

-- an item of `formatters`: the formatter, and the path of its spec
abbrev pub Formatter : Type 0
Formatter = Formatting × Option String

-- pattern is not None and path != pattern
abbrev pub is_elsewhere : Option String → String → Bool
is_elsewhere none path = false
is_elsewhere (some pattern) path = not (str_eq path pattern)

-- `format_value`
unfoldable pub format_value : List Formatter → Value → String → Option String
format_value [] value path = none
format_value ((fn, pattern) ∷ formatters) value path =
    let rest = format_value formatters value path in
    if is_elsewhere pattern path then rest else elim (fn value path) [
      | none ↦ rest
      | some resolved ↦ elim resolved [ none ↦ rest | some shown ↦ some shown ]
    ]

-- it is not for this path, or it raises, or it returns None
abbrev pub FallsThrough : Value → String → Formatter → Type 0
FallsThrough value path (fn, pattern) =
    (is_elsewhere pattern path ≡ true) ⊎ (fn value path ≡ none) ⊎ (fn value path ≡ some none)

-- the text of the first formatter that has one
abbrev pub IsFirstText : List Formatter → Value → String → Option String → Type 0
IsFirstText formatters value path none = All (FallsThrough value path) formatters
IsFirstText formatters value path (some shown) =
    (before : List Formatter) × (formatter : Formatter) × (after : List Formatter) × (formatters
      ≡ before ++ formatter ∷ after)
    × All (FallsThrough value path) before
    × (is_elsewhere formatter.1 path ≡ false)
    × (formatter.0 value path ≡ some (some shown))

IsFirstText-next :
    (formatter : Formatter) (formatters : List Formatter) (value : Value) (path : String)
    (found : Option String)
    → FallsThrough value path formatter
    → IsFirstText formatters value path found
    → IsFirstText (formatter ∷ formatters) value path found
IsFirstText-next formatter formatters value path none here rest = (here, rest)
IsFirstText-next formatter formatters value path (some shown) here
      (before, first, after, same, all, for_path, hit) =
    (formatter ∷ before, first, after, ap (λ l. formatter ∷ l) same, (here, all), for_path, hit)

format_value-IsFirstText :
    (formatters : List Formatter) (value : Value) (path : String)
    → IsFirstText formatters value path (format_value formatters value path)
unfolding format_value
format_value-IsFirstText [] value path = tt
format_value-IsFirstText ((fn, pattern) ∷ formatters) value path =
    let rest = format_value-IsFirstText formatters value path in
    let next =
      IsFirstText-next (fn, pattern) formatters value path (format_value formatters value path) in
    elim (Bool-cases (is_elsewhere pattern path)) [
      | inl elsewhere ↦ rw elsewhere (next (inl elsewhere) rest)
      | inr here ↦ elim (Option-cases (fn value path)) [
        | inl raised ↦ rw (here, raised) (next (inr (inl raised)) rest)
        | inr (resolved, e) ↦ elim (Option-cases resolved) [
          | inl nothing ↦ rw (here, e, nothing) (next (inr (inr (rw nothing at e))) rest)
          | inr (shown, is) ↦
              rw (here, e, is) ([], (fn, pattern), formatters, refl, tt, here, rw is at e)
        ]
      ]
    ]

abbrev pub if_has : Bool → String → Option String
if_has true path = some path
if_has false path = none

-- isinstance(value, str)
abbrev pub is_str : Value → Bool
is_str (text t) = true
is_str value = false

-- the classes and the functions of a program: `instantiate` may raise, and a function takes its
-- path where it has a parameter for it
module _ {V : Type 0} (kanta_class data_type : Option Named)
    (instantiate : Callback → List (String × Option V) → Option Formatting)
    (call : Callback
      → Value
      → List (String × Option V)
      → Option String
      → Option (Option String)) where
  -- `make_formatter`
  unfoldable pub make_formatter : Callback → Bool → Bool → List (String × Option V) → Formatting
  make_formatter callback only_str has_path kwargs value path =
      if only_str && not (is_str value)
      then some none
      else call callback value kwargs (if_has has_path path)

  -- one round of the loop over the specs
  unfoldable pub formatter_of : InjectionContext V → LogFmtSpec → Option Formatter
  unfolding build_kwargs make_formatter
  formatter_of ctx (class_spec callback params path) = do
    kwargs ← build_kwargs kanta_class data_type params ctx
    instance_of ← instantiate callback kwargs
    some (instance_of, path)
  formatter_of ctx (function_spec callback only_str has_path params path) = do
    kwargs ← build_kwargs kanta_class data_type params ctx
    some (make_formatter callback only_str has_path kwargs, path)

  unfoldable pub formatters_of : InjectionContext V → List LogFmtSpec → Option (List Formatter)
  unfolding formatter_of
  formatters_of ctx [] = some []
  formatters_of ctx (spec ∷ specs) = do
    formatter ← formatter_of ctx spec
    formatters ← formatters_of ctx specs
    some (formatter ∷ formatters)

  -- `build_logfmt`, as the list that `format_value` runs through
  unfoldable pub build_logfmt : CallbackRegistry → InjectionContext V → Option (List Formatter)
  unfolding formatters_of
  build_logfmt self ctx = formatters_of ctx self.logfmt_callbacks

  -- every class can be instantiated
  abbrev pub AreInstantiable : Type 0
  AreInstantiable =
      (callback : Callback) (kwargs : List (String × Option V))
      → (formatting : Formatting) × (instantiate callback kwargs ≡ some formatting)

  -- a function is called with the value, and with the path exactly where it has a parameter for it
  abbrev pub CallsWith :
      Callback
      → Bool
      → List (String × Option V)
      → Value
      → (String → Option (Option String))
      → Type 0
  CallsWith callback true kwargs value result =
      (path : String) → result path ≡ call callback value kwargs (some path)
  CallsWith callback false kwargs value result =
      (path : String) → result path ≡ call callback value kwargs none

  -- a function for texts gets texts only, and one for anything gets every value
  abbrev pub CallsFunction : Callback → Bool → Bool → List (String × Option V) → Formatting → Type 0
  CallsFunction callback true has_path kwargs fn =
      ((t : String) → CallsWith callback has_path kwargs (text t) (fn (text t)))
      × ((value : Value) (path : String)
          → ((t : String) → value ≢ text t)
          → fn value path ≡ some none)
  CallsFunction callback false has_path kwargs fn =
      (value : Value) → CallsWith callback has_path kwargs value (fn value)

  -- A formatter is its spec's: the instance of its class, or the calls of its function, with the
  -- arguments that the context has for it; and it has the path of the spec.
  abbrev pub IsFormatterOf : InjectionContext V → LogFmtSpec → Formatter → Type 0
  IsFormatterOf ctx (class_spec callback params path) (fn, pattern) =
      (kwargs : List (String × Option V)) × (build_kwargs kanta_class data_type params ctx
        ≡ some kwargs)
      × (instantiate callback kwargs ≡ some fn)
      × (pattern ≡ path)
  IsFormatterOf ctx (function_spec callback only_str has_path params path) (fn, pattern) =
      (kwargs : List (String × Option V)) × (build_kwargs kanta_class data_type params ctx
        ≡ some kwargs)
      × CallsFunction callback only_str has_path kwargs fn
      × (pattern ≡ path)

  -- one formatter for each spec, in their order
  abbrev pub AreFormattersOf : InjectionContext V → List LogFmtSpec → List Formatter → Type 0
  AreFormattersOf ctx [] [] = Unit
  AreFormattersOf ctx (spec ∷ specs) (formatter ∷ formatters) =
      IsFormatterOf ctx spec formatter × AreFormattersOf ctx specs formatters
  AreFormattersOf ctx _ _ = ⊥

  make_formatter-CallsWith :
      (callback : Callback) (has_path : Bool) (kwargs : List (String × Option V)) (value : Value)
      → CallsWith callback has_path kwargs value
          (λ path. call callback value kwargs (if_has has_path path))
  make_formatter-CallsWith callback true kwargs value = λ path. refl
  make_formatter-CallsWith callback false kwargs value = λ path. refl

  make_formatter-skips :
      (callback : Callback) (has_path : Bool) (kwargs : List (String × Option V)) (value : Value)
      (path : String)
      → ((t : String) → value ≢ text t)
      → make_formatter callback true has_path kwargs value path ≡ some none
  unfolding make_formatter
  make_formatter-skips callback has_path kwargs (text t) path other = absurd (other t refl)
  make_formatter-skips callback has_path kwargs null path other = refl
  make_formatter-skips callback has_path kwargs (num kind n) path other = refl
  make_formatter-skips callback has_path kwargs (arr items) path other = refl
  make_formatter-skips callback has_path kwargs (obj fields) path other = refl

  make_formatter-CallsFunction :
      (callback : Callback) (only_str has_path : Bool) (kwargs : List (String × Option V))
      → CallsFunction callback only_str has_path kwargs
          (make_formatter callback only_str has_path kwargs)
  unfolding make_formatter
  make_formatter-CallsFunction callback true has_path kwargs = (
    λ t. make_formatter-CallsWith callback has_path kwargs (text t),
    λ value path other. make_formatter-skips callback has_path kwargs value path other,
  )
  make_formatter-CallsFunction callback false has_path kwargs =
      λ value. make_formatter-CallsWith callback has_path kwargs value

  formatter_of-made :
      (ctx : InjectionContext V) (spec : LogFmtSpec)
      → AreInstantiable
      → IsInjected kanta_class data_type logfmt ctx (inject_params spec)
      → (formatter : Formatter) × (formatter_of ctx spec ≡ some formatter)
        × IsFormatterOf ctx spec formatter
  unfolding formatter_of
  formatter_of-made ctx (class_spec callback params path) can (kwargs, built, from) =
      let (formatting, made) = can callback kwargs in
      ((formatting, path), rw (built, made) refl, (kwargs, built, made, refl))
  formatter_of-made ctx (function_spec callback only_str has_path params path) can
        (kwargs, built, from) =
      (
        (make_formatter callback only_str has_path kwargs, path),
        rw built refl,
        (kwargs, built, make_formatter-CallsFunction callback only_str has_path kwargs, refl),
      )

  formatters_of-made :
      (ctx : InjectionContext V) (specs : List LogFmtSpec)
      → AreInstantiable
      → All (λ spec. IsInjected kanta_class data_type logfmt ctx (inject_params spec)) specs
      → (formatters : List Formatter) × (formatters_of ctx specs ≡ some formatters)
        × AreFormattersOf ctx specs formatters
  unfolding formatters_of
  formatters_of-made ctx [] can all = ([], refl, tt)
  formatters_of-made ctx (spec ∷ specs) can (here, all) =
      let (formatter, made, its) = formatter_of-made ctx spec can here in
      let (formatters, rest, theirs) = formatters_of-made ctx specs can all in
      (formatter ∷ formatters, rw (made, rest) refl, (its, theirs))

  -- Let every formatter class be instantiable with any arguments. Whatever is registered in a new
  -- registry, the chain of formatters can be built for every context: one for each formatter that
  -- was taken, in the order of registration. It is the instance of its class, or calls its function
  -- with the value, its arguments from the context, and the path where the function takes it; a
  -- function for texts gets no other value. The chain gives the text of the first formatter for the
  -- path that returns one, where all before it are for other paths, raise an exception or return
  -- None; and it gives None where all of them do.
  pub build_logfmt-IsFirstText :
      (requests : List Request) (ctx : InjectionContext V)
      → AreInstantiable
      → (formatters : List Formatter) × (build_logfmt
            (register_all kanta_class data_type new_registry requests)
            ctx
          ≡ some formatters)
        × AreFormattersOf ctx
            (register_all kanta_class data_type new_registry requests).logfmt_callbacks
            formatters
        × ((value : Value) (path : String)
            → IsFirstText formatters value path (format_value formatters value path))
  unfolding build_logfmt
  build_logfmt-IsFirstText requests ctx can =
      let registry = register_all kanta_class data_type new_registry requests in
      let (formatters, made, theirs) =
        formatters_of-made ctx registry.logfmt_callbacks can
          (register_all-IsInjected kanta_class data_type requests ctx).1 in
      (formatters, made, theirs, format_value-IsFirstText formatters)
