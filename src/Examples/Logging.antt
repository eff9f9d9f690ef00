-- ===== src/Examples/Logging.antt =====
-- A registry with a few callbacks, and the log of a change.
use kanta.Base.{
  ℕ, ◌≤◌, length, Bool, true, false, ◌≡◌, refl, Option, none, some, String, List, [], ◌∷◌,
}
use kanta.Base.ParseInt.{codes}
use kanta.Value.{Value, text, arr, obj, cons, nil, field, end}
use kanta.Patch.{unmarshal}
use kanta.Terminal.{Text}
use kanta.Terminal.Sgr.{foreground, class_of, color_class}
use kanta.Terminal.Sgr.Look.{blank, state_after}
use kanta.Terminal.Sgr.Readable.{no_token, lone, by_number}
use kanta.Terminal.Line.Plain.{ArePartsPlain}
use kanta.Terminal.Line.Colored.{shown, colored}
use kanta.Callbacks.{
  Named, str_type, database_error, program_type, plain, Kind, validate, logfmt, InjectionContext,
}
use kanta.Callbacks.Validate.{Param, Signature, positional_or_keyword, given}
use kanta.Callbacks.Registry.{Callback, Registration, new_registry, inject_params}
use kanta.Callbacks.Injected.{IsInjected}
use kanta.Callbacks.Registered.{Request, register_all, All, register_all-IsInjected}
use kanta.Callbacks.Formats.{
  Formatter, AreFormattersOf, Formatting, build_logfmt, format_value, IsFirstText, AreInstantiable,
  build_logfmt-IsFirstText,
}
use kanta.Changes.{Change, add, collect_changes}
use kanta.Logging.{colors, dim_ellipsis}
use kanta.Logging.Header.{
  format_action_header, header_calls, IsHeaderPalette, format_action_header-shown,
}
use kanta.Logging.Safe.{AllPrintable, nothing, plain as plain_character, format_value-AllPrintable}
use kanta.Logging.Lines.{format_diff}
use kanta.Logging.Formatted.{format_diff-total}
use kanta.Examples.{number}

-- a parameter with an annotation, and no default
abbrev parameter : String → Named → Param
parameter name type = record {
  name = name;
  kind = positional_or_keyword;
  annotation = some (given (plain type));
  has_default = false;
}

-- `state`, with no annotation
abbrev state_parameter : Param
state_parameter = record {
  name = "state";
  kind = positional_or_keyword;
  annotation = none;
  has_default = false;
}

abbrev signature_of : List Param → Signature
signature_of params = record { params = params; return_annotation = none; evaluate = λ t. none }

abbrev function : List Param → Callback
function params = record {
  is_class = false;
  is_callable = true;
  is_async = false;
  signature = signature_of params;
  is_log_fmt = false;
  init_is_async = false;
  init = signature_of [];
  resolve = signature_of [];
}

abbrev request : Kind → List Param → Request
request kind params = record { kind = kind; callback = function params; path = none }

abbrev root : Named
root = program_type 1

-- the second one is refused: a validation has no error
abbrev three_requests : List Request
three_requests =
    request validate (parameter "root" root ∷ [])
    ∷ request validate (parameter "error" database_error ∷ [])
    ∷ request logfmt (parameter "value" str_type ∷ parameter "path" str_type ∷ state_parameter ∷ [])
    ∷ []

two_taken :
    (length ((register_all none (some root) new_registry three_requests).callbacks validate) ≡ 1)
    × (length (register_all none (some root) new_registry three_requests).logfmt_callbacks ≡ 1)
unfolding register_all
two_taken = (refl, refl)

abbrev everything : InjectionContext ℕ
everything attribute = some 7

register_all-IsInjected_example :
    ((kind : Kind)
      → All
          (λ (reg : Registration). IsInjected none (some root) kind everything reg.params)
          ((register_all none (some root) new_registry three_requests).callbacks kind))
    × All
        (λ spec. IsInjected none (some root) logfmt everything (inject_params spec))
        (register_all none (some root) new_registry three_requests).logfmt_callbacks
register_all-IsInjected_example = register_all-IsInjected none (some root) three_requests everything

abbrev silent : Callback → List (String × Option ℕ) → Option Formatting
silent callback kwargs = some (λ value path. some none)

abbrev shouting :
    Callback → Value → List (String × Option ℕ) → Option String → Option (Option String)
shouting callback value kwargs path = some (some "X")

silent-AreInstantiable : AreInstantiable none (some root) silent shouting
silent-AreInstantiable = λ callback kwargs. (λ value path. some none, refl)

build_logfmt-IsFirstText_example :
    (formatters : List Formatter) × (build_logfmt none
        (some root)
        silent
        shouting
        (register_all none (some root) new_registry three_requests)
        everything
      ≡ some formatters)
    × AreFormattersOf none
        (some root)
        silent
        shouting
        everything
        (register_all none (some root) new_registry three_requests).logfmt_callbacks
        formatters
    × ((value : Value) (path : String)
        → IsFirstText formatters value path (format_value formatters value path))
build_logfmt-IsFirstText_example =
    build_logfmt-IsFirstText none (some root) silent shouting three_requests everything
      silent-AreInstantiable

colors-IsHeaderPalette : IsHeaderPalette colors
unfolding class_of color_class
colors-IsHeaderPalette = (
  lone refl refl refl (lone refl refl refl no_token),
  by_number foreground 250 refl refl refl refl no_token,
  lone refl refl refl no_token,
)

format_action_header-shown_example :
    (shown blank
        (format_action_header colors (codes "edit") (some (codes "me")) (some (codes "x")) none)
      ≡ colored (header_calls colors (codes "edit") (some (codes "me")) (some (codes "x"))))
    × (state_after blank
          (format_action_header colors (codes "edit") (some (codes "me")) (some (codes "x")) none)
        ≡ blank)
    × ArePartsPlain
        (format_action_header colors (codes "edit") (some (codes "me")) (some (codes "x")) none)
format_action_header-shown_example =
    format_action_header-shown colors (codes "edit") (some (codes "me")) (some (codes "x"))
      colors-IsHeaderPalette refl refl refl

-- a digit, in place of any number
abbrev digit : kanta.Value.NumberType → kanta.Value.Number → Text
digit kind n = codes "7"

abbrev nested_value : Value
nested_value = obj (field "k" (arr (cons (text "v") (cons (number 3) nil))) end)

format_value-AllPrintable_example :
    AllPrintable
      (dim_ellipsis colors)
      (kanta.Logging.format_value colors digit none none nested_value (codes "p") 60)
unfolding kanta.Logging.is_unsafe
format_value-AllPrintable_example =
    format_value-AllPrintable colors digit none
      (λ kind n. plain_character (dim_ellipsis colors) refl nothing) (λ value path. tt) nested_value
      (codes "p") 60

abbrev no_class : ℕ → Bool
no_class c = false

abbrev is_truthy : Value → Bool
is_truthy value = true

abbrev same_name : Value → String
same_name value = "x"

abbrev one_change : List Change
one_change = record { change_type = add; path = "x" ∷ []; value = number 1 } ∷ []

one_change-collected :
    collect_changes is_truthy same_name none (unmarshal (obj (field "x" (number 1) end))) []
    ≡ some one_change
unfolding collect_changes unmarshal
one_change-collected = refl

format_diff-total_example :
    (lines : List Text) × (format_diff colors digit no_class no_class is_truthy same_name none none
        (obj (field "x" (number 1) end))
        none
      ≡ some lines)
    × (1 ≤ length lines)
format_diff-total_example =
    format_diff-total colors digit no_class no_class is_truthy same_name none none
      (obj (field "x" (number 1) end)) none one_change one_change-collected
