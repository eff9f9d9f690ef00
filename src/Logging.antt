-- ===== src/Logging.antt =====
-- logging.py: values, paths and headers as texts. A path is a text with dots, as `logfmt` and the
-- highlighter take it.
pub mod Header
pub mod Safe
pub mod Lines
pub mod Events
pub mod Total
pub mod Formatted
use kanta.Base.{
  ℕ, zero, suc, ◌-◌, Bool, true, false, not, ◌&&◌, ◌||◌, Option, none, some, List, [], ◌∷◌, ◌++◌,
  String, length, take, ltb, leb, ◌==◌, if◌then◌else◌,
}
use kanta.Base.Int.{pos, negsuc}
use kanta.Base.ParseInt.{codes}
use kanta.Value.{
  Value, null, num, text, arr, obj, Fields, end, field, Items, nil, cons, NumberType, bool, int,
  float, Number,
}
use kanta.Database.{decimal}
use kanta.Grep.Evaluate.{join_path}
use kanta.Terminal.{Text}
use kanta.Terminal.Line.{Line, new_line, arm, call, finish, joined}

-- `Colors`, each spec split at ";"
pub record Colors : Type 0 where
  pub action : List Text
  pub user : List Text
  pub target : List Text
  pub sep : List Text
  pub path_prefix : List Text
  pub path_final : List Text
  pub add : List Text
  pub delete : List Text
  pub ellipsis : List Text

abbrev grey : List Text
grey = codes "38" ∷ codes "5" ∷ codes "242" ∷ []

abbrev white : List Text
white = codes "38" ∷ codes "5" ∷ codes "250" ∷ []

-- the palette as it is at first
abbrev pub colors : Colors
colors = record {
  action = codes "1" ∷ codes "34" ∷ [];
  user = codes "34" ∷ [];
  target = white;
  sep = grey;
  path_prefix = grey;
  path_final = white;
  add = codes "32" ∷ [];
  delete = codes "1" ∷ codes "31" ∷ [];
  ellipsis = grey;
}

-- the hooks of a highlighter
pub record Highlight : Type 0 where
  pub path : Text → Text → Text
  pub value : Text → Text → Text
  pub delete : Text → Text → Text
  pub meta : Text → Text → Text

abbrev pub LogFmt : Type 0
LogFmt = Value → Text → Option Text

-- `_UNSAFE_CHARS`
unfoldable pub is_unsafe : ℕ → Bool
is_unsafe c =
    leb c 31
    || leb 127 c && leb c 159
    || leb 8206 c && leb c 8207
    || leb 8234 c && leb c 8238
    || leb 8294 c && leb c 8297

-- `_UNSAFE_CHARS.sub("", value)`
unfoldable pub safe_text : Text → Text
unfolding is_unsafe
safe_text [] = []
safe_text (c ∷ s) = let rest = safe_text s in if is_unsafe c then rest else c ∷ rest

-- `_join_path`
abbrev pub join_key : Text → Text → Text
join_key [] key = key
join_key (c ∷ path) key = (c ∷ path) ++ b'.' ∷ key

-- str(Line().<color>(text))
abbrev pub colored_text : List Text → Text → Text
colored_text spec t = joined (finish (call (arm new_line spec) t))

-- v is True
abbrev pub is_true : Value → Bool
is_true (num bool n) = elim n.numerator [ pos k ↦ not (k == 0) | negsuc k ↦ true ]
is_true value = false

abbrev pub all_true : Fields → Bool
all_true end = true
all_true (field key value fields) = is_true value && all_true fields

abbrev pub is_in_dict : Bool → Text → Text → Text
is_in_dict true key value = key
is_in_dict false key value = key ++ b':' ∷ b' ' ∷ value

-- ", ".join(parts)
abbrev pub join_parts : List Text → Text
join_parts [] = []
join_parts (part ∷ []) = part
join_parts (part ∷ parts) = part ++ b',' ∷ b' ' ∷ join_parts parts

-- the text that `logfmt` has for a value, else the default one; the hook marks it
abbrev pub hooked : Option Highlight → (Highlight → Text → Text → Text) → Text → Text → Text
hooked none hook shown path = shown
hooked (some highlight) hook shown path = hook highlight shown path

abbrev pub resolved_by : Option LogFmt → Value → Text → Option Text
resolved_by none value path = none
resolved_by (some logfmt) value path = logfmt value path

abbrev pub or_text : Option Text → Text → Text
or_text none default = default
or_text (some shown) default = shown

-- a container is marked only where it is resolved
abbrev pub container_text : Option Highlight → Option Text → Text → Text → Text
container_text highlight none path default = default
container_text highlight (some resolved) path default =
    hooked highlight (λ hooks. hooks.value) resolved path

-- components[:-1] and components[-1]
abbrev pub split_last : List Text → Option (List Text × Text)
split_last [] = none
split_last (component ∷ components) = elim (split_last components) [
  | none ↦ some ([], component)
  | some (prefix, last) ↦ some (component ∷ prefix, last)
]

module _ (palette : Colors) where
  -- `_dim_ellipsis`
  abbrev pub dim_ellipsis : Text
  dim_ellipsis = colored_text palette.ellipsis (8230 ∷ [])

  -- text[: max_len - 1] + _dim_ellipsis(), where it is longer
  unfoldable pub truncated : ℕ → Text → Text
  truncated max_len t = if ltb max_len (length t) then take (max_len - 1) t ++ dim_ellipsis else t

  -- the prefix, ".".join(components[:-1]) + ".", where there is one
  abbrev pub call_prefix : Line → List Text → Line
  call_prefix line [] = line
  call_prefix line (component ∷ prefix) =
      call (arm line palette.path_prefix) (join_path (component ∷ prefix) ++ b'.' ∷ [])

-- the text of an int or of a float is the standard library's
module _ (palette : Colors) (str : NumberType → Number → Text) where
  abbrev pub number_text : NumberType → Number → Text
  number_text bool n = if is_true (num bool n) then codes "true" else codes "false"
  number_text int n = str int n
  number_text float n = str float n

  module _ (logfmt : Option LogFmt) where
    -- `keyed`: a key, with the highlighter's `path`
    unfoldable pub keyed : Option Highlight → String → Text → Text
    unfolding safe_text truncated
    keyed highlight key key_path =
        hooked highlight (λ hooks. hooks.path)
          (or_text (resolved_by logfmt (text key) key_path)
            (truncated palette 30 (safe_text (codes key))))
          key_path

    module _ (highlight : Option Highlight) where
      -- the value where `logfmt` resolves it, else its default text; `marks` where the hook is
      -- called
      abbrev shown_value : Value → Text → Text → Text
      shown_value value path default =
          hooked highlight (λ hooks. hooks.value) (or_text (resolved_by logfmt value path) default)
            path

      abbrev shown_container : Value → Text → Text → Text
      shown_container value path default =
          container_text highlight (resolved_by logfmt value path) path default

      unfoldable mutual
        unfolding keyed safe_text truncated

        -- `_format_value`
        pub format_value : Value → Text → ℕ → Text
        format_value null path max_len = shown_value null path (codes "null")
        format_value (num kind n) path max_len = shown_value (num kind n) path (number_text kind n)
        format_value (text s) path max_len =
            shown_value (text s) path (truncated palette max_len (safe_text (codes s)))
        format_value (arr nil) path max_len = shown_container (arr nil) path (codes "[]")
        format_value (arr (cons item items)) path max_len =
            shown_container (arr (cons item items)) path
              (b'[' ∷ (join_parts (format_items 0 (cons item items) path) ++ b']' ∷ []))
        format_value (obj end) path max_len = shown_container (obj end) path (codes "{}")
        format_value (obj (field key value fields)) path max_len =
            shown_container (obj (field key value fields)) path (
              b'{'
              ∷ (join_parts (
                    format_fields (all_true (field key value fields)) (field key value fields) path)
                  ++ b'}' ∷ []))

        -- the loop over a dict
        pub format_fields : Bool → Fields → Text → List Text
        format_fields every end path = []
        format_fields every (field key value fields) path =
            let key_path = join_key path (codes key) in
            is_in_dict every (keyed highlight key key_path) (format_value value key_path 30)
            ∷ format_fields every fields path

        -- the loop over a list
        pub format_items : ℕ → Items → Text → List Text
        format_items i nil path = []
        format_items i (cons value items) path =
            format_value value (join_key path (codes (decimal (suc i) i ""))) 30
            ∷ format_items (suc i) items path

    -- the loop of `_format_path_components`, with the components behind it
    unfoldable pub components_from : Option Highlight → List Text → List String → List Text
    components_from highlight before [] = []
    components_from highlight before (component ∷ path) =
        let before' = before ++ codes component ∷ [] in
        let prefix_path = join_path before' in
        hooked highlight (λ hooks. hooks.path)
          (or_text (resolved_by logfmt (text component) prefix_path) (codes component)) prefix_path
        ∷ components_from highlight before' path

    -- `_format_path_components`
    unfoldable pub format_path_components : Option Highlight → List String → List Text
    unfolding components_from
    format_path_components highlight path = components_from highlight [] path

    -- `_format_path`
    unfoldable pub format_path : List String → List Text → Option Highlight → Text
    unfolding format_path_components call arm finish
    format_path path final_color highlight =
        elim (split_last (format_path_components highlight path)) [
          | none ↦ []
          | some (prefix, last) ↦
              joined (finish (call (arm (call_prefix palette new_line prefix) final_color) last))
        ]
