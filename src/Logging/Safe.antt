-- ===== src/Logging/Safe.antt =====
-- The characters of a value that is shown.
use kanta.Base.{
  ℕ, zero, suc, ◌-◌, Bool, true, false, Option, none, some, List, [], ◌∷◌, ◌++◌, String, take,
  length, ltb, ◌≡◌, refl, ◌⊎◌, ◌≤◌, ◌<◌, arith, append_assoc, append-nil, sym, if-cases, if-holds,
}
use mathlib.Core.Path.{subst}
use kanta.Base.ParseInt.{codes}
use kanta.Value.{
  Value, null, num, text, arr, obj, Fields, end, field, Items, nil, cons, NumberType, bool, int,
  float, Number,
}
use kanta.Database.{decimal}
use kanta.Terminal.{Text}
use kanta.Callbacks.Injected.{OnSome}
use kanta.Logging.{
  Colors, LogFmt, is_unsafe, safe_text, join_key, is_true, all_true, is_in_dict, join_parts,
  resolved_by, or_text, dim_ellipsis, truncated, container_text, number_text, keyed, format_value,
  format_fields, format_items,
}

-- no control character of ASCII or Latin-1, no mark of a direction and no override of one
abbrev pub IsOrdinary : ℕ → Type 0
IsOrdinary c =
    (32 ≤ c)
    × ((c < 127) ⊎ (159 < c))
    × ((c < 8206) ⊎ (8207 < c))
    × ((c < 8234) ⊎ (8238 < c))
    × ((c < 8294) ⊎ (8297 < c))

-- Ordinary characters, and whole ellipses, whose text has the escapes of their color.
pub data AllPrintable (ellipsis : Text) : Text → Type 0 where
  nothing : AllPrintable ellipsis []
  ordinary :
      {c : ℕ} {t : Text} → IsOrdinary c → AllPrintable ellipsis t → AllPrintable ellipsis (c ∷ t)
  shortened : {t : Text} → AllPrintable ellipsis t → AllPrintable ellipsis (ellipsis ++ t)

is_unsafe-IsOrdinary : (c : ℕ) → is_unsafe c ≡ false → IsOrdinary c
unfolding is_unsafe
is_unsafe-IsOrdinary c h = ground arith

AllPrintable-append : (e s t : Text) → AllPrintable e s → AllPrintable e t → AllPrintable e (s ++ t)
AllPrintable-append e [] t nothing all_t = all_t
AllPrintable-append e (c ∷ s) t (ordinary here all) all_t =
    ordinary here (AllPrintable-append e s t all all_t)
AllPrintable-append e _ t (shortened {t = s} all) all_t =
    subst (AllPrintable e) (sym (append_assoc e s t))
      (shortened (AllPrintable-append e s t all all_t))

-- every character is ordinary
abbrev AllOrdinary : Text → Type 0
AllOrdinary [] = Unit
AllOrdinary (c ∷ t) = IsOrdinary c × AllOrdinary t

AllOrdinary-take : (n : ℕ) (t : Text) → AllOrdinary t → AllOrdinary (take n t)
AllOrdinary-take zero t all = tt
AllOrdinary-take (suc n) [] all = tt
AllOrdinary-take (suc n) (c ∷ t) (here, all) = (here, AllOrdinary-take n t all)

pub AllOrdinary-AllPrintable : (e t : Text) → AllOrdinary t → AllPrintable e t
AllOrdinary-AllPrintable e [] all = nothing
AllOrdinary-AllPrintable e (c ∷ t) (here, all) = ordinary here (AllOrdinary-AllPrintable e t all)

safe_text-AllOrdinary : (t : Text) → AllOrdinary (safe_text t)
unfolding safe_text
safe_text-AllOrdinary [] = tt
safe_text-AllOrdinary (c ∷ t) =
    if-cases AllOrdinary (is_unsafe c) (λ unsafe. safe_text-AllOrdinary t)
      (λ safe. (is_unsafe-IsOrdinary c safe, safe_text-AllOrdinary t))

-- a character that the code writes itself
pub plain :
    (e : Text) {c : ℕ} {t : Text} → is_unsafe c ≡ false → AllPrintable e t → AllPrintable e (c ∷ t)
plain e h all = ordinary (is_unsafe-IsOrdinary _ h) all

or_text-AllPrintable :
    (e : Text) (o : Option Text) (t : Text)
    → OnSome (AllPrintable e) o
    → AllPrintable e t
    → AllPrintable e (or_text o t)
or_text-AllPrintable e none t resolved default = default
or_text-AllPrintable e (some s) t resolved default = resolved

container_text-AllPrintable :
    (e : Text) (o : Option Text) (path default : Text)
    → OnSome (AllPrintable e) o
    → AllPrintable e default
    → AllPrintable e (container_text none o path default)
container_text-AllPrintable e none path default resolved all = all
container_text-AllPrintable e (some t) path default resolved all = resolved

abbrev AllParts : Text → List Text → Type 0
AllParts e [] = Unit
AllParts e (t ∷ ts) = AllPrintable e t × AllParts e ts

join_parts-AllPrintable :
    (e : Text) (parts : List Text) → AllParts e parts → AllPrintable e (join_parts parts)
unfolding is_unsafe
join_parts-AllPrintable e [] all = nothing
join_parts-AllPrintable e (t ∷ []) all = all.0
join_parts-AllPrintable e (t ∷ u ∷ parts) (here, all) =
    AllPrintable-append e t (b',' ∷ b' ' ∷ join_parts (u ∷ parts)) here
      (plain e refl (plain e refl (join_parts-AllPrintable e (u ∷ parts) all)))

is_in_dict-AllPrintable :
    (e : Text) (every : Bool) (key shown : Text)
    → AllPrintable e key
    → AllPrintable e shown
    → AllPrintable e (is_in_dict every key shown)
unfolding is_unsafe
is_in_dict-AllPrintable e true key shown all_key all_shown = all_key
is_in_dict-AllPrintable e false key shown all_key all_shown =
    AllPrintable-append e key (b':' ∷ b' ' ∷ shown) all_key (plain e refl (plain e refl all_shown))

-- between brackets
bracketed-AllPrintable :
    (e : Text) (left right : ℕ) (t : Text)
    → is_unsafe left ≡ false
    → is_unsafe right ≡ false
    → AllPrintable e t
    → AllPrintable e (left ∷ (t ++ right ∷ []))
bracketed-AllPrintable e left right t l r all =
    plain e l (AllPrintable-append e t (right ∷ []) all (plain e r nothing))

-- a word that the code writes itself
abbrev AllSafe : Text → Type 0
AllSafe [] = Unit
AllSafe (c ∷ t) = (is_unsafe c ≡ false) × AllSafe t

word : (e t : Text) → AllSafe t → AllPrintable e t
word e [] all = nothing
word e (c ∷ t) (here, all) = plain e here (word e t all)

module _ (palette : Colors) (str : NumberType → Number → Text) (logfmt : Option LogFmt)
    (numbers : (kind : NumberType) (n : Number) → AllPrintable (dim_ellipsis palette) (str kind n))
    (resolves : (value : Value) (path : Text)
      → OnSome (AllPrintable (dim_ellipsis palette)) (resolved_by logfmt value path)) where
  truncated-AllPrintable :
      (max_len : ℕ) (t : Text)
      → AllOrdinary t
      → AllPrintable (dim_ellipsis palette) (truncated palette max_len t)
  unfolding truncated
  truncated-AllPrintable max_len t all =
      let e = dim_ellipsis palette in
      if-holds (AllPrintable e) (ltb max_len (length t))
        (AllPrintable-append e (take (max_len - 1) t) e
          (AllOrdinary-AllPrintable e (take (max_len - 1) t) (AllOrdinary-take (max_len - 1) t all))
          (subst (AllPrintable e) (append-nil e) (shortened nothing)))
        (AllOrdinary-AllPrintable e t all)

  number-AllPrintable :
      (kind : NumberType) (n : Number)
      → AllPrintable (dim_ellipsis palette) (number_text palette str kind n)
  unfolding is_unsafe
  number-AllPrintable bool n =
      if-holds (AllPrintable (dim_ellipsis palette)) (is_true (num bool n))
        (word (dim_ellipsis palette) (codes "true") (refl, (refl, (refl, (refl, tt)))))
        (word (dim_ellipsis palette) (codes "false") (refl, (refl, (refl, (refl, (refl, tt))))))
  number-AllPrintable int n = numbers int n
  number-AllPrintable float n = numbers float n

  keyed-AllPrintable :
      (key : String) (key_path : Text)
      → AllPrintable (dim_ellipsis palette) (keyed palette str logfmt none key key_path)
  unfolding keyed
  keyed-AllPrintable key key_path =
      or_text-AllPrintable (dim_ellipsis palette) (resolved_by logfmt (text key) key_path) _
        (resolves (text key) key_path)
        (truncated-AllPrintable 30 (safe_text (codes key)) (safe_text-AllOrdinary (codes key)))

  resolved-AllPrintable :
      (value : Value) (path default : Text)
      → AllPrintable (dim_ellipsis palette) default
      → AllPrintable (dim_ellipsis palette) (or_text (resolved_by logfmt value path) default)
  resolved-AllPrintable value path default all =
      or_text-AllPrintable (dim_ellipsis palette) (resolved_by logfmt value path) default
        (resolves value path) all

  container-AllPrintable :
      (value : Value) (path default : Text)
      → AllPrintable (dim_ellipsis palette) default
      → AllPrintable
          (dim_ellipsis palette)
          (container_text none (resolved_by logfmt value path) path default)
  container-AllPrintable value path default all =
      container_text-AllPrintable (dim_ellipsis palette) (resolved_by logfmt value path) path
        default (resolves value path) all

  mutual
    unfolding format_value is_unsafe

    value-printable :
        (value : Value) (path : Text) (max_len : ℕ)
        → AllPrintable
            (dim_ellipsis palette)
            (format_value palette str logfmt none value path max_len)
    value-printable null path max_len =
        resolved-AllPrintable null path (codes "null")
          (word (dim_ellipsis palette) (codes "null") (refl, (refl, (refl, (refl, tt)))))
    value-printable (num kind n) path max_len =
        resolved-AllPrintable (num kind n) path (number_text palette str kind n)
          (number-AllPrintable kind n)
    value-printable (text s) path max_len =
        resolved-AllPrintable (text s) path (truncated palette max_len (safe_text (codes s)))
          (truncated-AllPrintable max_len (safe_text (codes s)) (safe_text-AllOrdinary (codes s)))
    value-printable (arr nil) path max_len =
        container-AllPrintable (arr nil) path (codes "[]")
          (word (dim_ellipsis palette) (codes "[]") (refl, (refl, tt)))
    value-printable (arr (cons item items)) path max_len =
        let parts = format_items palette str logfmt none 0 (cons item items) path in
        container-AllPrintable (arr (cons item items)) path (b'[' ∷ (join_parts parts ++ b']' ∷ []))
          (bracketed-AllPrintable (dim_ellipsis palette) b'[' b']' (join_parts parts) refl refl (
            join_parts-AllPrintable (dim_ellipsis palette) parts
              (items-printable 0 (cons item items) path)))
    value-printable (obj end) path max_len =
        container-AllPrintable (obj end) path (codes "{}")
          (word (dim_ellipsis palette) (codes "{}") (refl, (refl, tt)))
    value-printable (obj (field key value fields)) path max_len =
        let every = all_true (field key value fields) in
        let parts = format_fields palette str logfmt none every (field key value fields) path in
        container-AllPrintable (obj (field key value fields)) path
          (b'{' ∷ (join_parts parts ++ b'}' ∷ []))
          (bracketed-AllPrintable (dim_ellipsis palette) b'{' b'}' (join_parts parts) refl refl (
            join_parts-AllPrintable (dim_ellipsis palette) parts
              (fields-printable every (field key value fields) path)))

    fields-printable :
        (every : Bool) (fields : Fields) (path : Text)
        → AllParts (dim_ellipsis palette) (format_fields palette str logfmt none every fields path)
    fields-printable every end path = tt
    fields-printable every (field key value fields) path =
        let key_path = join_key path (codes key) in
        (
          is_in_dict-AllPrintable (dim_ellipsis palette) every
              (keyed palette str logfmt none key key_path)
              (format_value palette str logfmt none value key_path 30)
              (keyed-AllPrintable key key_path) (value-printable value key_path 30),
          fields-printable every fields path,
        )

    items-printable :
        (i : ℕ) (items : Items) (path : Text)
        → AllParts (dim_ellipsis palette) (format_items palette str logfmt none i items path)
    items-printable i nil path = tt
    items-printable i (cons value items) path = (
      value-printable value (join_key path (codes (decimal (suc i) i ""))) 30,
      items-printable (suc i) items path,
    )

  -- Let the texts of numbers and those of the formatters consist of ordinary characters and of
  -- ellipses. Then the text of any value, at any path and length, without a highlighter, does too:
  -- none of its characters is a control character, or a mark or an override of the direction, and
  -- it has no escape but those of a whole ellipsis, which shows that a text is cut.
  pub format_value-AllPrintable :
      (value : Value) (path : Text) (max_len : ℕ)
      → AllPrintable
          (dim_ellipsis palette)
          (format_value palette str logfmt none value path max_len)
  format_value-AllPrintable value path max_len = value-printable value path max_len
