-- ===== src/Logging/Formatted.antt =====
-- Every change that is collected can be formatted.
use kanta.Base.{
  ℕ, ◌≤◌, Bool, Option, some, List, [], ◌∷◌, ◌++◌, String, length, length-append, ◌≡◌, refl, inl,
  inr, Option-cases, arith,
}
use mathlib.Core.Path.{subst}
use kanta.Value.{Value, null, num, text, arr, obj, Fields, end, field, NumberType, Number}
use kanta.Patch.{unmarshal}
use kanta.Terminal.{Text}
use kanta.Callbacks.Injected.{OnSome}
use kanta.Changes.{Change, ChangeType, add, update, delete, collect_changes}
use kanta.Logging.{Colors, LogFmt, Highlight, format_path_components, split_last}
use kanta.Logging.Lines.{
  format_change_lines, change_lines, delete_line, deleted_line, format_diff, added_dict,
}
use kanta.Logging.Total.{IsNonempty, AllShown, collect_changes-AllShown}

split_last-IsNonempty :
    (l : List Text) → IsNonempty l → (last : List Text × Text) × (split_last l ≡ some last)
split_last-IsNonempty [] h = absurd h
split_last-IsNonempty (a ∷ l) h = elim (Option-cases (split_last l)) [
  | inl e ↦ (([], a), rw e refl)
  | inr (found, e) ↦ ((a ∷ found.0, found.1), rw e refl)
]

-- one line or more
abbrev IsWritten : Option (List Text) → Type 0
IsWritten o = (lines : List Text) × (o ≡ some lines) × (1 ≤ length lines)

module _ (palette : Colors) (str : NumberType → Number → Text) (is_wide is_zero_width : ℕ → Bool)
    (is_truthy : Value → Bool) (str_value : Value → String) (logfmt : Option LogFmt)
    (highlight : Option Highlight) where
  components-IsNonempty :
      (path : List String)
      → IsNonempty path
      → IsNonempty (format_path_components palette str logfmt highlight path)
  unfolding format_path_components
  components-IsNonempty [] h = h
  components-IsNonempty (component ∷ path) h = tt

  delete_line-eq :
      (path : List String)
      → IsNonempty path
      → (line : Text) × (delete_line palette str is_wide is_zero_width is_truthy str_value logfmt
            highlight path
          ≡ some line)
  unfolding delete_line
  delete_line-eq path h =
      let (found, e) =
        split_last-IsNonempty (format_path_components palette str logfmt highlight path)
          (components-IsNonempty path h) in
      (
        deleted_line palette str is_wide is_zero_width is_truthy str_value logfmt highlight path
            found,
        rw e refl,
      )

  lines_of-IsWritten :
      (type : ChangeType) (path : List String) (value : Value)
      → (type ≡ delete → IsNonempty path)
      → IsWritten (
          format_change_lines palette str is_wide is_zero_width is_truthy str_value logfmt highlight
            type path value)
  unfolding format_change_lines added_dict
  lines_of-IsWritten delete path value can =
      let (line, e) = delete_line-eq path (can refl) in (line ∷ [], rw e refl, omega arith)
  lines_of-IsWritten update path value can = (_, refl, omega arith)
  lines_of-IsWritten add path (obj (field key value fields)) can = (_, refl, omega arith)
  lines_of-IsWritten add path (obj end) can = (_, refl, omega arith)
  lines_of-IsWritten add path null can = (_, refl, omega arith)
  lines_of-IsWritten add path (num kind n) can = (_, refl, omega arith)
  lines_of-IsWritten add path (text s) can = (_, refl, omega arith)
  lines_of-IsWritten add path (arr items) can = (_, refl, omega arith)

  change_lines-total :
      (changes : List Change)
      → AllShown changes
      → (lines : List Text) × (change_lines palette str is_wide is_zero_width is_truthy str_value
            logfmt highlight changes
          ≡ some lines)
        × (length changes ≤ length lines)
  unfolding change_lines
  change_lines-total [] all = ([], refl, omega arith)
  change_lines-total (c ∷ changes) (here, all) =
      let (lines, e, some_line) = lines_of-IsWritten c.change_type c.path c.value here in
      let (rest, rest_e, enough) = change_lines-total changes all in
      (
        lines ++ rest,
        rw (e, rest_e) refl,
        omega (arith, length-append lines rest, some_line, enough),
      )

  -- Where the changes of a diff can be collected, from any state or none, `format_diff` raises
  -- nothing, whatever the formatters and the highlighter make of the texts; and it has at least as
  -- many lines as there are changes.
  pub format_diff-total :
      (diff : Value) (previous : Option Fields) (changes : List Change)
      → collect_changes is_truthy str_value previous (unmarshal diff) [] ≡ some changes
      → (lines : List Text) × (format_diff palette str is_wide is_zero_width is_truthy str_value
            logfmt highlight diff previous
          ≡ some lines)
        × (length changes ≤ length lines)
  unfolding format_diff
  format_diff-total diff previous changes e =
      let all : AllShown changes =
        subst (OnSome AllShown) e
          (collect_changes-AllShown is_truthy str_value previous (unmarshal diff) []) in
      let (lines, made, enough) = change_lines-total changes all in
      (lines, rw (e, made) refl, enough)
