-- ===== src/Logging/Lines.antt =====
-- logging.py: the lines of a diff.
use kanta.Base.{ℕ, ◌-◌, max, Bool, Option, some, ◌>>=◌, List, [], ◌∷◌, ◌++◌, map, String}
use kanta.Base.ParseInt.{codes}
use kanta.Value.{Value, obj, Fields, end, field, NumberType, Number}
use kanta.Patch.{unmarshal}
use kanta.Grep.Evaluate.{join_path}
use kanta.Changes.{Change, ChangeType, add, update, delete, collect_changes}
use kanta.Terminal.{Text, displaywidth, spaces}
use kanta.Terminal.Line.{new_line, arm, call, finish, joined}
use kanta.Logging.{
  Colors, Highlight, LogFmt, hooked, join_key, keyed, format_value, format_path,
  format_path_components, call_prefix, split_last,
}

-- the tables of `unicodedata`, the texts of numbers, and `bool` and `str` of a value
module _ (palette : Colors) (str : NumberType → Number → Text) (is_wide is_zero_width : ℕ → Bool)
    (is_truthy : Value → Bool) (str_value : Value → String) (logfmt : Option LogFmt)
    (highlight : Option Highlight) where
  -- str(Line()("  ", path_str, " ").sep("=")(" ", value_str))
  abbrev pub equation : Text → Text → Text
  equation path_str value_str = joined (
      finish (
        call
          (call (arm (call new_line (codes "  " ++ (path_str ++ codes " "))) palette.sep)
            (codes "="))
          (codes " " ++ value_str)))

  -- the keys with their displays
  abbrev pub key_displays : Text → Fields → List Text
  key_displays base_path end = []
  key_displays base_path (field key value fields) =
      keyed palette str logfmt highlight key (join_key base_path (codes key))
      ∷ key_displays base_path fields

  abbrev pub widest : List Text → ℕ
  widest [] = 0
  widest (display ∷ displays) = max (displaywidth is_wide is_zero_width display) (widest displays)

  -- str(Line()("    ", k).sep(":")(" " * (field_width - displaywidth(k)), " ", v))
  abbrev pub item_line : ℕ → Text → Text → Text
  item_line field_width k v = joined (
      finish (
        call (call (arm (call new_line (codes "    " ++ k)) palette.sep) (codes ":"))
          (spaces (field_width - displaywidth is_wide is_zero_width k) ++ (codes " " ++ v))))

  unfoldable pub item_lines : ℕ → ℕ → Text → Fields → List Text
  unfolding keyed format_value call arm finish displaywidth
  item_lines field_width value_width base_path end = []
  item_lines field_width value_width base_path (field key value fields) =
      let key_path = join_key base_path (codes key) in
      item_line field_width (keyed palette str logfmt highlight key key_path)
        (format_value palette str logfmt highlight value key_path value_width)
      ∷ item_lines field_width value_width base_path fields

  -- an added dict that is not empty
  unfoldable pub added_dict : List String → Fields → List Text
  unfolding item_lines format_path displaywidth
  added_dict path fields =
      let base_path = join_path (map codes path) in
      let field_width = max (widest (key_displays base_path fields)) 12 in
      let value_width = max (80 - 4 - field_width - 2) 20 in
      let path_str = format_path palette str logfmt path palette.add highlight in
      joined (
        finish (
          call (arm (call new_line (codes "  " ++ (path_str ++ codes " "))) palette.sep)
            (codes "=")))
      ∷ item_lines field_width value_width base_path fields

  -- one line for a value
  unfoldable pub set_line : List Text → List String → Value → Text
  unfolding format_value format_path call arm finish
  set_line color path value =
      equation (format_path palette str logfmt path color highlight)
        (format_value palette str logfmt highlight value (join_path (map codes path)) 60)

  abbrev pub deleted_line : List String → List Text × Text → Text
  deleted_line path (prefix, last) =
      let marker =
        hooked highlight (λ hooks. hooks.delete) (10007 ∷ []) (join_path (map codes path)) in
      joined (
        finish (
          call (arm (call_prefix palette (call new_line (codes "  ")) prefix) palette.delete)
            (last ++ (codes " " ++ marker))))

  -- a deletion; a path with no component raises an IndexError
  unfoldable pub delete_line : List String → Option Text
  unfolding format_path_components call arm finish
  delete_line path =
      split_last (format_path_components palette str logfmt highlight path)
      >>= (λ found. some (deleted_line path found))

  -- `_format_change_lines`
  unfoldable pub format_change_lines : ChangeType → List String → Value → Option (List Text)
  unfolding added_dict set_line delete_line
  format_change_lines delete path value = do line ← delete_line path; some (line ∷ [])
  format_change_lines add path (obj (field key value fields)) =
      some (added_dict path (field key value fields))
  format_change_lines add path value = some (set_line palette.add path value ∷ [])
  format_change_lines update path value = some (set_line palette.path_final path value ∷ [])

  unfoldable pub change_lines : List Change → Option (List Text)
  unfolding format_change_lines
  change_lines [] = some []
  change_lines (change ∷ changes) = do
    lines ← format_change_lines change.change_type change.path change.value
    rest ← change_lines changes
    some (lines ++ rest)

  -- `format_diff`
  unfoldable pub format_diff : Value → Option Fields → Option (List Text)
  unfolding change_lines collect_changes unmarshal
  format_diff diff previous = do
    changes ← collect_changes is_truthy str_value previous (unmarshal diff) []
    change_lines changes
