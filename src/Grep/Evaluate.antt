-- ===== src/Grep/Evaluate.antt =====
-- grep.py: the entries of a record, and the highlighter that patterns make of them.
pub mod Matched
use kanta.Base.{
  ℕ, zero, suc, ◌+◌, Bool, true, false, not, ◌&&◌, ◌||◌, Option, none, some, ◌>>=◌, List, [], ◌∷◌,
  ◌++◌, length, take, ltb, ◌==◌, if◌then◌else◌, String, map,
}
use kanta.Base.Bytes.{bytes_eq}
use kanta.Base.ParseInt.{codes}
use kanta.Value.{
  Value, null, num, text, arr, obj, Fields, end, field, Items, nil, cons, Number, NumberType, bool,
  int, float,
}
use kanta.Database.{decimal}
use kanta.Structs.{ChangeRecord}
use kanta.Patch.{unmarshal}
use kanta.Changes.{ChangeType, add, update, delete, Change, get_nested, collect_changes}
use kanta.Terminal.{Text, strip_ansi}
use kanta.Grep.Spans.{Span, mark_spans}
use kanta.Grep.Patterns.{
  GrepPattern, bare, sides, ValueMark, is_marking, kind_of, RawKind, a_str, match_path, match_value,
  dual_mark,
}

-- `_Entry`
pub record Entry : Type 0 where
  pub path : List Text
  pub raw : Value
  pub shown : Text
  pub anchor : Option (List Text)

-- ".".join(path)
abbrev pub join_path : List Text → Text
join_path [] = []
join_path (part ∷ []) = part
join_path (part ∷ parts) = part ++ b'.' ∷ join_path parts

-- The state of `GrepHighlighter`. A set of paths is the list of those added, and a dict of lists of
-- marks is the list of the marks with their keys.
pub record Highlighter : Type 0 where
  pub lit_paths : List Text
  pub lit_deletes : List Text
  pub value_marks : List (Text × ValueMark)
  pub meta_marks : List (Text × ValueMark)

-- `__init__`
abbrev pub no_highlights : Highlighter
no_highlights = record { lit_paths = []; lit_deletes = []; value_marks = []; meta_marks = [] }

-- the paths of `_light_elements`
abbrev pub lit_by : List Text → List ℕ → List Text
lit_by path [] = []
lit_by path (i ∷ indices) = join_path (take (suc i) path) ∷ lit_by path indices

-- `_light_elements`
unfoldable pub light_elements : Highlighter → List Text → List ℕ → Highlighter
light_elements self path indices = record self { lit_paths = self.lit_paths ++ lit_by path indices }

abbrev pub below : ℕ → List ℕ → List ℕ
below n [] = []
below n (i ∷ indices) = let rest = below n indices in if ltb i n then i ∷ rest else rest

abbrev pub marked : Option ValueMark → Bool
marked none = false
marked (some mark) = is_marking mark

abbrev pub marks_of : Text → Option ValueMark → List (Text × ValueMark)
marks_of key none = []
marks_of key (some mark) = if is_marking mark then (key, mark) ∷ [] else []

abbrev pub elements_of : Option (List ℕ) → List ℕ
elements_of none = []
elements_of (some indices) = indices

-- the deletion marker
abbrev pub light_delete : Highlighter → List Text → Highlighter
light_delete self anchor = record self { lit_deletes = self.lit_deletes ++ join_path anchor ∷ [] }

-- `add` for deleted content
unfoldable pub add_deleted :
    Highlighter → List Text → List Text → List ℕ → Option ValueMark → Highlighter
unfolding light_elements
add_deleted self anchor path elements vmark =
    let here = below (length anchor) elements in
    let self' = light_elements self path here in
    let self'' = if length here == length elements then self' else light_delete self' anchor in
    if marked vmark then light_delete self'' anchor else self''

-- `GrepHighlighter.add`
unfoldable pub highlight : Highlighter → Entry → Option (List ℕ) → Option ValueMark → Highlighter
unfolding add_deleted light_elements
highlight self entry elements vmark = elim entry.anchor [
  | none ↦
      let self' = light_elements self entry.path (elements_of elements) in
      record self' { value_marks = self'.value_marks ++ marks_of (join_path entry.path) vmark }
  | some anchor ↦ add_deleted self anchor entry.path (elements_of elements) vmark
]

-- `add_meta`
unfoldable pub add_meta : Highlighter → Text → ValueMark → Highlighter
add_meta self name mark = record self { meta_marks = self.meta_marks ++ marks_of name (some mark) }

-- The number's text, that of a container, and the tables of Unicode are the standard library's; a
-- number that is neither a bool nor an int is a float.
module _ (number_text : Number → Text) (dumps : Value → Text) where
  -- `_value_text`
  unfoldable pub value_text : Value → Text
  value_text null = codes "null"
  value_text (num bool n) = elim n.numerator [
    | kanta.Base.Int.pos k ↦ if k == 0 then codes "false" else codes "true"
    | kanta.Base.Int.negsuc k ↦ codes "true"
  ]
  value_text (num kind n) = number_text n
  value_text (text s) = codes s
  value_text value = dumps value

  unfoldable mutual
    unfolding value_text

    -- `_leaf_entries`
    pub leaf_entries : List Text → Value → Option (List Text) → List Entry
    leaf_entries path (obj fields) anchor = field_entries path fields anchor
    leaf_entries path (arr items) anchor = item_entries path 0 items anchor
    leaf_entries path value anchor = []

    pub field_entries : List Text → Fields → Option (List Text) → List Entry
    field_entries path end anchor = []
    field_entries path (field key item fields) anchor =
        let item_path = path ++ codes key ∷ [] in
        record { path = item_path; raw = item; shown = value_text item; anchor = anchor }
        ∷ (leaf_entries item_path item anchor ++ field_entries path fields anchor)

    pub item_entries : List Text → ℕ → Items → Option (List Text) → List Entry
    item_entries path index nil anchor = []
    item_entries path index (cons item items) anchor =
        let item_path = path ++ codes (decimal (suc index) index "") ∷ [] in
        record { path = item_path; raw = item; shown = value_text item; anchor = anchor }
        ∷ (leaf_entries item_path item anchor ++ item_entries path (suc index) items anchor)

  abbrev pub is_delete : ChangeType → Bool
  is_delete delete = true
  is_delete change_type = false

  -- the body of the loop of `_record_entries`
  unfoldable pub change_entries : Option Fields → Change → List Entry
  unfolding value_text leaf_entries
  change_entries previous change =
      let path = map codes change.path in
      let deleted = is_delete change.change_type in
      let value = if deleted then get_nested previous change.path else change.value in
      let anchor = if deleted then some path else none in
      record { path = path; raw = value; shown = value_text value; anchor = anchor }
      ∷ leaf_entries path value anchor

  abbrev pub all_entries : Option Fields → List Change → List Entry
  all_entries previous [] = []
  all_entries previous (change ∷ changes) =
      change_entries previous change ++ all_entries previous changes

  module _ (is_truthy : Value → Bool) (str : Value → String) where
    -- `_record_entries`; none is what a malformed diff raises
    unfoldable pub record_entries : ChangeRecord → Option Fields → Option (List Entry)
    unfolding collect_changes unmarshal change_entries
    record_entries change_record previous = do
      changes ← collect_changes is_truthy str previous (unmarshal (obj change_record.diff)) []
      some (all_entries previous changes)

-- a composed logfmt, or none
abbrev pub Logfmt : Type 0
Logfmt = Option (Value → Text → Option Text)

abbrev pub pretty_of : Logfmt → Value → Text → Option Text
pretty_of none value path = none
pretty_of (some logfmt) value path = logfmt value path

-- the two outcomes of `_match_entry` that are no match
abbrev pub either_side :
    Option (List ℕ) → Option ValueMark → Option (Option (List ℕ) × Option ValueMark)
either_side none none = none
either_side elements vmark = some (elements, vmark)

abbrev pub both_sides :
    Option (List ℕ) → Option ValueMark → Option (Option (List ℕ) × Option ValueMark)
both_sides none vmark = none
both_sides (some elements) none = none
both_sides (some elements) (some vmark) = some (some elements, some vmark)

module _ (casefold : Text → Text) (fnmatchcase : Text → Text → Bool) (logfmt : Logfmt) where
  -- `_match_entry`
  unfoldable pub match_entry : GrepPattern → Entry → Option (Option (List ℕ) × Option ValueMark)
  unfolding match_path dual_mark
  match_entry (bare term) entry =
      let pretty = pretty_of logfmt entry.raw (join_path entry.path) in
      either_side (match_path casefold fnmatchcase term entry.path)
        (dual_mark casefold fnmatchcase term (kind_of entry.raw) entry.shown pretty)
  match_entry (sides path_term value_term) entry =
      let pretty = pretty_of logfmt entry.raw (join_path entry.path) in
      both_sides (match_path casefold fnmatchcase path_term entry.path)
        (dual_mark casefold fnmatchcase value_term (kind_of entry.raw) entry.shown pretty)

  -- any(_match_entry(pattern, entry, logfmt) for entry in entries)
  abbrev pub matches_any : GrepPattern → List Entry → Bool
  matches_any pattern [] = false
  matches_any pattern (entry ∷ entries) = elim (match_entry pattern entry) [
    | none ↦ matches_any pattern entries
    | some marks ↦ true
  ]

  abbrev pub matches_all : List GrepPattern → List Entry → Bool
  matches_all [] entries = true
  matches_all (pattern ∷ patterns) entries =
      matches_any pattern entries && matches_all patterns entries

  -- `matches_snapshot`
  unfoldable pub matches_snapshot :
      (Number → Text) → (Value → Text) → Fields → List GrepPattern → Bool
  unfolding leaf_entries unmarshal match_entry
  matches_snapshot number_text dumps state patterns =
      matches_all patterns (leaf_entries number_text dumps [] (unmarshal (obj state)) none)

  -- the loop over the entries, with `matched`
  unfoldable pub add_entries : GrepPattern → Highlighter → Bool → List Entry → Highlighter × Bool
  unfolding match_entry highlight
  add_entries pattern self matched [] = (self, matched)
  add_entries pattern self matched (entry ∷ entries) = elim (match_entry pattern entry) [
    | none ↦ add_entries pattern self matched entries
    | some (elements, vmark) ↦
        add_entries pattern (highlight self entry elements vmark) true entries
  ]

  abbrev pub add_if : Highlighter × Bool → Text → Option ValueMark → Highlighter × Bool
  add_if found name none = found
  add_if (self, matched) name (some mark) = (add_meta self name mark, true)

  -- the user; an empty name is none
  abbrev pub add_user : Text → Option String → Highlighter × Bool → Highlighter × Bool
  add_user term none found = found
  add_user term (some user) found = elim (codes user) [
    | [] ↦ found
    | c ∷ name ↦ add_if found (codes "user") (
        dual_mark casefold fnmatchcase term a_str (codes user)
          (pretty_of logfmt (text user) (codes "$user")))
  ]

  -- the action and the user, for a bare pattern
  unfoldable pub add_header : ChangeRecord → GrepPattern → Highlighter → Highlighter × Bool
  unfolding add_meta dual_mark match_value
  add_header change_record (sides path_term value_term) self = (self, false)
  add_header change_record (bare term) self = add_user term change_record.u (
      add_if (self, false) (codes "action")
        (match_value casefold fnmatchcase term a_str (codes change_record.a)))

  -- the body of the loop of `evaluate`
  unfoldable pub evaluate_pattern :
      ChangeRecord → List Entry → GrepPattern → Highlighter → Option Highlighter
  unfolding add_header add_entries
  evaluate_pattern change_record entries pattern self =
      let header = add_header change_record pattern self in
      let found = add_entries pattern header.0 header.1 entries in
      if found.1 then some found.0 else none

  unfoldable pub evaluate_all :
      ChangeRecord → List Entry → List GrepPattern → Highlighter → Option Highlighter
  unfolding evaluate_pattern
  evaluate_all change_record entries [] self = some self
  evaluate_all change_record entries (pattern ∷ patterns) self = do
    next ← evaluate_pattern change_record entries pattern self
    evaluate_all change_record entries patterns next

  module _ (number_text : Number → Text) (dumps : Value → Text) (is_truthy : Value → Bool)
      (str : Value → String) where
    -- `evaluate`; an exception of `_record_entries` is none of the outer option
    unfoldable pub evaluate :
        ChangeRecord → Option Fields → List GrepPattern → Option (Option Highlighter)
    unfolding record_entries evaluate_all
    evaluate change_record previous patterns = do
      entries ← record_entries number_text dumps is_truthy str change_record previous
      some (evaluate_all change_record entries patterns no_highlights)
