-- ===== src/Examples/Searching.antt =====
-- A record with one change, and patterns for it.
use kanta.Base.{◌≡◌, none, Bool, List, [], ◌∷◌, length}
use kanta.Base.Bytes.{bytes_eq}
use kanta.Base.ParseInt.{codes}
use kanta.Value.{text}
use kanta.Terminal.{Text}
use kanta.Grep.Patterns.{GrepPattern, bare, sides, match_path, window_matches, split_term}
use kanta.Grep.Patterns.Window.{IsFirst, match_path-IsFirst}
use kanta.Grep.Evaluate.{Entry, evaluate_all, no_highlights}
use kanta.Grep.Evaluate.Matched.{is_some, all_match, evaluate_all-all_match}
use kanta.Examples.Reopening.{bootstrapped}

abbrev same_text : Text → Text
same_text t = t

abbrev is_exactly : Text → Text → Bool
is_exactly name pattern = bytes_eq name pattern

abbrev email_entry : Entry
email_entry = record {
  path = codes "users" ∷ codes "alice" ∷ codes "email" ∷ [];
  raw = text "a@b.c";
  shown = codes "a@b.c";
  anchor = none;
}

abbrev searched : List GrepPattern
searched =
    bare (codes "alice") ∷ sides (codes "users") (codes "b.c") ∷ bare (codes "bootstrap") ∷ []

evaluate_all-all_match_example :
    is_some (
      evaluate_all same_text is_exactly none bootstrapped (email_entry ∷ []) searched no_highlights)
    ≡ all_match same_text is_exactly none bootstrapped (email_entry ∷ []) searched
evaluate_all-all_match_example =
    evaluate_all-all_match same_text is_exactly none bootstrapped (email_entry ∷ []) searched
      no_highlights

match_path-IsFirst_example :
    IsFirst
      (window_matches same_text is_exactly (split_term (codes "alice.email")))
      0
      (length (split_term (codes "alice.email")))
      email_entry.path
      (match_path same_text is_exactly (codes "alice.email") email_entry.path)
match_path-IsFirst_example =
    match_path-IsFirst same_text is_exactly b'a' (codes "lice.email") email_entry.path
