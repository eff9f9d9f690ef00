-- ===== src/Grep/Spans.antt =====
-- grep.py: the spans of a text and their marks.
pub mod Merged
pub mod Painted
pub mod Marked
pub mod Visible
use kanta.Base.{
  ℕ, zero, suc, ◌+◌, ◌-◌, max, min, Bool, true, false, ◌&&◌, ◌||◌, List, [], ◌∷◌, ◌++◌, length,
  take, drop, ltb, leb, ◌==◌, if◌then◌else◌,
}
use kanta.Base.Bytes.{slice}
use kanta.Terminal.{Text, Pieces, last_run, run_then, pieces, escape_code}

pub record Span : Type 0 where
  pub start : ℕ
  pub stop : ℕ

-- the order of tuples
unfoldable pub span_before : Span → Span → Bool
span_before a b = ltb a.start b.start || a.start == b.start && leb a.stop b.stop

unfoldable pub insert_span : Span → List Span → List Span
unfolding span_before
insert_span a [] = a ∷ []
insert_span a (b ∷ spans) =
    let rest = insert_span a spans in if span_before a b then a ∷ b ∷ spans else b ∷ rest

-- sorted(spans)
unfoldable pub sort_spans : List Span → List Span
unfolding insert_span
sort_spans [] = []
sort_spans (a ∷ spans) = insert_span a (sort_spans spans)

-- the loop, with `merged[-1]`, which a span may still extend
unfoldable pub merge_into : Span → List Span → List Span
merge_into last [] = last ∷ []
merge_into last (a ∷ spans) =
    let skipped = merge_into last spans in
    let extended = merge_into (record last { stop = max a.stop last.stop }) spans in
    let appended = last ∷ merge_into a spans in
    if leb a.stop a.start then skipped else if leb a.start last.stop then extended else appended

-- the loop, while nothing is merged
unfoldable pub merge_sorted : List Span → List Span
unfolding merge_into
merge_sorted [] = []
merge_sorted (a ∷ spans) =
    let skipped = merge_sorted spans in if leb a.stop a.start then skipped else merge_into a spans

-- `_merge_spans`
unfoldable pub merge_spans : List Span → List Span
unfolding merge_sorted sort_spans
merge_spans spans = merge_sorted (sort_spans spans)

-- "\x1b[48;5;220m"
abbrev pub mark_code : Text
mark_code = escape_code ∷ b'[' ∷ b'4' ∷ b'8' ∷ b';' ∷ b'5' ∷ b';' ∷ b'2' ∷ b'2' ∷ b'0' ∷ b'm' ∷ []

-- "\x1b[49m"
abbrev pub unmark_code : Text
unmark_code = escape_code ∷ b'[' ∷ b'4' ∷ b'9' ∷ b'm' ∷ []

-- The loop of `_wrap_run` from `pos` on. `-` stops at 0, where `max(start - plain_start, 0)` does,
-- and an end before the run gives an `e` that no `s` is below.
unfoldable pub wrap_from : Text → ℕ → ℕ → List Span → Text
unfolding slice
wrap_from run plain_start pos [] = drop pos run
wrap_from run plain_start pos (a ∷ spans) =
    let s = a.start - plain_start in
    let e = min (a.stop - plain_start) (length run) in
    let skipped = wrap_from run plain_start pos spans in
    let wrapped = wrap_from run plain_start e spans in
    if leb e s || leb e pos
    then skipped
    else slice pos s run ++ (mark_code ++ (slice s e run ++ (unmark_code ++ wrapped)))

-- `_wrap_run`
unfoldable pub wrap_run : Text → ℕ → List Span → Text
unfolding wrap_from
wrap_run [] plain_start spans = []
wrap_run (c ∷ run) plain_start spans = wrap_from (c ∷ run) plain_start 0 spans

-- the loop over the matches of `ANSI_RE`, and the run behind the last one
unfoldable pub wrap_pieces : Pieces → ℕ → List Span → Text
unfolding wrap_run
wrap_pieces (last_run run) plain_pos spans = wrap_run run plain_pos spans
wrap_pieces (run_then run match rest) plain_pos spans =
    wrap_run run plain_pos spans ++ (match ++ wrap_pieces rest (plain_pos + length run) spans)

unfoldable pub mark_merged : Text → List Span → Text
unfolding wrap_pieces
mark_merged styled [] = styled
mark_merged styled (a ∷ spans) = wrap_pieces (pieces styled) 0 (a ∷ spans)

-- `mark_spans`
unfoldable pub mark_spans : Text → List Span → Text
unfolding mark_merged merge_spans
mark_spans styled spans = mark_merged styled (merge_spans spans)
