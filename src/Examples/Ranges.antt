-- ===== src/Examples/Ranges.antt =====
-- The theorems on ranges, at a file of three changes and a snapshot.
use kanta.Base.{ℕ, ◌≡◌, ◌≤◌, refl, some, none, true, List, [], ◌∷◌, get_elem?, take, arith}
use kanta.Base.Int.{pos, negsuc}
use kanta.ReplayLog.{Event, snapshot_event, change_event, change_count}
use kanta.ReplayLog.Select.{
  change_unit, end_of_file, change_lines, bound_to_line, select_change, selection,
}
use kanta.ReplayLog.Select.Covered.{
  IsOrdered, within, select_change-within, select_change-unnumbered,
}
use kanta.ReplayLog.Select.Bounds.{clamped, bound_to_line-change}
use kanta.Examples.{first_change, second_change, snapshot_one}

abbrev three_changes : List Event
three_changes =
    record { line_number = 1; byte_pos = 0; record_index = 1; content = change_event first_change }
    ∷ record {
      line_number = 2;
      byte_pos = 9;
      record_index = 2;
      content = change_event second_change;
    }
    ∷ record {
      line_number = 3;
      byte_pos = 20;
      record_index = 3;
      content = snapshot_event snapshot_one;
    }
    ∷ record {
      line_number = 5;
      byte_pos = 31;
      record_index = 4;
      content = change_event second_change;
    }
    ∷ []

three_changes-IsOrdered : IsOrdered three_changes
three_changes-IsOrdered = (
  (omega arith, (omega arith, (omega arith, tt))),
  ((omega arith, (omega arith, tt)), ((omega arith, tt), (tt, tt))),
)

select_change-within_example :
    (start : ℕ) × (stop : ℕ) × (get_elem? (change_lines three_changes) 1 ≡ some start)
    × (select_change three_changes 3 (pos 1) ≡ selection start stop none)
    × (within start stop (change_lines three_changes) ≡ start ∷ [])
unfolding change_count
select_change-within_example =
    select_change-within three_changes 1 three_changes-IsOrdered (omega arith)

-- the change before the last
bound_to_line-change_example :
    (line : ℕ) × (bound_to_line change_unit (some (negsuc 1)) three_changes 3 true ≡ some line)
    × (line ≤ end_of_file three_changes)
    × (within 0 line (change_lines three_changes)
        ≡ take (clamped 3 (negsuc 1)) (change_lines three_changes))
unfolding change_count
bound_to_line-change_example =
    bound_to_line-change (negsuc 1) three_changes true three_changes-IsOrdered

abbrev unnumbered : List Event
unnumbered =
    record { line_number = 0; byte_pos = 4; record_index = 1; content = change_event first_change }
    ∷ record {
      line_number = 0;
      byte_pos = 40;
      record_index = 2;
      content = change_event second_change;
    }
    ∷ []

select_change-unnumbered_example :
    (select_change unnumbered 2 (pos 0) ≡ selection 0 0 none)
    × (within 0 0 (change_lines unnumbered) ≡ [])
unfolding change_count
select_change-unnumbered_example =
    select_change-unnumbered unnumbered 0 (refl, (refl, tt)) (omega arith)
