-- ===== src/Patch/Tests.antt =====
-- `diff` and `apply_diff` on small inputs.
use kanta.Base.{ℕ, ◌≡◌, refl, some, none}
use kanta.Base.Int.{pos}
use kanta.Value.{Value, int, num, text, arr, obj, nil, cons, end, field, py_eq}
use kanta.Diff.{diff}
use kanta.Patch.{apply_diff, unmarshal, apply}

abbrev number : ℕ → Value
number n = num int (record { numerator = pos n; halvings = 0 })

diff_deletes :
    diff (field "a" (number 1) (field "b" (number 2) end)) (field "a" (number 1) end)
    ≡ some (field "$delete" (arr (cons (text "b") nil)) end)
unfolding diff py_eq
diff_deletes = refl

diff_escapes : diff end (field "$weird" (number 1) end) ≡ some (field "$$weird" (number 1) end)
unfolding diff py_eq
diff_escapes = refl

list_edit :
    apply_diff
      (obj (field "l" (arr (cons (number 0) (cons (number 1) nil))) end))
      (obj (field "l" (obj (field "$delete" (arr (cons (number 1) nil)) end)) end))
    ≡ some (obj (field "l" (arr (cons (number 0) nil)) end))
unfolding apply_diff unmarshal apply
list_edit = refl

index_edit :
    apply_diff
      (obj (field "l" (arr (cons (number 0) (cons (number 1) nil))) end))
      (obj (field "l" (obj (field "-1" (number 7) end)) end))
    ≡ some (obj (field "l" (arr (cons (number 0) (cons (number 7) nil))) end))
unfolding apply_diff unmarshal apply
index_edit = refl

insert_edit :
    apply_diff (obj (field "l" (arr (cons (number 0) nil)) end)) (
      obj (
        field "l"
          (obj (field "$insert" (arr (cons (arr (cons (number 0) (cons (text "x") nil))) nil)) end))
          end))
    ≡ some (obj (field "l" (arr (cons (text "x") (cons (number 0) nil))) end))
unfolding apply_diff unmarshal apply
insert_edit = refl

replaced :
    apply_diff
      (obj (field "a" (number 1) end))
      (obj (field "$replace" (obj (field "c" (number 3) end)) end))
    ≡ some (obj (field "c" (number 3) end))
unfolding apply_diff unmarshal apply
replaced = refl

bad_index :
    apply_diff
      (obj (field "l" (arr nil) end))
      (obj (field "l" (obj (field "0" (number 7) end)) end))
    ≡ none
unfolding apply_diff unmarshal apply
bad_index = refl
