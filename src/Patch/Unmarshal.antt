-- ===== src/Patch/Unmarshal.antt =====
-- `unmarshal` leaves plain values alone, and its dicts are read entry by entry.
use kanta.Base.{String, ◌≡◌, refl, ap, sym, false, arith, eq_iff}
use kanta.Value.{
  Value, Items, Fields, null, num, text, arr, obj, nil, cons, end, field, has_key, insert, IsDict,
  AllDicts, UniqueKeys,
}
use kanta.Value.Dict.{has_key-insert}
use kanta.Diff.{starts_two_dollars}
use kanta.Patch.{unescape, unmarshal, unmarshal_items, unmarshal_fields}
use kanta.Patch.Survives.{IsPlain, AllPlain, PlainFields}

unfoldable pub append : Fields → Fields → Fields
append end gs = gs
append (field k v fs) gs = field k v (append fs gs)

pub append-end : (fs : Fields) → append fs end ≡ fs
unfolding append
append-end end = refl
append-end (field k v fs) = ap (field k v) (append-end fs)

pub append_field :
    (fs gs : Fields) (k : String) (v : Value)
    → append (append fs (field k v end)) gs ≡ append fs (field k v gs)
unfolding append
append_field end gs k v = refl
append_field (field j w fs) gs k v = ap (field j w) (append_field fs gs k v)

-- A new key goes to the end.
pub insert-append :
    (k : String) (v : Value) (fs : Fields)
    → has_key k fs ≡ false
    → insert k v fs ≡ append fs (field k v end)
unfolding insert append has_key
insert-append k v end h = refl
insert-append k v (field j w fs) h = ground (arith, insert-append k v fs)

-- None of the keys of the second dict is in the first.
abbrev pub AreApart : Fields → Fields → Type 0
AreApart out end = Unit
AreApart out (field k v fs) = (has_key k out ≡ false) × AreApart out fs

pub AreApart-end : (fs : Fields) → AreApart end fs
unfolding has_key
AreApart-end end = tt
AreApart-end (field k v fs) = (refl, AreApart-end fs)

pub AreApart-insert :
    (k : String) (v : Value) (out fs : Fields)
    → has_key k fs ≡ false
    → AreApart out fs
    → AreApart (insert k v out) fs
unfolding has_key
AreApart-insert k v out end h a = tt
AreApart-insert k v out (field j w fs) h a = (
  ground (arith, has_key-insert k j v out, eq_iff k j, eq_iff j k),
  AreApart-insert k v out fs (ground arith) a.1,
)

unescape_plain : (s : String) → starts_two_dollars s ≡ false → unescape s ≡ s
unfolding unescape
unescape_plain s h = rw h

mutual
  unfolding unmarshal append

  plain-value : (v : Value) → IsPlain v → IsDict v → unmarshal v ≡ v
  plain-value null p u = refl
  plain-value (num t n) p u = refl
  plain-value (text s) p u = ap text (unescape_plain s p)
  plain-value (arr xs) p u = ap arr (plain-items xs p u)
  plain-value (obj fs) p u = ap obj (plain-fields fs end p u (AreApart-end fs))

  plain-items : (xs : Items) → AllPlain xs → AllDicts xs → unmarshal_items xs ≡ xs
  plain-items nil p u = refl
  plain-items (cons x xs) p u = cc (plain-value x p.0 u.0, plain-items xs p.1 u.1)

  plain-fields :
      (fs out : Fields)
      → PlainFields fs
      → UniqueKeys fs
      → AreApart out fs
      → unmarshal_fields fs out ≡ append out fs
  plain-fields end out p u a = sym (append-end out)
  plain-fields (field k v fs) out p u a =
      rw
        (
          unescape_plain k p.0,
          plain-value v p.1 u.1,
          plain-fields fs (insert k v out) p.2 u.2 (AreApart-insert k v out fs u.0 a.1),
          insert-append k v out a.0,
        )
        (append_field out fs k v)

-- A plain value is read as it is written.
pub unmarshal-plain : (v : Value) → IsPlain v → IsDict v → unmarshal v ≡ v
unmarshal-plain = plain-value
