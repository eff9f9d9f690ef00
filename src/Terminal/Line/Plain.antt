-- ===== src/Terminal/Line/Plain.antt =====
-- The texts of a line that is built call by call: the only escape characters of the line are those
-- of its sequences.
use kanta.Base.{Bool, false, ◌||◌, ◌==◌, List, [], ◌∷◌, ◌++◌, ◌≡◌, if-cases}
use kanta.Base.ParseInt.{codes}
use kanta.Terminal.{Text, escape_code}
use kanta.Terminal.Sgr.{
  Sgr, Output, part, sequence, sgr_eq, loses_key, changed, if_any, sgr_transition, is_empty,
}
use kanta.Terminal.Line.{Line, call, finish}

abbrev pub has_escape : Text → Bool
has_escape [] = false
has_escape (c ∷ t) = c == escape_code || has_escape t

-- no text has an escape character
abbrev pub ArePartsPlain : List Output → Type 0
ArePartsPlain [] = Unit
ArePartsPlain (part t ∷ outputs) = (has_escape t ≡ false) × ArePartsPlain outputs
ArePartsPlain (sequence tokens ∷ outputs) = ArePartsPlain outputs

ArePartsPlain-append :
    (xs ys : List Output) → ArePartsPlain xs → ArePartsPlain ys → ArePartsPlain (xs ++ ys)
ArePartsPlain-append [] ys hx hy = hy
ArePartsPlain-append (part t ∷ xs) ys hx hy = (hx.0, ArePartsPlain-append xs ys hx.1 hy)
ArePartsPlain-append (sequence tokens ∷ xs) ys hx hy = ArePartsPlain-append xs ys hx hy

if_any-plain : (tokens : List Text) → ArePartsPlain (if_any tokens)
if_any-plain [] = tt
if_any-plain (token ∷ tokens) = tt

transition-ArePartsPlain : (current new : Sgr) → ArePartsPlain (sgr_transition current new)
unfolding sgr_transition
transition-ArePartsPlain current new =
    if-cases ArePartsPlain (sgr_eq current new) (λ same. tt)
      (λ differ.
        if-cases ArePartsPlain (is_empty new) (λ empty. tt)
          (λ some_new.
            if-cases ArePartsPlain (is_empty current) (λ empty. tt)
              (λ some_current.
                if-cases ArePartsPlain (loses_key current new) (λ loses. tt)
                  (λ kept. if_any-plain (changed current new)))))

pub call-ArePartsPlain :
    (self : Line) (t : Text)
    → has_escape t ≡ false
    → ArePartsPlain self.parts
    → ArePartsPlain (call self t).parts
unfolding call
call-ArePartsPlain self t plain parts =
    let added =
      ArePartsPlain-append self.parts (sgr_transition self.active self.pending) parts
        (transition-ArePartsPlain self.active self.pending) in
    if-cases (λ (l : Line). ArePartsPlain (l.parts ++ part t ∷ []))
      (sgr_eq self.pending self.active)
      (λ same. ArePartsPlain-append self.parts (part t ∷ []) parts (plain, tt))
      (λ differ.
        ArePartsPlain-append (self.parts ++ sgr_transition self.active self.pending) (part t ∷ [])
          added (plain, tt))

pub finish-ArePartsPlain : (self : Line) → ArePartsPlain self.parts → ArePartsPlain (finish self)
unfolding finish
finish-ArePartsPlain self parts =
    if-cases ArePartsPlain (is_empty self.active) (λ empty. parts)
      (λ colors. ArePartsPlain-append self.parts (sequence (codes "0" ∷ []) ∷ []) parts tt)
