-- ===== src/Terminal/Line/Colored.antt =====
-- What a terminal shows of a line that is built call by call.
use kanta.Base.{
  ℕ, List, [], ◌∷◌, ◌++◌, append_assoc, append-nil, map, ◌≡◌, refl, sym, ap, ◌∙◌, if-cases, false,
}
use mathlib.Core.Path.{subst}
use kanta.Base.ParseInt.{codes}
use kanta.Terminal.{Text}
use kanta.Terminal.Sgr.{
  Sgr, get, Output, part, sequence, sgr_eq, loses_key, changed, if_any, sgr_transition, parse_sgr,
  is_empty,
}
use kanta.Terminal.Sgr.Look.{
  Look, blank, look, state_after, read_from, AllComplete, sgr_transition-look, sgr_eq-look,
  empty-look, reset-read,
}
use kanta.Terminal.Line.{Line, new_line, arm, call, finish}
use kanta.Terminal.Line.Plain.{has_escape, ArePartsPlain, call-ArePartsPlain, finish-ArePartsPlain}
use kanta.Terminal.Sgr.Readable.{IsReadable, parse_sgr-AllComplete, parse_sgr-read}
use kanta.Terminal.Sgr.Unique.{parse_sgr-HasUniqueClasses}

-- each character of the texts with the attributes that it is shown in; a text has no escape
-- characters here
abbrev pub shown : Look → List Output → List (ℕ × Look)
shown T [] = []
shown T (part t ∷ outputs) = map (λ c. (c, T)) t ++ shown T outputs
shown T (sequence tokens ∷ outputs) = shown (read_from 0 T tokens) outputs

shown-append :
    (T : Look) (xs ys : List Output)
    → shown T (xs ++ ys) ≡ shown T xs ++ shown (state_after T xs) ys
shown-append T [] ys = refl
shown-append T (part t ∷ xs) ys =
    ap (λ l. map (λ c. (c, T)) t ++ l) (shown-append T xs ys)
    ∙ sym (append_assoc (map (λ c. (c, T)) t) (shown T xs) (shown (state_after T xs) ys))
shown-append T (sequence tokens ∷ xs) ys = shown-append (read_from 0 T tokens) xs ys

state_after-append :
    (T : Look) (xs ys : List Output) → state_after T (xs ++ ys) ≡ state_after (state_after T xs) ys
state_after-append T [] ys = refl
state_after-append T (part t ∷ xs) ys = state_after-append T xs ys
state_after-append T (sequence tokens ∷ xs) ys = state_after-append (read_from 0 T tokens) xs ys

-- a transition shows no character
IsSilent : List Output → Type 0
IsSilent outputs = (T : Look) → shown T outputs ≡ []

if_any-IsSilent : (tokens : List Text) → IsSilent (if_any tokens)
unfolding IsSilent
if_any-IsSilent [] = λ T. refl
if_any-IsSilent (token ∷ tokens) = λ T. refl

transition-IsSilent : (current new : Sgr) → IsSilent (sgr_transition current new)
unfolding sgr_transition IsSilent
transition-IsSilent current new =
    if-cases IsSilent (sgr_eq current new) (λ same T. refl)
      (λ differ.
        if-cases IsSilent (is_empty new) (λ empty T. refl)
          (λ some_new.
            if-cases IsSilent (is_empty current) (λ empty T. refl)
              (λ some_current.
                if-cases IsSilent (loses_key current new) (λ loses T. refl)
                  (λ kept. if_any-IsSilent (changed current new)))))

-- a call with the spec of its color; a call without one has no parameter
abbrev pub Call : Type 0
Call = List Text × Text

abbrev pub run_calls : Line → List Call → Line
run_calls self [] = self
run_calls self ((spec, t) ∷ calls) = run_calls (call (arm self spec) t) calls

-- every text in the color of its call, which is what a terminal makes of the spec on its own
abbrev pub colored : List Call → List (ℕ × Look)
colored [] = []
colored ((spec, t) ∷ calls) = map (λ c. (c, read_from 0 blank spec)) t ++ colored calls

-- the specs are readable, and no text has an escape character
abbrev pub AreReadable : List Call → Type 0
AreReadable [] = Unit
AreReadable ((spec, t) ∷ calls) = IsReadable spec × (has_escape t ≡ false) × AreReadable calls

-- the terminal shows what the line believes
IsShowing : Line → List (ℕ × Look) → Type 0
IsShowing self seen =
    (shown blank self.parts ≡ seen) × (state_after blank self.parts ≡ look self.active)

shown-part :
    (parts : List Output) (seen : List (ℕ × Look)) (T : Look) (t : Text)
    → shown blank parts ≡ seen
    → state_after blank parts ≡ T
    → shown blank (parts ++ part t ∷ []) ≡ seen ++ map (λ c. (c, T)) t
shown-part parts seen T t h k =
    shown-append blank parts (part t ∷ [])
    ∙ ap (λ l. l ++ shown (state_after blank parts) (part t ∷ [])) h
    ∙ ap (λ L. seen ++ shown L (part t ∷ [])) k
    ∙ ap (λ l. seen ++ l) (append-nil (map (λ c. (c, T)) t))

call-IsShowing :
    (self : Line) (spec : List Text) (t : Text) (seen : List (ℕ × Look))
    → AllComplete (parse_sgr spec)
    → IsShowing self seen
    → IsShowing (call (arm self spec) t) (seen ++ map (λ c. (c, look (parse_sgr spec))) t)
unfolding call arm IsShowing IsSilent
call-IsShowing self spec t seen complete (same, state) =
    let new = parse_sgr spec in
    let changes = sgr_transition self.active new in
    let parts' = self.parts ++ changes in
    let after : state_after blank parts' ≡ look new =
      state_after-append blank self.parts changes
      ∙ ap (λ T. state_after T changes) state
      ∙ sgr_transition-look self.active new complete (parse_sgr-HasUniqueClasses spec) in
    let seen' : shown blank parts' ≡ seen =
      shown-append blank self.parts changes
      ∙ ap (λ l. shown blank self.parts ++ l)
          (transition-IsSilent self.active new (state_after blank self.parts))
      ∙ append-nil (shown blank self.parts)
      ∙ same in
    let shows = λ (l : Line).
      IsShowing (record l { parts = l.parts ++ part t ∷ []; pending = [] })
        (seen ++ map (λ c. (c, look new)) t) in
    if-cases shows (sgr_eq new self.active)
      (λ equal. (
        shown-part self.parts seen (look new) t same
            (state ∙ sym (sgr_eq-look new self.active equal)),
        state_after-append blank self.parts (part t ∷ []) ∙ state,
      ))
      (λ differ. (
        shown-part parts' seen (look new) t seen' after,
        state_after-append blank parts' (part t ∷ []) ∙ after,
      ))

run_calls-IsShowing :
    (calls : List Call) (self : Line) (seen : List (ℕ × Look))
    → AreReadable calls
    → IsShowing self seen
    → IsShowing (run_calls self calls) (seen ++ colored calls)
unfolding IsShowing
run_calls-IsShowing [] self seen readable now = (now.0 ∙ sym (append-nil seen), now.1)
run_calls-IsShowing ((spec, t) ∷ calls) self seen readable now =
    let new = map (λ c. (c, read_from 0 blank spec)) t in
    let here : IsShowing (call (arm self spec) t) (seen ++ new) =
      subst (λ (L : Look). IsShowing (call (arm self spec) t) (seen ++ map (λ c. (c, L)) t))
        (parse_sgr-read spec readable.0)
        (call-IsShowing self spec t seen (parse_sgr-AllComplete spec readable.0) now) in
    let (done, state) =
      run_calls-IsShowing calls (call (arm self spec) t) (seen ++ new) readable.2 here in
    (done ∙ append_assoc seen new (colored calls), state)

run_calls-ArePartsPlain :
    (calls : List Call) (self : Line)
    → AreReadable calls
    → ArePartsPlain self.parts
    → ArePartsPlain (run_calls self calls).parts
unfolding arm
run_calls-ArePartsPlain [] self readable parts = parts
run_calls-ArePartsPlain ((spec, t) ∷ calls) self readable parts =
    run_calls-ArePartsPlain calls (call (arm self spec) t) readable.2
      (call-ArePartsPlain (arm self spec) t readable.1 parts)

-- the finished line leaves the terminal as it was
finish-blank :
    (self : Line) (seen : List (ℕ × Look))
    → IsShowing self seen
    → (shown blank (finish self) ≡ seen) × (state_after blank (finish self) ≡ blank)
unfolding finish IsShowing read_from
finish-blank self seen (same, state) =
    let reset = sequence (codes "0" ∷ []) ∷ [] in
    if-cases (λ outputs. (shown blank outputs ≡ seen) × (state_after blank outputs ≡ blank))
      (is_empty self.active) (λ empty. (same, state ∙ sym (empty-look self.active empty)))
      (λ colors. (
        shown-append blank self.parts reset ∙ append-nil (shown blank self.parts) ∙ same,
        state_after-append blank self.parts reset ∙ reset-read (state_after blank self.parts) [],
      ))

pub finish-colored :
    (calls : List Call)
    → AreReadable calls
    → (shown blank (finish (run_calls new_line calls)) ≡ colored calls)
      × (state_after blank (finish (run_calls new_line calls)) ≡ blank)
      × ArePartsPlain (finish (run_calls new_line calls))
unfolding IsShowing get
finish-colored calls readable =
    let line = run_calls new_line calls in
    let (seen, state) =
      finish-blank line (colored calls)
        (run_calls-IsShowing calls new_line [] readable (refl, refl)) in
    (seen, state, finish-ArePartsPlain line (run_calls-ArePartsPlain calls new_line readable tt))
