-- ===== src/Logging/Header.antt =====
-- logging.py: the headers of changes and of aborted transactions, and what a terminal shows of
-- them.
use kanta.Base.{false, Option, none, some, List, [], ◌∷◌, ◌++◌, ◌≡◌, refl, sym, ap, ◌∙◌}
use mathlib.Core.Path.{subst}
use kanta.Base.ParseInt.{codes}
use kanta.Terminal.{Text}
use kanta.Terminal.Sgr.{Output, parse_sgr}
use kanta.Terminal.Sgr.Look.{blank, state_after}
use kanta.Terminal.Sgr.Readable.{IsReadable, no_token}
use kanta.Terminal.Line.Plain.{has_escape, ArePartsPlain}
use kanta.Terminal.Line.{Line, new_line, arm, call, finish}
use kanta.Terminal.Line.Colored.{Call, run_calls, colored, shown, AreReadable, finish-colored}
use kanta.Logging.{Colors, Highlight, hooked}

module _ (palette : Colors) where
  abbrev pub call_extra : Line → Option Text → Line
  call_extra line none = line
  call_extra line (some []) = line
  call_extra line (some (c ∷ extra)) = call (arm (call line (codes " ")) palette.target) (c ∷ extra)

  abbrev pub call_user : Line → Option Highlight → Option Text → Line
  call_user line highlight none = line
  call_user line highlight (some []) = line
  call_user line highlight (some (c ∷ user)) =
      call (arm (call line (codes " by ")) palette.user)
        (hooked highlight (λ hooks. hooks.meta) (c ∷ user) (codes "user"))

  -- `format_action_header`, with `extra` as a text
  unfoldable pub format_action_header :
      Text → Option Text → Option Text → Option Highlight → List Output
  unfolding call arm finish
  format_action_header action user extra highlight =
      let action' = hooked highlight (λ hooks. hooks.meta) action (codes "action") in
      finish
        (call_user (call_extra (call (arm new_line palette.action) action') extra) highlight user)

  -- `_build_header` of an aborted transaction
  unfoldable pub aborted_header : Text → Option Text → Option Text → Text → List Output
  unfolding call arm finish
  aborted_header action user extra error =
      let line =
        call_user (call_extra (call (arm new_line palette.action) action) extra) none user in
      finish (call line (codes " transaction aborted: " ++ error))

  abbrev pub extra_calls : Option Text → List Call
  extra_calls none = []
  extra_calls (some []) = []
  extra_calls (some (c ∷ extra)) = ([], codes " ") ∷ (palette.target, c ∷ extra) ∷ []

  abbrev pub user_calls : Option Text → List Call
  user_calls none = []
  user_calls (some []) = []
  user_calls (some (c ∷ user)) = ([], codes " by ") ∷ (palette.user, c ∷ user) ∷ []

  -- the action, then the extra and the user where they are not empty, each text with its color
  abbrev pub header_calls : Text → Option Text → Option Text → List Call
  header_calls action user extra = (palette.action, action) ∷ (extra_calls extra ++ user_calls user)

-- a text, where there is one, has no escape character
abbrev pub IsPlain : Option Text → Type 0
IsPlain none = Unit
IsPlain (some t) = has_escape t ≡ false

arm-unchanged : (line : Line) → line.pending ≡ [] → arm line [] ≡ line
unfolding arm parse_sgr
arm-unchanged line h = λ i. record line { pending = sym h i }

run_calls-append :
    (line : Line) (xs ys : List Call) → run_calls line (xs ++ ys) ≡ run_calls (run_calls line xs) ys
run_calls-append line [] ys = refl
run_calls-append line ((spec, t) ∷ xs) ys = run_calls-append (call (arm line spec) t) xs ys

call-pending : (line : Line) (t : Text) → (call line t).pending ≡ []
unfolding call
call-pending line t = refl

module _ (palette : Colors) where
  call_extra-calls :
      (line : Line) (extra : Option Text)
      → line.pending ≡ []
      → call_extra palette line extra ≡ run_calls line (extra_calls palette extra)
  call_extra-calls line none h = refl
  call_extra-calls line (some []) h = refl
  call_extra-calls line (some (c ∷ extra)) h =
      ap (λ l. call (arm (call l (codes " ")) palette.target) (c ∷ extra))
        (sym (arm-unchanged line h))

  call_user-calls :
      (line : Line) (user : Option Text)
      → line.pending ≡ []
      → call_user palette line none user ≡ run_calls line (user_calls palette user)
  call_user-calls line none h = refl
  call_user-calls line (some []) h = refl
  call_user-calls line (some (c ∷ user)) h =
      ap (λ l. call (arm (call l (codes " by ")) palette.user) (c ∷ user))
        (sym (arm-unchanged line h))

  call_extra-pending :
      (line : Line) (extra : Option Text)
      → line.pending ≡ []
      → (call_extra palette line extra).pending ≡ []
  call_extra-pending line none h = h
  call_extra-pending line (some []) h = h
  call_extra-pending line (some (c ∷ extra)) h =
      call-pending (arm (call line (codes " ")) palette.target) (c ∷ extra)

  format_action_header-calls :
      (action : Text) (user extra : Option Text)
      → format_action_header palette action user extra none
        ≡ finish (run_calls new_line (header_calls palette action user extra))
  unfolding format_action_header
  format_action_header-calls action user extra =
      let line = call (arm new_line palette.action) action in
      let ready = call-pending (arm new_line palette.action) action in
      ap finish (
        call_user-calls (call_extra palette line extra) user (call_extra-pending line extra ready)
        ∙ ap (λ l. run_calls l (user_calls palette user)) (call_extra-calls line extra ready)
        ∙ sym (run_calls-append line (extra_calls palette extra) (user_calls palette user)))

  -- the specs of the header's colors are readable
  abbrev pub IsHeaderPalette : Type 0
  IsHeaderPalette = IsReadable palette.action × IsReadable palette.target × IsReadable palette.user

  AreReadable-append :
      (xs ys : List Call) → AreReadable xs → AreReadable ys → AreReadable (xs ++ ys)
  AreReadable-append [] ys hx hy = hy
  AreReadable-append (c ∷ xs) ys (here, plain, rest) hy =
      (here, plain, AreReadable-append xs ys rest hy)

  extra_calls-AreReadable :
      (extra : Option Text)
      → IsHeaderPalette
      → IsPlain extra
      → AreReadable (extra_calls palette extra)
  extra_calls-AreReadable none h plain = tt
  extra_calls-AreReadable (some []) h plain = tt
  extra_calls-AreReadable (some (c ∷ extra)) h plain = (no_token, refl, (h.1, plain, tt))

  user_calls-AreReadable :
      (user : Option Text) → IsHeaderPalette → IsPlain user → AreReadable (user_calls palette user)
  user_calls-AreReadable none h plain = tt
  user_calls-AreReadable (some []) h plain = tt
  user_calls-AreReadable (some (c ∷ user)) h plain = (no_token, refl, (h.2, plain, tt))

  -- Let the colors of a header hold only resets, colors and attributes of the code's tables, and
  -- colors of the 256 by their number, and let neither the action nor the extra text nor the user
  -- have an escape character. Then, without a highlighter, a terminal shows a header of a change as
  -- the action in its color; behind it, where there is an extra text that is not empty, a blank and
  -- that text in its color; and behind these, where there is a user that is not empty, " by " and
  -- the user in its color; a color being what its spec has on a terminal. The terminal is left as
  -- it was, and the only escape characters of the header are those of its sequences.
  pub format_action_header-shown :
      (action : Text) (user extra : Option Text)
      → IsHeaderPalette
      → has_escape action ≡ false
      → IsPlain extra
      → IsPlain user
      → (shown blank (format_action_header palette action user extra none)
          ≡ colored (header_calls palette action user extra))
        × (state_after blank (format_action_header palette action user extra none) ≡ blank)
        × ArePartsPlain (format_action_header palette action user extra none)
  format_action_header-shown action user extra readable plain plain_extra plain_user =
      subst
        (λ (outputs : List Output).
          (shown blank outputs ≡ colored (header_calls palette action user extra))
          × (state_after blank outputs ≡ blank)
          × ArePartsPlain outputs)
        (sym (format_action_header-calls action user extra))
        (finish-colored (header_calls palette action user extra) (
          readable.0,
          plain,
          AreReadable-append (extra_calls palette extra) (user_calls palette user)
              (extra_calls-AreReadable extra readable plain_extra)
              (user_calls-AreReadable user readable plain_user),
        ))
