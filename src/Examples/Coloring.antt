-- ===== src/Examples/Coloring.antt =====
-- A line of two colors.
use kanta.Base.{◌≡◌, refl, List, [], ◌∷◌}
use kanta.Base.ParseInt.{codes}
use kanta.Terminal.Sgr.{Sgr, foreground, attribute, sgr_transition, sequence, color_class, class_of}
use kanta.Terminal.Sgr.Look.{alone, look, state_after, sgr_transition-look}
use kanta.Terminal.Line.Colored.{Call}

-- bold and green, no color, the indexed color 242
abbrev three_calls : List Call
three_calls =
    (codes "1" ∷ codes "32" ∷ [], codes "Al")
    ∷ ([], codes " by ")
    ∷ (codes "38" ∷ codes "5" ∷ codes "242" ∷ [], codes "x")
    ∷ []

abbrev green : Sgr
green = (foreground, codes "32" ∷ []) ∷ []

abbrev bold_blue : Sgr
bold_blue = (attribute (codes "1"), codes "1" ∷ []) ∷ (foreground, codes "34" ∷ []) ∷ []

-- one sequence is enough, with no reset
green-bold_blue : sgr_transition green bold_blue ≡ sequence (codes "1" ∷ codes "34" ∷ []) ∷ []
unfolding sgr_transition
green-bold_blue = refl

sgr_transition-look_example :
    state_after (look green) (sgr_transition green bold_blue) ≡ look bold_blue
unfolding sgr_transition color_class class_of
sgr_transition-look_example =
    sgr_transition-look green bold_blue
      (alone (codes "1") refl refl refl refl, (alone (codes "34") refl refl refl refl, tt))
      (refl, (refl, tt))
