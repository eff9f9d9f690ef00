-- ===== src/Grep/Spans/Painted.antt =====
-- The characters of a text from a position on, each shown as its position is.
use kanta.Base.{
  ℕ, zero, suc, ◌+◌, ◌-◌, ◌≤◌, ◌<◌, Bool, true, false, List, [], ◌∷◌, ◌++◌, length, take, drop, ◌≡◌,
  refl, sym, ◌∙◌, ap, arith, map, length-take, length-drop, take-append-drop,
}
use kanta.Base.Bytes.{slice}
use kanta.Terminal.{Text}

abbrev pub AgreeBetween : ℕ → ℕ → (ℕ → Bool) → (ℕ → Bool) → Type 0
AgreeBetween i j f g = (k : ℕ) → i ≤ k → k < j → f k ≡ g k

drop-none : (n : ℕ) → drop {A = ℕ} n [] ≡ []
drop-none zero = refl
drop-none (suc n) = refl

drop-drop : (m n k : ℕ) (s : Text) → m + n ≡ k → drop n (drop m s) ≡ drop k s
drop-drop zero n k s e = ap (λ j. drop j s) (omega arith)
drop-drop (suc m) n k [] e = drop-none n ∙ sym (drop-none k)
drop-drop (suc m) n zero (c ∷ s) e = absurd (omega arith)
drop-drop (suc m) n (suc k) (c ∷ s) e = drop-drop m n k s (omega arith)

cut-slice : (p s : ℕ) (run : Text) → p ≤ s → drop p run ≡ slice p s run ++ drop s run
unfolding slice
cut-slice p s run h =
    sym (take-append-drop (s - p) (drop p run))
    ∙ ap (λ l. take (s - p) (drop p run) ++ l) (drop-drop p (s - p) s run (omega arith))

slice-length : (p s : ℕ) (run : Text) → p ≤ s → s ≤ length run → length (slice p s run) ≡ s - p
unfolding slice
slice-length p s run h k = length-take (s - p) (drop p run) (omega (arith, length-drop p run))

module _ {A : Type 0} (show : Bool → ℕ → A) where
  abbrev pub painted : (ℕ → Bool) → ℕ → Text → List A
  painted f i [] = []
  painted f i (c ∷ s) = show (f i) c ∷ painted f (suc i) s

  pub painted-append :
      (f : ℕ → Bool) (i : ℕ) (s t : Text)
      → painted f i (s ++ t) ≡ painted f i s ++ painted f (i + length s) t
  painted-append f i [] t = ap (λ k. painted f k t) (omega arith)
  painted-append f i (c ∷ s) t =
      ap (λ l. show (f i) c ∷ l)
        (painted-append f (suc i) s t
          ∙ ap (λ k. painted f (suc i) s ++ painted f k t) (omega arith))

  pub painted-agree :
      (f g : ℕ → Bool) (i : ℕ) (s : Text)
      → AgreeBetween i (i + length s) f g
      → painted f i s ≡ painted g i s
  painted-agree f g i [] h = refl
  painted-agree f g i (c ∷ s) h =
      ap (λ b. show b c ∷ painted f (suc i) s) (h i (omega arith) (omega arith))
      ∙ ap (λ l. show (g i) c ∷ l)
          (painted-agree f g (suc i) s (λ k low high. h k (omega arith) (omega arith)))

  map-painted : (b : Bool) (i : ℕ) (s : Text) → map (show b) s ≡ painted (λ k. b) i s
  map-painted b i [] = refl
  map-painted b i (c ∷ s) = ap (λ l. show b c ∷ l) (map-painted b (suc i) s)

  -- a text that is all in one state
  pub painted-state :
      (f : ℕ → Bool) (b : Bool) (i : ℕ) (s : Text)
      → AgreeBetween i (i + length s) f (λ k. b)
      → painted f i s ≡ map (show b) s
  painted-state f b i s h = painted-agree f (λ k. b) i s h ∙ sym (map-painted b i s)

  -- a text that is in one state to `s`, and in the other one to `e`
  pub painted-split :
      (f g : ℕ → Bool) (i p s e : ℕ) (run : Text)
      → p ≤ s
      → s ≤ e
      → e ≤ length run
      → AgreeBetween (i + p) (i + s) f (λ k. false)
      → AgreeBetween (i + s) (i + e) f (λ k. true)
      → AgreeBetween (i + e) (i + length run) f g
      → painted f (i + p) (drop p run)
        ≡ map (show false) (slice p s run)
          ++ (map (show true) (slice s e run) ++ painted g (i + e) (drop e run))
  painted-split f g i p s e run ps se el dark lit after =
      let x = slice p s run in
      let y = slice s e run in
      let z = drop e run in
      let x_length = slice-length p s run ps (omega arith) in
      let y_length = slice-length s e run se el in
      let parts : drop p run ≡ x ++ (y ++ z) =
        cut-slice p s run ps ∙ ap (λ l. x ++ l) (cut-slice s e run se) in
      ap (painted f (i + p)) parts
      ∙ painted-append f (i + p) x (y ++ z)
      ∙ ap (λ l. l ++ painted f (i + p + length x) (y ++ z))
          (painted-state f false (i + p) x (λ k low high. dark k low (omega arith)))
      ∙ ap (λ l. map (show false) x ++ l)
          (ap (λ k. painted f k (y ++ z)) (omega arith)
            ∙ painted-append f (i + s) y z
            ∙ ap (λ l. l ++ painted f (i + s + length y) z)
                (painted-state f true (i + s) y (λ k low high. lit k low (omega arith)))
            ∙ ap (λ l. map (show true) y ++ l)
                (ap (λ k. painted f k z) (omega arith)
                  ∙ painted-agree f g (i + e) z
                      (λ k low high. after k low (omega (arith, length-drop e run)))))
