-- ===== src/Prelude/Lists.antt =====
-- Lists under Boolean tests, measured by native numbers.
use Prim.Native.Nat.{ℕ, zero, suc, ◌+◌, ◌-◌, ◌≤◌, min}
use mathlib.Core.Path.{◌≡◌, refl, sym, ap, ◌∙◌}
use mathlib.Core.Logic.{∥∥₁_elim, inl, inr}
use mathlib.Core.Logic.Or
use mathlib.Core.HLevel.{×_prop}
use mathlib.Core.Bool.{Bool, Bool-set, true, false, ◌&&◌, ◌||◌, not}
use mathlib.Core.List.{List, [], ◌∷◌, map, Perm, Permᴰ, Mem, Mem-prop, not-mem-nil, mem-cons}
use native.Mathlib.Omega.{arith}
use native.Mathlib.Nat.{ℕ_set}
use native.Mathlib.Bridge.{le_prop}
use rideway_api.Prelude.Tests.{bit, if◌then◌else◌, Bool-cases}

module _ {ℓ} {A : Type ℓ} where
  abbrev pub length : List A → ℕ
  length [] = 0
  length (x ∷ xs) = suc (length xs)

  abbrev pub take : ℕ → List A → List A
  take zero xs = []
  take (suc n) [] = []
  take (suc n) (x ∷ xs) = x ∷ take n xs

  abbrev pub drop : ℕ → List A → List A
  drop zero xs = xs
  drop (suc n) [] = []
  drop (suc n) (x ∷ xs) = drop n xs

  abbrev pub filter : (A → Bool) → List A → List A
  filter p [] = []
  filter p (x ∷ xs) = if p x then x ∷ filter p xs else filter p xs

  abbrev pub any : (A → Bool) → List A → Bool
  any p [] = false
  any p (x ∷ xs) = p x || any p xs

  abbrev pub sum_of : (A → ℕ) → List A → ℕ
  sum_of f [] = 0
  sum_of f (x ∷ xs) = f x + sum_of f xs

  -- How many elements pass the test.
  abbrev pub count_if : (A → Bool) → List A → ℕ
  count_if p = sum_of (λ x. bit (p x))

module _ {ℓ} {A : Type ℓ} where
  pub length-take : (n : ℕ) (xs : List A) → length (take n xs) ≡ min n (length xs)
  length-take zero xs = omega arith
  length-take (suc n) [] = omega arith
  length-take (suc n) (x ∷ xs) = omega (arith, length-take n xs)

  pub length-drop : (n : ℕ) (xs : List A) → length (drop n xs) ≡ length xs - n
  length-drop zero xs = omega arith
  length-drop (suc n) [] = omega arith
  length-drop (suc n) (x ∷ xs) = omega (arith, length-drop n xs)

  pub length-filter : (p : A → Bool) (xs : List A) → length (filter p xs) ≡ count_if p xs
  length-filter p [] = refl
  length-filter p (x ∷ xs) = ground (arith, length-filter p xs)

  pub count_if-filter :
      (p q : A → Bool) (xs : List A) → count_if p (filter q xs) ≡ count_if (λ x. p x && q x) xs
  count_if-filter p q [] = refl
  count_if-filter p q (x ∷ xs) = ground (arith, count_if-filter p q xs)

  -- A pointwise bound sums up.
  pub count_if_mono :
      (p q : A → Bool) (xs : List A)
      → ((x : A) → bit (p x) ≤ bit (q x))
      → count_if p xs ≤ count_if q xs
  count_if_mono p q [] h = omega arith
  count_if_mono p q (x ∷ xs) h = omega (arith, h x, count_if_mono p q xs h)

  pub count_if_split :
      (p q : A → Bool) (xs : List A)
      → count_if p xs ≡ count_if (λ x. p x && q x) xs + count_if (λ x. p x && not (q x)) xs
  count_if_split p q [] = omega arith
  count_if_split p q (x ∷ xs) = ground (arith, count_if_split p q xs)

  pub count_if_congr :
      (p q : A → Bool) (xs : List A) → ((x : A) → p x ≡ q x) → count_if p xs ≡ count_if q xs
  count_if_congr p q [] h = refl
  count_if_congr p q (x ∷ xs) h = ground (arith, h x, count_if_congr p q xs h)

  -- The rows of the list suffice.
  pub count_if_congr_mem :
      (p q : A → Bool) (xs : List A)
      → ((x : A) → Mem x xs → p x ≡ q x)
      → count_if p xs ≡ count_if q xs
  count_if_congr_mem p q [] h = refl
  count_if_congr_mem p q (x ∷ xs) h = omega (
    arith,
    ap bit (h x (mem-cons.1 (Or.inl refl))),
    count_if_congr_mem p q xs (λ y m. h y (mem-cons.1 (Or.inr m))),
  )

  Permᴰ-sum_of : (f : A → ℕ) {xs ys : List A} → Permᴰ xs ys → sum_of f xs ≡ sum_of f ys
  Permᴰ-sum_of f Permᴰ.nil = refl
  Permᴰ-sum_of f (Permᴰ.cons e h) = omega (arith, ap f e, Permᴰ-sum_of f h)
  Permᴰ-sum_of f (Permᴰ.swap e e') = omega (arith, ap f e, ap f e')
  Permᴰ-sum_of f (Permᴰ.trans h k) = Permᴰ-sum_of f h ∙ Permᴰ-sum_of f k

  -- A sum does not see the order of the rows.
  pub Perm-sum_of : (f : A → ℕ) {xs ys : List A} → Perm xs ys → sum_of f xs ≡ sum_of f ys
  Perm-sum_of f h = ∥∥₁_elim h (ℕ_set _ _) (λ d. Permᴰ-sum_of f d)

  -- Two exclusive tests that both imply a third.
  pub count_if_add :
      (p q r : A → Bool) (xs : List A)
      → ((x : A) → bit (p x) + bit (q x) ≤ bit (r x))
      → count_if p xs + count_if q xs ≤ count_if r xs
  count_if_add p q r [] h = omega arith
  count_if_add p q r (x ∷ xs) h = omega (arith, h x, count_if_add p q r xs h)

  -- A test that is at most two others together.
  pub count_if_cover :
      (p q r : A → Bool) (xs : List A)
      → ((x : A) → bit (p x) ≤ bit (q x) + bit (r x))
      → count_if p xs ≤ count_if q xs + count_if r xs
  count_if_cover p q r [] h = omega arith
  count_if_cover p q r (x ∷ xs) h = omega (arith, h x, count_if_cover p q r xs h)

  pub count_if-pos_of_mem :
      (p : A → Bool) {a : A} (xs : List A) → Mem a xs → p a ≡ true → 1 ≤ count_if p xs
  count_if-pos_of_mem p [] m h = absurd (not-mem-nil m)
  count_if-pos_of_mem p (x ∷ xs) m h =
      Or.elim le_prop (mem-cons.0 m) (λ e. omega (arith, ap bit (ap p (sym e) ∙ h)))
        (λ k. omega (arith, count_if-pos_of_mem p xs k h))

  pub count_if-zero_of_none :
      (p : A → Bool) (xs : List A) → ((x : A) → Mem x xs → p x ≡ false) → count_if p xs ≡ 0
  count_if-zero_of_none p [] h = refl
  count_if-zero_of_none p (x ∷ xs) h = omega (
    arith,
    ap bit (h x (mem-cons.1 (Or.inl refl))),
    count_if-zero_of_none p xs (λ y m. h y (mem-cons.1 (Or.inr m))),
  )

  pub count_if-map {κ} :
      {B : Type κ} (p : B → Bool) (f : A → B) (xs : List A)
      → count_if p (map f xs) ≡ count_if (λ x. p (f x)) xs
  count_if-map p f [] = refl
  count_if-map p f (x ∷ xs) = ap (λ (n : ℕ). bit (p (f x)) + n) (count_if-map p f xs)

  pub mem-filter_if :
      (p : A → Bool) {a : A} (xs : List A) → Mem a (filter p xs) → Mem a xs × (p a ≡ true)
  mem-filter_if p [] m = absurd (not-mem-nil m)
  mem-filter_if p (x ∷ xs) m = elim (Bool-cases (p x)) [
    | inl t ↦
        Or.elim (×_prop Mem-prop (Bool-set _ _)) (mem-cons.0 (rw t at m))
          (λ e. (mem-cons.1 (Or.inl e), ap p e ∙ t))
          (λ k. let (here, holds) = mem-filter_if p xs k in (mem-cons.1 (Or.inr here), holds))
    | inr f ↦
        let (here, holds) = mem-filter_if p xs (rw f at m) in (mem-cons.1 (Or.inr here), holds)
  ]

  pub length-eq-sum_of : (xs : List A) → length xs ≡ sum_of (λ _. 1) xs
  length-eq-sum_of [] = refl
  length-eq-sum_of (x ∷ xs) = omega (arith, length-eq-sum_of xs)

  pub mem-take : (n : ℕ) {a : A} (xs : List A) → Mem a (take n xs) → Mem a xs
  mem-take zero xs m = absurd (not-mem-nil m)
  mem-take (suc n) [] m = absurd (not-mem-nil m)
  mem-take (suc n) (x ∷ xs) m =
      Or.elim Mem-prop (mem-cons.0 m) (λ e. mem-cons.1 (Or.inl e))
        (λ k. mem-cons.1 (Or.inr (mem-take n xs k)))

  pub mem-drop : (n : ℕ) {a : A} (xs : List A) → Mem a (drop n xs) → Mem a xs
  mem-drop zero xs m = m
  mem-drop (suc n) [] m = m
  mem-drop (suc n) (x ∷ xs) m = mem-cons.1 (Or.inr (mem-drop n xs m))

  pub length-map {κ} : {B : Type κ} (f : A → B) (xs : List A) → length (map f xs) ≡ length xs
  length-map f [] = refl
  length-map f (x ∷ xs) = ap suc (length-map f xs)

-- Sums over the rows of a list.
module _ {ℓ} {A : Type ℓ} where
  pub sum_of_congr :
      (f g : A → ℕ) (xs : List A) → ((x : A) → Mem x xs → f x ≡ g x) → sum_of f xs ≡ sum_of g xs
  sum_of_congr f g [] h = refl
  sum_of_congr f g (x ∷ xs) h = omega (
    arith,
    h x (mem-cons.1 (Or.inl refl)),
    sum_of_congr f g xs (λ y m. h y (mem-cons.1 (Or.inr m))),
  )

  pub sum_of-map :
      (f : A → ℕ) (g : A → A) (xs : List A) → sum_of f (map g xs) ≡ sum_of (λ x. f (g x)) xs
  sum_of-map f g [] = refl
  sum_of-map f g (x ∷ xs) = omega (arith, sum_of-map f g xs)

  pub sum_of-filter :
      (f : A → ℕ) (p : A → Bool) (xs : List A)
      → sum_of f (filter p xs) ≡ sum_of (λ x. if p x then f x else 0) xs
  sum_of-filter f p [] = refl
  sum_of-filter f p (x ∷ xs) = ground (arith, sum_of-filter f p xs)
