-- ===== src/Prelude/Sets.antt =====
-- JavaScript's sets of ids, as the services build and ask them.
use mathlib.Core.Path.{◌≡◌, refl, sym, ap, ◌∙◌}
use mathlib.Core.Logic.{inl, inr}
use mathlib.Core.Bool.{Bool, true, ◌&&◌, ◌||◌}
use mathlib.Core.List.{List, [], ◌∷◌, ◌++◌, map}
use Prim.Native.Nat.{ℕ}
use native.Mathlib.Omega.{arith}
use rideway_api.Prelude.Tests.{◌==◌, ltb, if◌then◌else◌, Bool-cases, eq_of_==}
use rideway_api.Prelude.Lists.{any, count_if}

abbrev pub contains : List ℕ → ℕ → Bool
contains ids i = any (λ j. j == i) ids

-- `set.add(id)` for each of the ids
abbrev pub add_to_set : List ℕ → List ℕ → List ℕ
add_to_set [] set = set
add_to_set (i ∷ ids) set = add_to_set ids (if contains set i then set else set ++ i ∷ [])

module _ {ℓ} {A : Type ℓ} where
  pub any-count_if : (p : A → Bool) (xs : List A) → any p xs ≡ ltb 0 (count_if p xs)
  any-count_if p [] = refl
  any-count_if p (x ∷ xs) = elim (Bool-cases (p x)) [
    | inl t ↦ ground (arith, t)
    | inr f ↦ ground (arith, f, any-count_if p xs)
  ]

  any_append : (p : A → Bool) (xs ys : List A) → any p (xs ++ ys) ≡ (any p xs || any p ys)
  any_append p [] ys = refl
  any_append p (x ∷ xs) ys = elim (Bool-cases (p x)) [
    | inl t ↦ rw t refl
    | inr f ↦ rw f (any_append p xs ys)
  ]

  pub any-or : (p q : A → Bool) (xs : List A) → any (λ x. p x || q x) xs ≡ (any p xs || any q xs)
  any-or p q [] = refl
  any-or p q (x ∷ xs) = ground (arith, any-or p q xs)

  pub any-and : (p : A → Bool) (c : Bool) (xs : List A) → any (λ x. p x && c) xs ≡ (any p xs && c)
  any-and p c [] = refl
  any-and p c (x ∷ xs) = ground (arith, any-and p c xs)

  pub any-map {κ} :
      {B : Type κ} (p : B → Bool) (f : A → B) (xs : List A)
      → any p (map f xs) ≡ any (λ x. p (f x)) xs
  any-map p f [] = refl
  any-map p f (x ∷ xs) = ap (λ (b : Bool). p (f x) || b) (any-map p f xs)

-- A set holds what it held and what was added.
pub contains-add_to_set :
    (ids set : List ℕ) (i : ℕ)
    → contains (add_to_set ids set) i ≡ (contains set i || contains ids i)
contains-add_to_set [] set i = ground arith
contains-add_to_set (j ∷ ids) set i = elim (Bool-cases (contains set j)) [
  | inl t ↦ elim (Bool-cases (j == i)) [
    | inr other ↦
        ap (λ (k : List ℕ). contains (add_to_set ids k) i) (rw t refl)
        ∙ contains-add_to_set ids set i
        ∙ ground (arith, other)
    | inl same ↦
        let here : contains set i ≡ true = ap (contains set) (sym (eq_of_== j i same)) ∙ t in
        ap (λ (k : List ℕ). contains (add_to_set ids k) i) (rw t refl)
        ∙ contains-add_to_set ids set i
        ∙ ground (arith, here)
  ]
  | inr f ↦
      ap (λ (k : List ℕ). contains (add_to_set ids k) i) (rw f refl)
      ∙ contains-add_to_set ids (set ++ j ∷ []) i
      ∙ ap (λ (b : Bool). b || contains ids i) (any_append (λ k. k == i) set (j ∷ []))
      ∙ ground arith
]
