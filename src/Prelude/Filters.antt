-- ===== src/Prelude/Filters.antt =====
-- Filtered lists up to the order of their elements.
use mathlib.Core.Path.{◌≡◌, refl, sym, ap, ◌∙◌}
use mathlib.Core.Logic.{inl, inr, ∥∥₁_map}
use mathlib.Core.Logic.Or
use mathlib.Core.Bool.{Bool, true, false, not}
use mathlib.Core.List.{List, [], ◌∷◌, Perm, Permᴰ, Mem, mem-cons}
use mathlib.Core.List.Perm
use mathlib.Core.List.Permᴰ
use rideway_api.Prelude.Tests.{Bool-cases}
use rideway_api.Prelude.Lists.{filter}

filter-Permᴰ :
    {A : Type 0} (p : A → Bool) {xs ys : List A} → Permᴰ xs ys → Permᴰ (filter p xs) (filter p ys)
filter-Permᴰ p Permᴰ.nil = Permᴰ.nil
filter-Permᴰ p (Permᴰ.cons {a = a} {b = b} e h) = elim (Bool-cases (p b)) [
  | inl t ↦ rw (ap p e ∙ t, t) (Permᴰ.cons e (filter-Permᴰ p h))
  | inr f ↦ rw (ap p e ∙ f, f) (filter-Permᴰ p h)
]
filter-Permᴰ p (Permᴰ.swap {a = a} {b = b} {a' = a'} {b' = b'} {l = l} e e') =
    elim (Bool-cases (p a')) [
      | inl t ↦ elim (Bool-cases (p b')) [
        | inl t' ↦ rw (ap p e ∙ t', ap p e' ∙ t, t, t') (Permᴰ.swap e e')
        | inr f' ↦ rw (ap p e ∙ f', ap p e' ∙ t, t, f') (Permᴰ.cons e' (Permᴰ.refl (filter p l)))
      ]
      | inr f ↦ elim (Bool-cases (p b')) [
        | inl t' ↦ rw (ap p e ∙ t', ap p e' ∙ f, f, t') (Permᴰ.cons e (Permᴰ.refl (filter p l)))
        | inr f' ↦ rw (ap p e ∙ f', ap p e' ∙ f, f, f') (Permᴰ.refl (filter p l))
      ]
    ]
filter-Permᴰ p (Permᴰ.trans h k) = Permᴰ.trans (filter-Permᴰ p h) (filter-Permᴰ p k)

pub filter-Perm :
    {A : Type 0} (p : A → Bool) {xs ys : List A} → Perm xs ys → Perm (filter p xs) (filter p ys)
filter-Perm p {xs} {ys} h =
    ∥∥₁_map {B = Permᴰ (filter p xs) (filter p ys)} h (λ d. filter-Permᴰ p d)

pub Perm-of : {A : Type 0} {xs ys : List A} → xs ≡ ys → Perm xs ys
Perm-of {xs} e = rw (sym e) (Perm.refl xs)

-- Filtering by what all of the chosen rows satisfy anyway.
pub filter-kept :
    {A : Type 0} (p q : A → Bool) (rows : List A)
    → ((x : A) → Mem x rows → p x ≡ true → q x ≡ false)
    → filter p (filter (λ x. not (q x)) rows) ≡ filter p rows
filter-kept p q [] h = refl
filter-kept p q (x ∷ rows) h =
    let rest = filter-kept p q rows (λ y m. h y (mem-cons.1 (Or.inr m))) in
    elim (Bool-cases (p x)) [
      | inl t ↦ rw (h x (mem-cons.1 (Or.inl refl)) t, t) (ap (λ l. x ∷ l) rest)
      | inr f ↦ elim (Bool-cases (q x)) [
        | inl gone ↦ rw (gone, f) rest
        | inr kept ↦ rw (kept, f) rest
      ]
    ]
