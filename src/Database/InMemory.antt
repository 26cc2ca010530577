-- ===== src/Database/InMemory.antt =====
-- A database that keeps its tables as lists in order of insertion: the laws of `Orm` can be met.
use mathlib.Core.Path.{subst}
use mathlib.Core.Bool.{Bool-set}
use mathlib.Core.Option.{some-injective}
use mathlib.Core.Logic.Or
use mathlib.Core.List.{Mem, Perm, mem-cons, not-mem-nil}
use mathlib.Core.List.Perm
use rideway_api.Prelude.{
  ◌≡◌, refl, sym, ap, ◌∙◌, inl, inr, Bool, true, false, not, Option, none, some, List, [], ◌∷◌, map,
  filter, count_if, if◌then◌else◌, Bool-cases,
}
use rideway_api.Database.{Orm, Every}

module _ {E : Type 0} where
  abbrev pub first : (E → Bool) → List E → Option E
  first p [] = none
  first p (e ∷ rows) = if p e then some e else first p rows

  abbrev pub put : (E → E → Bool) → E → List E → List E
  put order e [] = e ∷ []
  put order e (x ∷ rows) = if order e x then e ∷ x ∷ rows else x ∷ put order e rows

  abbrev pub sort : (E → E → Bool) → List E → List E
  sort order [] = []
  sort order (e ∷ rows) = put order e (sort order rows)

  pub first-some :
      (p : E → Bool) (rows : List E) {e : E} → first p rows ≡ some e → Mem e rows × (p e ≡ true)
  first-some p [] h = cc
  first-some p (x ∷ rows) {e} h = elim (Bool-cases (p x)) [
    | inl t ↦
        let same : x ≡ e = some-injective x e (rw t at h) in
        (mem-cons.1 (Or.inl (sym same)), ap p (sym same) ∙ t)
    | inr f ↦ let (here, holds) = first-some p rows (rw f at h) in (mem-cons.1 (Or.inr here), holds)
  ]

  pub first-none :
      (p : E → Bool) (rows : List E) → first p rows ≡ none → (e : E) → Mem e rows → p e ≡ false
  first-none p [] h e m = absurd (not-mem-nil m)
  first-none p (x ∷ rows) h e m = elim (Bool-cases (p x)) [
    | inl t ↦ let bad : some x ≡ none = rw t at h in cc
    | inr f ↦
        Or.elim (Bool-set _ _) (mem-cons.0 m) (λ s. ap p s ∙ f) (first-none p rows (rw f at h) e)
  ]

  put-perm : (order : E → E → Bool) (e : E) (rows : List E) → Perm (put order e rows) (e ∷ rows)
  put-perm order e [] = Perm.refl _
  put-perm order e (x ∷ rows) = elim (Bool-cases (order e x)) [
    | inl t ↦ rw t (Perm.refl _)
    | inr f ↦ rw f (Perm.trans (Perm.cons x (put-perm order e rows)) (Perm.swap e x rows))
  ]

  pub sort-perm : (order : E → E → Bool) (rows : List E) → Perm (sort order rows) rows
  sort-perm order [] = Perm.refl _
  sort-perm order (e ∷ rows) =
      Perm.trans (put-perm order e (sort order rows)) (Perm.cons e (sort-perm order rows))

abbrev pub in_memory : Orm
in_memory = record {
  find_one = first;
  find = λ p order rows. sort order (filter p rows);
  count = count_if;
  insert = λ e rows. e ∷ rows;
  update = λ p f rows. map (λ e. if p e then f e else e) rows;
  delete = λ p rows. filter (λ e. not (p e)) rows;
  find_one-some = first-some;
  find_one-none = first-none;
  find-perm = λ p order rows. sort-perm order (filter p rows);
  count_lem = λ p rows. refl;
  insert-perm = λ e rows. Perm.refl _;
  update-perm = λ p f rows. Perm.refl _;
  delete-perm = λ p rows. Perm.refl _;
}

-- Concrete tables, row by row.
pub Every-nil {ℓ} : {E : Type 0} (P : E → Type ℓ) → Every P []
Every-nil P e m = absurd (not-mem-nil m)

pub Every-cons {ℓ} :
    {E : Type 0} {P : E → Type ℓ} {x : E} {rows : List E}
    → ((e : E) → IsProp (P e))
    → P x
    → Every P rows
    → Every P (x ∷ rows)
Every-cons {P} prop here rest e m =
    Or.elim (prop e) (mem-cons.0 m) (λ s. subst P (sym s) here) (rest e)
