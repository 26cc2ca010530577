-- ===== src/Database/Rows.antt =====
-- What the laws of the database say of counts and of all rows.
use mathlib.Core.Path.{subst}
use mathlib.Core.HLevel.{Π_prop}
use mathlib.Core.Logic.{∥∥₁_elim}
use mathlib.Core.Logic.Or
use mathlib.Core.List.{mem-cons, mem-map}
use mathlib.Core.List.Perm
use rideway_api.Prelude.{
  length, length-filter, length-eq-sum_of, mem-take, take, map, filter, List, ℕ, ◌+◌, ◌≤◌, ◌≡◌,
  refl, sym, ap, ◌∙◌, inl, inr, Bool, true, false, not, ◌&&◌, none, some, arith, ◌==◌, bit,
  if◌then◌else◌, Bool-cases, Option-cases, is_some, eq_of_==, ==_true, count_if, count_if-filter,
  count_if-map, count_if_mono, count_if_split, count_if-pos_of_mem, Perm-sum_of,
  count_if-zero_of_none, mem-filter_if, count_if_congr, count_if_add,
}
use rideway_api.Database.{Orm, Every, HasUniqueIds}

module _ (orm : Orm) {E : Type 0} where
  pub count_if-insert :
      (p : E → Bool) (e : E) (rows : List E)
      → count_if p (orm.insert e rows) ≡ bit (p e) + count_if p rows
  count_if-insert p e rows = Perm-sum_of (λ x. bit (p x)) (orm.insert-perm e rows)

  pub count_if-delete :
      (p q : E → Bool) (rows : List E)
      → count_if p (orm.delete q rows) ≡ count_if (λ x. p x && not (q x)) rows
  count_if-delete p q rows =
      Perm-sum_of (λ x. bit (p x)) (orm.delete-perm q rows)
      ∙ count_if-filter p (λ x. not (q x)) rows

  pub count_if-update :
      (p q : E → Bool) (f : E → E) (rows : List E)
      → count_if p (orm.update q f rows) ≡ count_if (λ x. p (if q x then f x else x)) rows
  count_if-update p q f rows =
      Perm-sum_of (λ x. bit (p x)) (orm.update-perm q f rows)
      ∙ count_if-map p (λ x. if q x then f x else x) rows

  -- A change that the test does not see.
  pub count_if-update_same :
      (p q : E → Bool) (f : E → E) (rows : List E)
      → ((x : E) → p (f x) ≡ p x)
      → count_if p (orm.update q f rows) ≡ count_if p rows
  count_if-update_same p q f rows h =
      count_if-update p q f rows
      ∙ count_if_congr _ _ rows (λ x. elim (Bool-cases (q x)) [ inl t ↦ rw t (h x) | inr t ↦ rw t ])

  -- A change that keeps the rows of a test in it.
  pub count_if-update_mono :
      (p q : E → Bool) (f : E → E) (rows : List E)
      → ((x : E) → p x ≡ true → p (if q x then f x else x) ≡ true)
      → count_if p rows ≤ count_if p (orm.update q f rows)
  count_if-update_mono p q f rows h = rw (count_if-update p q f rows) (
      count_if_mono p (λ x. p (if q x then f x else x)) rows
        (λ x. elim (Bool-cases (p x)) [
          | inl t ↦ omega (arith, ap bit t, ap bit (h x t))
          | inr t ↦ omega (arith, ap bit t)
        ]))

  pub count_if-find_one :
      (p q : E → Bool) (rows : List E) {e : E}
      → orm.find_one p rows ≡ some e
      → q e ≡ true
      → 1 ≤ count_if q rows
  count_if-find_one p q rows h k = count_if-pos_of_mem q rows (orm.find_one-some p rows h).0 k

  pub count_if-find_one_none :
      (p : E → Bool) (rows : List E) → orm.find_one p rows ≡ none → count_if p rows ≡ 0
  count_if-find_one_none p rows h = count_if-zero_of_none p rows (orm.find_one-none p rows h)

  pub find_one-is_some :
      (p : E → Bool) (rows : List E) → 1 ≤ count_if p rows → is_some (orm.find_one p rows) ≡ true
  find_one-is_some p rows h = elim (Option-cases (orm.find_one p rows)) [
    | inl missing ↦ absurd (omega (arith, count_if-find_one_none p rows missing))
    | inr (e, found) ↦ rw found
  ]

  pub find_one-is_none :
      (p : E → Bool) (rows : List E) → count_if p rows ≡ 0 → is_some (orm.find_one p rows) ≡ false
  find_one-is_none p rows h = elim (Option-cases (orm.find_one p rows)) [
    | inl missing ↦ rw missing
    | inr (e, found) ↦
        absurd (omega (arith, count_if-find_one p p rows found (orm.find_one-some p rows found).1))
  ]

  module _ {ℓ} {P : E → Type ℓ} where
    pub Every-insert :
        (e : E) (rows : List E)
        → ((x : E) → IsProp (P x))
        → P e
        → Every P rows
        → Every P (orm.insert e rows)
    Every-insert e rows prop here rest x m =
        Or.elim (prop x) (mem-cons.0 ((Perm.mem_iff (orm.insert-perm e rows)).0 m))
          (λ p. subst P (sym p) here) (rest x)

    pub Every-delete : (q : E → Bool) (rows : List E) → Every P rows → Every P (orm.delete q rows)
    Every-delete q rows all x m =
        all x (mem-filter_if (λ e. not (q e)) rows ((Perm.mem_iff (orm.delete-perm q rows)).0 m)).0

    pub Every-find_one :
        (p : E → Bool) (rows : List E) {e : E} → orm.find_one p rows ≡ some e → Every P rows → P e
    Every-find_one p rows {e} h all = all e (orm.find_one-some p rows h).0

  -- The rows that an update leaves alone, and those that it changes.
  pub Every-update {ℓ κ} :
      {P : E → Type ℓ} {Q : E → Type κ} (q : E → Bool) (f : E → E) (rows : List E)
      → ((x : E) → IsProp (Q x))
      → ((x : E) → q x ≡ true → P x → Q (f x))
      → ((x : E) → q x ≡ false → P x → Q x)
      → Every P rows
      → Every Q (orm.update q f rows)
  Every-update {Q} q f rows prop changed kept all x m =
      ∥∥₁_elim (mem-map.0 ((Perm.mem_iff (orm.update-perm q f rows)).0 m)) (prop x) (λ (a, here, e).
        subst Q e (elim (Bool-cases (q a)) [
          | inl t ↦ rw t (changed a t (all a here))
          | inr t ↦ rw t (kept a t (all a here))
        ]))

-- What is found once a row is inserted that alone fits.
pub find_one-insert {ℓ} :
    {E : Type 0} {P : E → Type ℓ} (orm : Orm) (p : E → Bool) (e : E) (rows : List E)
    → ((x : E) → IsProp (P x))
    → count_if p rows ≡ 0
    → p e ≡ true
    → P e
    → (x : E) × (orm.find_one p (orm.insert e rows) ≡ some x) × P x
find_one-insert {P} orm p e rows prop alone fits here =
    elim (Option-cases (orm.find_one p (orm.insert e rows))) [
      | inl missing ↦ absurd (
          omega (
            arith,
            ap bit fits,
            count_if-insert orm p e rows,
            count_if-find_one_none orm p _ missing,
          ))
      | inr (x, found) ↦
          let (m, holds) = orm.find_one-some p _ found in
          (
            x,
            found,
            Every-insert orm {P = λ x. p x ≡ true → P x} e rows (λ x. Π_prop (λ _. prop x))
                (λ _. here)
                (λ x m holds. absurd (omega (arith, alone, count_if-pos_of_mem p rows m holds))) x m
                holds,
          )
    ]

-- The rows that a query answers.
module _ {E : Type 0} where
  pub Every-find :
      (orm : Orm) (p : E → Bool) (order : E → E → Bool) (rows : List E)
      → Every (λ e. p e ≡ true) (orm.find p order rows)
  Every-find orm p order rows e m =
      (mem-filter_if p rows ((Perm.mem_iff (orm.find-perm p order rows)).0 m)).1

  pub length-find :
      (orm : Orm) (p : E → Bool) (order : E → E → Bool) (rows : List E)
      → length (orm.find p order rows) ≡ count_if p rows
  length-find orm p order rows =
      length-eq-sum_of _
      ∙ Perm-sum_of (λ _. 1) (orm.find-perm p order rows)
      ∙ sym (length-eq-sum_of _)
      ∙ length-filter p rows

  module _ {ℓ} {P : E → Type ℓ} where
    pub Every-take : (n : ℕ) (rows : List E) → Every P rows → Every P (take n rows)
    Every-take n rows all e m = all e (mem-take n rows m)

    pub Every-filter :
        (p : E → Bool) (rows : List E)
        → Every P rows
        → Every (λ e. P e × (p e ≡ true)) (filter p rows)
    Every-filter p rows all e m = let (here, holds) = mem-filter_if p rows m in (all e here, holds)

  pub Every-map {ℓ κ} :
      {F : Type 0} {P : E → Type ℓ} {Q : F → Type κ} (f : E → F) (rows : List E)
      → ((x : F) → IsProp (Q x))
      → ((x : E) → P x → Q (f x))
      → Every P rows
      → Every Q (map f rows)
  Every-map {Q} f rows prop keep all x m =
      ∥∥₁_elim (mem-map.0 m) (prop x) (λ (a, here, e). subst Q e (keep a (all a here)))

-- Of the rows with the id of a row that was found, there is that row alone.
module _ (orm : Orm) {E : Type 0} (p q r : E → Bool) (rows : List E) {e : E} where
  pub count_if-at_found :
      orm.find_one p rows ≡ some e
      → q e ≡ true
      → count_if q rows ≤ 1
      → count_if (λ x. r x && q x) rows ≡ bit (r e)
  count_if-at_found found q_e unique = elim (Bool-cases (r e)) [
    | inl t ↦ omega (
      arith,
      ap bit t,
      count_if-find_one orm p (λ x. r x && q x) rows found (rw t q_e),
      count_if_mono (λ x. r x && q x) q rows (λ x. ground arith),
    )
    | inr f ↦ omega (
      arith,
      ap bit f,
      count_if-find_one orm p (λ x. not (r x) && q x) rows found (rw f q_e),
      count_if_add (λ x. r x && q x) (λ x. not (r x) && q x) q rows (λ x. ground arith),
    )
  ]

-- Toggle tables: a row says that a user likes, or subscribes to, a target. `p` is the test of the
-- pair and `t` a test of its target.
module _ (orm : Orm) {L : Type 0} (id : L → ℕ) (rows : List L) where
  pub HasUniqueIds-delete :
      (q : L → Bool) → HasUniqueIds id rows → HasUniqueIds id (orm.delete q rows)
  HasUniqueIds-delete q h i =
      rw count_if-delete (omega (arith, h i, count_if_split (λ x. id x == i) (λ x. not (q x)) rows))

  pub HasUniqueIds-insert :
      (l : L)
      → count_if (λ x. id x == id l) rows ≡ 0
      → HasUniqueIds id rows
      → HasUniqueIds id (orm.insert l rows)
  HasUniqueIds-insert l fresh h i = rw count_if-insert (elim (Bool-cases (id l == i)) [
    | inl same ↦ omega (
      arith,
      ap bit same,
      ap (λ (k : ℕ). count_if (λ x. id x == k) rows) (eq_of_== _ _ same),
      fresh,
    )
    | inr other ↦ omega (arith, ap bit other, h i)
  ])

  -- Deleting the row that was found takes one from each count that it is in.
  pub count_if-delete_found :
      (p t : L → Bool) {l : L}
      → HasUniqueIds id rows
      → orm.find_one p rows ≡ some l
      → count_if t (orm.delete (λ x. id x == id l) rows) + bit (t l) ≡ count_if t rows
  count_if-delete_found p t {l} unique found =
      let q : L → Bool = λ x. id x == id l in
      omega (
        arith,
        count_if-delete orm t q rows,
        count_if_split t q rows,
        count_if-at_found orm p q t rows found (==_true (id l) (id l) refl) (unique (id l)),
      )

  pub HasUniqueIds-update :
      (q : L → Bool) (f : L → L)
      → ((x : L) → id (f x) ≡ id x)
      → HasUniqueIds id rows
      → HasUniqueIds id (orm.update q f rows)
  HasUniqueIds-update q f same h i =
      rw (count_if-update_same orm (λ x. id x == i) q f rows (λ x. rw same)) (h i)
