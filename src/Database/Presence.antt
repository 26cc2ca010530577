-- ===== src/Database/Presence.antt =====
-- Whether a table has a row of some kind, before and after it is written.
use rideway_api.Prelude.{
  map, ◌==◌, Perm-sum_of, count_if-filter, ℕ, ◌+◌, ◌≡◌, sym, ap, ◌∙◌, inl, inr, Bool, not, ◌&&◌,
  ◌||◌, List, arith, bit, ltb, any, count_if, count_if_congr, Option-cases, none,
}
use rideway_api.Prelude.Sets.{contains, any-map, any-count_if, any-or, any-and}
use rideway_api.Database.{Orm, has}
use rideway_api.Database.Rows.{
  count_if-insert, count_if-delete, count_if-find_one, count_if-find_one_none,
}

module _ (orm : Orm) {E : Type 0} (p : E → Bool) (rows : List E) where
  pub has-count_if : has orm p rows ≡ ltb 0 (count_if p rows)
  has-count_if = elim (Option-cases (orm.find_one p rows)) [
    | inl missing ↦ rw missing (ground (arith, count_if-find_one_none orm p rows missing))
    | inr (e, found) ↦
        rw found
          (ground (arith, count_if-find_one orm p p rows found (orm.find_one-some p rows found).1))
  ]

  pub find_one-none_of_zero : count_if p rows ≡ 0 → orm.find_one p rows ≡ none
  find_one-none_of_zero zero_rows = elim (Option-cases (orm.find_one p rows)) [
    | inl missing ↦ missing
    | inr (e, found) ↦
        absurd
          (omega (arith, count_if-find_one orm p p rows found (orm.find_one-some p rows found).1))
  ]

or_count : (b : Bool) (n : ℕ) → ltb 0 (bit b + n) ≡ (b || ltb 0 n)
or_count b n = ground arith

module _ (orm : Orm) {E : Type 0} where
  pub has-insert :
      (p : E → Bool) (e : E) (rows : List E)
      → has orm p (orm.insert e rows) ≡ (p e || has orm p rows)
  has-insert p e rows =
      has-count_if orm p (orm.insert e rows)
      ∙ ap (λ (n : ℕ). ltb 0 n) (count_if-insert orm p e rows)
      ∙ or_count (p e) (count_if p rows)
      ∙ ap (λ (b : Bool). p e || b) (sym (has-count_if orm p rows))

  pub has-delete :
      (p q : E → Bool) (rows : List E)
      → has orm p (orm.delete q rows) ≡ has orm (λ x. p x && not (q x)) rows
  has-delete p q rows =
      has-count_if orm p (orm.delete q rows)
      ∙ ap (λ (n : ℕ). ltb 0 n) (count_if-delete orm p q rows)
      ∙ sym (has-count_if orm (λ x. p x && not (q x)) rows)

  pub has-congr :
      (p q : E → Bool) (rows : List E) → ((x : E) → p x ≡ q x) → has orm p rows ≡ has orm q rows
  has-congr p q rows h =
      has-count_if orm p rows
      ∙ ap (λ (n : ℕ). ltb 0 n) (count_if_congr p q rows h)
      ∙ sym (has-count_if orm q rows)

  pub has-any : (p : E → Bool) (rows : List E) → has orm p rows ≡ any p rows
  has-any p rows = has-count_if orm p rows ∙ sym (any-count_if p rows)

  pub has-or :
      (p q : E → Bool) (rows : List E)
      → has orm (λ x. p x || q x) rows ≡ (has orm p rows || has orm q rows)
  has-or p q rows =
      has-any (λ x. p x || q x) rows
      ∙ any-or p q rows
      ∙ ap (λ (b : Bool). b || any q rows) (sym (has-any p rows))
      ∙ ap (λ (b : Bool). has orm p rows || b) (sym (has-any q rows))

  -- A condition that is no row's.
  pub has-and :
      (p : E → Bool) (c : Bool) (rows : List E)
      → has orm (λ x. p x && c) rows ≡ (has orm p rows && c)
  has-and p c rows =
      has-any (λ x. p x && c) rows
      ∙ any-and p c rows
      ∙ ap (λ (b : Bool). b && c) (sym (has-any p rows))

  -- The ids that a query's rows name.
  pub contains-find :
      (key : E → ℕ) (q : E → Bool) (order : E → E → Bool) (rows : List E) (i : ℕ)
      → contains (map key (orm.find q order rows)) i ≡ has orm (λ e. key e == i && q e) rows
  contains-find key q order rows i =
      any-map (λ j. j == i) key (orm.find q order rows)
      ∙ any-count_if (λ e. key e == i) (orm.find q order rows)
      ∙ ap (λ (n : ℕ). ltb 0 n)
          (Perm-sum_of (λ e. bit (key e == i)) (orm.find-perm q order rows)
            ∙ count_if-filter (λ e. key e == i) q rows)
      ∙ sym (has-count_if orm (λ e. key e == i && q e) rows)
