-- ===== src/Database.antt =====
-- The database behind TypeORM's repositories, which every service reads and writes. Neither
-- TypeORM nor PostgreSQL is part of the repository, so their operations are a parameter, `Orm`,
-- with the documented behaviour that the services rely on as laws. The contents of a table are a
-- list of rows; no law speaks of the order in which the database keeps them.
-- A condition object, such as `{ where: { commentId, userId } }`, is written as the test that it
-- states of a row. For an entity with a delete date, TypeORM's reads leave deleted rows out: the
-- test of such a read says so, with `is_none r.deleted_at`.
pub mod Rows
pub mod Tallies
pub mod Toggles
pub mod Presence
pub mod Pairs
pub mod InMemory
use mathlib.Core.List.{Mem, Perm}
use rideway_api.Prelude.{
  ℕ, ◌≡◌, Bool, true, false, not, Option, none, some, List, ◌∷◌, map, filter, count_if, ◌==◌, ◌≤◌,
  if◌then◌else◌, is_some,
}

pub record Orm : Type 1 where
  -- `findOne`
  pub find_one : {E : Type 0} → (E → Bool) → List E → Option E
  -- `find`, and a query builder's `getMany` under an `order` of the rows
  pub find : {E : Type 0} → (E → Bool) → (E → E → Bool) → List E → List E
  -- `count`
  pub count : {E : Type 0} → (E → Bool) → List E → ℕ
  -- `save` of a new entity
  pub insert : {E : Type 0} → E → List E → List E
  -- `update`, `increment`, `decrement`, `softDelete`, and `save` of an entity that was read
  pub update : {E : Type 0} → (E → Bool) → (E → E) → List E → List E
  -- `delete`
  pub delete : {E : Type 0} → (E → Bool) → List E → List E
  pub find_one-some :
      {E : Type 0} (p : E → Bool) (rows : List E) {e : E}
      → find_one p rows ≡ some e
      → Mem e rows × (p e ≡ true)
  pub find_one-none :
      {E : Type 0} (p : E → Bool) (rows : List E)
      → find_one p rows ≡ none
      → (e : E) → Mem e rows
      → p e ≡ false
  pub find-perm :
      {E : Type 0} (p : E → Bool) (order : E → E → Bool) (rows : List E)
      → Perm (find p order rows) (filter p rows)
  pub count_lem : {E : Type 0} (p : E → Bool) (rows : List E) → count p rows ≡ count_if p rows
  pub insert-perm : {E : Type 0} (e : E) (rows : List E) → Perm (insert e rows) (e ∷ rows)
  pub update-perm :
      {E : Type 0} (p : E → Bool) (f : E → E) (rows : List E)
      → Perm (update p f rows) (map (λ e. if p e then f e else e) rows)
  pub delete-perm :
      {E : Type 0} (p : E → Bool) (rows : List E)
      → Perm (delete p rows) (filter (λ e. not (p e)) rows)

-- Every row of a table satisfies `P`.
abbrev pub Every {ℓ} : {E : Type 0} → (E → Type ℓ) → List E → Type ℓ
Every {E} P rows = (e : E) → Mem e rows → P e

-- No two rows have the same id.
abbrev pub HasUniqueIds : {E : Type 0} → (E → ℕ) → List E → Type 0
HasUniqueIds id rows = (i : ℕ) → count_if (λ e. id e == i) rows ≤ 1

-- The order of a query without one.
abbrev pub unordered {ℓ} : {A : Type ℓ} → A → A → Bool
unordered a b = true

-- Whether a row passes the test, as `!!await repository.findOne(…)` tells.
abbrev pub has : Orm → {E : Type 0} → (E → Bool) → List E → Bool
has orm p rows = is_some (orm.find_one p rows)
