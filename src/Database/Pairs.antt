-- ===== src/Database/Pairs.antt =====
-- Tables that say of two users, or of a user and a target, that they are in a relation: whether a
-- pair is in the table, before and after it is written.
use rideway_api.Prelude.{
  ℕ, ◌+◌, ◌≡◌, sym, ap, ◌∙◌, Bool, true, not, ◌&&◌, List, arith, bit, ltb, ◌==◌, some,
  count_if_mono, ◌≤◌,
}
use rideway_api.Database.{Orm, has}
use rideway_api.Database.Rows.{HasUniqueIds-delete, count_if-delete, count_if-delete_found}
use rideway_api.Database.Presence.{has-count_if, has-delete, has-congr, has-and}
use rideway_api.Database.Toggles.{is_pair, IsToggleTable}

module _ {L : Type 0} (id target user : L → ℕ) (orm : Orm) (rows : List L) where
  -- Deleting all rows of a pair.
  pub has-delete_pair :
      (a b x y : ℕ)
      → has orm (is_pair id target user x y) (orm.delete (is_pair id target user a b) rows)
        ≡ (has orm (is_pair id target user x y) rows && not (a == x && b == y))
  has-delete_pair a b x y =
      has-delete orm (is_pair id target user x y) (is_pair id target user a b) rows
      ∙ has-congr orm _ (λ l. is_pair id target user x y l && not (a == x && b == y)) rows
          (λ l. ground arith)
      ∙ has-and orm (is_pair id target user x y) (not (a == x && b == y)) rows

  module _ (table : IsToggleTable id target user rows) where
    pub IsToggleTable-delete_any : (q : L → Bool) → IsToggleTable id target user (orm.delete q rows)
    IsToggleTable-delete_any q = record {
      ids = HasUniqueIds-delete orm id rows q table.ids;
      once = λ t u. omega (
        arith,
        table.once t u,
        count_if-delete orm (is_pair id target user t u) q rows,
        count_if_mono (λ l. is_pair id target user t u l && not (q l)) (is_pair id target user t u)
            rows (λ l. ground arith),
      );
    }

    -- Deleting the row of a pair by its id.
    pub has-delete_found :
        (a b : ℕ) {l : L}
        → orm.find_one (is_pair id target user a b) rows ≡ some l
        → (x y : ℕ)
        → has orm (is_pair id target user x y) (orm.delete (λ r. id r == id l) rows)
          ≡ (has orm (is_pair id target user x y) rows && not (a == x && b == y))
    has-delete_found a b {l} found x y =
        has-count_if orm (is_pair id target user x y) (orm.delete (λ r. id r == id l) rows)
        ∙ counts (is_pair id target user x y l) _ _ (same (orm.find_one-some _ rows found).1)
            (count_if-delete_found orm id rows _ (is_pair id target user x y) table.ids found)
            (table.once x y)
        ∙ ap (λ (k : Bool). k && not (a == x && b == y))
            (sym (has-count_if orm (is_pair id target user x y) rows))
      where
        same :
            is_pair id target user a b l ≡ true → is_pair id target user x y l ≡ (a == x && b == y)
        same h = ground arith

        counts :
            (t : Bool) (n m : ℕ)
            → t ≡ (a == x && b == y)
            → n + bit t ≡ m
            → m ≤ 1
            → ltb 0 n ≡ (ltb 0 m && not (a == x && b == y))
        counts t n m e h k = ground arith
