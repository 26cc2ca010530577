-- ===== src/Database/Toggles.antt =====
-- Toggle tables: a row says that a user likes, or subscribes to, a target.
use rideway_api.Prelude.{
  ℕ, ◌+◌, ◌≤◌, ◌≡◌, sym, ap, ◌∙◌, inl, inr, Bool, true, false, ◌&&◌, none, some, is_some, ◌==◌,
  List, arith, bit, count_if, Bool-cases,
}
use rideway_api.Database.{Orm, HasUniqueIds}
use rideway_api.Database.Rows.{
  count_if-insert, count_if-delete_found, count_if-find_one_none, HasUniqueIds-insert,
  HasUniqueIds-delete, find_one-is_some, find_one-is_none,
}

module _ {L : Type 0} (id target user : L → ℕ) where
  -- The row says this of this target and user.
  abbrev pub is_pair : ℕ → ℕ → L → Bool
  is_pair t u l = target l == t && user l == u

  -- The rows of a target.
  abbrev pub tally_of : List L → ℕ → ℕ
  tally_of rows k = count_if (λ l. target l == k) rows

  -- Ids are unique, and a user has at most one row for a target.
  pub record IsToggleTable (rows : List L) : Type 0 where
    pub ids : HasUniqueIds id rows
    pub once : (t u : ℕ) → count_if (is_pair t u) rows ≤ 1

  module _ (orm : Orm) (rows : List L) (table : IsToggleTable rows) (t u : ℕ) where
    module _ {l : L} (found : orm.find_one (is_pair t u) rows ≡ some l) where
      holds : is_pair t u l ≡ true
      holds = (orm.find_one-some _ rows found).1

      abbrev pub without : List L
      without = orm.delete (λ x. id x == id l) rows

      pub IsToggleTable-delete : IsToggleTable without
      IsToggleTable-delete = record {
        ids = HasUniqueIds-delete orm id rows _ table.ids;
        once = λ t' u'. omega (
          arith,
          table.once t' u',
          count_if-delete_found orm id rows _ (is_pair t' u') table.ids found,
        );
      }

      pub tally_of-delete : (k : ℕ) → tally_of without k + bit (t == k) ≡ tally_of rows k
      tally_of-delete k =
          let same : target l ≡ t = is_pair-target holds in
          ap (λ (n : ℕ). tally_of without k + bit (n == k)) (sym same)
          ∙ count_if-delete_found orm id rows _ (λ x. target x == k) table.ids found
        where
          is_pair-target : is_pair t u l ≡ true → target l ≡ t
          is_pair-target h = ground arith

      pub is_some-delete : is_some (orm.find_one (is_pair t u) without) ≡ false
      is_some-delete = find_one-is_none orm (is_pair t u) without (
          omega (
            arith,
            table.once t u,
            ap bit holds,
            count_if-delete_found orm id rows _ (is_pair t u) table.ids found,
          ))

    module _ (l : L) (of_target : target l ≡ t) (by : user l ≡ u)
        (fresh : count_if (λ x. id x == id l) rows ≡ 0)
        (missing : orm.find_one (is_pair t u) rows ≡ none) where
      pub IsToggleTable-insert : IsToggleTable (orm.insert l rows)
      IsToggleTable-insert = record {
        ids = HasUniqueIds-insert orm id rows l fresh table.ids;
        once = λ t' u'. elim (Bool-cases (is_pair t' u' l)) [
          | inl same ↦
              let none_yet : count_if (is_pair t' u') rows ≡ 0 =
                ap (λ (k : ℕ). count_if (is_pair k u') rows) (ground arith)
                ∙ ap (λ (k : ℕ). count_if (is_pair t k) rows) (ground arith)
                ∙ count_if-find_one_none orm _ rows missing in
              omega (arith, count_if-insert orm (is_pair t' u') l rows, ap bit same)
          | inr other ↦
              omega
                (arith, count_if-insert orm (is_pair t' u') l rows, ap bit other, table.once t' u')
        ];
      }

      pub tally_of-insert :
          (k : ℕ) → tally_of (orm.insert l rows) k ≡ bit (t == k) + tally_of rows k
      tally_of-insert k =
          count_if-insert orm (λ x. target x == k) l rows
          ∙ ap (λ (n : ℕ). bit (n == k) + tally_of rows k) of_target

      pub is_some-insert : is_some (orm.find_one (is_pair t u) (orm.insert l rows)) ≡ true
      is_some-insert =
          find_one-is_some orm (is_pair t u) _
            (omega (arith, count_if-insert orm (is_pair t u) l rows, ap bit self))
        where
          self : is_pair t u l ≡ true
          self = ground arith
