-- ===== src/Pagination/Queries.antt =====
-- The rows of a page of a query, by number or by cursor.
use mathlib.Core.List.{Mem}
use mathlib.Core.List.Perm
use rideway_api.Prelude.{
  ℕ, ◌+◌, ◌-◌, ◌*◌, ◌≡◌, ap, ◌∙◌, inl, inr, Bool, true, List, min, arith, length, length-take,
  length-drop, drop, take, ltb, if◌then◌else◌, Bool-cases, count_if, mem-take, mem-drop,
  mem-filter_if,
}
use rideway_api.Database.{Orm, Every}
use rideway_api.Database.Rows.{length-find}
use rideway_api.Pagination.{page_rows}
use rideway_api.Pagination.Cursors.{pop, mem-pop, more_same, page_of}

module _ (orm : Orm) {E : Type 0} (test : E → Bool) (order : E → E → Bool) (rows : List E) where
  find-Mem : Every (λ e. Mem e rows × (test e ≡ true)) (orm.find test order rows)
  find-Mem e m = mem-filter_if test rows ((Perm.mem_iff (orm.find-perm test order rows)).0 m)

  -- By number.
  module _ (page limit : ℕ) where
    pub page-Mem :
        Every (λ e. Mem e rows × (test e ≡ true)) (page_rows page limit (orm.find test order rows))
    unfolding page_rows
    page-Mem e m = find-Mem e (mem-drop _ _ (mem-take _ _ m))

    pub length-page :
        length (page_rows page limit (orm.find test order rows))
        ≡ min limit (count_if test rows - (page - 1) * limit)
    unfolding page_rows
    length-page = omega (
      arith,
      length-take limit (drop ((page - 1) * limit) (orm.find test order rows)),
      length-drop ((page - 1) * limit) (orm.find test order rows),
      length-find orm test order rows,
    )

  -- By cursor: one row more than the limit is read.
  module _ (limit : ℕ) where
    abbrev pub read : List E
    read = take (limit + 1) (orm.find test order rows)

    abbrev pub shown : List E
    shown = if ltb limit (length read) then pop read else read

    length-read : length read ≡ min (limit + 1) (count_if test rows)
    length-read =
        length-take (limit + 1) (orm.find test order rows)
        ∙ ap (λ (n : ℕ). min (limit + 1) n) (length-find orm test order rows)

    pub shown-Mem : Every (λ e. Mem e rows × (test e ≡ true)) shown
    shown-Mem e m = elim (Bool-cases (ltb limit (length read))) [
      | inl t ↦ find-Mem e (mem-take (limit + 1) _ (mem-pop read (rw t at m)))
      | inr f ↦ find-Mem e (mem-take (limit + 1) _ (rw f at m))
    ]

    pub length-shown : length shown ≡ min limit (count_if test rows)
    length-shown = page_of limit read (omega (arith, length-read)) ∙ omega (arith, length-read)

    pub more-read : ltb limit (length read) ≡ ltb limit (count_if test rows)
    more-read = more_same limit (length read) (count_if test rows) length-read
