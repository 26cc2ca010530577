-- ===== src/Pagination/Laws.antt =====
-- Page-numbered lists: the pages cut a list up without gap or overlap, and the meta data say so.
use native.Mathlib.Decide.{dec_lt}
use native.Mathlib.Numerals.{unary_clauses}
use native.Mathlib.Nat.{zero-add, add-zero, mul-le-mul_right, div-add-mod, mod-lt}
use rideway_api.Prelude.{
  ℕ, zero, suc, ◌+◌, ◌-◌, ◌*◌, ◌%◌, ◌≤◌, ◌<◌, ◌≡◌, refl, ◌↔◌, ap, ◌∙◌, inl, inr, true, List, [],
  ◌∷◌, ◌++◌, arith, ◌==◌, Bool-cases, length, take, drop, length-take, length-drop, eq_of_==, min,
  ltb→lt, lt→ltb,
}
use rideway_api.Pagination.{ceil_div, page_meta, page_rows}

-- The number of pages is the least that holds all rows.
ceil_div-bounds :
    (total limit : ℕ)
    → 0 < limit
    → (total ≤ ceil_div total limit * limit) × (ceil_div total limit * limit < total + limit)
ceil_div-bounds total limit h = elim (Bool-cases (total % limit == 0)) [
  | inl e ↦ rw e (
    omega (arith, div-add-mod total limit, eq_of_== (total % limit) 0 e),
    omega (arith, div-add-mod total limit, eq_of_== (total % limit) 0 e),
  )
  | inr e ↦
      let r : 0 < total % limit = ground arith in
      rw e (
        omega (arith, div-add-mod total limit, mod-lt total h),
        omega (arith, div-add-mod total limit),
      )
]

-- `n` is below the number of pages exactly when `n` pages do not hold all rows.
lt-ceil_div : (n total limit : ℕ) → 0 < limit → (n < ceil_div total limit) ↔ (n * limit < total)
lt-ceil_div n total limit h =
    let (holds, tight) = ceil_div-bounds total limit h in
    (
      λ k. omega (arith, mul-le-mul_right limit k),
      λ k. elim (dec_lt n (ceil_div total limit)) [
        | yes here ↦ here
        | no past ↦
            let c : ceil_div total limit ≤ n = omega arith in
            absurd (omega (arith, mul-le-mul_right limit c))
      ],
    )

-- The rows of the first `n` pages, one page after the other.
abbrev pub first_pages {ℓ} : {A : Type ℓ} → ℕ → ℕ → List A → List A
first_pages zero limit rows = []
first_pages (suc n) limit rows = first_pages n limit rows ++ page_rows (suc n) limit rows

take-add {ℓ} :
    {A : Type ℓ} (m n : ℕ) (xs : List A) → take m xs ++ take n (drop m xs) ≡ take (m + n) xs
take-add zero n xs = rw zero-add
take-add (suc m) zero [] = rw add-zero
take-add (suc m) (suc n) [] = simp unary_clauses
take-add (suc m) n (x ∷ xs) =
    let e : suc m + n ≡ suc (m + n) = omega arith in rw e (ap (λ ys. x ∷ ys) (take-add m n xs))

first_pages-eq-take {ℓ} :
    {A : Type ℓ} (n limit : ℕ) (xs : List A) → first_pages n limit xs ≡ take (n * limit) xs
unfolding page_rows
first_pages-eq-take zero limit xs = let e : 0 * limit ≡ 0 = omega arith in rw e refl
first_pages-eq-take (suc n) limit xs =
    let same : (suc n - 1) * limit ≡ n * limit = ap (λ (k : ℕ). k * limit) (omega arith) in
    let next : suc n * limit ≡ n * limit + limit = omega arith in
    rw (same, next, first_pages-eq-take n limit xs) (take-add (n * limit) limit xs)

take_all {ℓ} : {A : Type ℓ} (n : ℕ) (xs : List A) → length xs ≤ n → take n xs ≡ xs
take_all zero [] h = refl
take_all zero (x ∷ xs) h = absurd (omega arith)
take_all (suc n) [] h = refl
take_all (suc n) (x ∷ xs) h = ap (λ ys. x ∷ ys) (take_all n xs (omega arith))

first_pages-total_pages {ℓ} :
    {A : Type ℓ} (page limit : ℕ) (xs : List A)
    → 0 < limit
    → first_pages (page_meta page limit (length xs)).total_pages limit xs ≡ xs
unfolding page_meta
first_pages-total_pages page limit xs h =
    first_pages-eq-take _ limit xs ∙ take_all _ xs (ceil_div-bounds (length xs) limit h).0

has_next_iff {ℓ} :
    {A : Type ℓ} (page limit : ℕ) (xs : List A)
    → 0 < limit
    → ((page_meta page limit (length xs)).has_next ≡ true)
      ↔ (0 < length (page_rows (page + 1) limit xs))
unfolding page_meta page_rows
has_next_iff page limit xs h =
    let (to, from) = lt-ceil_div page (length xs) limit h in
    let same : (page + 1 - 1) * limit ≡ page * limit = ap (λ (k : ℕ). k * limit) (omega arith) in
    let on_page : length (take limit (drop ((page + 1 - 1) * limit) xs))
        ≡ min limit (length xs - page * limit) =
      rw (same, length-take, length-drop) in
    (
      λ k.
          let next : page < ceil_div (length xs) limit =
            ltb→lt page (ceil_div (length xs) limit) k in
          omega (arith, on_page, to next),
      λ k. lt→ltb page (ceil_div (length xs) limit) (from (omega (arith, on_page))),
    )

-- With a limit above 0, the pages that the meta data of any page count, read one after the other,
-- are the whole list, so that no row is left out and none is on two pages; and `hasNext` says
-- exactly whether the next page has a row.
pub page_meta_lem {ℓ} :
    {A : Type ℓ} (page limit : ℕ) (xs : List A)
    → 0 < limit
    → (first_pages (page_meta page limit (length xs)).total_pages limit xs ≡ xs)
      × (((page_meta page limit (length xs)).has_next ≡ true)
          ↔ (0 < length (page_rows (page + 1) limit xs)))
page_meta_lem page limit xs h =
    (first_pages-total_pages page limit xs h, has_next_iff page limit xs h)
