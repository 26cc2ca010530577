-- ===== src/Database/Tallies.antt =====
-- Counter columns over any tally: a row's counter is what the tally says of the row's id. The
-- services move a counter by 1 beside the write that moves the tally.
use rideway_api.Prelude.{
  ℕ, ◌+◌, ◌≡◌, sym, ap, ◌∙◌, Bool, true, false, not, ◌&&◌, if◌then◌else◌, some, inl, inr,
  Bool-cases, Option-cases, ◌≤◌, count_if, count_if_split, count_if_congr, ◌==◌, ==_true, List, ℤ,
  pos, ◌+ℤ◌, ◌-ℤ◌, +ℤ-pos, -ℤ-pos, ℤ_set, arith, bit,
}
use rideway_api.Database.{Orm, Every, HasUniqueIds}
use rideway_api.Database.Rows.{
  Every-update, Every-insert, count_if-update, count_if-at_found, count_if-find_one_none,
}

module _ {E : Type 0} (eid : E → ℕ) (counter : E → ℤ) where
  abbrev pub Tallied : (ℕ → ℕ) → List E → Type 0
  Tallied tally rows = Every (λ e. counter e ≡ pos (tally (eid e))) rows

-- The same tally by another name.
pub Tallied-congr :
    {E : Type 0} (eid : E → ℕ) (counter : E → ℤ) (tally tally' : ℕ → ℕ) (rows : List E)
    → ((k : ℕ) → tally' k ≡ tally k)
    → Tallied eid counter tally rows
    → Tallied eid counter tally' rows
Tallied-congr eid counter tally tally' rows same h e m = rw same (h e m)

-- Hiding the row that was found takes it from each count that it is in.
pub count_if-hide :
    (orm : Orm) {E : Type 0} (id : E → ℕ) (rows : List E) (p t : E → Bool) (f : E → E) (i : ℕ)
    {e : E}
    → HasUniqueIds id rows
    → orm.find_one p rows ≡ some e
    → id e ≡ i
    → ((x : E) → t (f x) ≡ false)
    → count_if t (orm.update (λ x. id x == i) f rows) + bit (t e) ≡ count_if t rows
count_if-hide orm {E} id rows p t f i {e} unique found at hidden =
    let q : E → Bool = λ x. id x == i in
    omega (
      arith,
      count_if-update orm t q f rows,
      count_if_split t q rows,
      count_if-at_found orm p q t rows found (==_true (id e) i at) (unique i),
      count_if_congr (λ x. t (if q x then f x else x)) (λ x. t x && not (q x)) rows
          (λ x. elim (Bool-cases (q x)) [
            | inl h ↦ rw h (rw (hidden x) (ground arith))
            | inr h ↦ rw h (ground arith)
          ]),
    )

==_flip : (a b : ℕ) {c : Bool} → (a == b) ≡ c → (b == a) ≡ c
==_flip a b e = ground arith

module _ (orm : Orm) {E : Type 0} (eid : E → ℕ) (counter : E → ℤ) (rows : List E)
    (tally : ℕ → ℕ) where
  -- A row that nothing points to yet.
  pub Tallied-insert :
      (e : E)
      → counter e ≡ pos 0
      → tally (eid e) ≡ 0
      → Tallied eid counter tally rows
      → Tallied eid counter tally (orm.insert e rows)
  Tallied-insert e zero none_yet =
      Every-insert orm e rows (λ x. ℤ_set _ _) (zero ∙ ap pos (sym none_yet))

  -- What a query for the rows of an id reads, if there is one.
  pub Tallied-found :
      (p : E → Bool) (i : ℕ)
      → ((x : E) → p x ≡ true → eid x ≡ i)
      → 1 ≤ count_if p rows
      → Tallied eid counter tally rows
      → (e : E) × (orm.find_one p rows ≡ some e) × (counter e ≡ pos (tally i))
  Tallied-found p i at there h = elim (Option-cases (orm.find_one p rows)) [
    | inl missing ↦ absurd (omega (arith, count_if-find_one_none orm p rows missing))
    | inr (e, found) ↦
        let (here, passes) = orm.find_one-some p rows found in
        (e, found, h e here ∙ ap (λ (k : ℕ). pos (tally k)) (at e passes))
  ]

  module _ (f : E → E) (same_id : (x : E) → eid (f x) ≡ eid x) where
    -- A write that moves neither the counter nor the tally.
    pub Tallied-update :
        (q : E → Bool)
        → ((x : E) → counter (f x) ≡ counter x)
        → Tallied eid counter tally rows
        → Tallied eid counter tally (orm.update q f rows)
    Tallied-update q same =
        Every-update orm q f rows (λ x. ℤ_set _ _) (λ x _ h. rw (same, same_id) h) (λ x _ h. h)

    -- The counter of one id goes up with the tally.
    pub Tallied-up :
        (tally' : ℕ → ℕ) (i : ℕ)
        → ((x : E) → counter (f x) ≡ counter x +ℤ pos 1)
        → ((k : ℕ) → tally' k ≡ bit (i == k) + tally k)
        → Tallied eid counter tally rows
        → Tallied eid counter tally' (orm.update (λ x. eid x == i) f rows)
    Tallied-up tally' i up moved =
        Every-update orm (λ x. eid x == i) f rows (λ x. ℤ_set _ _)
          (λ x e h.
            rw (up, same_id, h, +ℤ-pos)
              (ap pos (omega (arith, moved (eid x), ap bit (==_flip _ _ e)))))
          (λ x e h. rw h (ap pos (omega (arith, moved (eid x), ap bit (==_flip _ _ e)))))

    -- The counter of one id goes down with the tally.
    pub Tallied-down :
        (tally' : ℕ → ℕ) (i : ℕ)
        → ((x : E) → counter (f x) ≡ counter x -ℤ pos 1)
        → ((k : ℕ) → tally' k + bit (i == k) ≡ tally k)
        → Tallied eid counter tally rows
        → Tallied eid counter tally' (orm.update (λ x. eid x == i) f rows)
    Tallied-down tally' i down moved =
        Every-update orm (λ x. eid x == i) f rows (λ x. ℤ_set _ _)
          (λ x e h.
            let one : bit (i == eid x) ≡ 1 = ap bit (==_flip _ _ e) in
            rw (down, same_id, h)
              (-ℤ-pos _ 1 (omega (arith, one, moved (eid x)))
                ∙ ap pos (omega (arith, one, moved (eid x)))))
          (λ x e h. rw h (ap pos (omega (arith, moved (eid x), ap bit (==_flip _ _ e)))))
