-- ===== src/Pagination/Cursors.antt =====
-- Pages by cursor: the services read one row more than the limit, and drop it when it is there, as in
-- `findByPost` of src/modules/social/comments/comments.service.ts.
use mathlib.Core.Logic.Or
use mathlib.Core.List.{Mem, Mem-prop, mem-cons, not-mem-nil}
use rideway_api.Prelude.{
  ℕ, suc, ◌+◌, ◌≤◌, ◌<◌, ◌≡◌, refl, sym, ap, ◌∙◌, inl, inr, List, [], ◌∷◌, min, arith, length, ltb,
  ltb→lt, lt→ltb, if◌then◌else◌, Bool-cases,
}

module _ {ℓ} {A : Type ℓ} where
  -- `array.pop()`
  abbrev pub pop : List A → List A
  pop [] = []
  pop (c ∷ []) = []
  pop (c ∷ d ∷ rest) = c ∷ pop (d ∷ rest)

  pub mem-pop : {c : A} (cs : List A) → Mem c (pop cs) → Mem c cs
  mem-pop [] m = m
  mem-pop (c ∷ []) m = absurd (not-mem-nil m)
  mem-pop (c ∷ d ∷ cs) m =
      Or.elim Mem-prop (mem-cons.0 m) (λ e. mem-cons.1 (Or.inl e))
        (λ k. mem-cons.1 (Or.inr (mem-pop (d ∷ cs) k)))

  length-pop : (c : A) (cs : List A) → length (pop (c ∷ cs)) ≡ length cs
  length-pop c [] = refl
  length-pop c (d ∷ cs) = ap suc (length-pop d cs)

  -- The rows that were read, without the one that only tells that there are more.
  pub page_of :
      (limit : ℕ) (found : List A)
      → length found ≤ limit + 1
      → length (if ltb limit (length found) then pop found else found) ≡ min limit (length found)
  page_of limit [] h = ground arith
  page_of limit (c ∷ cs) h = elim (Bool-cases (ltb limit (length (c ∷ cs)))) [
    | inl t ↦
        let more : limit < suc (length cs) = ltb→lt limit (length (c ∷ cs)) t in
        rw t (length-pop c cs ∙ omega arith)
    | inr f ↦ let all : length (c ∷ cs) ≤ limit = ground arith in rw f (omega arith)
  ]

pub more_same : (limit a n : ℕ) → a ≡ min (limit + 1) n → ltb limit a ≡ ltb limit n
more_same limit a n e = elim (Bool-cases (ltb limit n)) [
  | inl t ↦ lt→ltb limit a (omega (arith, ltb→lt limit n t)) ∙ sym t
  | inr f ↦ let all : n ≤ limit = ground arith in let few : a ≤ limit = omega arith in ground arith
]
