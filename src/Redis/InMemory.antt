-- ===== src/Redis/InMemory.antt =====
-- A store in memory meets the laws of `Redis`: texts and sets are functions of their keys, and a set
-- is a list that has each member once.
use mathlib.Core.List.{Perm}
use mathlib.Core.List.Perm
use rideway_api.Prelude.{
  ℕ, ◌≡◌, ◌≤◌, refl, sym, ap, ◌∙◌, inl, inr, Bool, true, false, not, ◌&&◌, Option, none, some,
  if◌then◌else◌, List, [], ◌∷◌, filter, count_if, count_if-filter, count_if_mono, ◌==◌, arith, bit,
  Bool-cases, eq_of_==,
}
use rideway_api.Prelude.Sets.{contains, any-count_if}
use rideway_api.Redis.{Redis, TextKey, SetKey, text_key_eq, set_key_eq}

pub record Memory : Type 0 where
  pub texts : TextKey → Option ℕ
  pub sets : SetKey → List ℕ
  pub once : (k : SetKey) (m : ℕ) → count_if (λ x. x == m) (sets k) ≤ 1

abbrev pub empty : Memory
empty = record { texts = λ k. none; sets = λ k. []; once = λ k m. omega arith }

abbrev write : TextKey → Option ℕ → Memory → Memory
write k o s = record {
  texts = λ k'. if text_key_eq k k' then o else s.texts k';
  sets = s.sets;
  once = s.once;
}

abbrev added : ℕ → List ℕ → List ℕ
added m xs = if not (contains xs m) then m ∷ xs else xs

abbrev removed : ℕ → List ℕ → List ℕ
removed m xs = filter (λ x. not (x == m)) xs

pub added_once :
    (m : ℕ) (xs : List ℕ)
    → ((n : ℕ) → count_if (λ x. x == n) xs ≤ 1)
    → (n : ℕ) → count_if (λ x. x == n) (added m xs) ≤ 1
added_once m xs once n = elim (Bool-cases (contains xs m)) [
  | inl had ↦ rw had (once n)
  | inr new ↦ rw new (elim (Bool-cases (m == n)) [
    | inr other ↦ omega (arith, ap bit other, once n)
    | inl same ↦
        let none_yet : count_if (λ x. x == m) xs ≡ 0 =
          ground (arith, sym (any-count_if (λ x. x == m) xs) ∙ new) in
        omega (
          arith,
          ap bit same,
          ap (λ (k : ℕ). count_if (λ x. x == k) xs) (eq_of_== m n same),
          none_yet,
        )
  ])
]

pub removed_once :
    (m : ℕ) (xs : List ℕ)
    → ((n : ℕ) → count_if (λ x. x == n) xs ≤ 1)
    → (n : ℕ) → count_if (λ x. x == n) (removed m xs) ≤ 1
removed_once m xs once n = omega (
  arith,
  once n,
  count_if-filter (λ x. x == n) (λ x. not (x == m)) xs,
  count_if_mono (λ x. x == n && not (x == m)) (λ x. x == n) xs (λ x. ground arith),
)

abbrev change :
    SetKey
    → (f : List ℕ → List ℕ)
    → ((xs : List ℕ)
        → ((n : ℕ) → count_if (λ x. x == n) xs ≤ 1)
        → (n : ℕ) → count_if (λ x. x == n) (f xs) ≤ 1)
    → Memory
    → Memory
change k f keep s = record {
  texts = s.texts;
  sets = λ k'. if set_key_eq k k' then f (s.sets k') else s.sets k';
  once = λ k' m. elim (Bool-cases (set_key_eq k k')) [
    | inl t ↦ rw t (keep (s.sets k') (s.once k') m)
    | inr f ↦ rw f (s.once k' m)
  ];
}

pub Perm-of : {xs ys : List ℕ} → xs ≡ ys → Perm xs ys
Perm-of {xs} e = rw (sym e) (Perm.refl xs)

pub add_eq :
    (b c : Bool) (m : ℕ) (xs : List ℕ)
    → (if b then (if c then m ∷ xs else xs) else xs) ≡ (if b && c then m ∷ xs else xs)
add_eq true c m xs = refl
add_eq false c m xs = refl

abbrev pub redis_in_memory : Redis
redis_in_memory = record {
  Store = Memory;
  get = λ k s. s.texts k;
  set = λ k v. write k (some v);
  del = λ k. write k none;
  sadd = λ k m. change k (added m) (added_once m);
  srem = λ k m. change k (removed m) (removed_once m);
  smembers = λ k s. s.sets k;
  sismember = λ k m s. contains (s.sets k) m;
  get-set = λ k k' v s. refl;
  get-del = λ k k' s. refl;
  get-sadd = λ k k' m s. refl;
  get-srem = λ k k' m s. refl;
  smembers-set = λ k k' v s. refl;
  smembers-del = λ k k' s. refl;
  smembers-sadd =
      λ k k' m s. Perm-of (add_eq (set_key_eq k' k) (not (contains (s.sets k) m)) m (s.sets k));
  smembers-srem = λ k k' m s. Perm.refl _;
  smembers_once = λ k m s. s.once k m;
  sismember_lem = λ k m s. refl;
}
