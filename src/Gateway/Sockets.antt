-- ===== src/Gateway/Sockets.antt =====
-- What the store tells of sockets, users and presence when sockets come and go.
use mathlib.Core.List.{Perm}
use rideway_api.Prelude.{
  ℕ, ◌+◌, ◌≡◌, ◌≤◌, refl, sym, ap, ◌∙◌, inl, inr, Bool, false, not, ◌&&◌, ◌||◌, Option, none, some,
  is_id, if◌then◌else◌, List, [], ◌∷◌, ◌==◌, arith, bit, ltb, length, filter, length-eq-sum_of,
  count_if, Perm-sum_of, Bool-cases, eq_of_==,
}
use rideway_api.Prelude.Sets.{contains, any-count_if}
use rideway_api.Redis.{
  Redis, TextKey, SetKey, text_key_eq, set_key_eq, socket_to_user, online_users, user_sockets,
}

-- Sets are compared by what they hold.
Perm-contains : {xs ys : List ℕ} → Perm xs ys → (x : ℕ) → contains xs x ≡ contains ys x
Perm-contains {xs} {ys} h x =
    any-count_if (λ j. j == x) xs
    ∙ ap (λ (n : ℕ). ltb 0 n) (Perm-sum_of (λ j. bit (j == x)) h)
    ∙ sym (any-count_if (λ j. j == x) ys)

Perm-length : {xs ys : List ℕ} → Perm xs ys → length xs ≡ length ys
Perm-length {xs} {ys} h = length-eq-sum_of xs ∙ Perm-sum_of (λ _. 1) h ∙ sym (length-eq-sum_of ys)

contains-filter :
    (m x : ℕ) (xs : List ℕ)
    → contains (filter (λ j. not (j == m)) xs) x ≡ (contains xs x && not (m == x))
contains-filter m x [] = refl
contains-filter m x (j ∷ xs) = elim (Bool-cases (j == m)) [
  | inl t ↦ ground (arith, t, contains-filter m x xs)
  | inr f ↦ ground (arith, f, contains-filter m x xs)
]

length-without :
    (m : ℕ) (xs : List ℕ)
    → length (filter (λ j. not (j == m)) xs) + count_if (λ j. j == m) xs ≡ length xs
length-without m [] = omega arith
length-without m (j ∷ xs) = elim (Bool-cases (j == m)) [
  | inl t ↦ ground (arith, t, length-without m xs)
  | inr f ↦ ground (arith, f, length-without m xs)
]

bit-once : (n : ℕ) → n ≤ 1 → bit (ltb 0 n) ≡ n
bit-once n h = ground arith

module _ (redis : Redis) where
  abbrev pub members : SetKey → redis.Store → ℕ → Bool
  members k s x = contains (redis.smembers k s) x

  abbrev pub sockets_of : redis.Store → ℕ → ℕ
  sockets_of s u = length (redis.smembers (user_sockets u) s)

  pub members-sadd :
      (k k' : SetKey) (m x : ℕ) (s : redis.Store)
      → members k (redis.sadd k' m s) x ≡ ((set_key_eq k' k && m == x) || members k s x)
  members-sadd k k' m x s =
      Perm-contains (redis.smembers-sadd k k' m s) x ∙ elim (Bool-cases (set_key_eq k' k)) [
        | inr f ↦ ground (arith, f)
        | inl t ↦ elim (Bool-cases (members k s m)) [
          | inr new ↦ ground (arith, t, new)
          | inl had ↦ elim (Bool-cases (m == x)) [
            | inr other ↦ ground (arith, t, had, other)
            | inl same ↦
                ground (arith, t, had, same, ap (members k s) (sym (eq_of_== m x same)) ∙ had)
          ]
        ]
      ]

  pub members-srem :
      (k k' : SetKey) (m x : ℕ) (s : redis.Store)
      → members k (redis.srem k' m s) x ≡ (members k s x && not (set_key_eq k' k && m == x))
  members-srem k k' m x s =
      Perm-contains (redis.smembers-srem k k' m s) x ∙ elim (Bool-cases (set_key_eq k' k)) [
        | inr f ↦ ground (arith, f)
        | inl t ↦ ground (arith, t, contains-filter m x (redis.smembers k s))
      ]

  pub length-sadd :
      (k k' : SetKey) (m : ℕ) (s : redis.Store)
      → length (redis.smembers k (redis.sadd k' m s))
        ≡ bit (set_key_eq k' k && not (members k s m)) + length (redis.smembers k s)
  length-sadd k k' m s =
      Perm-length (redis.smembers-sadd k k' m s)
      ∙ elim (Bool-cases (set_key_eq k' k && not (members k s m))) [
        | inr f ↦ rw f (ground arith)
        | inl t ↦ rw t (ground arith)
      ]

  pub length-srem :
      (k k' : SetKey) (m : ℕ) (s : redis.Store)
      → length (redis.smembers k (redis.srem k' m s)) + bit (set_key_eq k' k && members k s m)
        ≡ length (redis.smembers k s)
  length-srem k k' m s = elim (Bool-cases (set_key_eq k' k)) [
    | inr f ↦ omega (arith, left ∙ at_key f, ap (λ (b : Bool). bit (b && members k s m)) f)
    | inl t ↦ omega (
      arith,
      left ∙ at_key t,
      ap (λ (b : Bool). bit (b && members k s m)) t,
      length-without m (redis.smembers k s),
      bit-once _ (redis.smembers_once k m s),
      ap bit (any-count_if (λ j. j == m) (redis.smembers k s)),
    )
  ]
    where
      rest : Bool → List ℕ
      rest b = if b then filter (λ j. not (j == m)) (redis.smembers k s) else redis.smembers k s

      left : length (redis.smembers k (redis.srem k' m s)) ≡ length (rest (set_key_eq k' k))
      left = Perm-length (redis.smembers-srem k k' m s)

      at_key : {b : Bool} → set_key_eq k' k ≡ b → length (rest (set_key_eq k' k)) ≡ length (rest b)
      at_key e = ap (λ (b : Bool). length (rest b)) e

-- The store tells of each socket the user that it is connected for, and of each user the sockets;
-- and it has a user online exactly where the user has a socket.
pub record Represents (redis : Redis) (connected : ℕ → Option ℕ) (s : redis.Store) : Type 0 where
  pub mapped : (socket : ℕ) → redis.get (socket_to_user socket) s ≡ connected socket
  pub sockets :
      (u socket : ℕ) → members redis (user_sockets u) s socket ≡ is_id (connected socket) u
  pub online : (u : ℕ) → members redis online_users s u ≡ ltb 0 (sockets_of redis s u)

-- A socket connects, or disconnects.
abbrev pub connect : (socket user_id : ℕ) → (ℕ → Option ℕ) → ℕ → Option ℕ
connect socket user_id connected x = if socket == x then some user_id else connected x

abbrev pub disconnect : (socket : ℕ) → (ℕ → Option ℕ) → ℕ → Option ℕ
disconnect socket connected x = if socket == x then none else connected x

module _ (redis : Redis) {connected : ℕ → Option ℕ} {s : redis.Store} where
  -- Keys that presence does not read may be written.
  pub Represents-set :
      (k : TextKey) (v : ℕ)
      → ((socket : ℕ) → text_key_eq k (socket_to_user socket) ≡ false)
      → Represents redis connected s
      → Represents redis connected (redis.set k v s)
  Represents-set k v apart rep = record {
    mapped = λ x. redis.get-set (socket_to_user x) k v s ∙ rw (apart x) (rep.mapped x);
    sockets = λ u x. rw redis.smembers-set (rep.sockets u x);
    online = λ u. rw (redis.smembers-set, redis.smembers-set) (rep.online u);
  }

  pub Represents-del :
      (k : TextKey)
      → ((socket : ℕ) → text_key_eq k (socket_to_user socket) ≡ false)
      → Represents redis connected s
      → Represents redis connected (redis.del k s)
  Represents-del k apart rep = record {
    mapped = λ x. redis.get-del (socket_to_user x) k s ∙ rw (apart x) (rep.mapped x);
    sockets = λ u x. rw redis.smembers-del (rep.sockets u x);
    online = λ u. rw (redis.smembers-del, redis.smembers-del) (rep.online u);
  }
