-- ===== src/Redis.antt =====
-- The Redis client, which src/redis/redis.service.ts and src/modules/gateway/gateway.service.ts call.
-- Redis is not part of the repository, so its store is a parameter, `Redis`, with the documented
-- behaviour of the commands as laws. A key is a prefix with an id; here the prefix is a constructor,
-- so that keys of different prefixes are different. Ids and timestamps stand as numbers.
pub mod InMemory
use mathlib.Core.List.{Perm}
use rideway_api.Prelude.{
  ℕ, ◌≡◌, ◌≤◌, Bool, true, false, not, ◌&&◌, Option, none, some, List, ◌∷◌, filter, count_if, ◌==◌,
  if◌then◌else◌,
}
use rideway_api.Prelude.Sets.{contains}

-- Keys with a text for their value.
pub data TextKey : Type 0 where
  socket_to_user user_last_seen user_appear_offline : ℕ → TextKey

-- Keys with a set for their value.
pub data SetKey : Type 0 where
  online_users : SetKey
  user_sockets : ℕ → SetKey

abbrev pub text_key_eq : TextKey → TextKey → Bool
text_key_eq (socket_to_user a) (socket_to_user b) = a == b
text_key_eq (user_last_seen a) (user_last_seen b) = a == b
text_key_eq (user_appear_offline a) (user_appear_offline b) = a == b
text_key_eq _ _ = false

abbrev pub set_key_eq : SetKey → SetKey → Bool
set_key_eq online_users online_users = true
set_key_eq (user_sockets a) (user_sockets b) = a == b
set_key_eq _ _ = false

pub record Redis : Type 1 where
  pub Store : Type 0
  pub get : TextKey → Store → Option ℕ
  pub set : TextKey → ℕ → Store → Store
  pub del : TextKey → Store → Store
  pub sadd : SetKey → ℕ → Store → Store
  pub srem : SetKey → ℕ → Store → Store
  pub smembers : SetKey → Store → List ℕ
  pub sismember : SetKey → ℕ → Store → Bool
  pub get-set :
      (k k' : TextKey) (v : ℕ) (s : Store)
      → get k (set k' v s) ≡ (if text_key_eq k' k then some v else get k s)
  pub get-del :
      (k k' : TextKey) (s : Store) → get k (del k' s) ≡ (if text_key_eq k' k then none else get k s)
  pub get-sadd : (k : TextKey) (k' : SetKey) (m : ℕ) (s : Store) → get k (sadd k' m s) ≡ get k s
  pub get-srem : (k : TextKey) (k' : SetKey) (m : ℕ) (s : Store) → get k (srem k' m s) ≡ get k s
  pub smembers-set :
      (k : SetKey) (k' : TextKey) (v : ℕ) (s : Store) → smembers k (set k' v s) ≡ smembers k s
  pub smembers-del : (k : SetKey) (k' : TextKey) (s : Store) → smembers k (del k' s) ≡ smembers k s
  -- The order of the members is Redis's own.
  pub smembers-sadd :
      (k k' : SetKey) (m : ℕ) (s : Store)
      → Perm (smembers k (sadd k' m s)) (
          if set_key_eq k' k && not (contains (smembers k s) m)
          then m ∷ smembers k s
          else smembers k s)
  pub smembers-srem :
      (k k' : SetKey) (m : ℕ) (s : Store)
      → Perm
          (smembers k (srem k' m s))
          (if set_key_eq k' k then filter (λ x. not (x == m)) (smembers k s) else smembers k s)
  pub smembers_once : (k : SetKey) (m : ℕ) (s : Store) → count_if (λ x. x == m) (smembers k s) ≤ 1
  pub sismember_lem : (k : SetKey) (m : ℕ) (s : Store) → sismember k m s ≡ contains (smembers k s) m
