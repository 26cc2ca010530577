-- ===== src/Gateway/Presence.antt =====
-- The store of sockets and presence, when a socket is registered.
use rideway_api.Prelude.{
  ℕ, ◌+◌, ◌≡◌, ◌≤◌, refl, sym, ap, ◌∙◌, inl, inr, Bool, true, false, not, ◌&&◌, ◌||◌, Option, none,
  some, is_id, if◌then◌else◌, List, ◌==◌, arith, bit, ltb, length, Bool-cases, eq_of_==,
}
use rideway_api.Prelude.Sets.{contains}
use rideway_api.Redis.{Redis, socket_to_user, user_last_seen, online_users, user_sockets}
use rideway_api.Gateway.Sockets.{
  members, sockets_of, members-sadd, members-srem, length-sadd, length-srem, Represents, connect,
  Represents-set,
}

and_true : (b : Bool) → (b && true) ≡ b
and_true b = ground arith

module _ (redis : Redis) {connected : ℕ → Option ℕ} {s : redis.Store}
    (rep : Represents redis connected s) where
  -- A user with a socket may be put online again, and a user without one offline.
  pub Represents-online :
      (u : ℕ) → 1 ≤ sockets_of redis s u → Represents redis connected (redis.sadd online_users u s)
  Represents-online u some_socket = record {
    mapped = λ x. redis.get-sadd (socket_to_user x) online_users u s ∙ rep.mapped x;
    sockets = λ v x. members-sadd redis (user_sockets v) online_users u x s ∙ rep.sockets v x;
    online = λ v.
        members-sadd redis online_users online_users u v s
        ∙ ap (λ (b : Bool). (true && u == v) || b) (rep.online v)
        ∙ at_user v
        ∙ ap (λ (n : ℕ). ltb 0 n) (sym (length-sadd redis (user_sockets v) online_users u s));
  }
    where
      at_user :
          (v : ℕ)
          → ((true && u == v) || ltb 0 (sockets_of redis s v)) ≡ ltb 0 (0 + sockets_of redis s v)
      at_user v = elim (Bool-cases (u == v)) [
        | inr other ↦ ground (arith, other)
        | inl same ↦ ground (arith, some_socket, same, ap (sockets_of redis s) (eq_of_== u v same))
      ]

  sockets_of-srem_online :
      (u v : ℕ) → sockets_of redis (redis.srem online_users u s) v ≡ sockets_of redis s v
  sockets_of-srem_online u v = omega (arith, length-srem redis (user_sockets v) online_users u s)

  pub Represents-offline :
      (u : ℕ) → sockets_of redis s u ≡ 0 → Represents redis connected (redis.srem online_users u s)
  Represents-offline u no_socket = record {
    mapped = λ x. redis.get-srem (socket_to_user x) online_users u s ∙ rep.mapped x;
    sockets = λ v x.
        members-srem redis (user_sockets v) online_users u x s
        ∙ and_true (members redis (user_sockets v) s x)
        ∙ rep.sockets v x;
    online = λ v.
        members-srem redis online_users online_users u v s
        ∙ ap (λ (b : Bool). b && not (true && u == v)) (rep.online v)
        ∙ at_user v
        ∙ ap (λ (n : ℕ). ltb 0 n) (sym (sockets_of-srem_online u v));
  }
    where
      at_user :
          (v : ℕ)
          → (ltb 0 (sockets_of redis s v) && not (true && u == v)) ≡ ltb 0 (sockets_of redis s v)
      at_user v = elim (Bool-cases (u == v)) [
        | inr other ↦ ground (arith, other)
        | inl same ↦ ground (arith, no_socket, same, ap (sockets_of redis s) (eq_of_== u v same))
      ]

module _ (redis : Redis) {connected : ℕ → Option ℕ} {s : redis.Store}
    (rep : Represents redis connected s) (socket u now : ℕ) where
  -- The store that `registerSocket` leaves.
  abbrev pub registered_store : redis.Store
  registered_store = redis.set (user_last_seen u) now (
      redis.sadd online_users u
        (redis.sadd (user_sockets u) socket (redis.set (socket_to_user socket) u s)))

  module _ (new : connected socket ≡ none) where
    no_member : (v : ℕ) → members redis (user_sockets v) s socket ≡ false
    no_member v = rep.sockets v socket ∙ ap (λ (o : Option ℕ). is_id o v) new

    abbrev mapped_store : redis.Store
    mapped_store = redis.set (socket_to_user socket) u s

    abbrev added_store : redis.Store
    added_store = redis.sadd (user_sockets u) socket mapped_store

    sockets_of-added :
        (v : ℕ) → sockets_of redis added_store v ≡ bit (u == v) + sockets_of redis s v
    sockets_of-added v =
        length-sadd redis (user_sockets v) (user_sockets u) socket mapped_store
        ∙ ap (λ (xs : List ℕ). bit (u == v && not (contains xs socket)) + length xs)
            (redis.smembers-set (user_sockets v) (socket_to_user socket) u s)
        ∙ ap (λ (b : Bool). bit (u == v && not b) + sockets_of redis s v) (no_member v)
        ∙ ap (λ (b : Bool). bit b + sockets_of redis s v) (and_true (u == v))

    added-online : (v : ℕ) → members redis online_users added_store v ≡ ltb 0 (sockets_of redis s v)
    added-online v =
        members-sadd redis online_users (user_sockets u) socket v mapped_store
        ∙ ap (λ (xs : List ℕ). contains xs v)
            (redis.smembers-set online_users (socket_to_user socket) u s)
        ∙ rep.online v

    pub sockets_of-registered :
        (v : ℕ) → sockets_of redis registered_store v ≡ bit (u == v) + sockets_of redis s v
    sockets_of-registered v =
        ap length (redis.smembers-set (user_sockets v) (user_last_seen u) now _)
        ∙ length-sadd redis (user_sockets v) online_users u added_store
        ∙ ap (λ (n : ℕ). 0 + n) (sockets_of-added v)
        ∙ omega arith

    pub Represents-registered : Represents redis (connect socket u connected) registered_store
    Represents-registered =
        Represents-set redis (user_last_seen u) now (λ _. refl)
          (record {
            mapped = λ x.
                redis.get-sadd (socket_to_user x) online_users u added_store
                ∙ redis.get-sadd (socket_to_user x) (user_sockets u) socket mapped_store
                ∙ redis.get-set (socket_to_user x) (socket_to_user socket) u s
                ∙ ap (λ (o : Option ℕ). if socket == x then some u else o) (rep.mapped x);
            sockets = λ v x.
                members-sadd redis (user_sockets v) online_users u x added_store
                ∙ members-sadd redis (user_sockets v) (user_sockets u) socket x mapped_store
                ∙ ap (λ (xs : List ℕ). (u == v && socket == x) || contains xs x)
                    (redis.smembers-set (user_sockets v) (socket_to_user socket) u s)
                ∙ ap (λ (b : Bool). (u == v && socket == x) || b) (rep.sockets v x)
                ∙ at_socket v x;
            online = λ v.
                members-sadd redis online_users online_users u v added_store
                ∙ ap (λ (b : Bool). (true && u == v) || b) (added-online v)
                ∙ at_user v
                ∙ ap (λ (n : ℕ). ltb 0 n)
                    (sym (
                      length-sadd redis (user_sockets v) online_users u added_store
                      ∙ ap (λ (n : ℕ). 0 + n) (sockets_of-added v)));
          })
      where
        at_socket :
            (v x : ℕ)
            → ((u == v && socket == x) || is_id (connected x) v)
              ≡ is_id (connect socket u connected x) v
        at_socket v x = elim (Bool-cases (socket == x)) [
          | inr other ↦ ground (arith, other)
          | inl same ↦
              let free : connected x ≡ none = ap connected (sym (eq_of_== socket x same)) ∙ new in
              ground (arith, same, free)
        ]

        at_user :
            (v : ℕ)
            → ((true && u == v) || ltb 0 (sockets_of redis s v))
              ≡ ltb 0 (0 + (bit (u == v) + sockets_of redis s v))
        at_user v = ground arith
