-- ===== src/Gateway/Leaving.antt =====
-- The store of sockets and presence, when a socket is forgotten.
use rideway_api.Prelude.{
  ℕ, ◌+◌, ◌≡◌, ◌≤◌, refl, sym, ap, ◌∙◌, inl, inr, Bool, true, not, ◌&&◌, Option, none, some, is_id,
  if◌then◌else◌, List, ◌==◌, arith, bit, ltb, length, Bool-cases, eq_of_==,
}
use rideway_api.Prelude.Sets.{contains}
use rideway_api.Redis.{Redis, socket_to_user, user_last_seen, online_users, user_sockets}
use rideway_api.Gateway.{forget_socket}
use rideway_api.Gateway.Sockets.{
  members, sockets_of, members-srem, length-srem, Represents, disconnect, Represents-set,
}

and_true : (b : Bool) → (b && true) ≡ b
and_true b = ground arith

and_same : (b : Bool) → (b && b) ≡ b
and_same b = ground arith

module _ (redis : Redis) {connected : ℕ → Option ℕ} {s : redis.Store}
    (rep : Represents redis connected s) (socket u now : ℕ) where
  module _ (old : connected socket ≡ some u) where
    abbrev forgotten : redis.Store
    forgotten = forget_socket redis socket u s

    pub sockets_of-forgotten :
        (v : ℕ) → sockets_of redis forgotten v + bit (u == v) ≡ sockets_of redis s v
    sockets_of-forgotten v =
        ap (λ (xs : List ℕ). length xs + bit (u == v))
          (redis.smembers-del (user_sockets v) (socket_to_user socket) _)
        ∙ ap (λ (b : Bool). sockets_of redis (redis.srem (user_sockets u) socket s) v + bit b)
            (sym (
              ap (λ (b : Bool). u == v && b)
                (rep.sockets v socket ∙ ap (λ (o : Option ℕ). is_id o v) old)
              ∙ and_same (u == v)))
        ∙ length-srem redis (user_sockets v) (user_sockets u) socket s

    pub get-forgotten :
        (x : ℕ) → redis.get (socket_to_user x) forgotten ≡ disconnect socket connected x
    get-forgotten x =
        redis.get-del (socket_to_user x) (socket_to_user socket) _
        ∙ ap (λ (o : Option ℕ). if socket == x then none else o)
            (redis.get-srem (socket_to_user x) (user_sockets u) socket s ∙ rep.mapped x)

    members-forgotten :
        (v x : ℕ)
        → members redis (user_sockets v) forgotten x ≡ is_id (disconnect socket connected x) v
    members-forgotten v x =
        ap (λ (xs : List ℕ). contains xs x)
          (redis.smembers-del (user_sockets v) (socket_to_user socket) _)
        ∙ members-srem redis (user_sockets v) (user_sockets u) socket x s
        ∙ ap (λ (b : Bool). b && not (u == v && socket == x)) (rep.sockets v x)
        ∙ elim (Bool-cases (socket == x)) [
          | inr other ↦ ground (arith, other)
          | inl same ↦
              let here : connected x ≡ some u = ap connected (sym (eq_of_== socket x same)) ∙ old in
              ground (arith, same, here)
        ]

    online-forgotten :
        (v : ℕ) → members redis online_users forgotten v ≡ ltb 0 (sockets_of redis s v)
    online-forgotten v =
        ap (λ (xs : List ℕ). contains xs v)
          (redis.smembers-del online_users (socket_to_user socket) _)
        ∙ members-srem redis online_users (user_sockets u) socket v s
        ∙ and_true (members redis online_users s v)
        ∙ rep.online v

    pub Represents-still_online :
        1 ≤ sockets_of redis forgotten u → Represents redis (disconnect socket connected) forgotten
    Represents-still_online others = record {
      mapped = get-forgotten;
      sockets = members-forgotten;
      online = λ v. online-forgotten v ∙ at_user v;
    }
      where
        at_user : (v : ℕ) → ltb 0 (sockets_of redis s v) ≡ ltb 0 (sockets_of redis forgotten v)
        at_user v = elim (Bool-cases (u == v)) [
          | inr other ↦ ground (arith, other, sockets_of-forgotten v)
          | inl same ↦ ground (
            arith,
            same,
            sockets_of-forgotten v,
            others,
            ap (sockets_of redis forgotten) (eq_of_== u v same),
          )
        ]

    -- The store that `unregisterSocket` leaves for the last socket of a user.
    abbrev pub offline_store : redis.Store
    offline_store = redis.set (user_last_seen u) now (redis.srem online_users u forgotten)

    pub Represents-now_offline :
        sockets_of redis forgotten u ≡ 0
        → Represents redis (disconnect socket connected) offline_store
    Represents-now_offline none_left =
        Represents-set redis (user_last_seen u) now (λ _. refl)
          (record {
            mapped =
                λ x. redis.get-srem (socket_to_user x) online_users u forgotten ∙ get-forgotten x;
            sockets = λ v x.
                members-srem redis (user_sockets v) online_users u x forgotten
                ∙ and_true (members redis (user_sockets v) forgotten x)
                ∙ members-forgotten v x;
            online = λ v.
                members-srem redis online_users online_users u v forgotten
                ∙ ap (λ (b : Bool). b && not (true && u == v)) (online-forgotten v)
                ∙ at_user v
                ∙ ap (λ (n : ℕ). ltb 0 n) (sym (kept v));
          })
      where
        kept :
            (v : ℕ)
            → sockets_of redis (redis.srem online_users u forgotten) v
              ≡ sockets_of redis forgotten v
        kept v = omega (arith, length-srem redis (user_sockets v) online_users u forgotten)

        at_user :
            (v : ℕ)
            → (ltb 0 (sockets_of redis s v) && not (true && u == v))
              ≡ ltb 0 (sockets_of redis forgotten v)
        at_user v = elim (Bool-cases (u == v)) [
          | inr other ↦ ground (arith, other, sockets_of-forgotten v)
          | inl same ↦
              ground (arith, same, none_left, ap (sockets_of redis forgotten) (eq_of_== u v same))
        ]
