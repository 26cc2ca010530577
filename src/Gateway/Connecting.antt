-- ===== src/Gateway/Connecting.antt =====
-- The handlers of connections keep the store, presence and the activity table consistent.
use mathlib.Core.Path.{subst}
use rideway_api.Prelude.{
  ℕ, ◌+◌, ◌≡◌, ◌≤◌, refl, sym, ap, ◌∙◌, inl, inr, Bool, true, false, not, Option, none, some,
  if◌then◌else◌, List, [], ◌∷◌, ◌==◌, arith, bit, ltb, length, Bool-cases,
}
use rideway_api.Database.{Orm}
use rideway_api.Redis.{
  Redis, TextKey, socket_to_user, user_last_seen, user_appear_offline, online_users, user_sockets,
}
use rideway_api.Gateway.{
  World, is_empty, is_user_online, forget_socket, went_offline, unregister_user_socket,
  register_socket, unregister_socket, set_user_online, set_user_offline, set_appear_offline,
  handle_connection, handle_disconnect,
}
use rideway_api.Gateway.Sockets.{
  sockets_of, length-sadd, length-srem, Represents, connect, disconnect, Represents-set,
  Represents-del,
}
use rideway_api.Gateway.Presence.{
  Represents-online, Represents-offline, sockets_of-registered, Represents-registered,
}
use rideway_api.Gateway.Leaving.{
  sockets_of-forgotten, Represents-still_online, Represents-now_offline,
}
use rideway_api.Gateway.Activity.{
  IsTracked, IsTracked-update_user_activity_db, IsTracked-increment, IsTracked-decrement,
  IsTracked-upsert_appear_offline,
}

-- `connected` tells which user each socket is connected for. Redis says the same, has a user online
-- exactly where the user has a socket, and the activity table counts the sockets of its users.
pub record IsConsistent (orm : Orm) (redis : Redis) (connected : ℕ → Option ℕ) (w : World redis)
    : Type 0 where
  pub sockets : Represents redis connected w.store
  pub activity : IsTracked orm (sockets_of redis w.store) w.activities

pub is_empty-length : (xs : List ℕ) → is_empty xs ≡ not (ltb 0 (length xs))
is_empty-length [] = refl
is_empty-length (x ∷ xs) = ground arith

module _ (orm : Orm) (redis : Redis) {connected : ℕ → Option ℕ} (w : World redis)
    (ok : IsConsistent orm redis connected w) (u now : ℕ) where
  sockets_set :
      (k : TextKey) (v n : ℕ) (s : redis.Store)
      → sockets_of redis (redis.set k n s) v ≡ sockets_of redis s v
  sockets_set k v n s = ap length (redis.smembers-set (user_sockets v) k n s)

  sockets_of-offline :
      (s : redis.Store) (v : ℕ)
      → sockets_of redis (redis.set (user_last_seen u) now (redis.srem online_users u s)) v
        ≡ sockets_of redis s v
  sockets_of-offline s v =
      sockets_set (user_last_seen u) v now _
      ∙ nothing_left (length-srem redis (user_sockets v) online_users u s)
    where
      nothing_left : {n m : ℕ} → n + 0 ≡ m → n ≡ m
      nothing_left h = omega (arith, h)

  register_socket-IsConsistent :
      (socket : ℕ)
      → connected socket ≡ none
      → IsConsistent orm redis
          (connect socket u connected)
          (register_socket orm redis socket u now w)
  unfolding register_socket
  register_socket-IsConsistent socket new = record {
    sockets = Represents-registered redis ok.sockets socket u now new;
    activity = elim (Bool-cases (is_empty (redis.smembers (user_sockets u) w.store))) [
      | inl first ↦ rw first (
          IsTracked-update_user_activity_db orm (sockets_of redis w.store) _ w.activities
            ok.activity u others now true
            (sockets_of-registered redis ok.sockets socket u now new u ∙ first_socket first))
      | inr more ↦ rw more (
          IsTracked-increment orm (sockets_of redis w.store) _ w.activities ok.activity u others
            (some_before more)
            (sockets_of-registered redis ok.sockets socket u now new u ∙ one_more))
    ];
  }
    where
      others :
          (v : ℕ)
          → (v == u) ≡ false
          → sockets_of redis (register_socket orm redis socket u now w).store v
            ≡ sockets_of redis w.store v
      others v other =
          sockets_of-registered redis ok.sockets socket u now new v ∙ ground (arith, other)

      first_socket :
          is_empty (redis.smembers (user_sockets u) w.store) ≡ true
          → bit (u == u) + sockets_of redis w.store u ≡ 1
      first_socket e = ground (arith, sym (is_empty-length _) ∙ e)

      some_before :
          is_empty (redis.smembers (user_sockets u) w.store) ≡ false
          → 1 ≤ sockets_of redis w.store u
      some_before e = ground (arith, sym (is_empty-length _) ∙ e)

      one_more : bit (u == u) + sockets_of redis w.store u ≡ 1 + sockets_of redis w.store u
      one_more = ground arith

  set_user_online-IsConsistent :
      sockets_of redis w.store u ≡ 1
      → IsConsistent orm redis connected (set_user_online orm redis u now w)
  unfolding set_user_online
  set_user_online-IsConsistent one = record {
    sockets =
        Represents-set redis (user_last_seen u) now (λ _. refl)
          (Represents-online redis ok.sockets u (omega (arith, one)));
    activity =
        IsTracked-update_user_activity_db orm (sockets_of redis w.store) _ w.activities ok.activity
          u (λ v _. same v) now true (same u ∙ one);
  }
    where
      same :
          (v : ℕ)
          → sockets_of redis
              (redis.set (user_last_seen u) now (redis.sadd online_users u w.store))
              v
            ≡ sockets_of redis w.store v
      same v =
          sockets_set (user_last_seen u) v now _
          ∙ length-sadd redis (user_sockets v) online_users u w.store
          ∙ omega arith

  set_user_offline-IsConsistent :
      sockets_of redis w.store u ≡ 0
      → IsConsistent orm redis connected (set_user_offline orm redis u now w)
  unfolding set_user_offline
  set_user_offline-IsConsistent no_socket = record {
    sockets =
        Represents-set redis (user_last_seen u) now (λ _. refl)
          (Represents-offline redis ok.sockets u no_socket);
    activity =
        IsTracked-update_user_activity_db orm (sockets_of redis w.store) _ w.activities ok.activity
          u (λ v _. sockets_of-offline w.store v) now false
          (sockets_of-offline w.store u ∙ no_socket);
  }

  pub set_appear_offline-IsConsistent :
      (hidden : Bool)
      → IsConsistent orm redis connected (set_appear_offline orm redis u now hidden w)
  unfolding set_appear_offline
  set_appear_offline-IsConsistent true = record {
    sockets = Represents-set redis (user_appear_offline u) 1 (λ _. refl) ok.sockets;
    activity =
        IsTracked-upsert_appear_offline orm (sockets_of redis w.store) _ w.activities ok.activity u
          (λ v _. sockets_set (user_appear_offline u) v 1 w.store) now true
          (sockets_set (user_appear_offline u) u 1 w.store);
  }
  set_appear_offline-IsConsistent false = record {
    sockets = Represents-del redis (user_appear_offline u) (λ _. refl) ok.sockets;
    activity =
        IsTracked-upsert_appear_offline orm (sockets_of redis w.store) _ w.activities ok.activity u
          (λ v _. ap length (redis.smembers-del (user_sockets v) (user_appear_offline u) w.store))
          now false
          (ap length (redis.smembers-del (user_sockets u) (user_appear_offline u) w.store));
  }

  -- A socket of the user is unregistered.
  module _ (socket : ℕ) (old : connected socket ≡ some u) where
    left : ℕ → ℕ
    left v = sockets_of redis (forget_socket redis socket u w.store) v

    fewer : left u + 1 ≡ sockets_of redis w.store u
    unfolding left
    fewer =
        sym (ap (λ (n : ℕ). left u + n) self)
        ∙ sockets_of-forgotten redis ok.sockets socket u now old u
      where
        self : bit (u == u) ≡ 1
        self = ground arith

    others_left : (v : ℕ) → (v == u) ≡ false → left v ≡ sockets_of redis w.store v
    unfolding left
    others_left v other =
        ground (arith, other, sockets_of-forgotten redis ok.sockets socket u now old v)

    unregister_user_socket-IsConsistent :
        IsConsistent orm redis
          (disconnect socket connected)
          (unregister_user_socket orm redis socket u now w)
    unfolding left
    unregister_user_socket-IsConsistent = elim (Bool-cases (went_offline redis socket u w.store)) [
      | inl last ↦
          let none_left : left u ≡ 0 = ground (arith, sym (is_empty-length _) ∙ last) in
          rw (unregister_user_socket, last)
            (record {
              sockets = Represents-now_offline redis ok.sockets socket u now old none_left;
              activity =
                  IsTracked-update_user_activity_db orm (sockets_of redis w.store) _ w.activities
                    ok.activity u
                    (λ v other.
                      sockets_of-offline (forget_socket redis socket u w.store) v
                      ∙ others_left v other)
                    now false
                    (sockets_of-offline (forget_socket redis socket u w.store) u ∙ none_left);
            })
      | inr more ↦
          let some_left : 1 ≤ left u = ground (arith, sym (is_empty-length _) ∙ more) in
          rw (unregister_user_socket, more)
            (record {
              sockets = Represents-still_online redis ok.sockets socket u now old some_left;
              activity =
                  IsTracked-decrement orm (sockets_of redis w.store) _ w.activities ok.activity u
                    others_left some_left fewer;
            })
    ]

    last-no_socket :
        went_offline redis socket u w.store ≡ true
        → sockets_of redis (unregister_user_socket orm redis socket u now w).store u ≡ 0
    last-no_socket last =
        let none_left : sockets_of redis (forget_socket redis socket u w.store) u ≡ 0 =
          ground (arith, sym (is_empty-length _) ∙ last) in
        rw (unregister_user_socket, last)
          (sockets_of-offline (forget_socket redis socket u w.store) u ∙ none_left)

module _ (orm : Orm) (redis : Redis) {connected : ℕ → Option ℕ} (w : World redis)
    (ok : IsConsistent orm redis connected w) (socket u now : ℕ) where
  pub handle_connection-IsConsistent :
      connected socket ≡ none
      → IsConsistent orm redis
          (connect socket u connected)
          (handle_connection orm redis socket (some u) now w)
  unfolding handle_connection register_socket
  handle_connection-IsConsistent new =
      let registered = register_socket-IsConsistent orm redis w ok u now socket new in
      elim (Bool-cases (is_user_online redis u w)) [
        | inl online ↦ rw online registered
        | inr offline ↦ rw offline (
            set_user_online-IsConsistent orm redis (register_socket orm redis socket u now w)
              registered u now (first offline))
      ]
    where
      first :
          is_user_online redis u w ≡ false
          → sockets_of redis (register_socket orm redis socket u now w).store u ≡ 1
      first offline =
          sockets_of-registered redis ok.sockets socket u now new u
          ∙ ground (
            arith,
            sym (redis.sismember_lem online_users u w.store ∙ ok.sockets.online u) ∙ offline,
          )

  pub handle_disconnect-IsConsistent :
      connected socket ≡ some u
      → IsConsistent orm redis
          (disconnect socket connected)
          (handle_disconnect orm redis socket (some u) now w)
  unfolding handle_disconnect unregister_socket
  handle_disconnect-IsConsistent old =
      let known = ok.sockets.mapped socket ∙ old in
      let unregistered = unregister_user_socket-IsConsistent orm redis w ok u now socket old in
      subst (IsConsistent orm redis (disconnect socket connected)) (sym (known_socket known))
        (elim (Bool-cases (went_offline redis socket u w.store)) [
          | inr more ↦
              subst (IsConsistent orm redis (disconnect socket connected))
                (ap (λ (b : Bool). if b then offline else left) (sym more)) unregistered
          | inl last ↦
              subst (IsConsistent orm redis (disconnect socket connected))
                (ap (λ (b : Bool). if b then offline else left) (sym last))
                (set_user_offline-IsConsistent orm redis left unregistered u now
                  (last-no_socket orm redis w ok u now socket old last))
        ])
    where
      left : World redis
      left = unregister_user_socket orm redis socket u now w

      offline : World redis
      offline = set_user_offline orm redis u now left

      known_socket :
          redis.get (socket_to_user socket) w.store ≡ some u
          → handle_disconnect orm redis socket (some u) now w
            ≡ (if went_offline redis socket u w.store then offline else left)
      known_socket h = elim (Bool-cases (went_offline redis socket u w.store)) [
        | inr more ↦ ground (arith, h, more)
        | inl last ↦ ground (arith, h, last)
      ]
