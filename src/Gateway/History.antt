-- ===== src/Gateway/History.antt =====
-- Any sequence of connections, disconnections and changes of the "appear offline" mode.
use rideway_api.Prelude.{
  ℕ, ◌+◌, ◌≡◌, refl, sym, ap, ◌∙◌, inl, inr, Bool, true, false, Option, none, some, if◌then◌else◌,
  List, ◌++◌, map, ◌==◌, arith, bit, ltb, Bool-cases,
}
use rideway_api.Database.{Orm, unordered}
use rideway_api.Redis.{Redis, online_users}
use rideway_api.Gateway.{
  World, Emission, user_online, user_offline, is_user_online, went_offline, forget_socket,
  handle_connection, handle_disconnect, register_socket, set_user_online, set_user_offline,
  unregister_socket, set_appear_offline,
}
use rideway_api.Gateway.Sockets.{sockets_of, connect, disconnect}
use rideway_api.Gateway.Leaving.{sockets_of-forgotten}
use rideway_api.Gateway.Connecting.{
  IsConsistent, is_empty-length, handle_connection-IsConsistent, handle_disconnect-IsConsistent,
  set_appear_offline-IsConsistent,
}

-- The worlds that are reached, with the sockets that are then connected. A socket's id is not used
-- again while the socket is connected, and a disconnection is one of a connected socket.
pub data GatewayReach (orm : Orm) (redis : Redis) (connected : ℕ → Option ℕ) (w : World redis)
    : (ℕ → Option ℕ) → World redis → Type 0 where
  here : GatewayReach orm redis connected w connected w
  opened :
      {c : ℕ → Option ℕ} {w' : World redis}
      → GatewayReach orm redis connected w c w'
      → (socket u now : ℕ) → c socket ≡ none
      → GatewayReach orm redis connected w
          (connect socket u c)
          (handle_connection orm redis socket (some u) now w')
  rejected :
      {c : ℕ → Option ℕ} {w' : World redis}
      → GatewayReach orm redis connected w c w'
      → (socket now : ℕ)
      → GatewayReach orm redis connected w c (handle_connection orm redis socket none now w')
  closed :
      {c : ℕ → Option ℕ} {w' : World redis}
      → GatewayReach orm redis connected w c w'
      → (socket u now : ℕ) → c socket ≡ some u
      → GatewayReach orm redis connected w
          (disconnect socket c)
          (handle_disconnect orm redis socket (some u) now w')
  hidden :
      {c : ℕ → Option ℕ} {w' : World redis}
      → GatewayReach orm redis connected w c w'
      → (u now : ℕ) (appear_offline : Bool)
      → GatewayReach orm redis connected w c (set_appear_offline orm redis u now appear_offline w')

module _ (orm : Orm) (redis : Redis) where
  -- From a world that is consistent with the sockets that are connected, any sequence of
  -- connections, with a valid token or without one, disconnections and changes of the "appear
  -- offline" mode leads to a world that is consistent with the sockets then connected: Redis maps
  -- each of them to its user and keeps the sockets of each user, a user is online exactly while a
  -- socket is left, and the activity table has the number of sockets.
  pub GatewayReach-IsConsistent :
      {connected : ℕ → Option ℕ} {w : World redis} {c : ℕ → Option ℕ} {w' : World redis}
      → GatewayReach orm redis connected w c w'
      → IsConsistent orm redis connected w
      → IsConsistent orm redis c w'
  unfolding handle_connection
  GatewayReach-IsConsistent here ok = ok
  GatewayReach-IsConsistent (opened r socket u now new) ok =
      handle_connection-IsConsistent orm redis _ (GatewayReach-IsConsistent r ok) socket u now new
  GatewayReach-IsConsistent (rejected r socket now) ok = GatewayReach-IsConsistent r ok
  GatewayReach-IsConsistent (closed r socket u now old) ok =
      handle_disconnect-IsConsistent orm redis _ (GatewayReach-IsConsistent r ok) socket u now old
  GatewayReach-IsConsistent (hidden r u now appear_offline) ok =
      set_appear_offline-IsConsistent orm redis _ (GatewayReach-IsConsistent r ok) u now
        appear_offline

  -- One message to each follower of the user.
  abbrev pub told : (ℕ → Emission) → ℕ → World redis → List Emission
  told emission u w =
      map (λ f. emission f.follower_id) (orm.find (λ f. f.following_id == u) unordered w.follows)

  module _ {connected : ℕ → Option ℕ} (w : World redis) (ok : IsConsistent orm redis connected w)
      (socket u now : ℕ) where
    opened_lem :
        connected socket ≡ none
        → (handle_connection orm redis socket (some u) now w).emitted ≡ (
            if sockets_of redis w.store u == 0
            then w.emitted ++ told (λ follower. user_online follower u) u w
            else w.emitted)
    unfolding handle_connection set_user_online register_socket
    opened_lem new = elim (Bool-cases (is_user_online redis u w)) [
      | inl online ↦ rw online (rw (others _ (is_online ∙ online)) refl)
      | inr offline ↦ rw offline (rw (none_yet _ (is_online ∙ offline)) refl)
    ]
      where
        is_online : ltb 0 (sockets_of redis w.store u) ≡ is_user_online redis u w
        is_online = sym (redis.sismember_lem online_users u w.store ∙ ok.sockets.online u)

        others : (n : ℕ) → ltb 0 n ≡ true → (n == 0) ≡ false
        others n h = ground arith

        none_yet : (n : ℕ) → ltb 0 n ≡ false → (n == 0) ≡ true
        none_yet n h = ground arith

    closed_lem :
        connected socket ≡ some u
        → (handle_disconnect orm redis socket (some u) now w).emitted ≡ (
            if sockets_of redis w.store u == 1
            then w.emitted ++ told (λ follower. user_offline follower u) u w
            else w.emitted)
    unfolding handle_disconnect set_user_offline unregister_socket
    closed_lem old =
        let known = ok.sockets.mapped socket ∙ old in
        let number : sockets_of redis (forget_socket redis socket u w.store) u + 1
            ≡ sockets_of redis w.store u =
          sym (ap (λ (n : ℕ). sockets_of redis (forget_socket redis socket u w.store) u + n) self)
          ∙ sockets_of-forgotten redis ok.sockets socket u now old u in
        elim (Bool-cases (went_offline redis socket u w.store)) [
          | inl last ↦
              let one : (sockets_of redis w.store u == 1) ≡ true =
                ground (arith, number, sym (is_empty-length _) ∙ last) in
              rw one (ground (arith, known, last))
          | inr more ↦
              let several : (sockets_of redis w.store u == 1) ≡ false =
                ground (arith, number, sym (is_empty-length _) ∙ more) in
              rw several (ground (arith, known, more))
        ]
      where
        self : bit (u == u) ≡ 1
        self = ground arith

  -- In a world that is consistent with the sockets connected then, the connection of a new socket of
  -- a user tells each follower that the user is online exactly where the user had no socket; in
  -- another such world, the end of a connected socket of the user tells each follower that the user
  -- is offline exactly where it was the user's only one. Otherwise nothing is emitted.
  pub broadcast_lem :
      {connected connected' : ℕ → Option ℕ} (w w' : World redis) (u now new_socket old_socket : ℕ)
      → IsConsistent orm redis connected w
      → connected new_socket ≡ none
      → IsConsistent orm redis connected' w'
      → connected' old_socket ≡ some u
      → ((handle_connection orm redis new_socket (some u) now w).emitted ≡ (
          if sockets_of redis w.store u == 0
          then w.emitted ++ told (λ follower. user_online follower u) u w
          else w.emitted))
        × ((handle_disconnect orm redis old_socket (some u) now w').emitted ≡ (
            if sockets_of redis w'.store u == 1
            then w'.emitted ++ told (λ follower. user_offline follower u) u w'
            else w'.emitted))
  broadcast_lem w w' u now new_socket old_socket ok new ok' old =
      (opened_lem w ok new_socket u now new, closed_lem w' ok' old_socket u now old)
