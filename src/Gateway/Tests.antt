-- ===== src/Gateway/Tests.antt =====
-- Connections at a concrete world: user 7, whom user 8 follows, opens two sockets and closes one.
use rideway_api.Prelude.{
  ℕ, ◌≡◌, refl, Option, none, some, if◌then◌else◌, [], ◌∷◌, ◌++◌, ◌==◌, arith,
}
use rideway_api.Prelude.Sets.{contains}
use rideway_api.Database.InMemory.{in_memory, Every-nil}
use rideway_api.Redis.InMemory.{redis_in_memory, empty}
use rideway_api.Gateway.{
  World, user_online, user_offline, is_user_visibly_online, get_online_status, handle_connection,
  handle_disconnect,
}
use rideway_api.Gateway.Sockets.{sockets_of, connect, disconnect}
use rideway_api.Gateway.Connecting.{IsConsistent}
use rideway_api.Gateway.History.{
  here, opened, closed, GatewayReach-IsConsistent, told, broadcast_lem,
}
use rideway_api.Gateway.Batches.{lookup, get_online_users, get_online_status_batch, batch_lem}

abbrev quiet : World redis_in_memory
quiet = record {
  store = empty;
  activities = [];
  follows = record { id = 1; follower_id = 8; following_id = 7 } ∷ [];
  emitted = [];
}

abbrev nobody : ℕ → Option ℕ
nobody socket = none

quiet-IsConsistent : IsConsistent in_memory redis_in_memory nobody quiet
quiet-IsConsistent = record {
  sockets = record { mapped = λ socket. refl; sockets = λ u socket. refl; online = λ u. refl };
  activity = record {
    users = λ i. omega arith;
    counted = Every-nil _;
    present = λ u h. ground (arith, h);
  };
}

abbrev twice : ℕ → Option ℕ
twice = connect 32 7 (connect 31 7 nobody)

abbrev two_sockets : World redis_in_memory
two_sockets =
    handle_connection in_memory redis_in_memory 32 (some 7) 60
      (handle_connection in_memory redis_in_memory 31 (some 7) 50 quiet)

GatewayReach-IsConsistent_example :
    IsConsistent in_memory redis_in_memory
      (disconnect 31 twice)
      (handle_disconnect in_memory redis_in_memory 31 (some 7) 70 two_sockets)
GatewayReach-IsConsistent_example =
    GatewayReach-IsConsistent in_memory redis_in_memory
      (closed (opened (opened here 31 7 50 refl) 32 7 60 refl) 31 7 70 refl) quiet-IsConsistent

abbrev one_socket : World redis_in_memory
one_socket = handle_connection in_memory redis_in_memory 31 (some 7) 50 quiet

one_socket-IsConsistent : IsConsistent in_memory redis_in_memory (connect 31 7 nobody) one_socket
one_socket-IsConsistent =
    GatewayReach-IsConsistent in_memory redis_in_memory (opened here 31 7 50 refl)
      quiet-IsConsistent

broadcast_lem_example :
    ((handle_connection in_memory redis_in_memory 31 (some 7) 60 quiet).emitted ≡ (
      if sockets_of redis_in_memory quiet.store 7 == 0
      then quiet.emitted
        ++ told in_memory redis_in_memory (λ follower. user_online follower 7) 7 quiet
      else quiet.emitted))
    × ((handle_disconnect in_memory redis_in_memory 31 (some 7) 60 one_socket).emitted ≡ (
        if sockets_of redis_in_memory one_socket.store 7 == 1
        then one_socket.emitted
          ++ told in_memory redis_in_memory (λ follower. user_offline follower 7) 7 one_socket
        else one_socket.emitted))
broadcast_lem_example =
    broadcast_lem in_memory redis_in_memory quiet one_socket 7 60 31 31 quiet-IsConsistent refl
      one_socket-IsConsistent refl

batch_lem_example :
    (lookup 7 (get_online_users redis_in_memory two_sockets (6 ∷ 7 ∷ [])) ≡ (
      if contains (6 ∷ 7 ∷ []) 7
      then some (is_user_visibly_online redis_in_memory 7 two_sockets)
      else none))
    × (lookup 7 (get_online_status_batch redis_in_memory two_sockets (6 ∷ 7 ∷ [])) ≡ (
        if contains (6 ∷ 7 ∷ []) 7
        then some (get_online_status redis_in_memory 7 two_sockets)
        else none))
batch_lem_example = batch_lem redis_in_memory two_sockets (6 ∷ 7 ∷ []) 7
