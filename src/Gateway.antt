-- ===== src/Gateway.antt =====
-- GatewayService of src/modules/gateway/gateway.service.ts: which sockets a user has, who is online,
-- and the table of activity; with the connection handlers of src/modules/gateway/gateway.gateway.ts,
-- which call it. Writes that the code starts together stand one after the other: they go to different
-- keys. What is emitted to followers is an outbox. Rooms, typing indicators and the verification of
-- the client's token are left out; a handler takes the user that the token names, if it is valid.
pub mod Sockets
pub mod Presence
pub mod Leaving
pub mod Activity
pub mod Connecting
pub mod History
pub mod Batches
mod Tests
use rideway_api.Prelude.{
  ℕ, ◌-◌, Bool, true, false, not, ◌&&◌, Option, none, some, is_none, is_some, if◌then◌else◌, List,
  [], ◌∷◌, ◌++◌, map, ◌==◌, length, ℤ, pos, ◌+ℤ◌, ◌-ℤ◌,
}
use rideway_api.Database.{Orm, unordered}
use rideway_api.Blocking.{UserFollow}
use rideway_api.Redis.{
  Redis, socket_to_user, user_last_seen, user_appear_offline, online_users, user_sockets,
}

pub record UserActivity : Type 0 where
  pub user_id : ℕ
  pub last_seen_at : ℕ
  pub is_online : Bool
  pub appear_offline : Bool
  pub active_connections : ℤ

-- What is emitted to the personal room of a user.
pub data Emission : Type 0 where
  user_online user_offline : (to_user about : ℕ) → Emission

pub record World (redis : Redis) : Type 0 where
  pub store : redis.Store
  pub activities : List UserActivity
  pub follows : List UserFollow
  pub emitted : List Emission

pub record OnlineStatusInfo : Type 0 where
  pub is_online : Bool
  pub last_seen : Option ℕ
  pub appear_offline : Bool

abbrev pub is_empty : List ℕ → Bool
is_empty [] = true
is_empty (x ∷ xs) = false

abbrev pub activity_of : (user_id now : ℕ) → (is_online : Bool) → UserActivity
activity_of user_id now is_online = record {
  user_id = user_id;
  last_seen_at = now;
  is_online = is_online;
  appear_offline = false;
  active_connections = if is_online then pos 1 else pos 0;
}

abbrev pub seen_now : (now : ℕ) → (is_online : Bool) → UserActivity → UserActivity
seen_now now is_online a = record a {
  is_online = is_online;
  last_seen_at = now;
  active_connections = if is_online then pos 1 else pos 0;
}

module _ (redis : Redis) where
  abbrev pub is_user_online : (user_id : ℕ) → World redis → Bool
  is_user_online user_id w = redis.sismember online_users user_id w.store

  abbrev pub is_user_visibly_online : (user_id : ℕ) → World redis → Bool
  is_user_visibly_online user_id w =
      redis.sismember online_users user_id w.store
      && is_none (redis.get (user_appear_offline user_id) w.store)

  abbrev pub get_online_status : (user_id : ℕ) → World redis → OnlineStatusInfo
  get_online_status user_id w = record {
    is_online =
        redis.sismember online_users user_id w.store
        && is_none (redis.get (user_appear_offline user_id) w.store);
    last_seen = redis.get (user_last_seen user_id) w.store;
    appear_offline = is_some (redis.get (user_appear_offline user_id) w.store);
  }

  abbrev pub get_connection_count : (user_id : ℕ) → World redis → ℕ
  get_connection_count user_id w = length (redis.smembers (user_sockets user_id) w.store)

  -- The store without the socket, and whether the user has no other.
  abbrev pub forget_socket : (socket_id user_id : ℕ) → redis.Store → redis.Store
  forget_socket socket_id user_id s =
      redis.del (socket_to_user socket_id) (redis.srem (user_sockets user_id) socket_id s)

  abbrev pub went_offline : (socket_id user_id : ℕ) → redis.Store → Bool
  went_offline socket_id user_id s =
      is_empty (redis.smembers (user_sockets user_id) (forget_socket socket_id user_id s))

module _ (orm : Orm) where
  unfoldable pub update_user_activity_db :
      (user_id now : ℕ) → (is_online : Bool) → List UserActivity → List UserActivity
  update_user_activity_db user_id now is_online rows =
      elim (orm.find_one (λ a. a.user_id == user_id) rows) [
        | some _ ↦ orm.update (λ a. a.user_id == user_id) (seen_now now is_online) rows
        | none ↦ orm.insert (activity_of user_id now is_online) rows
      ]

  abbrev pub increment_connection_count : ℕ → List UserActivity → List UserActivity
  increment_connection_count user_id rows =
      orm.update (λ a. a.user_id == user_id)
        (λ a. record a { active_connections = a.active_connections +ℤ pos 1 }) rows

  abbrev pub decrement_connection_count : ℕ → List UserActivity → List UserActivity
  decrement_connection_count user_id rows =
      orm.update (λ a. a.user_id == user_id)
        (λ a. record a { active_connections = a.active_connections -ℤ pos 1 }) rows

  -- `upsert({ userId, appearOffline }, ['userId'])`, where a new row gets the columns' defaults.
  abbrev pub upsert_appear_offline :
      (user_id now : ℕ) → Bool → List UserActivity → List UserActivity
  upsert_appear_offline user_id now appear_offline rows =
      elim (orm.find_one (λ a. a.user_id == user_id) rows) [
        | some _ ↦
            orm.update (λ a. a.user_id == user_id)
              (λ a. record a { appear_offline = appear_offline }) rows
        | none ↦
            orm.insert (record (activity_of user_id now false) { appear_offline = appear_offline })
              rows
      ]

  module _ (redis : Redis) where
    abbrev pub broadcast_presence_to_followers :
        (user_id : ℕ) → (is_online : Bool) → World redis → World redis
    broadcast_presence_to_followers user_id is_online w = record w {
      emitted =
          w.emitted
          ++ map
              (λ f.
                if is_online
                then user_online f.follower_id user_id
                else user_offline f.follower_id user_id)
              (orm.find (λ f. f.following_id == user_id) unordered w.follows);
    }

    unfoldable pub register_socket : (socket_id user_id now : ℕ) → World redis → World redis
    register_socket socket_id user_id now w =
        let was_offline = is_empty (redis.smembers (user_sockets user_id) w.store) in
        record w {
          store = redis.set (user_last_seen user_id) now (
              redis.sadd online_users user_id (
                redis.sadd (user_sockets user_id) socket_id
                  (redis.set (socket_to_user socket_id) user_id w.store)));
          activities =
              if was_offline
              then update_user_activity_db user_id now true w.activities
              else increment_connection_count user_id w.activities;
        }

    abbrev pub unregister_user_socket : (socket_id user_id now : ℕ) → World redis → World redis
    unregister_user_socket socket_id user_id now w =
        let s = forget_socket redis socket_id user_id w.store in
        if went_offline redis socket_id user_id w.store
        then record w {
          store = redis.set (user_last_seen user_id) now (redis.srem online_users user_id s);
          activities = update_user_activity_db user_id now false w.activities;
        }
        else record w { store = s; activities = decrement_connection_count user_id w.activities }

    -- The user who went offline, if one did.
    unfoldable pub unregister_socket : (socket_id now : ℕ) → World redis → Option ℕ × World redis
    unregister_socket socket_id now w = elim (redis.get (socket_to_user socket_id) w.store) [
      | none ↦ (none, w)
      | some user_id ↦ (
        if went_offline redis socket_id user_id w.store then some user_id else none,
        unregister_user_socket socket_id user_id now w,
      )
    ]

    unfoldable pub set_user_online : (user_id now : ℕ) → World redis → World redis
    set_user_online user_id now w = broadcast_presence_to_followers user_id true (record w {
      store = redis.set (user_last_seen user_id) now (redis.sadd online_users user_id w.store);
      activities = update_user_activity_db user_id now true w.activities;
    })

    unfoldable pub set_user_offline : (user_id now : ℕ) → World redis → World redis
    set_user_offline user_id now w = broadcast_presence_to_followers user_id false (record w {
      store = redis.set (user_last_seen user_id) now (redis.srem online_users user_id w.store);
      activities = update_user_activity_db user_id now false w.activities;
    })

    unfoldable pub set_appear_offline :
        (user_id now : ℕ) → (appear_offline : Bool) → World redis → World redis
    set_appear_offline user_id now appear_offline w =
        let hidden = record w {
          store =
              if appear_offline
              then redis.set (user_appear_offline user_id) 1 w.store
              else redis.del (user_appear_offline user_id) w.store;
          activities = upsert_appear_offline user_id now appear_offline w.activities;
        } in
        broadcast_presence_to_followers user_id
          (is_user_online redis user_id hidden && not appear_offline) hidden

    -- The user of a valid token, if the client has one.
    unfoldable pub handle_connection :
        (socket_id : ℕ) → (user : Option ℕ) → (now : ℕ) → World redis → World redis
    handle_connection socket_id none now w = w
    handle_connection socket_id (some user_id) now w =
        let was_offline = not (is_user_online redis user_id w) in
        let registered = register_socket socket_id user_id now w in
        if was_offline then set_user_online user_id now registered else registered

    -- The user that was attached to the socket, if one was.
    unfoldable pub handle_disconnect :
        (socket_id : ℕ) → (user : Option ℕ) → (now : ℕ) → World redis → World redis
    handle_disconnect socket_id none now w = w
    handle_disconnect socket_id (some user_id) now w =
        let unregistered = unregister_socket socket_id now w in
        if is_some unregistered.0
        then set_user_offline user_id now unregistered.1
        else unregistered.1
