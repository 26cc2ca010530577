-- ===== src/Blocking.antt =====
-- Follows and blocks between users, src/database/entities, and the two questions about blocks that
-- UsersService and the social services ask with the same code: `isUserBlocked` and
-- `getBlockedUserIds`, as in src/modules/users/users.service.ts.
pub mod Laws
use rideway_api.Prelude.{
  ℕ, Bool, ◌&&◌, ◌||◌, Option, none, some, List, [], map, ◌==◌, if◌then◌else◌,
}
use rideway_api.Prelude.Sets.{add_to_set}
use rideway_api.Database.{Orm, unordered, has}

pub record UserFollow : Type 0 where
  pub id : ℕ
  pub follower_id : ℕ
  pub following_id : ℕ

pub record UserBlock : Type 0 where
  pub id : ℕ
  pub blocker_id : ℕ
  pub blocked_id : ℕ

-- The conditions `{ followerId, followingId }` and `{ blockerId, blockedId }`.
abbrev pub is_follow : (follower_id following_id : ℕ) → UserFollow → Bool
is_follow follower_id following_id f =
    f.follower_id == follower_id && f.following_id == following_id

abbrev pub is_block : (blocker_id blocked_id : ℕ) → UserBlock → Bool
is_block blocker_id blocked_id b = b.blocker_id == blocker_id && b.blocked_id == blocked_id

-- A block in either direction.
abbrev pub is_block_between : (user_id current_user_id : ℕ) → UserBlock → Bool
is_block_between user_id current_user_id b =
    is_block current_user_id user_id b || is_block user_id current_user_id b

module _ (orm : Orm) where
  abbrev pub is_user_blocked : (user_id current_user_id : ℕ) → List UserBlock → Bool
  is_user_blocked user_id current_user_id blocks =
      has orm (is_block_between user_id current_user_id) blocks

  unfoldable pub blocked_user_ids : ℕ → List UserBlock → List ℕ
  blocked_user_ids user_id blocks =
      add_to_set
        (map (λ b. if b.blocker_id == user_id then b.blocked_id else b.blocker_id)
          (orm.find (λ b. b.blocker_id == user_id || b.blocked_id == user_id) unordered blocks))
        []

  -- `currentUserId ? await this.getBlockedUserIds(currentUserId) : []`
  abbrev pub blocked_ids_for : Option ℕ → List UserBlock → List ℕ
  blocked_ids_for none blocks = []
  blocked_ids_for (some user_id) blocks = blocked_user_ids user_id blocks
