-- ===== src/Users.antt =====
-- UsersService of src/modules/users/users.service.ts: the tables, profiles as they are answered, and
-- the calls that follow and block. Of a user the columns that the service answers are kept. An empty
-- text counts as false, as in JavaScript. Log lines are left out.
pub mod Profiles
pub mod Lists
pub mod Graph
pub mod Tables
pub mod Refinement
pub mod History
pub mod Names
pub mod Shown
mod Tests
use rideway_api.Prelude.{
  ℕ, Bool, true, false, not, Option, none, some, is_some, is_none, ◌&&◌, String, List, ◌==◌,
}
use rideway_api.Database.{Orm, has}
use rideway_api.Blocking.{
  UserFollow, UserBlock, is_follow, is_block, is_block_between, is_user_blocked,
}
use rideway_api.Action.{
  Action, ◌>>=◌, ◌>>◌, modify, ensure, gets, or_throw, not_found, forbidden, conflict, bad_request,
}

pub record User : Type 0 where
  pub id : ℕ
  pub email : String
  pub is_email_verified : Bool
  pub is_active : Bool
  pub created_at : ℕ
  pub deleted_at : Option ℕ

pub record UserProfile : Type 0 where
  pub id : ℕ
  pub user_id : ℕ
  pub username : String
  pub full_name : Option String
  pub bio : Option String
  pub avatar_url : Option String
  pub cover_url : Option String
  pub location : Option String
  pub website : Option String
  pub date_of_birth : Option String
  pub gender : Option String

-- The tables, and the images whose deletion was asked of MediaService.
pub record Db : Type 0 where
  pub users : List User
  pub profiles : List UserProfile
  pub follows : List UserFollow
  pub blocks : List UserBlock
  pub deleted_images : List String

abbrev pub live_user : ℕ → User → Bool
live_user id u = u.id == id && is_none u.deleted_at

-- `{ id, isActive: true }`
abbrev pub active_user : ℕ → User → Bool
active_user id u = live_user id u && u.is_active

-- `manager.delete` of the follows in both directions, then `save` of the block: one transaction.
abbrev pub block_rows : Orm → (new_id blocker_id blocked_id : ℕ) → Db → Db
block_rows orm new_id blocker_id blocked_id s = record s {
  follows =
      orm.delete (is_follow blocked_id blocker_id)
        (orm.delete (is_follow blocker_id blocked_id) s.follows);
  blocks =
      orm.insert (record { id = new_id; blocker_id = blocker_id; blocked_id = blocked_id })
        s.blocks;
}

module _ (orm : Orm) where
  unfoldable pub follow_user : (new_id follower_id following_id : ℕ) → Action Db (Unit {0})
  follow_user new_id follower_id following_id = do
    ensure (not (follower_id == following_id)) (bad_request "You cannot follow yourself")
    target_user ← gets (λ s. orm.find_one (active_user following_id) s.users)
    ensure (is_some target_user) (not_found "User not found")
    is_blocked ← gets (λ s. is_user_blocked orm following_id follower_id s.blocks)
    ensure (not is_blocked) (forbidden "You cannot follow this user")
    existing_follow ← gets (λ s. orm.find_one (is_follow follower_id following_id) s.follows)
    ensure (is_none existing_follow) (conflict "You are already following this user")
    modify (λ s. record s {
      follows =
          orm.insert
            (record { id = new_id; follower_id = follower_id; following_id = following_id })
            s.follows;
    })

  unfoldable pub unfollow_user : (follower_id following_id : ℕ) → Action Db (Unit {0})
  unfollow_user follower_id following_id = do
    found ← gets (λ s. orm.find_one (is_follow follower_id following_id) s.follows)
    follow ← or_throw (not_found "You are not following this user") found
    modify (λ s. record s { follows = orm.delete (λ f. f.id == follow.id) s.follows })

  unfoldable pub block_user : (new_id blocker_id blocked_id : ℕ) → Action Db (Unit {0})
  block_user new_id blocker_id blocked_id = do
    ensure (not (blocker_id == blocked_id)) (bad_request "You cannot block yourself")
    target_user ← gets (λ s. orm.find_one (active_user blocked_id) s.users)
    ensure (is_some target_user) (not_found "User not found")
    existing_block ← gets (λ s. orm.find_one (is_block blocker_id blocked_id) s.blocks)
    ensure (is_none existing_block) (conflict "User is already blocked")
    modify (block_rows orm new_id blocker_id blocked_id)

  unfoldable pub unblock_user : (blocker_id blocked_id : ℕ) → Action Db (Unit {0})
  unblock_user blocker_id blocked_id = do
    found ← gets (λ s. orm.find_one (is_block blocker_id blocked_id) s.blocks)
    block ← or_throw (not_found "User is not blocked") found
    modify (λ s. record s { blocks = orm.delete (λ b. b.id == block.id) s.blocks })
