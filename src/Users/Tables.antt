-- ===== src/Users/Tables.antt =====
-- The tables of follows and blocks hold a pair at most once, whatever is called; and the graph that
-- they say.
use rideway_api.Prelude.{ℕ, ◌≡◌, Bool, List, ◌==◌, count_if}
use rideway_api.Database.{Orm, has}
use rideway_api.Database.Toggles.{IsToggleTable}
use rideway_api.Action.{Action}
use rideway_api.Blocking.{UserFollow, UserBlock, is_follow, is_block}
use rideway_api.Users.{Db, active_user, follow_user, unfollow_user, block_user, unblock_user}
use rideway_api.Users.Graph.{Graph, Call, follow, unfollow, block, unblock}

abbrev pub IsFollowTable : List UserFollow → Type 0
IsFollowTable rows = IsToggleTable (λ f. f.id) (λ f. f.follower_id) (λ f. f.following_id) rows

abbrev pub IsBlockTable : List UserBlock → Type 0
IsBlockTable rows = IsToggleTable (λ b. b.id) (λ b. b.blocker_id) (λ b. b.blocked_id) rows

pub record IsWellFormed (db : Db) : Type 0 where
  pub follows : IsFollowTable db.follows
  pub blocks : IsBlockTable db.blocks

-- The id is that of no follow and of no block.
pub record IsNew (new_id : ℕ) (db : Db) : Type 0 where
  pub no_follow : count_if (λ (f : UserFollow). f.id == new_id) db.follows ≡ 0
  pub no_block : count_if (λ (b : UserBlock). b.id == new_id) db.blocks ≡ 0

module _ (orm : Orm) where
  -- The method that a call runs. `new_id` is the id of the row that it saves, if it does.
  abbrev pub run : Call → (new_id : ℕ) → Action Db (Unit {0})
  run (follow a b) new_id = follow_user orm new_id a b
  run (unfollow a b) new_id = unfollow_user orm a b
  run (block a b) new_id = block_user orm new_id a b
  run (unblock a b) new_id = unblock_user orm a b

  -- The graph that the tables say, and the accounts that are active.
  abbrev pub graph_of : Db → Graph
  graph_of s = record {
    follows = λ a b. has orm (is_follow a b) s.follows;
    blocks = λ a b. has orm (is_block a b) s.blocks;
  }

  abbrev pub active_in : Db → ℕ → Bool
  active_in s id = has orm (active_user id) s.users
