-- ===== src/Blocking/Laws.antt =====
-- The ids that `getBlockedUserIds` collects are those of the users for whom `isUserBlocked` holds.
use rideway_api.Prelude.{ℕ, ◌≡◌, ◌∙◌, ◌||◌, List, [], arith, ◌==◌, if◌then◌else◌}
use rideway_api.Prelude.Sets.{contains, contains-add_to_set}
use rideway_api.Database.{Orm, unordered}
use rideway_api.Database.Presence.{has-congr, contains-find}
use rideway_api.Blocking.{UserBlock, is_block_between, is_user_blocked, blocked_user_ids}

-- `getBlockedUserIds` and `isUserBlocked` agree: for any users and blocks, an id is in the list that
-- the first collects exactly where the second finds a block in one of the two directions.
pub contains-blocked_user_ids :
    (orm : Orm) (user_id other_id : ℕ) (blocks : List UserBlock)
    → contains (blocked_user_ids orm user_id blocks) other_id
      ≡ is_user_blocked orm other_id user_id blocks
unfolding blocked_user_ids
contains-blocked_user_ids orm user_id other_id blocks =
    contains-add_to_set _ [] other_id
    ∙ contains-find orm
        (λ (b : UserBlock). if b.blocker_id == user_id then b.blocked_id else b.blocker_id)
        (λ b. b.blocker_id == user_id || b.blocked_id == user_id) unordered blocks other_id
    ∙ has-congr orm _ (is_block_between other_id user_id) blocks (λ b. ground arith)
