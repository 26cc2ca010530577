-- ===== src/Users/Refinement.antt =====
-- Each call that follows or blocks, on the tables, does what its specification says of the graph.
use mathlib.Core.Path.{fun_ext, ap₂}
use rideway_api.Prelude.{
  ℕ, ◌≡◌, refl, sym, ap, ◌∙◌, inl, inr, Bool, not, ◌&&◌, ◌||◌, ◌==◌, arith, Bool-cases,
  Option-cases,
}
use rideway_api.Database.{Orm}
use rideway_api.Database.Presence.{has-insert, has-or}
use rideway_api.Database.Pairs.{has-delete_pair, has-delete_found, IsToggleTable-delete_any}
use rideway_api.Database.Toggles.{IsToggleTable-insert}
use rideway_api.Action.{
  HttpError, Outcome, done, raised, state_of, not_found, forbidden, conflict, bad_request,
}
use rideway_api.Blocking.{UserFollow, UserBlock, is_follow, is_block, is_user_blocked}
use rideway_api.Users.{
  Db, active_user, block_rows, follow_user, unfollow_user, block_user, unblock_user,
}
use rideway_api.Users.Graph.{Graph, Call, follow, unfollow, block, unblock, parted, answer}
use rideway_api.Users.Tables.{IsWellFormed, IsNew, run, graph_of, active_in}

-- The outcome with the graph in place of the tables.
abbrev pub seen : Orm → Outcome Db (Unit {0}) → Outcome Graph (Unit {0})
seen orm (done a s) = done a (graph_of orm s)
seen orm (raised e s) = raised e (graph_of orm s)

-- The call answers what the specification says, and leaves the tables of pairs in order and the
-- accounts alone.
pub record Simulates (orm : Orm) (c : Call) (new_id : ℕ) (db : Db) : Type 0 where
  pub answered : seen orm (run orm c new_id db) ≡ answer (active_in orm db) c (graph_of orm db)
  pub kept : IsWellFormed (state_of (run orm c new_id db))
  pub users : (state_of (run orm c new_id db)).users ≡ db.users

module _ (orm : Orm) (c : Call) (new_id : ℕ) (db : Db) (wf : IsWellFormed db) where
  refused :
      (e : HttpError)
      → run orm c new_id db ≡ raised e db
      → answer (active_in orm db) c (graph_of orm db) ≡ raised e (graph_of orm db)
      → Simulates orm c new_id db
  refused e ran said = record {
    answered = ap (seen orm) ran ∙ sym said;
    kept = rw ran wf;
    users = rw ran refl;
  }

  served :
      (db' : Db) (g : Graph)
      → run orm c new_id db ≡ done tt db'
      → answer (active_in orm db) c (graph_of orm db) ≡ done tt g
      → graph_of orm db' ≡ g
      → IsWellFormed db'
      → db'.users ≡ db.users
      → Simulates orm c new_id db
  served db' g ran said same wf' users = record {
    answered = ap (seen orm) ran ∙ ap (λ (h : Graph). done tt h) same ∙ sym said;
    kept = rw ran wf';
    users = rw ran users;
  }

module _ (orm : Orm) (new_id : ℕ) (db : Db) (wf : IsWellFormed db) (fresh : IsNew new_id db)
    (a b : ℕ) where
  follow_user-Simulates : Simulates orm (follow a b) new_id db
  unfolding follow_user
  follow_user-Simulates = elim (Bool-cases (a == b)) [
    | inl self ↦
        refused orm (follow a b) new_id db wf (bad_request "You cannot follow yourself")
          (ground (arith, self)) (ground (arith, self))
    | inr other ↦ elim (Option-cases (orm.find_one (active_user b) db.users)) [
      | inl missing ↦
          refused orm (follow a b) new_id db wf (not_found "User not found")
            (ground (arith, other, missing)) (ground (arith, other, missing))
      | inr (u, found) ↦
          let between : is_user_blocked orm b a db.blocks
              ≡ ((graph_of orm db).blocks a b || (graph_of orm db).blocks b a) =
            has-or orm (is_block a b) (is_block b a) db.blocks in
          elim (Bool-cases (is_user_blocked orm b a db.blocks)) [
            | inl blocked ↦
                refused orm (follow a b) new_id db wf (forbidden "You cannot follow this user")
                  (ground (arith, other, found, blocked))
                  (ground (arith, other, found, sym between ∙ blocked))
            | inr free ↦ elim (Option-cases (orm.find_one (is_follow a b) db.follows)) [
              | inr (f, had) ↦
                  refused orm (follow a b) new_id db wf
                    (conflict "You are already following this user")
                    (ground (arith, other, found, free, had))
                    (ground (arith, other, found, sym between ∙ free, had))
              | inl new ↦
                  served orm (follow a b) new_id db wf followed _
                    (ground (arith, other, found, free, new))
                    (ground (arith, other, found, sym between ∙ free, new))
                    (ap (λ (r : ℕ → ℕ → Bool). record (graph_of orm db) { follows = r })
                      (fun_ext (λ x. fun_ext (λ y. has-insert orm (is_follow x y) row db.follows))))
                    (record {
                      follows =
                          IsToggleTable-insert _ _ _ orm db.follows wf.follows a b row refl refl
                            fresh.no_follow new;
                      blocks = wf.blocks;
                    })
                    refl
            ]
          ]
    ]
  ]
    where
      row : UserFollow
      row = record { id = new_id; follower_id = a; following_id = b }

      followed : Db
      followed = record db { follows = orm.insert row db.follows }

  unfollow_user-Simulates : Simulates orm (unfollow a b) new_id db
  unfolding unfollow_user
  unfollow_user-Simulates = elim (Option-cases (orm.find_one (is_follow a b) db.follows)) [
    | inl missing ↦
        refused orm (unfollow a b) new_id db wf (not_found "You are not following this user")
          (ground (arith, missing)) (ground (arith, missing))
    | inr (f, found) ↦
        served orm (unfollow a b) new_id db wf
          (record db { follows = orm.delete (λ x. x.id == f.id) db.follows }) _
          (ground (arith, found)) (ground (arith, found))
          (ap (λ (r : ℕ → ℕ → Bool). record (graph_of orm db) { follows = r })
            (fun_ext
              (λ x. fun_ext (λ y. has-delete_found _ _ _ orm db.follows wf.follows a b found x y))))
          (record {
            follows = IsToggleTable-delete_any _ _ _ orm db.follows wf.follows (λ x. x.id == f.id);
            blocks = wf.blocks;
          })
          refl
  ]

  block_user-Simulates : Simulates orm (block a b) new_id db
  unfolding block_user
  block_user-Simulates = elim (Bool-cases (a == b)) [
    | inl self ↦
        refused orm (block a b) new_id db wf (bad_request "You cannot block yourself")
          (ground (arith, self)) (ground (arith, self))
    | inr other ↦ elim (Option-cases (orm.find_one (active_user b) db.users)) [
      | inl missing ↦
          refused orm (block a b) new_id db wf (not_found "User not found")
            (ground (arith, other, missing)) (ground (arith, other, missing))
      | inr (u, found) ↦ elim (Option-cases (orm.find_one (is_block a b) db.blocks)) [
        | inr (k, had) ↦
            refused orm (block a b) new_id db wf (conflict "User is already blocked")
              (ground (arith, other, found, had)) (ground (arith, other, found, had))
        | inl new ↦
            served orm (block a b) new_id db wf (block_rows orm new_id a b db) _
              (ground (arith, other, found, new)) (ground (arith, other, found, new))
              (ap₂ (λ (r k : ℕ → ℕ → Bool). let g : Graph = record { follows = r; blocks = k } in g)
                apart (fun_ext (λ x. fun_ext (λ y. has-insert orm (is_block x y) row db.blocks))))
              (record {
                follows =
                    IsToggleTable-delete_any _ _ _ orm _
                      (IsToggleTable-delete_any _ _ _ orm db.follows wf.follows (is_follow a b))
                      (is_follow b a);
                blocks =
                    IsToggleTable-insert _ _ _ orm db.blocks wf.blocks a b row refl refl
                      fresh.no_block new;
              })
              refl
      ]
    ]
  ]
    where
      row : UserBlock
      row = record { id = new_id; blocker_id = a; blocked_id = b }

      apart :
          (graph_of orm (block_rows orm new_id a b db)).follows
          ≡ parted b a (parted a b (graph_of orm db).follows)
      apart = fun_ext (λ x. fun_ext (λ y.
          has-delete_pair (λ (f : UserFollow). f.id) (λ f. f.follower_id) (λ f. f.following_id) orm
            (orm.delete (is_follow a b) db.follows) b a x y
          ∙ ap (λ (k : Bool). k && not (b == x && a == y))
              (has-delete_pair (λ (f : UserFollow). f.id) (λ f. f.follower_id) (λ f. f.following_id)
                orm db.follows a b x y)))

  unblock_user-Simulates : Simulates orm (unblock a b) new_id db
  unfolding unblock_user
  unblock_user-Simulates = elim (Option-cases (orm.find_one (is_block a b) db.blocks)) [
    | inl missing ↦
        refused orm (unblock a b) new_id db wf (not_found "User is not blocked")
          (ground (arith, missing)) (ground (arith, missing))
    | inr (k, found) ↦
        served orm (unblock a b) new_id db wf
          (record db { blocks = orm.delete (λ x. x.id == k.id) db.blocks }) _
          (ground (arith, found)) (ground (arith, found))
          (ap (λ (r : ℕ → ℕ → Bool). record (graph_of orm db) { blocks = r })
            (fun_ext
              (λ x. fun_ext (λ y. has-delete_found _ _ _ orm db.blocks wf.blocks a b found x y))))
          (record {
            follows = wf.follows;
            blocks = IsToggleTable-delete_any _ _ _ orm db.blocks wf.blocks (λ x. x.id == k.id);
          })
          refl
  ]

pub run-Simulates :
    (orm : Orm) (c : Call) (new_id : ℕ) (db : Db)
    → IsWellFormed db
    → IsNew new_id db
    → Simulates orm c new_id db
run-Simulates orm (follow a b) new_id db wf fresh = follow_user-Simulates orm new_id db wf fresh a b
run-Simulates orm (unfollow a b) new_id db wf fresh =
    unfollow_user-Simulates orm new_id db wf fresh a b
run-Simulates orm (block a b) new_id db wf fresh = block_user-Simulates orm new_id db wf fresh a b
run-Simulates orm (unblock a b) new_id db wf fresh =
    unblock_user-Simulates orm new_id db wf fresh a b

-- A call that follows, unfollows, blocks or unblocks, made on tables that hold each pair once and
-- with an unused id for the row that it may save, returns or throws exactly what the specification
-- says for the graph of the tables and the active accounts, and the graph of the tables that it
-- leaves is the graph that the specification leaves.
pub run-answer :
    (orm : Orm) (c : Call) (new_id : ℕ) (db : Db)
    → IsWellFormed db
    → IsNew new_id db
    → seen orm (run orm c new_id db) ≡ answer (active_in orm db) c (graph_of orm db)
run-answer orm c new_id db wf fresh = (run-Simulates orm c new_id db wf fresh).answered
