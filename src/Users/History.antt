-- ===== src/Users/History.antt =====
-- Any sequence of calls that follow and block, successful or throwing.
use rideway_api.Prelude.{ℕ, ◌≡◌, refl, sym, ap, ◌∙◌, Bool, List, [], ◌∷◌}
use rideway_api.Database.{Orm, has}
use rideway_api.Action.{Outcome, done, raised, state_of}
use rideway_api.Users.{User, Db, active_user}
use rideway_api.Users.Graph.{Graph, Call, answer, IsPeaceful, answer-IsPeaceful}
use rideway_api.Users.Tables.{IsWellFormed, IsNew, run, graph_of, active_in}
use rideway_api.Users.Refinement.{seen, run-Simulates}

-- The tables that a sequence of calls leaves, each with a new id.
pub data SocialReach (orm : Orm) (db : Db) : List Call → Db → Type 0 where
  here : SocialReach orm db [] db
  next :
      {calls : List Call} {db' : Db}
      → SocialReach orm db calls db'
      → (c : Call) (new_id : ℕ) → IsNew new_id db'
      → SocialReach orm db (c ∷ calls) (state_of (run orm c new_id db'))

-- What the specification says that the calls leave, the last call first.
abbrev pub replay : (active : ℕ → Bool) → List Call → Graph → Graph
replay active [] g = g
replay active (c ∷ calls) g = state_of (answer active c (replay active calls g))

replay-IsPeaceful :
    (active : ℕ → Bool) (calls : List Call) (g : Graph)
    → IsPeaceful g
    → IsPeaceful (replay active calls g)
replay-IsPeaceful active [] g peace = peace
replay-IsPeaceful active (c ∷ calls) g peace =
    answer-IsPeaceful active c _ (replay-IsPeaceful active calls g peace)

seen-state :
    (orm : Orm) (o : Outcome Db (Unit {0})) → state_of (seen orm o) ≡ graph_of orm (state_of o)
seen-state orm (done a s) = refl
seen-state orm (raised e s) = refl

module _ (orm : Orm) where
  -- The tables stay in order, the accounts stay, and the graph is the one of the specification.
  record IsReplayed (db : Db) (calls : List Call) (db' : Db) : Type 0 where
    kept : IsWellFormed db'
    users : db'.users ≡ db.users
    graph : graph_of orm db' ≡ replay (active_in orm db) calls (graph_of orm db)

  SocialReach-IsReplayed :
      {db db' : Db} {calls : List Call}
      → SocialReach orm db calls db'
      → IsWellFormed db
      → IsReplayed db calls db'
  SocialReach-IsReplayed here wf = record { kept = wf; users = refl; graph = refl }
  SocialReach-IsReplayed {db} (next {calls} {db' = mid} r c new_id fresh) wf =
      let before = SocialReach-IsReplayed r wf in
      let after = run-Simulates orm c new_id mid before.kept fresh in
      record {
        kept = after.kept;
        users = after.users ∙ before.users;
        graph =
            sym (seen-state orm (run orm c new_id mid))
            ∙ ap state_of after.answered
            ∙ ap
                (λ (users : List User).
                  state_of (answer (λ id. has orm (active_user id) users) c (graph_of orm mid)))
                before.users
            ∙ ap (λ (g : Graph). state_of (answer (active_in orm db) c g)) before.graph;
      }

  -- From tables that hold each pair once and in which nobody follows or blocks themselves or follows
  -- across a block, any sequence of calls that follow, unfollow, block and unblock, each successful
  -- or throwing, leaves such tables again, and the graph that they say is the one that the
  -- specification computes from the first graph and the calls.
  pub SocialReach-IsPeaceful :
      {db db' : Db} {calls : List Call}
      → SocialReach orm db calls db'
      → IsWellFormed db
      → IsPeaceful (graph_of orm db)
      → IsWellFormed db'
        × IsPeaceful (graph_of orm db')
        × (graph_of orm db' ≡ replay (active_in orm db) calls (graph_of orm db))
  SocialReach-IsPeaceful {db} {calls} r wf peace =
      let after = SocialReach-IsReplayed r wf in
      (
        after.kept,
        rw after.graph (replay-IsPeaceful (active_in orm db) calls (graph_of orm db) peace),
        after.graph,
      )
