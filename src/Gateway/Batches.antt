-- ===== src/Gateway/Batches.antt =====
-- `getOnlineUsers` and `getOnlineStatusBatch` of src/modules/gateway/gateway.service.ts: they queue
-- the commands of all users in one pipeline and read the replies back by index. A `Map` is its
-- entries, the last one for a key standing first. A pipeline that answers no list, as after an abort
-- of a transaction, does not occur, since none is begun.
use mathlib.Core.Path.{ap₂}
use rideway_api.Prelude.{
  ℕ, zero, suc, ◌+◌, ◌*◌, ◌≡◌, refl, sym, ap, ◌∙◌, inl, inr, Bool, false, ◌&&◌, Option, none, some,
  is_none, is_some, if◌then◌else◌, List, [], ◌∷◌, ◌==◌, arith, Bool-cases, drop, eq_of_==,
}
use rideway_api.Prelude.Sets.{contains}
use rideway_api.Redis.{Redis, TextKey, SetKey, user_last_seen, user_appear_offline, online_users}
use rideway_api.Gateway.{World, OnlineStatusInfo, is_user_visibly_online, get_online_status}

pub data Command : Type 0 where
  sismember : SetKey → ℕ → Command
  get : TextKey → Command

pub data Reply : Type 0 where
  of_test : Bool → Reply
  of_text : Option ℕ → Reply

-- `reply === 1`, and the text of a reply to a `get`.
abbrev pub is_one : Option Reply → Bool
is_one (some (of_test b)) = b
is_one _ = false

abbrev pub text_in : Option Reply → Option ℕ
text_in (some (of_text o)) = o
text_in _ = none

module _ {A : Type 0} where
  abbrev pub get_elem? : List A → ℕ → Option A
  get_elem? [] i = none
  get_elem? (x ∷ xs) zero = some x
  get_elem? (x ∷ xs) (suc i) = get_elem? xs i

-- `map.get(key)`
module _ {V : Type 0} where
  abbrev pub lookup : ℕ → List (ℕ × V) → Option V
  lookup k [] = none
  lookup k ((k', v) ∷ entries) = if k' == k then some v else lookup k entries

-- The queue of commands for the users.
abbrev pub online_commands : List ℕ → List Command
online_commands [] = []
online_commands (u ∷ users) =
    sismember online_users u ∷ get (user_appear_offline u) ∷ online_commands users

abbrev pub status_commands : List ℕ → List Command
status_commands [] = []
status_commands (u ∷ users) =
    sismember online_users u
    ∷ get (user_appear_offline u)
    ∷ get (user_last_seen u)
    ∷ status_commands users

-- The loop over the users that are left, from the index `i` on, which adds to the map.
abbrev pub read_online : List Reply → ℕ → List ℕ → List (ℕ × Bool) → List (ℕ × Bool)
read_online results i [] entries = entries
read_online results i (u ∷ users) entries =
    let is_online = is_one (get_elem? results (i * 2)) in
    let appear_offline = text_in (get_elem? results (i * 2 + 1)) in
    read_online results (suc i) users ((u, is_online && is_none appear_offline) ∷ entries)

abbrev pub read_status :
    List Reply → ℕ → List ℕ → List (ℕ × OnlineStatusInfo) → List (ℕ × OnlineStatusInfo)
read_status results i [] entries = entries
read_status results i (u ∷ users) entries =
    let is_online = is_one (get_elem? results (i * 3)) in
    let appear_offline = text_in (get_elem? results (i * 3 + 1)) in
    let last_seen = text_in (get_elem? results (i * 3 + 2)) in
    read_status results (suc i) users (
      (
        u,
        record {
          is_online = is_online && is_none appear_offline;
          last_seen = last_seen;
          appear_offline = is_some appear_offline;
        },
      )
      ∷ entries)

module _ (redis : Redis) (w : World redis) where
  -- `pipeline.exec()`: the replies in the order of the commands.
  abbrev pub exec : List Command → List Reply
  exec [] = []
  exec (sismember k m ∷ commands) = of_test (redis.sismember k m w.store) ∷ exec commands
  exec (get k ∷ commands) = of_text (redis.get k w.store) ∷ exec commands

  unfoldable pub get_online_users : List ℕ → List (ℕ × Bool)
  get_online_users [] = []
  get_online_users (u ∷ users) = read_online (exec (online_commands (u ∷ users))) 0 (u ∷ users) []

  unfoldable pub get_online_status_batch : List ℕ → List (ℕ × OnlineStatusInfo)
  get_online_status_batch [] = []
  get_online_status_batch (u ∷ users) =
      read_status (exec (status_commands (u ∷ users))) 0 (u ∷ users) []

-- Replies are found by index behind those that were read before.
module _ {A : Type 0} where
  get_elem?-drop : (n : ℕ) (xs : List A) (j : ℕ) → get_elem? (drop n xs) j ≡ get_elem? xs (n + j)
  get_elem?-drop zero xs j = ap (get_elem? xs) (omega arith)
  get_elem?-drop (suc n) [] j = refl
  get_elem?-drop (suc n) (x ∷ xs) j =
      let e : suc (n + j) ≡ suc n + j = omega arith in
      get_elem?-drop n xs j ∙ ap (get_elem? (x ∷ xs)) e

  abbrev the_empty : List A
  the_empty = []

  drop-nil : (m : ℕ) → drop m (the_empty) ≡ the_empty
  drop-nil zero = refl
  drop-nil (suc m) = refl

  drop-drop : (n m : ℕ) (xs : List A) → drop m (drop n xs) ≡ drop (n + m) xs
  drop-drop zero m xs = ap (λ (k : ℕ). drop k xs) (omega arith)
  drop-drop (suc n) m [] = drop-nil m ∙ sym (drop-nil (suc n + m))
  drop-drop (suc n) m (x ∷ xs) =
      let e : suc (n + m) ≡ suc n + m = omega arith in
      drop-drop n m xs ∙ ap (λ (k : ℕ). drop k (x ∷ xs)) e

  -- The reply that stands `j` places behind the `n` that were read.
  reply_at : (n j : ℕ) (xs ys : List A) → drop n xs ≡ ys → get_elem? xs (n + j) ≡ get_elem? ys j
  reply_at n j xs ys e = sym (get_elem?-drop n xs j) ∙ ap (λ (zs : List A). get_elem? zs j) e

  next_replies : (n m k : ℕ) (xs ys : List A) → drop n xs ≡ ys → n + m ≡ k → drop k xs ≡ drop m ys
  next_replies n m k xs ys e h =
      ap (λ (z : ℕ). drop z xs) (sym h) ∙ sym (drop-drop n m xs) ∙ ap (drop m) e

-- The entries of the users, each with the value that a single question gives.
module _ {V : Type 0} (f : ℕ → V) where
  abbrev added : List ℕ → List (ℕ × V) → List (ℕ × V)
  added [] entries = entries
  added (u ∷ users) entries = added users ((u, f u) ∷ entries)

  lookup-added :
      (k : ℕ) (users : List ℕ) (entries : List (ℕ × V))
      → lookup k (added users entries) ≡ (if contains users k then some (f k) else lookup k entries)
  lookup-added k [] entries = refl
  lookup-added k (u ∷ users) entries =
      lookup-added k users ((u, f u) ∷ entries) ∙ elim (Bool-cases (contains users k)) [
        | inl later ↦ elim (Bool-cases (u == k)) [
          | inl same ↦ rw (later, same) refl
          | inr other ↦ rw (later, other) refl
        ]
        | inr not_later ↦ elim (Bool-cases (u == k)) [
          | inl same ↦ rw (not_later, same) (ap (λ (i : ℕ). some (f i)) (eq_of_== u k same))
          | inr other ↦ rw (not_later, other) refl
        ]
      ]

module _ (redis : Redis) (w : World redis) where
  read_online-added :
      (results : List Reply) (i : ℕ) (users : List ℕ) (entries : List (ℕ × Bool))
      → drop (i * 2) results ≡ exec redis w (online_commands users)
      → read_online results i users entries
        ≡ added (λ u. is_user_visibly_online redis u w) users entries
  read_online-added results i [] entries e = refl
  read_online-added results i (u ∷ users) entries e =
      ap₂
        (λ (a b : Option Reply).
          read_online results (suc i) users ((u, is_one a && is_none (text_in b)) ∷ entries))
        (ap (get_elem? results) (omega arith) ∙ reply_at (i * 2) 0 results _ e)
        (reply_at (i * 2) 1 results _ e)
      ∙ read_online-added results (suc i) users _
          (next_replies (i * 2) 2 (suc i * 2) results _ e (omega arith))

  read_status-added :
      (results : List Reply) (i : ℕ) (users : List ℕ) (entries : List (ℕ × OnlineStatusInfo))
      → drop (i * 3) results ≡ exec redis w (status_commands users)
      → read_status results i users entries ≡ added (λ u. get_online_status redis u w) users entries
  read_status-added results i [] entries e = refl
  read_status-added results i (u ∷ users) entries e =
      let first : get_elem? results (i * 3) ≡ some (of_test _) =
        ap (get_elem? results) (omega arith) ∙ reply_at (i * 3) 0 results _ e in
      let second : get_elem? results (i * 3 + 1) ≡ some (of_text _) =
        reply_at (i * 3) 1 results _ e in
      let third : get_elem? results (i * 3 + 2) ≡ some (of_text _) =
        reply_at (i * 3) 2 results _ e in
      rw (first, second, third)
        (read_status-added results (suc i) users _
          (next_replies (i * 3) 3 (suc i * 3) results _ e (omega arith)))

  -- Asking for many users at once gives what asking for each gives: the entry of a user in the maps
  -- of `getOnlineUsers` and `getOnlineStatusBatch` is what `isUserVisiblyOnline` and
  -- `getOnlineStatus` answer for that user, and there is an entry for the users asked for and for no
  -- other.
  pub batch_lem :
      (users : List ℕ) (user : ℕ)
      → (lookup user (get_online_users redis w users)
          ≡ (if contains users user then some (is_user_visibly_online redis user w) else none))
        × (lookup user (get_online_status_batch redis w users)
            ≡ (if contains users user then some (get_online_status redis user w) else none))
  unfolding get_online_users get_online_status_batch
  batch_lem [] user = (refl, refl)
  batch_lem (u ∷ users) user = (
    ap (lookup user)
          (read_online-added (exec redis w (online_commands (u ∷ users))) 0 (u ∷ users) [] refl)
        ∙ lookup-added (λ v. is_user_visibly_online redis v w) user (u ∷ users) [],
    ap (lookup user)
          (read_status-added (exec redis w (status_commands (u ∷ users))) 0 (u ∷ users) [] refl)
        ∙ lookup-added (λ v. get_online_status redis v w) user (u ∷ users) [],
  )
