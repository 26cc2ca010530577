-- ===== src/Chat/Meeting.antt =====
-- Whichever of two users opens their conversation, it is the same one.
use rideway_api.Prelude.{
  ℕ, ◌≤◌, ◌≡◌, refl, ap, ◌∙◌, inl, inr, Bool, true, false, not, ◌&&◌, Option, none, some, ◌==◌,
  ==_true, eq_of_==, arith, bit, count_if, count_if_congr, count_if_mono, count_if_split,
  Bool-cases, Option-cases,
}
use rideway_api.Database.{Orm}
use rideway_api.Database.Rows.{count_if-insert, count_if-find_one, count_if-find_one_none}
use rideway_api.Action.{done}
use rideway_api.Blocking.{is_block_between}
use rideway_api.Users.{User, active_user}
use rideway_api.Chat.{
  Conversation, Db, NewIds, private_chat, is_between, find_existing_conversation, add_conversation,
  existing_or_new, find_or_create_conversation,
}
use rideway_api.Chat.Pairs.{IsPaired, IsNew, is_between_comm}
use rideway_api.Chat.Pairing.{is_between-new, add_conversation-IsPaired}

-- Two users who may open a conversation: each other's account is active, and no block is between.
pub record MayMeet (orm : Orm) (u v : ℕ) (db : Db) : Type 0 where
  pub distinct_users : (u == v) ≡ false
  pub unblocked : orm.find_one (is_block_between v u) db.blocks ≡ none
  pub other : User
  pub active : orm.find_one (active_user v) db.users ≡ some other

module _ (orm : Orm) where
  -- A conversation of two users, at an id.
  abbrev pub is_theirs : (u v i : ℕ) → Db → Conversation → Bool
  is_theirs u v i db c = is_between orm u v db.participants c && c.id == i

  find_or_create-existing_or_new :
      (ids : NewIds) (now u v : ℕ) (db : Db)
      → MayMeet orm u v db
      → find_or_create_conversation orm ids now u v db
        ≡ existing_or_new orm ids now u v (find_existing_conversation orm u v db) db
  unfolding find_or_create_conversation
  find_or_create-existing_or_new ids now u v db may =
      ground (arith, may.distinct_users, may.unblocked, may.active)

  -- The query finds the conversation, whichever of the users asks.
  found_again :
      (u v i : ℕ) (db : Db)
      → (u == v) ≡ false
      → IsPaired orm db
      → 1 ≤ count_if (is_theirs u v i db) db.conversations
      → (c : Conversation) × (find_existing_conversation orm v u db ≡ some c) × (c.id ≡ i)
  found_again u v i db differ wf there =
      elim (Option-cases (find_existing_conversation orm v u db)) [
        | inl missing ↦ absurd (
            omega (
              arith,
              there,
              count_if-find_one_none orm _ db.conversations missing,
              swapped,
              count_if_mono (is_theirs u v i db) (is_between orm u v db.participants)
                  db.conversations (λ c. ground arith),
            ))
        | inr (c, found) ↦ (
          c,
          found,
          elim (Bool-cases (c.id == i)) [
            | inl same ↦ eq_of_== c.id i same
            | inr other ↦ absurd (
                omega (
                  arith,
                  there,
                  wf.one_for_two u v differ,
                  count_if_split (is_between orm u v db.participants) (λ x. x.id == i)
                      db.conversations,
                  count_if-find_one orm (is_between orm v u db.participants)
                      (λ x. is_between orm u v db.participants x && not (x.id == i))
                      db.conversations found
                      (apart
                        (is_between_comm orm u v db.participants c
                          ∙ (orm.find_one-some _ db.conversations found).1)
                        other),
                ))
          ],
        )
      ]
    where
      swapped :
          count_if (is_between orm v u db.participants) db.conversations
          ≡ count_if (is_between orm u v db.participants) db.conversations
      swapped = count_if_congr _ _ db.conversations (is_between_comm orm v u db.participants)

      apart : {p q : Bool} → p ≡ true → q ≡ false → (p && not q) ≡ true
      apart h k = ground arith

  -- One user opens the conversation, then the other, and the tables still pair the users.
  abbrev pub Meets : (ids ids' : NewIds) (now now' u v : ℕ) → Db → Db → Conversation → Type 0
  Meets ids ids' now now' u v db db' c =
      (find_or_create_conversation orm ids now u v db ≡ done c db')
      × (is_between orm u v db'.participants c ≡ true)
      × ((c' : Conversation) × (find_or_create_conversation orm ids' now' v u db' ≡ done c' db')
          × (c'.id ≡ c.id))
      × IsPaired orm db'

  module _ (ids ids' : NewIds) (now now' u v : ℕ) (db : Db) (wf : IsPaired orm db)
      (fresh : IsNew ids db) (may : MayMeet orm u v db) (may' : MayMeet orm v u db) where
    -- The second call, on tables that hold the conversation.
    second_call :
        (db' : Db) (i : ℕ)
        → IsPaired orm db'
        → MayMeet orm v u db'
        → 1 ≤ count_if (is_theirs u v i db') db'.conversations
        → (c' : Conversation) × (find_or_create_conversation orm ids' now' v u db' ≡ done c' db')
          × (c'.id ≡ i)
    second_call db' i wf' may'' there =
        let (c', found, same) = found_again u v i db' may.distinct_users wf' there in
        (
          c',
          find_or_create-existing_or_new ids' now' v u db' may''
              ∙ ap (λ (o : Option Conversation). existing_or_new orm ids' now' v u o db') found,
          same,
        )

    meeting :
        (existing : Option Conversation)
        → find_existing_conversation orm u v db ≡ existing
        → (db' : Db) × (c : Conversation) × Meets ids ids' now now' u v db db' c
    meeting (some c) found =
        let theirs : is_between orm u v db.participants c ≡ true =
          (orm.find_one-some _ db.conversations found).1 in
        (
          db,
          c,
          (
            find_or_create-existing_or_new ids now u v db may
                ∙ ap (λ (o : Option Conversation). existing_or_new orm ids now u v o db) found,
            theirs,
            second_call db c.id wf may' (
                count_if-find_one orm _ (is_theirs u v c.id db) db.conversations found
                  (rw (theirs, ==_true c.id c.id refl) refl)),
            wf,
          ),
        )
    meeting none missing =
        let db' : Db = add_conversation orm ids now u v db in
        let c : Conversation = record {
          id = ids.conversation;
          chat_type = private_chat;
          created_at = now;
          updated_at = now;
        } in
        let theirs : is_between orm u v db'.participants c ≡ true =
          is_between-new orm db ids now u v may.distinct_users wf fresh missing in
        let wf' : IsPaired orm db' =
          add_conversation-IsPaired orm db ids now u v may.distinct_users wf fresh missing in
        (
          db',
          c,
          (
            find_or_create-existing_or_new ids now u v db may
                ∙ ap (λ (o : Option Conversation). existing_or_new orm ids now u v o db) missing,
            theirs,
            second_call db' c.id wf'
                (record {
                  distinct_users = may'.distinct_users;
                  unblocked = may'.unblocked;
                  other = may'.other;
                  active = may'.active;
                })
                (omega (
                  arith,
                  count_if-insert orm (is_theirs u v c.id db') c db.conversations,
                  ap bit (is_own c.id theirs),
                )),
            wf',
          ),
        )
      where
        is_own : {p : Bool} (i : ℕ) → p ≡ true → (p && i == i) ≡ true
        is_own i h = ground arith

    -- In tables that pair the users of the chat, and with new ids, two different users with active
    -- accounts and no block between them share one conversation: when one calls
    -- `find_or_create_conversation` it succeeds with a conversation of the two, when the other
    -- calls it next it answers the conversation of the same id and changes nothing, and the tables
    -- still pair the users.
    pub find_or_create_conversation_lem :
        (db' : Db) × (c : Conversation) × Meets ids ids' now now' u v db db' c
    find_or_create_conversation_lem = meeting (find_existing_conversation orm u v db) refl
