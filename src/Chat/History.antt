-- ===== src/Chat/History.antt =====
-- Any sequence of calls of the chat, successful or throwing.
use rideway_api.Prelude.{
  ℕ, ◌≤◌, ◌≡◌, ◌⊎◌, refl, sym, ap, ◌∙◌, inl, inr, Bool, true, Option, none, some, ◌==◌, ltb, arith,
  Bool-cases, Option-cases, is_id, ◌&&◌,
}
use mathlib.Core.Path.{subst}
use rideway_api.Database.{Orm}
use rideway_api.Action.{Action, ◌>>◌, HttpError, state_of, done, raised, forbidden}
use rideway_api.Blocking.{is_block_between}
use rideway_api.Users.{active_user}
use rideway_api.Chat.{
  Message, Db, NewIds, SendMessageDto, is_participation, is_message, new_message, is_participant,
  deliver, check_other, find_existing_conversation, get_other_participant_id, read_up_to, read_date,
  find_or_create_conversation, send_message, mark_as_read, mute_conversation, delete_message,
}
use rideway_api.Chat.Pairs.{IsPaired, IsNew, SentByMember}
use rideway_api.Chat.Pairing.{add_conversation-IsPaired}
use rideway_api.Chat.Editing.{
  add_message-IsPaired, edit_participant-IsPaired, edit_messages-IsPaired, invalidate-IsPaired,
}

-- The ids of a new conversation are not in use.
pub data Step (orm : Orm) (db : Db) : Db → Type 0 where
  opened :
      (ids : NewIds) (now user_id participant_id : ℕ)
      → IsNew ids db
      → Step orm db (state_of (find_or_create_conversation orm ids now user_id participant_id db))
  sent :
      (id now conversation_id sender_id : ℕ) (dto : SendMessageDto)
      → Step orm db (state_of (send_message orm id now conversation_id sender_id dto db))
  read :
      (now conversation_id user_id : ℕ) (message_id : Option ℕ)
      → Step orm db (state_of (mark_as_read orm now conversation_id user_id message_id db))
  muted :
      (conversation_id user_id : ℕ) (muted : Bool)
      → Step orm db (state_of (mute_conversation orm conversation_id user_id muted db))
  deleted :
      (now message_id user_id : ℕ)
      → Step orm db (state_of (delete_message orm now message_id user_id db))

pub data ChatReach (orm : Orm) (db : Db) : Db → Type 0 where
  here : ChatReach orm db db
  next : {db' db'' : Db} → ChatReach orm db db' → Step orm db' db'' → ChatReach orm db db''

module _ {A B : Type 0} (m : Action Db A) (k : Action Db B) (s : Db) where
  then_raised : {e : HttpError} → m s ≡ raised e s → state_of ((m >> k) s) ≡ s
  then_raised h = rw (◌>>◌, h) refl

  then_done : {a : A} → m s ≡ done a s → state_of ((m >> k) s) ≡ state_of (k s)
  then_done h = rw (◌>>◌, h) refl

some_row : (n : ℕ) → ltb 0 n ≡ true → 1 ≤ n
some_row n h = ground arith

module _ (orm : Orm) (db : Db) (wf : IsPaired orm db) where
  at_state : {s t : Db} → IsPaired orm s → t ≡ s → IsPaired orm t
  at_state h e = subst (IsPaired orm) (sym e) h

  opened-IsPaired :
      (ids : NewIds) (now u v : ℕ)
      → IsNew ids db
      → IsPaired orm (state_of (find_or_create_conversation orm ids now u v db))
  unfolding find_or_create_conversation
  opened-IsPaired ids now u v fresh = elim (Bool-cases (u == v)) [
    | inl same ↦ rw same wf
    | inr differ ↦ elim (Option-cases (orm.find_one (is_block_between v u) db.blocks)) [
      | inr (block, found) ↦ at_state wf (ground (arith, differ, found))
      | inl free ↦ elim (Option-cases (orm.find_one (active_user v) db.users)) [
        | inl missing ↦ at_state wf (ground (arith, differ, free, missing))
        | inr (other, found) ↦ elim (Option-cases (find_existing_conversation orm u v db)) [
          | inl new ↦
              at_state (add_conversation-IsPaired orm db ids now u v differ wf fresh new)
                (ground (arith, differ, free, found, new))
          | inr (c, old) ↦ at_state wf (ground (arith, differ, free, found, old))
        ]
      ]
    ]
  ]

  -- Who passes the check of the other member, or not.
  check_other-cases :
      (u : ℕ) (other : Option ℕ)
      → (check_other orm u other db ≡ done tt db)
        ⊎ ((e : HttpError) × (check_other orm u other db ≡ raised e db))
  check_other-cases u none = inl refl
  check_other-cases u (some v) =
      elim (Option-cases (orm.find_one (is_block_between v u) db.blocks)) [
        | inl free ↦ inl (rw free refl)
        | inr (b, found) ↦ elim (Bool-cases (b.blocker_id == u)) [
          | inl t ↦ inr (forbidden "You have blocked this user", rw (found, t) refl)
          | inr f ↦ inr (forbidden "You cannot message this user", rw (found, f) refl)
        ]
      ]

  sent-IsPaired :
      (id now c u : ℕ) (dto : SendMessageDto)
      → IsPaired orm (state_of (send_message orm id now c u dto db))
  unfolding send_message
  sent-IsPaired id now c u dto =
      let other : Option ℕ = get_other_participant_id orm c u db in
      let delivery : Action Db (Option Message) = deliver orm (new_message id now c u dto) u in
      elim (Bool-cases (is_participant orm c u db)) [
        | inr refused ↦ rw refused wf
        | inl member ↦ elim (check_other-cases u (get_other_participant_id orm c u db)) [
          | inr (e, refused) ↦
              at_state wf (rw member (then_raised (check_other orm u other) delivery db refused))
          | inl passed ↦
              at_state
                (invalidate-IsPaired orm _
                  (add_message-IsPaired orm db wf (new_message id now c u dto) (by_member member)) c
                  u)
                (rw member (then_done (check_other orm u other) delivery db passed))
        ]
      ]
    where
      by_member :
          is_participant orm c u db ≡ true
          → SentByMember db.participants (new_message id now c u dto)
      by_member member v e =
          let self : u ≡ v = ground (arith, e) in
          rw (sym self) (
            some_row _ (
              ap (λ (n : ℕ). ltb 0 n) (sym (orm.count_lem (is_participation c u) db.participants))
              ∙ member))

  read-IsPaired :
      (now c u : ℕ) (message_id : Option ℕ)
      → IsPaired orm (state_of (mark_as_read orm now c u message_id db))
  unfolding mark_as_read
  read-IsPaired now c u message_id =
      elim (Option-cases (orm.find_one (is_participation c u) db.participants)) [
        | inl missing ↦ at_state wf (ground (arith, missing))
        | inr (p, found) ↦
            at_state
              (invalidate-IsPaired orm _
                (edit_participant-IsPaired orm db wf p.id
                  (read_up_to (read_date orm now c message_id db)) (λ x. refl) (λ c u x. refl)
                  (λ c u x. refl) (λ c x. refl))
                c u)
              (ground (arith, found))
      ]

  muted-IsPaired : (c u : ℕ) (b : Bool) → IsPaired orm (state_of (mute_conversation orm c u b db))
  unfolding mute_conversation
  muted-IsPaired c u b = elim (Option-cases (orm.find_one (is_participation c u) db.participants)) [
    | inl missing ↦ at_state wf (ground (arith, missing))
    | inr (p, found) ↦
        at_state
          (edit_participant-IsPaired orm db wf p.id (λ x. record x { is_muted = b }) (λ x. refl)
            (λ c u x. refl) (λ c u x. refl) (λ c x. refl))
          (ground (arith, found))
  ]

  deleted-IsPaired : (now id u : ℕ) → IsPaired orm (state_of (delete_message orm now id u db))
  unfolding delete_message
  deleted-IsPaired now id u =
      elim (Option-cases (orm.find_one (λ m. is_message id m && is_id m.sender_id u) db.messages)) [
        | inl missing ↦ rw missing wf
        | inr (m, found) ↦ rw found (
            edit_messages-IsPaired orm db wf (is_message id)
              (λ x. record x { deleted_at = some now }) (λ x h. h))
      ]

module _ (orm : Orm) where
  Step-IsPaired : {db db' : Db} → Step orm db db' → IsPaired orm db → IsPaired orm db'
  Step-IsPaired {db} (opened ids now u v fresh) wf = opened-IsPaired orm db wf ids now u v fresh
  Step-IsPaired {db} (sent id now c u dto) wf = sent-IsPaired orm db wf id now c u dto
  Step-IsPaired {db} (read now c u message_id) wf = read-IsPaired orm db wf now c u message_id
  Step-IsPaired {db} (muted c u b) wf = muted-IsPaired orm db wf c u b
  Step-IsPaired {db} (deleted now id u) wf = deleted-IsPaired orm db wf now id u

  -- Tables that pair the users of the chat still do, whatever conversations are opened with new
  -- ids, messages sent and deleted, and conversations read and muted, in any order, successfully or
  -- not: every conversation has two members, a user is in it once, two different users share at
  -- most one private conversation, and the sender of a message is a member of its conversation.
  pub ChatReach-IsPaired : {db db' : Db} → ChatReach orm db db' → IsPaired orm db → IsPaired orm db'
  ChatReach-IsPaired here wf = wf
  ChatReach-IsPaired (next reach step) wf = Step-IsPaired step (ChatReach-IsPaired reach wf)
