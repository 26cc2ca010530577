-- ===== src/Chat/Unread.antt =====
-- What a user has not read.
use mathlib.Core.Logic.Or
use mathlib.Core.Path.{subst}
use mathlib.Core.List.{Mem, Perm, mem-cons}
use rideway_api.Prelude.{
  ℕ, ◌+◌, ◌≡◌, refl, ap, ◌∙◌, inl, inr, Bool, true, false, not, ◌&&◌, Option, none, some, ◌==◌,
  ==_true, ltb, is_id, is_none, pos, -ℤ-pos, arith, count_if, count_if_congr_mem,
  count_if-pos_of_mem, count_if_split, if◌then◌else◌, Bool-cases, List, [], ◌∷◌, ◌++◌, map, filter,
}
use rideway_api.Database.{Orm, Every, unordered}
use rideway_api.Database.Rows.{count_if-find_one}
use rideway_api.Action.{done}
use rideway_api.Chat.{
  ConversationParticipant, Message, Db, is_participation, is_message_of, is_later_from_other,
  is_from_other, read_up_to, edit_participant, mark_as_read, read_date, invalidate_unread_cache,
  get_conversation_unread_count,
}
use rideway_api.Chat.Pairs.{IsPaired}

-- A message that a user has not read: someone else's, later than what the user has read.
abbrev pub is_after : (last_read_at : Option ℕ) → Message → Bool
is_after none m = true
is_after (some last_read_at) m = ltb last_read_at m.created_at

abbrev pub is_unread : (conversation_id user_id : ℕ) → (last_read_at : Option ℕ) → Message → Bool
is_unread conversation_id user_id last_read_at m =
    is_message_of conversation_id m && (is_after last_read_at m && not (is_id m.sender_id user_id))

-- The account of every sender is still there.
abbrev pub HasSender : Message → Type 0
HasSender m = is_none m.sender_id ≡ false

is_later_from_other-is_unread :
    (conversation_id user_id last_read_at : ℕ) (m : Message)
    → HasSender m
    → is_later_from_other conversation_id user_id last_read_at m
      ≡ is_unread conversation_id user_id (some last_read_at) m
is_later_from_other-is_unread conversation_id user_id last_read_at m sent =
    ap (λ (b : Bool). is_message_of conversation_id m && (ltb last_read_at m.created_at && b))
      (by_another m.sender_id sent)
  where
    by_another :
        (sender : Option ℕ)
        → is_none sender ≡ false
        → is_from_other user_id sender ≡ not (is_id sender user_id)
    by_another none h = cc
    by_another (some u) h = refl

module _ (orm : Orm) (db : Db) where
  -- Both ways of counting are the same count, as long as the accounts of the senders are there.
  pub get_conversation_unread_count_lem :
      (conversation_id user_id : ℕ) (last_read_at : Option ℕ)
      → Every HasSender db.messages
      → get_conversation_unread_count orm conversation_id user_id last_read_at db
        ≡ pos (count_if (is_unread conversation_id user_id last_read_at) db.messages)
  unfolding get_conversation_unread_count
  get_conversation_unread_count_lem c u none sent =
      rw
        (
          orm.count_lem (is_message_of c),
          orm.count_lem (λ m. is_message_of c m && is_id m.sender_id u),
        )
        (-ℤ-pos _ _ (omega (arith, split)) ∙ ap pos (omega (arith, split)))
    where
      split :
          count_if (is_message_of c) db.messages
          ≡ count_if (λ m. is_message_of c m && is_id m.sender_id u) db.messages
            + count_if (λ m. is_message_of c m && not (is_id m.sender_id u)) db.messages
      split = count_if_split (is_message_of c) (λ m. is_id m.sender_id u) db.messages
  get_conversation_unread_count_lem c u (some last) sent = ap pos (
      orm.count_lem (is_later_from_other c u last) db.messages
      ∙ count_if_congr_mem _ _ db.messages
          (λ m here. is_later_from_other-is_unread c u last m (sent m here)))

-- A participation of the user in the conversation with the date read, and any other row as it is.
abbrev pub read_in :
    (conversation_id user_id read_at : ℕ) → ConversationParticipant → ConversationParticipant
read_in conversation_id user_id read_at x =
    if is_participation conversation_id user_id x
    then record x { last_read_at = some read_at }
    else x

map_congr_mem :
    {A B : Type 0} (f g : A → B) (xs : List A)
    → ((x : A) → Mem x xs → f x ≡ g x)
    → map f xs ≡ map g xs
map_congr_mem f g [] same = refl
map_congr_mem f g (x ∷ xs) same =
    rw (same x (mem-cons.1 (Or.inl refl))) (
      ap (λ (ys : List _). g x ∷ ys) (map_congr_mem f g xs (λ y m. same y (mem-cons.1 (Or.inr m)))))

-- The count reads the messages alone.
counts_messages :
    (orm : Orm) (db : Db) (id : ℕ) (f : ConversationParticipant → ConversationParticipant)
    (c u d v : ℕ) (r : Option ℕ)
    → get_conversation_unread_count orm d v r
        (invalidate_unread_cache orm c u (edit_participant orm id f db))
      ≡ get_conversation_unread_count orm d v r db
unfolding get_conversation_unread_count
counts_messages orm db id f c u d v none = refl
counts_messages orm db id f c u d v (some r) = refl

module _ (orm : Orm) (db : Db) (wf : IsPaired orm db) (now c u : ℕ) (message_id : Option ℕ)
    {p : ConversationParticipant}
    (found : orm.find_one (is_participation c u) db.participants ≡ some p) where
  abbrev read_at : ℕ
  read_at = read_date orm now c message_id db

  abbrev rows_read : List ConversationParticipant
  rows_read = orm.update (λ x. x.id == p.id) (read_up_to read_at) db.participants

  mark_as_read-done :
      mark_as_read orm now c u message_id db
      ≡ done tt (invalidate_unread_cache orm c u (record db { participants = rows_read }))
  unfolding mark_as_read
  mark_as_read-done = ground (arith, found)

  theirs : is_participation c u p ≡ true
  theirs = (orm.find_one-some _ db.participants found).1

  -- Another row is of another conversation or of another user.
  other_row :
      (x : ConversationParticipant)
      → Mem x db.participants
      → (x.id == p.id) ≡ false
      → is_participation c u x ≡ true
      → ⊥
  other_row x m other same = omega (
    arith,
    wf.participant_table.once c u,
    count_if_split (is_participation c u) (λ y. y.id == p.id) db.participants,
    count_if-find_one orm _ (λ y. is_participation c u y && y.id == p.id) db.participants found
        (rw (theirs, ==_true p.id p.id refl) refl),
    count_if-pos_of_mem (λ y. is_participation c u y && not (y.id == p.id)) db.participants m
        (rw (same, other) refl),
  )

  same_row :
      (x : ConversationParticipant)
      → Mem x db.participants
      → (x.id == p.id) ≡ true
      → is_participation c u x ≡ false
      → ⊥
  same_row x m same other = omega (
    arith,
    wf.participant_table.ids p.id,
    count_if_split (λ (y : ConversationParticipant). y.id == p.id) (is_participation c u)
        db.participants,
    count_if-find_one orm _ (λ y. y.id == p.id && is_participation c u y) db.participants found
        (rw (theirs, ==_true p.id p.id refl) refl),
    count_if-pos_of_mem (λ y. y.id == p.id && not (is_participation c u y)) db.participants m
        (rw (same, other) refl),
  )

  -- The row that is written is the participation of the user.
  same_write :
      (x : ConversationParticipant)
      → Mem x db.participants
      → (if x.id == p.id then read_up_to read_at x else x) ≡ read_in c u read_at x
  same_write x m = elim (Bool-cases (x.id == p.id)) [
    | inl same ↦ elim (Bool-cases (is_participation c u x)) [
      | inl mine ↦ rw (same, mine) refl
      | inr other ↦ absurd (same_row x m same other)
    ]
    | inr other ↦ elim (Bool-cases (is_participation c u x)) [
      | inl mine ↦ absurd (other_row x m other mine)
      | inr not_mine ↦ rw (other, not_mine) refl
    ]
  ]

  rows_read-perm : Perm rows_read (map (read_in c u read_at) db.participants)
  rows_read-perm =
      subst (Perm rows_read) (map_congr_mem _ _ db.participants same_write)
        (orm.update-perm (λ x. x.id == p.id) (read_up_to read_at) db.participants)

  unread_then :
      (after : Db)
      → after.messages ≡ db.messages
      → get_conversation_unread_count orm c u (some read_at) after
        ≡ pos (count_if (is_later_from_other c u read_at) db.messages)
  unfolding get_conversation_unread_count
  unread_then after same =
      ap pos (orm.count_lem (is_later_from_other c u read_at) after.messages)
      ∙ ap (λ (ms : List Message). pos (count_if (is_later_from_other c u read_at) ms)) same

  -- On paired tables, a participant who marks the conversation as read succeeds. The rows of the
  -- participants are then, in some order, those from before with the user's own participation read
  -- up to the date read, which is the named message's date, or now where no message of the
  -- conversation is named. The cached counts of the other members are dropped, and no other table
  -- changes. What the user has unread is then the messages of others that are later than the date
  -- read, and what any user has unread by any given date is what it was.
  pub mark_as_read_lem :
      (rows : List ConversationParticipant) × (db' : Db) × (mark_as_read orm now c u message_id db
        ≡ done tt db')
      × (db' ≡ record db {
        participants = rows;
        dropped_counts =
            db.dropped_counts
            ++ map
                (λ x. (c, x.user_id))
                (filter
                  (λ x. not (x.user_id == u))
                  (orm.find (λ x. x.conversation_id == c) unordered rows));
      })
      × Perm rows (map (read_in c u (read_date orm now c message_id db)) db.participants)
      × (get_conversation_unread_count orm c u (some (read_date orm now c message_id db)) db'
          ≡ pos
              (count_if (is_later_from_other c u (read_date orm now c message_id db)) db.messages))
      × ((conversation_id user_id : ℕ) (last_read_at : Option ℕ)
          → get_conversation_unread_count orm conversation_id user_id last_read_at db'
            ≡ get_conversation_unread_count orm conversation_id user_id last_read_at db)
  mark_as_read_lem = (
    rows_read,
    _,
    mark_as_read-done,
    refl,
    rows_read-perm,
    unread_then _ refl,
    counts_messages orm db p.id (read_up_to read_at) c u,
  )
