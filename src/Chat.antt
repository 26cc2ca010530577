-- ===== src/Chat.antt =====
-- ChatService, src/modules/chat/chat.service.ts: conversations between two users, their messages,
-- and what a user has not read. Times are numbers. TypeORM drops the condition `leftAt: undefined`,
-- so only the query for an existing conversation reads that column. The two cached counts that a
-- call deletes for a user are one entry of a log, since nothing else touches them.
pub mod Pairs
pub mod Pairing
pub mod Editing
pub mod Meeting
pub mod Unread
pub mod History
pub mod Tests
use rideway_api.Prelude.{
  ℕ, ◌+◌, Bool, true, false, not, ◌&&◌, Option, none, some, String, List, [], ◌∷◌, ◌++◌, map, ◌==◌,
  ltb, is_id, is_none, is_some, or_else, if◌then◌else◌, ℤ, pos, ◌+ℤ◌, ◌-ℤ◌, filter,
}
use rideway_api.Database.{Orm, unordered, has}
use rideway_api.Action.{
  Action, not_found, forbidden, bad_request, ◌>>=◌, ◌>>◌, pure, gets, modify, ensure, or_throw,
  raised,
}
use rideway_api.Blocking.{UserBlock, is_block_between}
use rideway_api.Users.{User, active_user}

pub data ConversationType : Type 0 where
  private_chat group : ConversationType

pub record Conversation : Type 0 where
  pub id : ℕ
  pub chat_type : ConversationType
  pub created_at : ℕ
  pub updated_at : ℕ

pub record ConversationParticipant : Type 0 where
  pub id : ℕ
  pub conversation_id : ℕ
  pub user_id : ℕ
  pub last_read_at : Option ℕ
  pub is_muted : Bool
  pub left_at : Option ℕ

pub data MessageType : Type 0 where
  text image system : MessageType

-- The sender is none once the account is gone.
pub record Message : Type 0 where
  pub id : ℕ
  pub conversation_id : ℕ
  pub sender_id : Option ℕ
  pub content : Option String
  pub message_type : MessageType
  pub media_url : Option String
  pub created_at : ℕ
  pub deleted_at : Option ℕ

pub record SendMessageDto : Type 0 where
  pub content : Option String
  pub message_type : Option MessageType
  pub media_url : Option String

pub record Db : Type 0 where
  pub users : List User
  pub blocks : List UserBlock
  pub conversations : List Conversation
  pub participants : List ConversationParticipant
  pub messages : List Message
  pub dropped_counts : List (ℕ × ℕ)

-- `{ conversationId, userId, leftAt: undefined }`, and a row of the joins of
-- `findExistingConversation`.
abbrev pub is_participation : (conversation_id user_id : ℕ) → ConversationParticipant → Bool
is_participation conversation_id user_id p =
    p.conversation_id == conversation_id && p.user_id == user_id

abbrev pub is_present : (conversation_id user_id : ℕ) → ConversationParticipant → Bool
is_present conversation_id user_id p =
    is_participation conversation_id user_id p && is_none p.left_at

abbrev pub is_private : ConversationType → Bool
is_private private_chat = true
is_private group = false

-- Reads leave deleted messages out.
abbrev pub is_message_of : (conversation_id : ℕ) → Message → Bool
is_message_of conversation_id m = m.conversation_id == conversation_id && is_none m.deleted_at

abbrev pub is_message : (id : ℕ) → Message → Bool
is_message id m = m.id == id && is_none m.deleted_at

-- `m.senderId != :userId`, which SQL does not hold of a missing sender.
abbrev pub is_from_other : (user_id : ℕ) → (sender_id : Option ℕ) → Bool
is_from_other user_id none = false
is_from_other user_id (some sender_id) = not (sender_id == user_id)

abbrev pub is_later_from_other : (conversation_id user_id last_read_at : ℕ) → Message → Bool
is_later_from_other conversation_id user_id last_read_at m =
    is_message_of conversation_id m
    && (ltb last_read_at m.created_at && is_from_other user_id m.sender_id)

abbrev pub new_participant : (id conversation_id user_id : ℕ) → ConversationParticipant
new_participant id conversation_id user_id = record {
  id = id;
  conversation_id = conversation_id;
  user_id = user_id;
  last_read_at = none;
  is_muted = false;
  left_at = none;
}

abbrev pub new_message : (id now conversation_id sender_id : ℕ) → SendMessageDto → Message
new_message id now conversation_id sender_id dto = record {
  id = id;
  conversation_id = conversation_id;
  sender_id = some sender_id;
  content = dto.content;
  message_type = or_else dto.message_type text;
  media_url = dto.media_url;
  created_at = now;
  deleted_at = none;
}

abbrev pub touch : (now : ℕ) → Conversation → Conversation
touch now c = record c { updated_at = now }

abbrev pub read_up_to : (read_at : ℕ) → ConversationParticipant → ConversationParticipant
read_up_to read_at p = record p { last_read_at = some read_at }

-- The ids of the rows that a call may add.
pub record NewIds : Type 0 where
  pub conversation : ℕ
  pub first : ℕ
  pub second : ℕ

module _ (orm : Orm) where
  abbrev pub refuse_block : (user_id : ℕ) → Option UserBlock → Action Db (Unit {0})
  refuse_block user_id none s = pure tt s
  refuse_block user_id (some b) s =
      if b.blocker_id == user_id
      then raised (forbidden "You have blocked this user") s
      else raised (forbidden "You cannot message this user") s

  abbrev pub check_blocking : (user_id target_id : ℕ) → Action Db (Unit {0})
  check_blocking user_id target_id = do
    block ← gets (λ s. orm.find_one (is_block_between target_id user_id) s.blocks)
    refuse_block user_id block

  -- The test that the query states of a conversation.
  abbrev pub is_between :
      (user_id1 user_id2 : ℕ) → List ConversationParticipant → Conversation → Bool
  is_between user_id1 user_id2 participants c =
      is_private c.chat_type
      && (has orm (is_present c.id user_id1) participants
          && has orm (is_present c.id user_id2) participants)

  abbrev pub find_existing_conversation : (user_id1 user_id2 : ℕ) → Db → Option Conversation
  find_existing_conversation user_id1 user_id2 s =
      orm.find_one (is_between user_id1 user_id2 s.participants) s.conversations

  -- One transaction: the conversation and its two participants.
  abbrev pub add_conversation : NewIds → (now user_id participant_id : ℕ) → Db → Db
  add_conversation ids now user_id participant_id s = record s {
    conversations =
        orm.insert
          (record {
            id = ids.conversation;
            chat_type = private_chat;
            created_at = now;
            updated_at = now;
          })
          s.conversations;
    participants =
        orm.insert (new_participant ids.second ids.conversation participant_id)
          (orm.insert (new_participant ids.first ids.conversation user_id) s.participants);
  }

  abbrev pub existing_or_new :
      NewIds → (now user_id participant_id : ℕ) → Option Conversation → Action Db Conversation
  existing_or_new ids now user_id participant_id (some c) s = pure c s
  existing_or_new ids now user_id participant_id none s =
      pure
        (record {
          id = ids.conversation;
          chat_type = private_chat;
          created_at = now;
          updated_at = now;
        })
        (add_conversation ids now user_id participant_id s)

  unfoldable pub find_or_create_conversation :
      NewIds → (now user_id participant_id : ℕ) → Action Db Conversation
  find_or_create_conversation ids now user_id participant_id = do
    ensure (not (user_id == participant_id))
        (bad_request "Cannot create conversation with yourself")
    check_blocking user_id participant_id
    participant ← gets (λ s. orm.find_one (active_user participant_id) s.users)
    or_throw (not_found "User not found") participant
    existing ← gets (find_existing_conversation user_id participant_id)
    existing_or_new ids now user_id participant_id existing

  abbrev pub is_participant : (conversation_id user_id : ℕ) → Db → Bool
  is_participant conversation_id user_id s =
      ltb 0 (orm.count (is_participation conversation_id user_id) s.participants)

  abbrev pub members : (conversation_id : ℕ) → Db → List ConversationParticipant
  members conversation_id s =
      orm.find (λ p. p.conversation_id == conversation_id) unordered s.participants

  -- `participants.find((p) => p.userId !== userId)`
  abbrev pub first_other : (user_id : ℕ) → List ConversationParticipant → Option ℕ
  first_other user_id [] = none
  first_other user_id (p ∷ rest) =
      if p.user_id == user_id then first_other user_id rest else some p.user_id

  abbrev pub get_other_participant_id : (conversation_id user_id : ℕ) → Db → Option ℕ
  get_other_participant_id conversation_id user_id s =
      first_other user_id (members conversation_id s)

  abbrev pub check_other : (sender_id : ℕ) → Option ℕ → Action Db (Unit {0})
  check_other sender_id none s = pure tt s
  check_other sender_id (some other) s = check_blocking sender_id other s

  abbrev pub invalidate_unread_cache : (conversation_id exclude_user_id : ℕ) → Db → Db
  invalidate_unread_cache conversation_id exclude_user_id s = record s {
    dropped_counts =
        s.dropped_counts
        ++ map (λ p. (conversation_id, p.user_id))
            (filter (λ p. not (p.user_id == exclude_user_id)) (members conversation_id s));
  }

  -- One transaction: the message, and the date of the conversation.
  abbrev pub add_message : Message → Db → Db
  add_message m s = record s {
    messages = orm.insert m s.messages;
    conversations =
        orm.update (λ c. c.id == m.conversation_id) (touch m.created_at) s.conversations;
  }

  -- The message is saved, and read back.
  abbrev pub deliver : Message → (sender_id : ℕ) → Action Db (Option Message)
  deliver m sender_id = do
    modify (add_message m)
    modify (invalidate_unread_cache m.conversation_id sender_id)
    gets (λ s. orm.find_one (is_message m.id) s.messages)

  unfoldable pub send_message :
      (id now conversation_id sender_id : ℕ) → SendMessageDto → Action Db (Option Message)
  send_message id now conversation_id sender_id dto = do
    allowed ← gets (is_participant conversation_id sender_id)
    ensure allowed (forbidden "You are not a participant of this conversation")
    other ← gets (get_other_participant_id conversation_id sender_id)
    check_other sender_id other
    deliver (new_message id now conversation_id sender_id dto) sender_id

  abbrev pub read_date : (now conversation_id : ℕ) → (message_id : Option ℕ) → Db → ℕ
  read_date now conversation_id none s = now
  read_date now conversation_id (some message_id) s =
      elim (orm.find_one (λ m. m.id == message_id && is_message_of conversation_id m) s.messages) [
        | none ↦ now
        | some m ↦ m.created_at
      ]

  abbrev pub own_participation : (conversation_id user_id : ℕ) → Action Db ConversationParticipant
  own_participation conversation_id user_id = do
    found ← gets (λ s. orm.find_one (is_participation conversation_id user_id) s.participants)
    or_throw (forbidden "You are not a participant of this conversation") found

  abbrev pub edit_participant :
      (id : ℕ) → (ConversationParticipant → ConversationParticipant) → Db → Db
  edit_participant id f s = record s {
    participants = orm.update (λ p. p.id == id) f s.participants;
  }

  unfoldable pub mark_as_read :
      (now conversation_id user_id : ℕ) → (message_id : Option ℕ) → Action Db (Unit {0})
  mark_as_read now conversation_id user_id message_id = do
    participation ← own_participation conversation_id user_id
    read_at ← gets (read_date now conversation_id message_id)
    modify (edit_participant participation.id (read_up_to read_at))
    modify (invalidate_unread_cache conversation_id user_id)

  unfoldable pub mute_conversation :
      (conversation_id user_id : ℕ) → (muted : Bool) → Action Db (Unit {0})
  mute_conversation conversation_id user_id muted = do
    participation ← own_participation conversation_id user_id
    modify (edit_participant participation.id (λ p. record p { is_muted = muted }))

  unfoldable pub delete_message : (now message_id user_id : ℕ) → Action Db (Unit {0})
  delete_message now message_id user_id = do
    found ←
        gets
          (λ s. orm.find_one (λ m. is_message message_id m && is_id m.sender_id user_id) s.messages)
    or_throw (not_found "Message not found or you are not the sender") found
    modify (λ s. record s {
      messages =
          orm.update (is_message message_id) (λ m. record m { deleted_at = some now }) s.messages;
    })

  unfoldable pub get_conversation_unread_count :
      (conversation_id user_id : ℕ) → (last_read_at : Option ℕ) → Db → ℤ
  get_conversation_unread_count conversation_id user_id none s =
      pos (orm.count (is_message_of conversation_id) s.messages)
      -ℤ pos
          (orm.count (λ m. is_message_of conversation_id m && is_id m.sender_id user_id) s.messages)
  get_conversation_unread_count conversation_id user_id (some last_read_at) s =
      pos (orm.count (is_later_from_other conversation_id user_id last_read_at) s.messages)

  -- `getUnreadCount`: the counts of the user's conversations, and their sum.
  abbrev pub conversation_counts : (user_id : ℕ) → Db → List (ℕ × ℤ)
  conversation_counts user_id s =
      map
        (λ p. (
          p.conversation_id,
          get_conversation_unread_count p.conversation_id user_id p.last_read_at s,
        ))
        (orm.find (λ p. p.user_id == user_id) unordered s.participants)

  abbrev pub total_of : List (ℕ × ℤ) → ℤ
  total_of [] = pos 0
  total_of ((conversation_id, count) ∷ rest) = count +ℤ total_of rest

  abbrev pub total_unread : (user_id : ℕ) → Db → ℤ
  total_unread user_id s = total_of (conversation_counts user_id s)
