-- ===== src/Chat/Pairs.antt =====
-- What holds of the tables of the chat whatever is called: a conversation is one of two users, two
-- users share one at most, and messages are the participants'.
use rideway_api.Prelude.{ℕ, ◌≤◌, ◌≡◌, false, some, List, ◌==◌, arith, count_if}
use rideway_api.Database.{Orm, Every, HasUniqueIds}
use rideway_api.Database.Toggles.{IsToggleTable}
use rideway_api.Chat.{
  Conversation, ConversationParticipant, Message, Db, NewIds, is_participation, is_between,
}

abbrev pub members_of : ℕ → List ConversationParticipant → ℕ
members_of id participants = count_if (λ p. p.conversation_id == id) participants

abbrev pub SentByMember : List ConversationParticipant → Message → Type 0
SentByMember participants m =
    (user_id : ℕ)
    → m.sender_id ≡ some user_id
    → 1 ≤ count_if (is_participation m.conversation_id user_id) participants

pub record IsPaired (orm : Orm) (db : Db) : Type 0 where
  pub conversation_ids : HasUniqueIds (λ (c : Conversation). c.id) db.conversations
  pub participant_table :
      IsToggleTable
        (λ (p : ConversationParticipant). p.id)
        (λ p. p.conversation_id)
        (λ p. p.user_id)
        db.participants
  pub two_members : Every (λ c. members_of c.id db.participants ≡ 2) db.conversations
  pub one_for_two :
      (u v : ℕ)
      → (u == v) ≡ false
      → count_if (is_between orm u v db.participants) db.conversations ≤ 1
  pub sent_by_member : Every (SentByMember db.participants) db.messages

-- The ids of a new conversation and of its participants are not in use.
pub record IsNew (ids : NewIds) (db : Db) : Type 0 where
  pub no_conversation :
      count_if (λ (c : Conversation). c.id == ids.conversation) db.conversations ≡ 0
  pub no_member : members_of ids.conversation db.participants ≡ 0
  pub no_first : count_if (λ (p : ConversationParticipant). p.id == ids.first) db.participants ≡ 0
  pub no_second : count_if (λ (p : ConversationParticipant). p.id == ids.second) db.participants ≡ 0
  pub distinct_ids : (ids.first == ids.second) ≡ false

pub is_between_comm :
    (orm : Orm) (u v : ℕ) (participants : List ConversationParticipant) (c : Conversation)
    → is_between orm u v participants c ≡ is_between orm v u participants c
is_between_comm orm u v participants c = ground arith
