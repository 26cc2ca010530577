-- ===== src/Chat/Editing.antt =====
-- What a message, a reading or a muting writes keeps the pairs.
use mathlib.Core.HLevel.{Π_prop}
use native.Mathlib.Bridge.{le_prop}
use native.Mathlib.Nat.{ℕ_set}
use rideway_api.Prelude.{ℕ, ◌≡◌, refl, sym, ap, ◌∙◌, Bool, List, ◌==◌, ltb, count_if_congr}
use rideway_api.Database.{Orm, has}
use rideway_api.Database.Rows.{
  count_if-update_same, HasUniqueIds-update, Every-update, Every-insert,
}
use rideway_api.Database.Presence.{has-count_if}
use rideway_api.Chat.{
  Conversation, ConversationParticipant, Message, Db, is_participation, is_present, is_between,
  touch, add_message, edit_participant, invalidate_unread_cache,
}
use rideway_api.Chat.Pairs.{IsPaired, SentByMember}

module _ (orm : Orm) (db : Db) (wf : IsPaired orm db) where
  pub add_message-IsPaired :
      (m : Message) → SentByMember db.participants m → IsPaired orm (add_message orm m db)
  add_message-IsPaired m sent = record {
    conversation_ids =
        HasUniqueIds-update orm _ db.conversations _ (touch m.created_at) (λ c. refl)
          wf.conversation_ids;
    participant_table = wf.participant_table;
    two_members =
        Every-update orm _ (touch m.created_at) db.conversations (λ x. ℕ_set _ _) (λ c _ h. h)
          (λ c _ h. h) wf.two_members;
    one_for_two = λ u v differ.
        rw
          (count_if-update_same orm (is_between orm u v db.participants)
            (λ c. c.id == m.conversation_id) (touch m.created_at) db.conversations (λ c. refl))
          (wf.one_for_two u v differ);
    sent_by_member =
        Every-insert orm m db.messages (λ x. Π_prop (λ u. Π_prop (λ _. le_prop))) sent
          wf.sent_by_member;
  }

  -- An edit that leaves a participant in its place.
  module _ (id : ℕ) (f : ConversationParticipant → ConversationParticipant)
      (same_id : (p : ConversationParticipant) → (f p).id ≡ p.id)
      (stays : (c u : ℕ) (p : ConversationParticipant) → is_present c u (f p) ≡ is_present c u p)
      (same_pair : (c u : ℕ) (p : ConversationParticipant)
        → is_participation c u (f p) ≡ is_participation c u p)
      (same_conversation : (c : ℕ) (p : ConversationParticipant)
        → ((f p).conversation_id == c) ≡ (p.conversation_id == c)) where
    abbrev edited : List ConversationParticipant
    edited = orm.update (λ p. p.id == id) f db.participants

    same_between :
        (u v : ℕ) (c : Conversation)
        → is_between orm u v edited c ≡ is_between orm u v db.participants c
    same_between u v c = rw (present u, present v)
      where
        present :
            (w : ℕ)
            → has orm (is_present c.id w) edited ≡ has orm (is_present c.id w) db.participants
        present w =
            has-count_if orm (is_present c.id w) edited
            ∙ ap (λ (n : ℕ). ltb 0 n)
                (count_if-update_same orm (is_present c.id w) _ f db.participants (stays c.id w))
            ∙ sym (has-count_if orm (is_present c.id w) db.participants)

    pub edit_participant-IsPaired : IsPaired orm (edit_participant orm id f db)
    edit_participant-IsPaired = record {
      conversation_ids = wf.conversation_ids;
      participant_table = record {
        ids = HasUniqueIds-update orm _ db.participants _ f same_id wf.participant_table.ids;
        once = λ c u.
            rw (count_if-update_same orm (is_participation c u) _ f db.participants (same_pair c u))
              (wf.participant_table.once c u);
      };
      two_members = λ c m.
          count_if-update_same orm (λ p. p.conversation_id == c.id) _ f db.participants
            (same_conversation c.id)
          ∙ wf.two_members c m;
      one_for_two = λ u v differ.
          rw
            (count_if_congr (is_between orm u v edited) (is_between orm u v db.participants)
              db.conversations (same_between u v))
            (wf.one_for_two u v differ);
      sent_by_member = λ m here u e.
          rw
            (count_if-update_same orm (is_participation m.conversation_id u) _ f db.participants
              (same_pair m.conversation_id u))
            (wf.sent_by_member m here u e);
    }

  pub edit_messages-IsPaired :
      (q : Message → Bool) (f : Message → Message)
      → ((m : Message) → SentByMember db.participants m → SentByMember db.participants (f m))
      → IsPaired orm (record db { messages = orm.update q f db.messages })
  edit_messages-IsPaired q f keeps = record {
    conversation_ids = wf.conversation_ids;
    participant_table = wf.participant_table;
    two_members = wf.two_members;
    one_for_two = wf.one_for_two;
    sent_by_member =
        Every-update orm q f db.messages (λ x. Π_prop (λ u. Π_prop (λ _. le_prop)))
          (λ m _ h. keeps m h) (λ m _ h. h) wf.sent_by_member;
  }

  pub invalidate-IsPaired : (c u : ℕ) → IsPaired orm (invalidate_unread_cache orm c u db)
  invalidate-IsPaired c u = record {
    conversation_ids = wf.conversation_ids;
    participant_table = wf.participant_table;
    two_members = wf.two_members;
    one_for_two = wf.one_for_two;
    sent_by_member = wf.sent_by_member;
  }
