-- ===== src/Chat/Tests.antt =====
-- The calls at a chat of users 7 and 8, in which 8 has sent a message, and a third user.
use mathlib.Core.HLevel.{Π_prop}
use mathlib.Core.List.{Perm}
use native.Mathlib.Bridge.{le_prop}
use native.Mathlib.Nat.{ℕ_set}
use rideway_api.Prelude.{
  ℕ, ◌+◌, ◌≤◌, ◌≡◌, refl, Bool, true, false, ◌&&◌, Option, none, some, [], ◌∷◌, pos, ◌-ℤ◌, ◌==◌,
  arith, bit, count_if, List, map, filter, ◌++◌, not,
}
use rideway_api.Database.{unordered}
use rideway_api.Database.InMemory.{in_memory, Every-nil, Every-cons}
use rideway_api.Action.{done, state_of}
use rideway_api.Users.{User}
use rideway_api.Chat.{
  Conversation, ConversationParticipant, Db, is_later_from_other, NewIds, SendMessageDto,
  private_chat, new_participant, new_message, is_participation, mark_as_read, send_message,
  find_or_create_conversation, get_conversation_unread_count,
}
use rideway_api.Chat.Pairs.{IsPaired, IsNew}
use rideway_api.Chat.Meeting.{Meets, find_or_create_conversation_lem}
use rideway_api.Chat.Unread.{read_in, mark_as_read_lem}
use rideway_api.Chat.History.{here, next, opened, sent, read, ChatReach-IsPaired}

abbrev user : ℕ → User
user id = record {
  id = id;
  email = "rider@example.com";
  is_email_verified = true;
  is_active = true;
  created_at = 5;
  deleted_at = none;
}

abbrev hello : SendMessageDto
hello = record { content = some "Hello"; message_type = none; media_url = none }

abbrev chat : Db
chat = record {
  users = user 7 ∷ user 8 ∷ user 9 ∷ [];
  blocks = [];
  conversations =
      record { id = 1; chat_type = private_chat; created_at = 10; updated_at = 50 } ∷ [];
  participants = new_participant 11 1 7 ∷ new_participant 12 1 8 ∷ [];
  messages = new_message 21 50 1 8 hello ∷ [];
  dropped_counts = [];
}

two : (x y : ℕ) → (x == y) ≡ false → (i : ℕ) → bit (x == i) + (bit (y == i) + 0) ≤ 1
two x y h i = ground arith

one_row : (b : Bool) → bit b + 0 ≤ 1
one_row b = ground arith

chat-IsPaired : IsPaired in_memory chat
chat-IsPaired = record {
  conversation_ids = λ i. one_row (1 == i);
  participant_table = record { ids = two 11 12 refl; once = λ t u. pair t u };
  two_members = Every-cons (λ _. ℕ_set _ _) refl (Every-nil _);
  one_for_two = λ u v differ. one_row _;
  sent_by_member =
      Every-cons (λ _. Π_prop (λ _. Π_prop (λ _. le_prop))) (λ u e. sender u e) (Every-nil _);
}
  where
    pair : (t u : ℕ) → bit (1 == t && 7 == u) + (bit (1 == t && 8 == u) + 0) ≤ 1
    pair t u = ground arith

    sender : (u : ℕ) → some 8 ≡ some u → 1 ≤ count_if (is_participation 1 u) chat.participants
    sender u e = ground (arith, e)

abbrev ids : NewIds
ids = record { conversation = 2; first = 13; second = 14 }

ids-IsNew : IsNew ids chat
ids-IsNew = record {
  no_conversation = refl;
  no_member = refl;
  no_first = refl;
  no_second = refl;
  distinct_ids = refl;
}

abbrev next_ids : NewIds
next_ids = record { conversation = 3; first = 15; second = 16 }

find_or_create_conversation_lem_example :
    (db' : Db) × (c : Conversation) × Meets in_memory ids next_ids 60 70 7 9 chat db' c
find_or_create_conversation_lem_example =
    find_or_create_conversation_lem in_memory ids next_ids 60 70 7 9 chat chat-IsPaired ids-IsNew
      (record { distinct_users = refl; unblocked = refl; other = user 9; active = refl })
      (record { distinct_users = refl; unblocked = refl; other = user 7; active = refl })

mark_as_read_lem_example :
    (rows : List ConversationParticipant) × (db' : Db) × (mark_as_read in_memory 60 1 7
        (some 21)
        chat
      ≡ done tt db')
    × (db' ≡ record chat {
      participants = rows;
      dropped_counts =
          chat.dropped_counts
          ++ map
              (λ x. (1, x.user_id))
              (filter
                (λ x. not (x.user_id == 7))
                (in_memory.find (λ x. x.conversation_id == 1) unordered rows));
    })
    × Perm rows (map (read_in 1 7 50) chat.participants)
    × (get_conversation_unread_count in_memory 1 7 (some 50) db'
        ≡ pos (count_if (is_later_from_other 1 7 50) chat.messages))
    × ((conversation_id user_id : ℕ) (last_read_at : Option ℕ)
        → get_conversation_unread_count in_memory conversation_id user_id last_read_at db'
          ≡ get_conversation_unread_count in_memory conversation_id user_id last_read_at chat)
mark_as_read_lem_example =
    mark_as_read_lem in_memory chat chat-IsPaired 60 1 7 (some 21) {p = new_participant 11 1 7} refl

unread_before : get_conversation_unread_count in_memory 1 7 none chat ≡ pos 1
unfolding get_conversation_unread_count ◌-ℤ◌
unread_before = refl

ChatReach-IsPaired_example : IsPaired in_memory (
    state_of (
      mark_as_read in_memory 80 1 8 none (
        state_of (
          send_message in_memory 22 70 1 7 hello
            (state_of (find_or_create_conversation in_memory ids 60 7 9 chat))))))
ChatReach-IsPaired_example =
    ChatReach-IsPaired in_memory
      (next (next (next here (opened ids 60 7 9 ids-IsNew)) (sent 22 70 1 7 hello))
        (read 80 1 8 none))
      chat-IsPaired
