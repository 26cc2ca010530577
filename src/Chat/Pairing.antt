-- ===== src/Chat/Pairing.antt =====
-- A new conversation keeps the pairs.
use native.Mathlib.Nat.{ℕ_set}
use mathlib.Core.List.{Mem}
use rideway_api.Prelude.{
  ℕ, ◌+◌, ◌≤◌, ◌≡◌, refl, sym, ap, ◌∙◌, ◌⊎◌, inl, inr, Bool, true, false, ◌&&◌, ◌||◌, none, List,
  ◌==◌, ==_true, arith, bit, ltb, count_if, count_if_mono, count_if_cover, count_if_congr,
  Bool-cases, count_if-pos_of_mem,
}
use rideway_api.Database.{Orm, has}
use rideway_api.Database.Rows.{
  count_if-insert, count_if-find_one_none, HasUniqueIds-insert, Every-insert,
}
use rideway_api.Database.Presence.{has-insert, has-count_if, find_one-none_of_zero}
use rideway_api.Database.Toggles.{IsToggleTable, IsToggleTable-insert}
use rideway_api.Chat.{
  Conversation, ConversationParticipant, Db, NewIds, private_chat, is_participation, is_present,
  is_between, new_participant, find_existing_conversation, add_conversation,
}
use rideway_api.Chat.Pairs.{IsPaired, IsNew, members_of, is_between_comm}

module _ (orm : Orm) (db : Db) (ids : NewIds) (now a b : ℕ) (differ : (a == b) ≡ false)
    (wf : IsPaired orm db) (fresh : IsNew ids db)
    (missing : find_existing_conversation orm a b db ≡ none) where
  abbrev n : ℕ
  n = ids.conversation

  abbrev with_first : List ConversationParticipant
  with_first = orm.insert (new_participant ids.first n a) db.participants

  abbrev with_both : List ConversationParticipant
  with_both = orm.insert (new_participant ids.second n b) with_first

  count-both :
      (p : ConversationParticipant → Bool)
      → count_if p with_both
        ≡ bit (p (new_participant ids.second n b))
          + (bit (p (new_participant ids.first n a)) + count_if p db.participants)
  count-both p = omega (
    arith,
    count_if-insert orm p (new_participant ids.second n b) with_first,
    count_if-insert orm p (new_participant ids.first n a) db.participants,
  )

  -- Nobody is in the conversation before.
  nobody : (u : ℕ) → count_if (is_participation n u) db.participants ≡ 0
  nobody u = omega (
    arith,
    fresh.no_member,
    count_if_mono (is_participation n u) (λ p. p.conversation_id == n) db.participants
        (λ p. ground arith),
  )

  table :
      IsToggleTable
        (λ (p : ConversationParticipant). p.id)
        (λ p. p.conversation_id)
        (λ p. p.user_id)
        with_both
  table =
      IsToggleTable-insert _ _ _ orm with_first
        (IsToggleTable-insert _ _ _ orm db.participants wf.participant_table n a
          (new_participant ids.first n a) refl refl fresh.no_first
          (find_one-none_of_zero orm _ db.participants (nobody a)))
        n b (new_participant ids.second n b) refl refl
        (omega (
          arith,
          count_if-insert orm (λ p. p.id == ids.second) (new_participant ids.first n a)
              db.participants,
          ap bit fresh.distinct_ids,
          fresh.no_second,
        ))
        (find_one-none_of_zero orm (is_participation n b) with_first (
          omega (
            arith,
            count_if-insert orm (is_participation n b) (new_participant ids.first n a)
                db.participants,
            nobody b,
            ap bit (other_user n),
          )))
    where
      other_user : (c : ℕ) → (c == c && a == b) ≡ false
      other_user c = ground arith

  other_id : (c : Conversation) → Mem c db.conversations → (c.id == n) ≡ false
  other_id c m = elim (Bool-cases (c.id == n)) [
    | inl same ↦ absurd (
        omega (
          arith,
          fresh.no_conversation,
          count_if-pos_of_mem (λ (x : Conversation). x.id == n) db.conversations m same,
        ))
    | inr other ↦ other
  ]

  -- The members of the conversations, with those of the new one.
  members :
      (c : ℕ)
      → members_of c with_both ≡ bit (n == c) + (bit (n == c) + members_of c db.participants)
  members c = count-both (λ p. p.conversation_id == c)

  present :
      (c u : ℕ)
      → has orm (is_present c u) with_both
        ≡ ((n == c && (b == u || a == u)) || has orm (is_present c u) db.participants)
  present c u =
      has-insert orm (is_present c u) (new_participant ids.second n b) with_first
      ∙ ap (λ (x : Bool). is_present c u (new_participant ids.second n b) || x)
          (has-insert orm (is_present c u) (new_participant ids.first n a) db.participants)
      ∙ regroup (n == c) (b == u) (a == u) (has orm (is_present c u) db.participants)
    where
      regroup :
          (k x y old : Bool)
          → ((k && x) && true || ((k && y) && true || old)) ≡ ((k && (x || y)) || old)
      regroup k x y old = ground arith

  -- Nobody is present in the conversation before.
  absent : (u : ℕ) → has orm (is_present n u) db.participants ≡ false
  absent u = has-count_if orm (is_present n u) db.participants ∙ ap (λ (k : ℕ). ltb 0 k) none_there
    where
      none_there : count_if (is_present n u) db.participants ≡ 0
      none_there = omega (
        arith,
        nobody u,
        count_if_mono (is_present n u) (is_participation n u) db.participants (λ p. ground arith),
      )

  abbrev new : Conversation
  new = record { id = n; chat_type = private_chat; created_at = now; updated_at = now }

  -- Of the two users, and of no others.
  new_pair :
      (u v : ℕ) → is_between orm u v with_both new ≡ ((b == u || a == u) && (b == v || a == v))
  new_pair u v =
      rw (present n u, present n v, absent u, absent v)
        (tidy (n == n) (b == u || a == u) (b == v || a == v) (==_true n n refl))
    where
      tidy : (k x y : Bool) → k ≡ true → (((k && x) || false) && ((k && y) || false)) ≡ (x && y)
      tidy k x y h = ground arith

  same_pair :
      (u v : ℕ) (c : Conversation)
      → (c.id == n) ≡ false
      → is_between orm u v with_both c ≡ is_between orm u v db.participants c
  same_pair u v c other = rw (present c.id u, present c.id v) (ground (arith, swapped))
    where
      swapped : (n == c.id) ≡ false
      swapped = ground (arith, other)

  unpaired : count_if (is_between orm a b db.participants) db.conversations ≡ 0
  unpaired = count_if-find_one_none orm _ db.conversations missing

  unpaired_back : count_if (is_between orm b a db.participants) db.conversations ≡ 0
  unpaired_back =
      count_if_congr _ _ db.conversations (is_between_comm orm b a db.participants) ∙ unpaired

  -- The two users share no other conversation.
  alone :
      (u v : ℕ)
      → (u == v) ≡ false
      → is_between orm u v with_both new ≡ true
      → count_if (is_between orm u v db.participants) db.conversations ≡ 0
  alone u v distinct paired = elim (which (sym (new_pair u v) ∙ paired)) [
    | inl (eu, ev) ↦
        ap (λ (i : ℕ). count_if (is_between orm i v db.participants) db.conversations) eu
        ∙ ap (λ (i : ℕ). count_if (is_between orm a i db.participants) db.conversations) ev
        ∙ unpaired
    | inr (eu, ev) ↦
        ap (λ (i : ℕ). count_if (is_between orm i v db.participants) db.conversations) eu
        ∙ ap (λ (i : ℕ). count_if (is_between orm b i db.participants) db.conversations) ev
        ∙ unpaired_back
  ]
    where
      which :
          ((b == u || a == u) && (b == v || a == v)) ≡ true
          → ((u ≡ a) × (v ≡ b)) ⊎ ((u ≡ b) × (v ≡ a))
      which h = elim (Bool-cases (a == u)) [
        | inl t ↦ inl (ground arith, ground arith)
        | inr f ↦ inr (ground arith, ground arith)
      ]

  one_for_two :
      (u v : ℕ)
      → (u == v) ≡ false
      → count_if (is_between orm u v with_both) (orm.insert new db.conversations) ≤ 1
  one_for_two u v distinct =
      let rest : count_if (is_between orm u v with_both) db.conversations
          ≤ count_if (is_between orm u v db.participants) db.conversations =
        omega (
          arith,
          fresh.no_conversation,
          count_if_cover (is_between orm u v with_both) (is_between orm u v db.participants)
              (λ c. c.id == n) db.conversations
              (λ c. elim (Bool-cases (c.id == n)) [
                | inl same ↦ rw same (ground arith)
                | inr other ↦ rw (same_pair u v c other) (omega arith)
              ]),
        ) in
      elim (Bool-cases (is_between orm u v with_both new)) [
        | inl paired ↦ omega (
          arith,
          rest,
          alone u v distinct paired,
          count_if-insert orm (is_between orm u v with_both) new db.conversations,
          ap bit paired,
        )
        | inr apart ↦ omega (
          arith,
          rest,
          wf.one_for_two u v distinct,
          count_if-insert orm (is_between orm u v with_both) new db.conversations,
          ap bit apart,
        )
      ]

  pub is_between-new : is_between orm a b with_both new ≡ true
  is_between-new =
      new_pair a b ∙ both (a == a) (b == b) (b == a) (a == b) (==_true a a refl) (==_true b b refl)
    where
      both : (aa bb ba ab : Bool) → aa ≡ true → bb ≡ true → ((ba || aa) && (bb || ab)) ≡ true
      both aa bb ba ab h k = ground arith

  pub add_conversation-IsPaired : IsPaired orm (add_conversation orm ids now a b db)
  add_conversation-IsPaired = record {
    conversation_ids =
        HasUniqueIds-insert orm _ db.conversations new fresh.no_conversation wf.conversation_ids;
    participant_table = table;
    two_members =
        Every-insert orm new db.conversations (λ x. ℕ_set _ _)
          (omega (arith, members n, fresh.no_member, ap bit (==_true n n refl)))
          (λ c m.
            omega (arith, members c.id, wf.two_members c m, ap bit (not_new c.id (other_id c m))));
    one_for_two = one_for_two;
    sent_by_member = λ m here u e.
        omega
          (arith, wf.sent_by_member m here u e, count-both (is_participation m.conversation_id u));
  }
    where
      not_new : (i : ℕ) → (i == n) ≡ false → (n == i) ≡ false
      not_new i h = ground arith
