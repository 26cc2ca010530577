-- ===== src/Gateway/Activity.antt =====
-- The activity table follows the sockets: each row has the number of the user's sockets and whether
-- there is one.
use mathlib.Core.Path.{subst}
use mathlib.Core.HLevel.{×_prop}
use mathlib.Core.Bool.{Bool-set}
use rideway_api.Prelude.{
  ℕ, ◌+◌, ◌≡◌, ◌≤◌, refl, sym, ap, ◌∙◌, inl, inr, Bool, true, false, none, if◌then◌else◌, List,
  ◌==◌, arith, ltb, Bool-cases, Option-cases, eq_of_==, ==_true, ℤ, pos, ◌+ℤ◌, ◌-ℤ◌, +ℤ-pos, -ℤ-pos,
  ℤ_set, count_if, is_some, lt→ltb,
}
use rideway_api.Database.{Orm, Every, HasUniqueIds, has}
use rideway_api.Database.Rows.{
  Every-update, Every-insert, HasUniqueIds-update, HasUniqueIds-insert, count_if-find_one_none,
  count_if-update_same,
}
use rideway_api.Database.Presence.{has-count_if, has-insert}
use rideway_api.Gateway.{
  UserActivity, activity_of, seen_now, update_user_activity_db, increment_connection_count,
  decrement_connection_count, upsert_appear_offline,
}

-- `sockets` tells how many sockets a user has.
pub record IsTracked (orm : Orm) (sockets : ℕ → ℕ) (rows : List UserActivity) : Type 0 where
  pub users : HasUniqueIds (λ a. a.user_id) rows
  pub counted :
      Every
        (λ a.
          (a.active_connections ≡ pos (sockets a.user_id))
          × (a.is_online ≡ ltb 0 (sockets a.user_id)))
        rows
  pub present : (u : ℕ) → ltb 0 (sockets u) ≡ true → has orm (λ a. a.user_id == u) rows ≡ true

module _ (orm : Orm) (sockets sockets' : ℕ → ℕ) (rows : List UserActivity)
    (tracked : IsTracked orm sockets rows) (u : ℕ)
    (others : (v : ℕ) → (v == u) ≡ false → sockets' v ≡ sockets v) where
  -- An update of the rows of the user, and of no other.
  module _ (f : UserActivity → UserActivity)
      (same : (a : UserActivity) → (f a).user_id ≡ a.user_id) where
    present-update :
        (v : ℕ)
        → has orm (λ a. a.user_id == v) (orm.update (λ a. a.user_id == u) f rows)
          ≡ has orm (λ a. a.user_id == v) rows
    present-update v =
        has-count_if orm (λ a. a.user_id == v) (orm.update (λ a. a.user_id == u) f rows)
        ∙ ap (λ (n : ℕ). ltb 0 n)
            (count_if-update_same orm (λ a. a.user_id == v) (λ a. a.user_id == u) f rows
              (λ a. ap (λ (i : ℕ). i == v) (same a)))
        ∙ sym (has-count_if orm (λ a. a.user_id == v) rows)

    pub IsTracked-update :
        has orm (λ a. a.user_id == u) rows ≡ true
        → ((a : UserActivity)
            → a.user_id ≡ u
            → a.active_connections ≡ pos (sockets u)
            → a.is_online ≡ ltb 0 (sockets u)
            → ((f a).active_connections ≡ pos (sockets' u))
              × ((f a).is_online ≡ ltb 0 (sockets' u)))
        → IsTracked orm sockets' (orm.update (λ a. a.user_id == u) f rows)
    IsTracked-update had to = record {
      users = HasUniqueIds-update orm _ rows _ f same tracked.users;
      counted =
          Every-update orm (λ a. a.user_id == u) f rows (λ a. ×_prop (ℤ_set _ _) (Bool-set _ _))
            (λ a e h.
              let at = eq_of_== a.user_id u e in
              subst
                (λ i.
                  ((f a).active_connections ≡ pos (sockets' i))
                  × ((f a).is_online ≡ ltb 0 (sockets' i)))
                (sym (same a ∙ at))
                (to a at (h.0 ∙ ap (λ (i : ℕ). pos (sockets i)) at)
                  (h.1 ∙ ap (λ (i : ℕ). ltb 0 (sockets i)) at)))
            (λ a e h. rw (others a.user_id e) h) tracked.counted;
      present = λ v h. present-update v ∙ elim (Bool-cases (v == u)) [
        | inl here ↦ ap (λ (i : ℕ). has orm (λ a. a.user_id == i) rows) (eq_of_== v u here) ∙ had
        | inr other ↦ tracked.present v (rw (others v other) at h)
      ];
    }

  -- The first row of the user.
  IsTracked-insert :
      orm.find_one (λ a. a.user_id == u) rows ≡ none
      → (a : UserActivity) → a.user_id ≡ u
      → a.active_connections ≡ pos (sockets' u)
      → a.is_online ≡ ltb 0 (sockets' u)
      → IsTracked orm sockets' (orm.insert a rows)
  IsTracked-insert missing a mine count online = record {
    users =
        HasUniqueIds-insert orm _ rows a
          (ap (λ (i : ℕ). count_if (λ x. x.user_id == i) rows) mine
            ∙ count_if-find_one_none orm _ rows missing)
          tracked.users;
    counted =
        Every-insert orm a rows (λ x. ×_prop (ℤ_set _ _) (Bool-set _ _))
          (
            count ∙ ap (λ (i : ℕ). pos (sockets' i)) (sym mine),
            online ∙ ap (λ (i : ℕ). ltb 0 (sockets' i)) (sym mine),
          )
          (λ x m.
            rw (others x.user_id (orm.find_one-none _ rows missing x m)) (tracked.counted x m));
    present = λ v h. has-insert orm (λ x. x.user_id == v) a rows ∙ elim (Bool-cases (v == u)) [
      | inl here ↦ ground (arith, ==_true a.user_id v (mine ∙ sym (eq_of_== v u here)))
      | inr other ↦ ground (arith, tracked.present v (rw (others v other) at h))
    ];
  }

  pub IsTracked-update_user_activity_db :
      (now : ℕ) (online : Bool)
      → sockets' u ≡ (if online then 1 else 0)
      → IsTracked orm sockets' (update_user_activity_db orm u now online rows)
  unfolding update_user_activity_db
  IsTracked-update_user_activity_db now online number =
      elim (Option-cases (orm.find_one (λ a. a.user_id == u) rows)) [
        | inl missing ↦
            rw (update_user_activity_db, missing)
              (IsTracked-insert missing (activity_of u now online) refl (sym count) (sym flag))
        | inr (row, found) ↦
            rw (update_user_activity_db, found)
              (IsTracked-update (seen_now now online) (λ a. refl) (ap is_some found)
                (λ a _ _ _. (sym count, sym flag)))
      ]
    where
      count : pos (sockets' u) ≡ (if online then pos 1 else pos 0)
      count = ap pos number ∙ elim (Bool-cases online) [ inl t ↦ rw t refl | inr f ↦ rw f refl ]

      flag : ltb 0 (sockets' u) ≡ online
      flag = elim (Bool-cases online) [
        | inl t ↦ ground (arith, number, t)
        | inr f ↦ ground (arith, number, f)
      ]

  pub IsTracked-increment :
      1 ≤ sockets u
      → sockets' u ≡ 1 + sockets u
      → IsTracked orm sockets' (increment_connection_count orm u rows)
  IsTracked-increment some_socket more =
      IsTracked-update (λ a. record a { active_connections = a.active_connections +ℤ pos 1 })
        (λ a. refl) (tracked.present u (lt→ltb 0 (sockets u) some_socket))
        (λ a e h k. (
          ap (λ (z : ℤ). z +ℤ pos 1) h ∙ +ℤ-pos (sockets u) 1 ∙ ap pos (omega (arith, more)),
          k ∙ ground (arith, some_socket, more),
        ))

  pub IsTracked-decrement :
      1 ≤ sockets' u
      → sockets' u + 1 ≡ sockets u
      → IsTracked orm sockets' (decrement_connection_count orm u rows)
  IsTracked-decrement some_socket fewer =
      IsTracked-update (λ a. record a { active_connections = a.active_connections -ℤ pos 1 })
        (λ a. refl) (tracked.present u (lt→ltb 0 (sockets u) (omega (arith, some_socket, fewer))))
        (λ a e h k. (
          ap (λ (z : ℤ). z -ℤ pos 1) h
              ∙ -ℤ-pos (sockets u) 1 (omega (arith, some_socket, fewer))
              ∙ ap pos (omega (arith, fewer)),
          k ∙ ground (arith, some_socket, fewer),
        ))

  pub IsTracked-upsert_appear_offline :
      (now : ℕ) (hidden : Bool)
      → sockets' u ≡ sockets u
      → IsTracked orm sockets' (upsert_appear_offline orm u now hidden rows)
  IsTracked-upsert_appear_offline now hidden same =
      elim (Option-cases (orm.find_one (λ a. a.user_id == u) rows)) [
        | inr (row, found) ↦
            rw (upsert_appear_offline, found)
              (IsTracked-update (λ a. record a { appear_offline = hidden }) (λ a. refl)
                (ap is_some found) (λ a _ h k. (rw same h, rw same k)))
        | inl missing ↦
            let no_socket : sockets' u ≡ 0 = elim (Bool-cases (ltb 0 (sockets u))) [
              | inr f ↦ ground (arith, same, f)
              | inl t ↦
                  let bad : false ≡ true = sym (ap is_some missing) ∙ tracked.present u t in cc
            ] in
            rw (upsert_appear_offline, missing)
              (IsTracked-insert missing
                (record (activity_of u now false) { appear_offline = hidden }) refl
                (ap pos (sym no_socket)) (ground (arith, no_socket)))
      ]
