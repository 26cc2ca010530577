-- ===== src/Users/Tests.antt =====
-- The calls at three concrete users: 1 follows 2, and 3 blocks 1.
use text.Mathlib.Text.{◌==◌ as text_eq}
use text.Mathlib.TextEquality.{eq_iff}
use mathlib.Core.Path.{ap₂, subst}
use rideway_api.Prelude.{
  Bool-cases, sym, ap, ◌∙◌, count_if, ℕ, ◌≡◌, refl, inl, inr, Bool, true, false, ◌&&◌, ◌||◌, none,
  some, [], ◌∷◌, ◌==◌, bit, arith, String, ◌+◌, ◌≤◌,
}
use rideway_api.Prelude.Sets.{contains}
use rideway_api.Database.{has}
use rideway_api.Database.InMemory.{in_memory}
use rideway_api.Action.{state_of}
use rideway_api.Blocking.{is_follow, is_block, is_user_blocked, blocked_user_ids}
use rideway_api.Blocking.Laws.{contains-blocked_user_ids}
use rideway_api.Users.{User, UserProfile, Db, follow_user}
use rideway_api.Users.Profiles.{UpdateProfileDto, update_profile}
use rideway_api.Users.Lists.{
  UserSearchQueryDto, get_followers, get_following, is_shown_follower, is_shown_followed,
}
use rideway_api.Users.Graph.{follow, unfollow, block, answer, IsPeaceful}
use rideway_api.Users.Tables.{IsWellFormed, IsNew, run, graph_of, active_in}
use rideway_api.Users.Refinement.{seen, run-answer}
use rideway_api.Users.History.{here, next, replay, SocialReach-IsPeaceful}
use rideway_api.Users.Names.{HasUniqueNames, has_name, update_profile-HasUniqueNames}
use rideway_api.Users.Shown.{IsListOf, follow_lists_lem}

abbrev user : ℕ → String → User
user id email = record {
  id = id;
  email = email;
  is_email_verified = true;
  is_active = true;
  created_at = 5;
  deleted_at = none;
}

abbrev profile : (id user_id : ℕ) → String → UserProfile
profile id user_id username = record {
  id = id;
  user_id = user_id;
  username = username;
  full_name = none;
  bio = none;
  avatar_url = none;
  cover_url = none;
  location = none;
  website = none;
  date_of_birth = none;
  gender = none;
}

abbrev club : Db
club = record {
  users = user 1 "a" ∷ user 2 "b" ∷ user 3 "c" ∷ [];
  profiles = profile 11 1 "ana" ∷ profile 12 2 "beka" ∷ [];
  follows = record { id = 21; follower_id = 1; following_id = 2 } ∷ [];
  blocks = record { id = 31; blocker_id = 3; blocked_id = 1 } ∷ [];
  deleted_images = [];
}

bit-le : (b : Bool) → bit b + 0 ≤ 1
bit-le true = omega arith
bit-le false = omega arith

club-IsWellFormed : IsWellFormed club
club-IsWellFormed = record {
  follows = record { ids = λ i. bit-le (21 == i); once = λ t u. bit-le (1 == t && 2 == u) };
  blocks = record { ids = λ i. bit-le (31 == i); once = λ t u. bit-le (3 == t && 1 == u) };
}

unused_id : IsNew 22 club
unused_id = record { no_follow = refl; no_block = refl }

-- A user 1 who blocks user 2 and so loses the follow.
run-answer_example :
    seen in_memory (run in_memory (block 1 2) 22 club)
    ≡ answer (active_in in_memory club) (block 1 2) (graph_of in_memory club)
run-answer_example = run-answer in_memory (block 1 2) 22 club club-IsWellFormed unused_id

in_single : {E : Type 0} (p : E → Bool) (e : E) → has in_memory p (e ∷ []) ≡ p e
in_single p e = elim (Bool-cases (p e)) [ inl t ↦ rw t refl | inr f ↦ rw f refl ]

club-IsPeaceful : IsPeaceful (graph_of in_memory club)
club-IsPeaceful = record {
  no_self_follow = λ a. rw (in_single (is_follow a a)) (ground arith);
  no_self_block = λ a. rw (in_single (is_block a a)) (ground arith);
  apart = λ a b h.
      ap2_or (in_single (is_block a b) _) (in_single (is_block b a) _)
      ∙ apart_rows a b (sym (in_single (is_follow a b) _) ∙ h);
}
  where
    ap2_or : {a b c d : Bool} → a ≡ c → b ≡ d → (a || b) ≡ (c || d)
    ap2_or e h = ap₂ (λ (x y : Bool). x || y) e h

    apart_rows :
        (a b : ℕ) → (1 == a && 2 == b) ≡ true → ((3 == a && 1 == b) || (3 == b && 1 == a)) ≡ false
    apart_rows a b h = ground arith

abbrev moved : Db
moved = state_of (run in_memory (unfollow 1 2) 23 (state_of (run in_memory (follow 2 1) 22 club)))

SocialReach-IsPeaceful_example :
    IsWellFormed moved
    × IsPeaceful (graph_of in_memory moved)
    × (graph_of in_memory moved
        ≡ replay
            (active_in in_memory club)
            (unfollow 1 2 ∷ follow 2 1 ∷ [])
            (graph_of in_memory club))
unfolding follow_user
SocialReach-IsPeaceful_example =
    SocialReach-IsPeaceful in_memory
      (next (next here (follow 2 1) 22 unused_id) (unfollow 1 2) 23
        (record { no_follow = refl; no_block = refl }))
      club-IsWellFormed club-IsPeaceful

contains-blocked_user_ids_example :
    contains (blocked_user_ids in_memory 1 club.blocks) 3
    ≡ is_user_blocked in_memory 3 1 club.blocks
contains-blocked_user_ids_example = contains-blocked_user_ids in_memory 1 3 club.blocks

abbrev query : UserSearchQueryDto
query = record { page = some 1; limit = some 10; q = none }

follow_lists_lem_example :
    IsListOf in_memory
      (some 1)
      club
      query
      (λ id. has in_memory (is_follow id 2) club.follows)
      (count_if (is_shown_follower in_memory 2 (some 1) club) club.follows)
      (get_followers in_memory 2 query (some 1) club)
    × IsListOf in_memory
        (some 1)
        club
        query
        (λ id. has in_memory (is_follow 2 id) club.follows)
        (count_if (is_shown_followed in_memory 2 (some 1) club) club.follows)
        (get_following in_memory 2 query (some 1) club)
follow_lists_lem_example = follow_lists_lem in_memory (some 1) club 2 query

abbrev renaming : UpdateProfileDto
renaming = record {
  username = some "anano";
  full_name = none;
  bio = none;
  location = none;
  website = none;
  date_of_birth = none;
  gender = none;
}

club-HasUniqueNames : HasUniqueNames club.profiles
club-HasUniqueNames = record {
  ids = λ i. omega (arith, two 11 12 i (omega arith));
  users = λ i. omega (arith, two 1 2 i (omega arith));
  names = names;
}
  where
    two : (a b i : ℕ) → a + 1 ≤ b → bit (a == i) + (bit (b == i) + 0) ≤ 1
    two a b i h = ground arith

    names : (name : String) → count_if (has_name name) club.profiles ≤ 1
    names name = elim (Bool-cases (text_eq "ana" name)) [
      | inl t ↦
          subst (λ n. count_if (has_name n) club.profiles ≤ 1) ((eq_iff "ana" name).0 t)
            (omega arith)
      | inr f ↦ omega (arith, ap bit f, bit-le (text_eq "beka" name))
    ]

update_profile-HasUniqueNames_example :
    HasUniqueNames (state_of (update_profile in_memory 1 renaming club)).profiles
update_profile-HasUniqueNames_example =
    update_profile-HasUniqueNames in_memory 1 renaming club club-HasUniqueNames (inr refl)
