-- ===== src/Stories/Tests.antt =====
-- The calls at two concrete stories of user 7, the first active and viewed by user 8, the second
-- expired.
use mathlib.Core.List.{Perm}
use rideway_api.Prelude.{
  ℕ, ◌+◌, ◌≡◌, ◌≤◌, refl, Bool, true, false, not, ◌&&◌, none, some, [], ◌∷◌, pos, ◌==◌, arith, bit,
  count_if, ℤ_set,
}
use native.Mathlib.Bridge.{le_prop}
use native.Mathlib.Nat.{ℕ_set}
use rideway_api.Database.{Every, has}
use rideway_api.Database.InMemory.{in_memory, Every-nil, Every-cons}
use rideway_api.Action.{done, state_of}
use rideway_api.Stories.{
  Story, Db, image, is_expired, is_view_by, active_stories, mark_as_viewed, delete_expired, delete,
}
use rideway_api.Stories.Invariant.{IsWellFormed, viewers_of}
use rideway_api.Stories.Marking.{mark_as_viewed_lem}
use rideway_api.Stories.Cleaning.{delete_expired_lem}
use rideway_api.Stories.History.{here, next, viewed, deleted, cleaned, StoriesReach-IsWellFormed}

abbrev ride : Story
ride = record {
  id = 1;
  user_id = 7;
  media_url = "ride.webp";
  thumbnail_url = none;
  media_type = image;
  caption = some "New ride";
  views_count = pos 1;
  expires_at = 200;
  created_at = 100;
  has_viewed = none;
}

abbrev old : Story
old = record ride { id = 2; views_count = pos 0; expires_at = 140 }

abbrev album : Db
album = record {
  stories = ride ∷ old ∷ [];
  views = record { id = 5; story_id = 1; user_id = 8; viewed_at = 120 } ∷ [];
  blocks = [];
  deleted_images = [];
}

bit-le : (b : Bool) → bit b + 0 ≤ 1
bit-le true = omega arith
bit-le false = omega arith

album-IsWellFormed : IsWellFormed album
album-IsWellFormed = record {
  story_ids = λ i. two i;
  views_table = record { ids = λ i. bit-le (5 == i); once = λ t u. bit-le (1 == t && 8 == u) };
  views_counted = Every-cons (λ _. ℤ_set _ _) refl (Every-cons (λ _. ℤ_set _ _) refl (Every-nil _));
  not_own = Every-cons (λ _. ℕ_set _ _) refl (Every-cons (λ _. ℕ_set _ _) refl (Every-nil _));
  views_exist = Every-cons (λ _. le_prop) (omega arith) (Every-nil _);
}
  where
    two : (i : ℕ) → bit (1 == i) + (bit (2 == i) + 0) ≤ 1
    two i = ground arith

mark_as_viewed_lem_example :
    (db' : Db) × (mark_as_viewed in_memory 6 150 1 9 album ≡ done tt db')
    × (has in_memory (is_view_by 1 9) db'.views ≡ not (7 == 9))
    × (viewers_of 1 db'.views
        ≡ viewers_of 1 album.views
          + bit (not (7 == 9) && not (has in_memory (is_view_by 1 9) album.views)))
    × IsWellFormed db'
mark_as_viewed_lem_example =
    mark_as_viewed_lem in_memory album album-IsWellFormed 6 150 1 9 refl {story = ride} refl refl

delete_expired_lem_example :
    Every (λ s. is_expired 150 s ≡ false) (delete_expired in_memory 150 album).stories
    × Perm
        (active_stories in_memory 160 7 (delete_expired in_memory 150 album))
        (active_stories in_memory 160 7 album)
    × IsWellFormed (delete_expired in_memory 150 album)
delete_expired_lem_example =
    delete_expired_lem in_memory 150 album album-IsWellFormed 160 7 (omega arith)

free_view_id : count_if (λ v. v.id == 6) (delete_expired in_memory 150 album).views ≡ 0
unfolding delete_expired
free_view_id = refl

StoriesReach-IsWellFormed_example : IsWellFormed (
    state_of (
      delete in_memory 1 7
        (state_of (mark_as_viewed in_memory 6 150 1 9 (delete_expired in_memory 150 album)))))
StoriesReach-IsWellFormed_example =
    StoriesReach-IsWellFormed in_memory
      (next (next (next here (cleaned 150)) (viewed 6 150 1 9 free_view_id)) (deleted 1 7))
      album-IsWellFormed
