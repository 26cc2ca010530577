-- ===== src/Posts/Tests.antt =====
-- The calls at two concrete posts of user 7: a public one, which user 8 likes, and a private one.
use rideway_api.Prelude.{
  ℕ, ◌+◌, ◌≡◌, ◌⊎◌, inl, ◌≤◌, refl, Bool, true, false, ◌&&◌, none, some, [], ◌∷◌, pos, ◌==◌, ◌+ℤ◌,
  arith, bit, ltb, min, length, count_if, ℤ_set,
}
use rideway_api.Database.{Every}
use rideway_api.Database.InMemory.{in_memory, Every-nil, Every-cons}
use rideway_api.Action.{state_of, bad_request, done, raised, not_found, forbidden}
use rideway_api.Posts.{
  Post, Db, everyone, private_post, new_post, live_post, is_private, is_for_followers, marked,
  find_one, share,
}
use rideway_api.Posts.Writing.{
  Texts, NewIds, CreatePostDto, UpdatePostDto, Uploads, create, update, delete,
}
use rideway_api.Posts.Feeds.{FeedQueryDto, get_feed}
use rideway_api.Posts.Reading.{may_read, find_one_lem, private_post_lem}
use rideway_api.Posts.Shown.{IsFeedPost, in_feed, get_feed_lem}
use rideway_api.Posts.Unmoved.{IsInOrder}
use rideway_api.Posts.Calls.{lost_after}
use rideway_api.Posts.History.{here, next, created, shared, deleted, PostsReach-IsInOrder}

abbrev open_post : Post
open_post = record (new_post 1 10 7 "Hello" everyone none) { likes_count = pos 1 }

abbrev secret : Post
secret = new_post 2 20 7 "Notes" private_post none

abbrev wall : Db
wall = record {
  posts = open_post ∷ secret ∷ [];
  likes = record { id = 5; post_id = 1; user_id = 8 } ∷ [];
  images = [];
  hashtags = [];
  post_hashtags = [];
  mentions = [];
  follows = record { id = 9; follower_id = 8; following_id = 7 } ∷ [];
  blocks = [];
  profiles = [];
  deleted_images = [];
  dropped_feeds = [];
}

bit-le : (b : Bool) → bit b + 0 ≤ 1
bit-le true = omega arith
bit-le false = omega arith

abbrev none_lost : ℕ → ℕ
none_lost k = 0

wall-IsInOrder : IsInOrder none_lost wall
unfolding ◌+ℤ◌
wall-IsInOrder = record {
  ids = λ i. two i;
  likes_table = record { ids = λ i. bit-le (5 == i); once = λ t u. bit-le (1 == t && 8 == u) };
  likes_counted = Every-cons (λ _. ℤ_set _ _) refl (Every-cons (λ _. ℤ_set _ _) refl (Every-nil _));
  shares_counted =
      Every-cons (λ _. ℤ_set _ _) refl (Every-cons (λ _. ℤ_set _ _) refl (Every-nil _));
}
  where
    two : (i : ℕ) → bit (1 == i) + (bit (2 == i) + 0) ≤ 1
    two i = ground arith

abbrev no_texts : Texts
no_texts = record { hashtags_in = λ t. []; mentions_in = λ t. [] }

abbrev next_ids : NewIds
next_ids = record {
  post = 10;
  uploaded_image = λ i. i + 20;
  image = λ i. i + 30;
  hashtag = λ t. 40;
}

abbrev repost_dto : CreatePostDto
repost_dto = record {
  content = "Look";
  visibility = everyone;
  image_urls = [];
  original_post_id = some 1;
}

abbrev upload_fails : Uploads
upload_fails = some (inl (bad_request "Invalid file type"))

abbrev after : Db
after = state_of (delete in_memory 60 6 9 (state_of (share in_memory 6 50 1 9 "Look" wall)))

-- A repost with a file whose upload fails stays, and its original does not count it.
PostsReach-IsInOrder_example :
    IsInOrder
      (lost_after (some 1) upload_fails none_lost)
      (state_of (create in_memory no_texts next_ids 70 9 repost_dto upload_fails after))
unfolding share delete find_one
PostsReach-IsInOrder_example =
    PostsReach-IsInOrder in_memory {db = wall}
      (next
        (next
          (next here (
            shared 6 50 1 9 "Look"
              (record { no_post = refl; no_like = refl; no_repost = refl; no_lost = refl })))
          (deleted 60 6 9))
        (created no_texts next_ids 70 9 repost_dto upload_fails
          (record { no_post = refl; no_like = refl; no_repost = refl; no_lost = refl })))
      wall-IsInOrder

find_one_lem_example :
    ((in_memory.find_one (live_post 2) wall.posts ≡ none)
      × (find_one in_memory 2 (some 8) wall ≡ raised (not_found "Post not found") wall))
    ⊎ ((p : Post) × (in_memory.find_one (live_post 2) wall.posts ≡ some p)
        × (((may_read in_memory 2 (some 8) wall p ≡ true)
              × (find_one in_memory 2 (some 8) wall ≡ done (marked in_memory (some 8) wall p) wall))
            ⊎ ((may_read in_memory 2 (some 8) wall p ≡ false)
                × (is_private p.visibility ≡ true)
                × (find_one in_memory 2 (some 8) wall
                    ≡ raised (forbidden "This post is private") wall))
            ⊎ ((may_read in_memory 2 (some 8) wall p ≡ false)
                × (is_for_followers p.visibility ≡ true)
                × (find_one in_memory 2 (some 8) wall
                    ≡ raised (forbidden "This post is for followers only") wall))))
find_one_lem_example = find_one_lem in_memory 2 (some 8) wall

abbrev some_ids : NewIds
some_ids = record { post = 6; uploaded_image = λ i. 60 + i; image = λ i. 70 + i; hashtag = λ t. 80 }

abbrev to_public : UpdatePostDto
to_public = record {
  content = none;
  visibility = some everyone;
  delete_image_ids = [];
  image_urls = [];
}

private_post_lem_example :
    (update in_memory (λ url. true) no_texts some_ids 60 2 7 to_public none wall
      ≡ raised (forbidden "This post is private") wall)
    × (delete in_memory 60 2 7 wall ≡ raised (forbidden "This post is private") wall)
private_post_lem_example =
    private_post_lem in_memory (λ url. true) no_texts some_ids 60 2 7 to_public none wall refl refl

abbrev query : FeedQueryDto
query = record { limit = some 5; cursor = none }

get_feed_lem_example :
    Every (IsFeedPost in_memory 8 wall) (get_feed in_memory 8 query wall).rows
    × (length (get_feed in_memory 8 query wall).rows
        ≡ min 5 (count_if (in_feed in_memory 8 wall query) wall.posts))
    × ((get_feed in_memory 8 query wall).has_more
        ≡ ltb 5 (count_if (in_feed in_memory 8 wall query) wall.posts))
get_feed_lem_example = get_feed_lem in_memory 8 wall query
