-- ===== src/Posts/Invariant.antt =====
-- The invariant of posts and likes: ids are unique, a user likes a post at most once, and the counters
-- of likes and shares are the numbers of the rows that they stand for, less the shares that were
-- lost: those of reposts that `create` left without counting them.
use rideway_api.Prelude.{
  ℕ, ◌≡◌, refl, Bool, ◌&&◌, none, some, is_none, is_id, List, ◌==◌, count_if, ℤ, ◌+ℤ◌, pos,
}
use rideway_api.Database.{Orm, HasUniqueIds}
use rideway_api.Database.Rows.{count_if-update_same, HasUniqueIds-update}
use rideway_api.Database.Toggles.{
  IsToggleTable, tally_of, IsToggleTable-insert, IsToggleTable-delete, tally_of-insert,
  tally_of-delete,
}
use rideway_api.Database.Tallies.{Tallied, Tallied-update, Tallied-up, Tallied-down, Tallied-congr}
use rideway_api.Posts.{Post, PostLike, is_like_by, more_likes, fewer_likes}

-- The likes of a post, and its reposts that are not deleted.
abbrev pub likes_of : List PostLike → ℕ → ℕ
likes_of likes = tally_of (λ (l : PostLike). l.id) (λ l. l.post_id) (λ l. l.user_id) likes

abbrev pub is_repost_of : ℕ → Post → Bool
is_repost_of k p = is_id p.original_post_id k && is_none p.deleted_at

abbrev pub reposts_of : List Post → ℕ → ℕ
reposts_of posts k = count_if (is_repost_of k) posts

abbrev pub LikesCounted : List PostLike → List Post → Type 0
LikesCounted likes posts = Tallied (λ (p : Post). p.id) (λ p. p.likes_count) (likes_of likes) posts

-- The shares of a post with those that were never counted.
abbrev pub shares_with : (lost : ℕ → ℕ) → Post → ℤ
shares_with lost p = p.shares_count +ℤ pos (lost p.id)

-- The shares of each post, with those that were lost to its counter, are as many as the tally says.
abbrev pub SharesTallied : (lost tally : ℕ → ℕ) → List Post → Type 0
SharesTallied lost tally posts = Tallied (λ (p : Post). p.id) (shares_with lost) tally posts

pub record IsWellFormed (lost : ℕ → ℕ) (posts : List Post) (likes : List PostLike) : Type 0 where
  pub ids : HasUniqueIds (λ (p : Post). p.id) posts
  pub likes_table : IsToggleTable (λ (l : PostLike). l.id) (λ l. l.post_id) (λ l. l.user_id) likes
  pub likes_counted : LikesCounted likes posts
  pub shares_counted : SharesTallied lost (reposts_of posts) posts

-- A write that leaves the shares and the reposts as they are.
pub SharesTallied-update :
    (orm : Orm) (lost : ℕ → ℕ) (posts : List Post) (q : Post → Bool) (f : Post → Post)
    → ((p : Post) → (f p).id ≡ p.id)
    → ((p : Post) → (f p).shares_count ≡ p.shares_count)
    → ((k : ℕ) (p : Post) → is_repost_of k (f p) ≡ is_repost_of k p)
    → SharesTallied lost (reposts_of posts) posts
    → SharesTallied lost (reposts_of (orm.update q f posts)) (orm.update q f posts)
SharesTallied-update orm lost posts q f same_id same_shares same_place h =
    Tallied-congr (λ (p : Post). p.id) (shares_with lost) (reposts_of posts)
      (reposts_of (orm.update q f posts)) (orm.update q f posts)
      (λ k. count_if-update_same orm (is_repost_of k) q f posts (same_place k))
      (Tallied-update orm (λ (p : Post). p.id) (shares_with lost) posts (reposts_of posts) f same_id
        q (λ p. rw (same_shares, same_id) refl) h)

module _ (orm : Orm) (posts : List Post) (likes : List PostLike) {lost : ℕ → ℕ}
    (wf : IsWellFormed lost posts likes) where
  -- A write that moves neither the place of a post nor its counters.
  pub IsWellFormed-update :
      (q : Post → Bool) (f : Post → Post)
      → ((p : Post) → (f p).id ≡ p.id)
      → ((p : Post) → (f p).likes_count ≡ p.likes_count)
      → ((p : Post) → (f p).shares_count ≡ p.shares_count)
      → ((k : ℕ) (p : Post) → is_repost_of k (f p) ≡ is_repost_of k p)
      → IsWellFormed lost (orm.update q f posts) likes
  IsWellFormed-update q f same_id same_likes same_shares same_place = record {
    ids = HasUniqueIds-update orm _ posts q f same_id wf.ids;
    likes_table = wf.likes_table;
    likes_counted =
        Tallied-update orm _ (λ p. p.likes_count) posts _ f same_id q same_likes wf.likes_counted;
    shares_counted =
        SharesTallied-update orm lost posts q f same_id same_shares same_place wf.shares_counted;
  }

  -- The like of a user is inserted, or deleted, with the counter.
  pub IsWellFormed-like :
      (new_id post_id user_id : ℕ)
      → count_if (λ (l : PostLike). l.id == new_id) likes ≡ 0
      → orm.find_one (is_like_by post_id user_id) likes ≡ none
      → IsWellFormed lost
          (orm.update (λ p. p.id == post_id) more_likes posts)
          (orm.insert (record { id = new_id; post_id = post_id; user_id = user_id }) likes)
  IsWellFormed-like new_id post_id user_id fresh missing =
      let l : PostLike = record { id = new_id; post_id = post_id; user_id = user_id } in
      record {
        ids = HasUniqueIds-update orm _ posts _ more_likes (λ p. refl) wf.ids;
        likes_table =
            IsToggleTable-insert _ _ _ orm likes wf.likes_table post_id user_id l refl refl fresh
              missing;
        likes_counted =
            Tallied-up orm _ (λ p. p.likes_count) posts _ more_likes (λ p. refl) _ post_id
              (λ p. refl)
              (tally_of-insert _ _ _ orm likes wf.likes_table post_id user_id l refl refl fresh
                missing)
              wf.likes_counted;
        shares_counted =
            SharesTallied-update orm lost posts (λ p. p.id == post_id) more_likes (λ p. refl)
              (λ p. refl) (λ k p. refl) wf.shares_counted;
      }

  pub IsWellFormed-unlike :
      (post_id user_id : ℕ) {l : PostLike}
      → orm.find_one (is_like_by post_id user_id) likes ≡ some l
      → IsWellFormed lost
          (orm.update (λ p. p.id == post_id) fewer_likes posts)
          (orm.delete (λ x. x.id == l.id) likes)
  IsWellFormed-unlike post_id user_id found = record {
    ids = HasUniqueIds-update orm _ posts _ fewer_likes (λ p. refl) wf.ids;
    likes_table = IsToggleTable-delete _ _ _ orm likes wf.likes_table post_id user_id found;
    likes_counted =
        Tallied-down orm _ (λ p. p.likes_count) posts _ fewer_likes (λ p. refl) _ post_id
          (λ p. refl) (tally_of-delete _ _ _ orm likes wf.likes_table post_id user_id found)
          wf.likes_counted;
    shares_counted =
        SharesTallied-update orm lost posts (λ p. p.id == post_id) fewer_likes (λ p. refl)
          (λ p. refl) (λ k p. refl) wf.shares_counted;
  }
