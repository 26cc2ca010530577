-- ===== src/Posts/Shown.antt =====
-- What the feed shows.
use mathlib.Core.List.{Mem}
use rideway_api.Prelude.{
  ℕ, ◌≡◌, ◌≤◌, eq_of_==, refl, sym, ap, ◌∙◌, inl, inr, Bool, true, false, not, ◌&&◌, ◌||◌, some,
  is_none, or_else, List, [], ◌∷◌, map, length, length-map, min, ltb, ◌==◌, ==_true, arith, leb_ℤ,
  pos, count_if, count_if-pos_of_mem, Bool-cases,
}
use rideway_api.Prelude.Sets.{contains, any-map, any-count_if}
use rideway_api.Database.{Orm, Every, unordered, has}
use rideway_api.Database.Rows.{Every-map}
use rideway_api.Database.Presence.{contains-find, has-congr}
use rideway_api.Pagination.Queries.{shown, shown-Mem, length-shown, more-read}
use rideway_api.Blocking.{UserFollow, is_follow, is_user_blocked, blocked_user_ids}
use rideway_api.Blocking.Laws.{contains-blocked_user_ids}
use rideway_api.Posts.{Post, PostLike, Db, is_like_by, is_for_everyone}
use rideway_api.Posts.Feeds.{
  FeedQueryDto, newest_first, mark, following_ids, feed_logic, is_in_feed, get_feed,
}

contains-map :
    {E : Type 0} (key : E → ℕ) (rows : List E) {e : E}
    → Mem e rows
    → contains (map key rows) (key e) ≡ true
contains-map key rows {e} m =
    any-map (λ j. j == key e) key rows
    ∙ any-count_if (λ x. key x == key e) rows
    ∙ some_row _ (count_if-pos_of_mem (λ x. key x == key e) rows m (==_true (key e) (key e) refl))
  where
    some_row : (n : ℕ) → 1 ≤ n → ltb 0 n ≡ true
    some_row n h = ground arith

module _ (orm : Orm) (user_id : ℕ) (s : Db) where
  -- The post is not deleted, there is no block between its author and the reader, the reader follows
  -- the author or the post is for everyone, and the flag tells whether the reader likes it.
  abbrev pub IsFeedPost : Post → Type 0
  IsFeedPost p =
      (is_none p.deleted_at ≡ true)
      × (is_user_blocked orm p.user_id user_id s.blocks ≡ false)
      × ((has orm (is_follow user_id p.user_id) s.follows || is_for_everyone p.visibility) ≡ true)
      × (p.is_liked ≡ some (has orm (is_like_by p.id user_id) s.likes))

  followed_or_public :
      (following : List ℕ) (p : Post)
      → feed_logic following p ≡ true
      → (contains following p.user_id || is_for_everyone p.visibility) ≡ true
  followed_or_public [] p h = h
  followed_or_public (i ∷ following) p h = weaker _ _ (leb_ℤ (pos 5) p.likes_count) h
    where
      weaker : (a b c : Bool) → (a || (b && c)) ≡ true → (a || b) ≡ true
      weaker a b c k = ground arith

  flag :
      (posts : List Post) (p : Post)
      → Mem p posts
      → contains
          (map
            (λ (l : PostLike). l.post_id)
            (orm.find
              (λ l. l.user_id == user_id && contains (map (λ q. q.id) posts) l.post_id)
              unordered
              s.likes))
          p.id
        ≡ has orm (is_like_by p.id user_id) s.likes
  flag posts p m =
      contains-find orm (λ (l : PostLike). l.post_id)
        (λ l. l.user_id == user_id && contains (map (λ q. q.id) posts) l.post_id) unordered s.likes
        p.id
      ∙ has-congr orm _ (is_like_by p.id user_id) s.likes (λ l.
        elim (Bool-cases (l.post_id == p.id)) [
          | inr other ↦ ground (arith, other)
          | inl same ↦
              let asked : contains (map (λ (q : Post). q.id) posts) l.post_id ≡ true =
                ap (contains (map (λ (q : Post). q.id) posts)) (eq_of_== l.post_id p.id same)
                ∙ contains-map (λ (q : Post). q.id) posts m in
              ground (arith, same, asked)
        ])

  module _ (query : FeedQueryDto) where
    abbrev pub in_feed : Post → Bool
    in_feed = is_in_feed orm user_id query.cursor s

    abbrev posts : List Post
    posts = shown orm in_feed newest_first s.posts (or_else query.limit 20)

    mark-IsFeedPost :
        (p : Post)
        → Mem p posts
        → in_feed p ≡ true
        → IsFeedPost (
            mark
              (map
                (λ (l : PostLike). l.post_id)
                (orm.find
                  (λ l. l.user_id == user_id && contains (map (λ q. q.id) posts) l.post_id)
                  unordered
                  s.likes))
              p)
    mark-IsFeedPost p m h = (
      first_of _ (not (contains (blocked_user_ids orm user_id s.blocks) p.user_id)) _ _ h,
      sym (contains-blocked_user_ids orm user_id p.user_id s.blocks)
          ∙ second_of (is_none p.deleted_at) _ _ _ h,
      sym (
            ap (λ (b : Bool). b || is_for_everyone p.visibility)
              (contains-find orm (λ (f : UserFollow). f.following_id)
                  (λ f. f.follower_id == user_id) unordered s.follows p.user_id
                ∙ has-congr orm _ (is_follow user_id p.user_id) s.follows (λ f. ground arith)))
          ∙ followed_or_public (following_ids orm user_id s) p (
              third_of (is_none p.deleted_at)
                (not (contains (blocked_user_ids orm user_id s.blocks) p.user_id)) _ _ h),
      ap (λ (b : Bool). some b) (flag posts p m),
    )
      where
        first_of : (a b c d : Bool) → (a && b && c && d) ≡ true → a ≡ true
        first_of a b c d k = ground arith

        second_of : (a b c d : Bool) → (a && not b && c && d) ≡ true → b ≡ false
        second_of a b c d k = ground arith

        third_of : (a b c d : Bool) → (a && b && c && d) ≡ true → c ≡ true
        third_of a b c d k = ground arith

    -- `getFeed` answers as many of the posts that fit the feed as the limit allows, tells rightly
    -- whether there are more, and each post that it answers is not deleted, is by an author without
    -- a block to or from the reader, is by an author whom the reader follows or is for everyone, and
    -- is marked as liked exactly where the reader likes it.
    pub get_feed_lem :
        Every IsFeedPost (get_feed orm user_id query s).rows
        × (length (get_feed orm user_id query s).rows
            ≡ min (or_else query.limit 20) (count_if in_feed s.posts))
        × ((get_feed orm user_id query s).has_more
            ≡ ltb (or_else query.limit 20) (count_if in_feed s.posts))
    unfolding get_feed
    get_feed_lem = (
      Every-map {P = λ p. Mem p posts × (in_feed p ≡ true)} {Q = IsFeedPost}
          (mark (
            map (λ (l : PostLike). l.post_id)
              (orm.find (λ l. l.user_id == user_id && contains (map (λ q. q.id) posts) l.post_id)
                unordered s.likes)))
          posts (λ p. hlevel) (λ p (m, h). mark-IsFeedPost p m h)
          (λ p m. (m, (shown-Mem orm in_feed newest_first s.posts (or_else query.limit 20) p m).1)),
      length-map _ posts ∙ length-shown orm in_feed newest_first s.posts (or_else query.limit 20),
      more-read orm in_feed newest_first s.posts (or_else query.limit 20),
    )
