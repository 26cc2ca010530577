-- ===== src/Posts/Counting.antt =====
-- The counters when a post is created, shared or deleted.
use rideway_api.Prelude.{
  ℕ, ◌+◌, ◌≡◌, refl, sym, ap, ◌∙◌, inl, inr, Bool, true, false, ◌&&◌, Option, none, some, is_none,
  is_id, if◌then◌else◌, List, String, ◌==◌, arith, bit, pos, ◌+ℤ◌, ◌-ℤ◌, ℤ, +ℤ-pos, +ℤ_assoc,
  +ℤ_swap, -ℤ_swap, count_if, Bool-cases, Option-cases,
}
use rideway_api.Database.{Orm}
use rideway_api.Database.Rows.{
  count_if-insert, count_if-update, count_if-update_same, HasUniqueIds-insert, HasUniqueIds-update,
}
use rideway_api.Database.Tallies.{
  Tallied-insert, Tallied-update, Tallied-up, Tallied-down, Tallied-congr, count_if-hide,
}
use rideway_api.Posts.{Post, PostLike, PostVisibility, live_post, new_post, more_shares}
use rideway_api.Posts.Invariant.{
  IsWellFormed, LikesCounted, SharesTallied, is_repost_of, likes_of, reposts_of, shares_with,
}

-- No post has the id, and no like and no repost, not counted or counted, points to it.
pub record IsNewPost (lost : ℕ → ℕ) (id : ℕ) (posts : List Post) (likes : List PostLike)
    : Type 0 where
  pub no_post : count_if (λ (p : Post). p.id == id) posts ≡ 0
  pub no_like : likes_of likes id ≡ 0
  pub no_repost : reposts_of posts id ≡ 0
  pub no_lost : lost id ≡ 0

-- The posts once a new one is saved and its original, if it has one, counts it.
abbrev pub posted : Orm → Post → List Post → List Post
posted orm new posts = elim new.original_post_id [
  | none ↦ orm.insert new posts
  | some id ↦ orm.update (λ p. p.id == id) more_shares (orm.insert new posts)
]

module _ (orm : Orm) (posts : List Post) (likes : List PostLike) {lost : ℕ → ℕ}
    (wf : IsWellFormed lost posts likes) (id now user_id : ℕ) (content : String)
    (visibility : PostVisibility) (fresh : IsNewPost lost id posts likes) where
  abbrev new : Option ℕ → Post
  new original = new_post id now user_id content visibility original

  inserted_likes : (o : Option ℕ) → LikesCounted likes (orm.insert (new o) posts)
  inserted_likes o =
      Tallied-insert orm (λ (p : Post). p.id) (λ p. p.likes_count) posts (likes_of likes) (new o)
        refl fresh.no_like wf.likes_counted

  inserted_shares :
      (o : Option ℕ) → SharesTallied lost (reposts_of posts) (orm.insert (new o) posts)
  inserted_shares o =
      Tallied-insert orm (λ (p : Post). p.id) (shares_with lost) posts (reposts_of posts) (new o)
        (ap (λ (n : ℕ). pos 0 +ℤ pos n) fresh.no_lost ∙ +ℤ-pos 0 0) fresh.no_repost
        wf.shares_counted

  pub IsWellFormed-posted :
      (original : Option ℕ) → IsWellFormed lost (posted orm (new original) posts) likes
  IsWellFormed-posted none = record {
    ids = HasUniqueIds-insert orm _ posts (new none) fresh.no_post wf.ids;
    likes_table = wf.likes_table;
    likes_counted = inserted_likes none;
    shares_counted =
        Tallied-congr (λ (p : Post). p.id) (shares_with lost) (reposts_of posts)
          (reposts_of (orm.insert (new none) posts)) (orm.insert (new none) posts)
          (λ k. count_if-insert orm (is_repost_of k) (new none) posts ∙ omega arith)
          (inserted_shares none);
  }
  IsWellFormed-posted (some i) = record {
    ids =
        HasUniqueIds-update orm _ (orm.insert (new (some i)) posts) _ more_shares (λ p. refl)
          (HasUniqueIds-insert orm _ posts (new (some i)) fresh.no_post wf.ids);
    likes_table = wf.likes_table;
    likes_counted =
        Tallied-update orm (λ (p : Post). p.id) (λ p. p.likes_count)
          (orm.insert (new (some i)) posts) (likes_of likes) more_shares (λ p. refl)
          (λ p. p.id == i) (λ p. refl) (inserted_likes (some i));
    shares_counted =
        Tallied-up orm (λ (p : Post). p.id) (shares_with lost) (orm.insert (new (some i)) posts)
          (reposts_of posts) more_shares (λ p. refl)
          (reposts_of (orm.update (λ p. p.id == i) more_shares (orm.insert (new (some i)) posts))) i
          (λ p. +ℤ_swap p.shares_count 1 (lost p.id))
          (λ k.
            count_if-update_same orm (is_repost_of k) (λ p. p.id == i) more_shares
              (orm.insert (new (some i)) posts) (λ p. refl)
            ∙ count_if-insert orm (is_repost_of k) (new (some i)) posts
            ∙ ap (λ (b : Bool). bit b + reposts_of posts k) (and_true (i == k)))
          (inserted_shares (some i));
  }
    where
      and_true : (b : Bool) → (b && true) ≡ b
      and_true b = ground arith

  -- A repost that its original does not count.
  pub IsWellFormed-uncounted :
      (o : Option ℕ) → IsWellFormed (λ k. lost k + bit (is_id o k)) (orm.insert (new o) posts) likes
  IsWellFormed-uncounted o = record {
    ids = HasUniqueIds-insert orm _ posts (new o) fresh.no_post wf.ids;
    likes_table = wf.likes_table;
    likes_counted = inserted_likes o;
    shares_counted = λ p m.
        +ℤ_assoc p.shares_count (lost p.id) (bit (is_id o p.id))
        ∙ ap (λ (s : ℤ). s +ℤ pos (bit (is_id o p.id))) (inserted_shares o p m)
        ∙ +ℤ-pos (reposts_of posts p.id) (bit (is_id o p.id))
        ∙ ap pos (
            omega (
              arith,
              count_if-insert orm (is_repost_of p.id) (new o) posts,
              ap bit (live (is_id o p.id)),
            ));
  }
    where
      live : (b : Bool) → (b && true) ≡ b
      live b = ground arith

-- A post is hidden, and the original, if it has one, counts it no more.
abbrev pub removed : (now : ℕ) → Post → Post
removed now p = record p { deleted_at = some now }

abbrev pub fewer_shares : Post → Post
fewer_shares p = record p { shares_count = p.shares_count -ℤ pos 1 }

abbrev pub unposted : Orm → (now id : ℕ) → Option ℕ → List Post → List Post
unposted orm now id original posts =
    orm.update (λ p. p.id == id) (removed now)
      (elim original [ none ↦ posts | some o ↦ orm.update (λ p. p.id == o) fewer_shares posts ])

module _ (orm : Orm) (posts : List Post) (likes : List PostLike) {lost : ℕ → ℕ}
    (wf : IsWellFormed lost posts likes) (now id : ℕ) {p : Post}
    (found : orm.find_one (live_post id) posts ≡ some p) where
  here : live_post id p ≡ true
  here = (orm.find_one-some _ posts found).1

  same_id : p.id ≡ id
  same_id = of_live here
    where
      of_live : live_post id p ≡ true → p.id ≡ id
      of_live h = ground arith

  -- Hiding the post takes it from the reposts of its original.
  fewer_reposts :
      (k : ℕ)
      → reposts_of (orm.update (λ x. x.id == id) (removed now) posts) k + bit (is_repost_of k p)
        ≡ reposts_of posts k
  fewer_reposts k =
      count_if-hide orm (λ (x : Post). x.id) posts (live_post id) (is_repost_of k) (removed now) id
        wf.ids found same_id (λ x. and_false (is_id x.original_post_id k))
    where
      and_false : (b : Bool) → (b && false) ≡ false
      and_false b = ground arith

  live_repost : (k : ℕ) → is_repost_of k p ≡ is_id p.original_post_id k
  live_repost k = of_live here
    where
      of_live :
          live_post id p ≡ true
          → (is_id p.original_post_id k && is_none p.deleted_at) ≡ is_id p.original_post_id k
      of_live h = ground arith

  module _ (o : ℕ) where
    abbrev uncounted : List Post
    uncounted = orm.update (λ x. x.id == o) fewer_shares posts

    abbrev after : List Post
    after = orm.update (λ x. x.id == id) (removed now) uncounted

    -- The counter of the original does not matter to what is hidden.
    same_reposts :
        (k : ℕ)
        → reposts_of after k ≡ reposts_of (orm.update (λ x. x.id == id) (removed now) posts) k
    same_reposts k =
        count_if-update orm (is_repost_of k) (λ x. x.id == id) (removed now) uncounted
        ∙ count_if-update_same orm (λ x. is_repost_of k (if x.id == id then removed now x else x))
            (λ x. x.id == o) fewer_shares posts
            (λ x. elim (Bool-cases (x.id == id)) [ inl t ↦ rw t refl | inr f ↦ rw f refl ])
        ∙ sym (count_if-update orm (is_repost_of k) (λ x. x.id == id) (removed now) posts)

    unposted_some : p.original_post_id ≡ some o → IsWellFormed lost after likes
    unposted_some original = record {
      ids =
          HasUniqueIds-update orm (λ (x : Post). x.id) uncounted _ (removed now) (λ x. refl)
            (HasUniqueIds-update orm (λ (x : Post). x.id) posts _ fewer_shares (λ x. refl) wf.ids);
      likes_table = wf.likes_table;
      likes_counted =
          Tallied-update orm (λ (x : Post). x.id) (λ x. x.likes_count) uncounted (likes_of likes)
            (removed now) (λ x. refl) (λ x. x.id == id) (λ x. refl)
            (Tallied-update orm (λ (x : Post). x.id) (λ x. x.likes_count) posts (likes_of likes)
              fewer_shares (λ x. refl) (λ x. x.id == o) (λ x. refl) wf.likes_counted);
      shares_counted =
          Tallied-update orm (λ (x : Post). x.id) (shares_with lost) uncounted (reposts_of after)
            (removed now) (λ x. refl) (λ x. x.id == id) (λ x. refl)
            (Tallied-down orm (λ (x : Post). x.id) (shares_with lost) posts (reposts_of posts)
              fewer_shares (λ x. refl) (reposts_of after) o
              (λ x. -ℤ_swap x.shares_count 1 (lost x.id))
              (λ k.
                ap (λ (n : ℕ). n + bit (o == k)) (same_reposts k)
                ∙ ap
                    (λ (b : Bool).
                      reposts_of (orm.update (λ x. x.id == id) (removed now) posts) k + bit b)
                    (sym (live_repost k ∙ ap (λ (i : Option ℕ). is_id i k) original))
                ∙ fewer_reposts k)
              wf.shares_counted);
    }

  pub IsWellFormed-unposted : IsWellFormed lost (unposted orm now id p.original_post_id posts) likes
  IsWellFormed-unposted = elim (Option-cases p.original_post_id) [
    | inr (o, original) ↦ rw original (unposted_some o original)
    | inl original ↦ rw original (record {
      ids = HasUniqueIds-update orm (λ (x : Post). x.id) posts _ (removed now) (λ x. refl) wf.ids;
      likes_table = wf.likes_table;
      likes_counted =
          Tallied-update orm (λ (x : Post). x.id) (λ x. x.likes_count) posts (likes_of likes)
            (removed now) (λ x. refl) (λ x. x.id == id) (λ x. refl) wf.likes_counted;
      shares_counted =
          Tallied-congr (λ (x : Post). x.id) (shares_with lost) (reposts_of posts)
            (reposts_of (orm.update (λ x. x.id == id) (removed now) posts))
            (orm.update (λ x. x.id == id) (removed now) posts) (λ k. no_repost k original)
            (Tallied-update orm (λ (x : Post). x.id) (shares_with lost) posts (reposts_of posts)
              (removed now) (λ x. refl) (λ x. x.id == id) (λ x. refl) wf.shares_counted);
    })
  ]
    where
      no_repost :
          (k : ℕ)
          → p.original_post_id ≡ none
          → reposts_of (orm.update (λ x. x.id == id) (removed now) posts) k ≡ reposts_of posts k
      no_repost k original = omega (
        arith,
        fewer_reposts k,
        ap bit (live_repost k ∙ ap (λ (i : Option ℕ). is_id i k) original),
      )
