-- ===== src/Posts/Reading.antt =====
-- Who may read a post, and what its author may do with a private one.
use rideway_api.Prelude.{
  ℕ, ◌≡◌, ◌⊎◌, refl, inl, inr, Bool, true, false, not, ◌&&◌, ◌||◌, Option, none, some, is_some,
  is_id, arith, Bool-cases, Option-cases, String,
}
use rideway_api.Database.{Orm}
use rideway_api.Action.{done, raised, not_found, forbidden}
use rideway_api.Posts.{
  PostVisibility, everyone, followers, private_post, Post, Db, live_post, is_private,
  is_for_followers, is_for_everyone, is_hidden_private, is_hidden_from_others, follows_author,
  marked, find_one,
}
use rideway_api.Posts.Writing.{Texts, NewIds, UpdatePostDto, Uploads, update, delete}

of_private :
    (v : PostVisibility) (own follows anonymous : Bool)
    → (is_private v && not own) ≡ true
    → ((is_for_everyone v || own || (is_for_followers v && (follows || anonymous))) ≡ false)
      × (is_private v ≡ true)
of_private everyone own follows anonymous h = absurd (ground (arith, h))
of_private followers own follows anonymous h = absurd (ground (arith, h))
of_private private_post own follows anonymous h = (ground (arith, h), refl)

of_followers :
    (v : PostVisibility) (logged_in follows own : Bool)
    → (is_for_followers v && logged_in && not follows && not own) ≡ true
    → ((is_for_everyone v || own || (is_for_followers v && (follows || not logged_in))) ≡ false)
      × (is_for_followers v ≡ true)
of_followers everyone logged_in follows own h = absurd (ground (arith, h))
of_followers followers logged_in follows own h = (ground (arith, h), refl)
of_followers private_post logged_in follows own h = absurd (ground (arith, h))

of_open :
    (v : PostVisibility) (logged_in follows own : Bool)
    → (is_private v && not own) ≡ false
    → (is_for_followers v && logged_in && not follows && not own) ≡ false
    → (is_for_everyone v || own || (is_for_followers v && (follows || not logged_in))) ≡ true
of_open everyone logged_in follows own h k = refl
of_open followers logged_in follows own h k = ground (arith, k)
of_open private_post logged_in follows own h k = ground (arith, h)

module _ (orm : Orm) (id : ℕ) (current : Option ℕ) (db : Db) where
  -- The reader is let in: the post is for everyone, is the reader's own, or is for followers, of
  -- whom the reader is one or who are not asked for.
  abbrev pub may_read : Post → Bool
  may_read p =
      is_for_everyone p.visibility
      || is_id current p.user_id
      || (is_for_followers p.visibility
          && (follows_author orm current p db.follows || not (is_some current)))

  -- `findOne` throws "Post not found" exactly where the post is missing or deleted. Of a post that is
  -- there it answers the post, marked for the reader, where it is for everyone, or the reader's own,
  -- or for followers and the reader follows the author or is not logged in; else it throws that the
  -- post is private or for followers only. It changes nothing.
  pub find_one_lem :
      ((orm.find_one (live_post id) db.posts ≡ none)
        × (find_one orm id current db ≡ raised (not_found "Post not found") db))
      ⊎ ((p : Post) × (orm.find_one (live_post id) db.posts ≡ some p)
          × (((may_read p ≡ true)
                × (find_one orm id current db ≡ done (marked orm current db p) db))
              ⊎ ((may_read p ≡ false)
                  × (is_private p.visibility ≡ true)
                  × (find_one orm id current db ≡ raised (forbidden "This post is private") db))
              ⊎ ((may_read p ≡ false)
                  × (is_for_followers p.visibility ≡ true)
                  × (find_one orm id current db
                      ≡ raised (forbidden "This post is for followers only") db))))
  unfolding find_one
  find_one_lem = elim (Option-cases (orm.find_one (live_post id) db.posts)) [
    | inl missing ↦ inl (missing, ground (arith, missing))
    | inr (p, found) ↦ inr (
      p,
      found,
      elim (Bool-cases (is_hidden_private current p)) [
        | inl private ↦ inr (
            inl (
              (of_private p.visibility (is_id current p.user_id)
                  (follows_author orm current p db.follows) (not (is_some current)) private).0,
              (of_private p.visibility (is_id current p.user_id)
                  (follows_author orm current p db.follows) (not (is_some current)) private).1,
              ground (arith, found, private),
            ))
        | inr open_post ↦ elim (Bool-cases (is_hidden_from_others orm current p db.follows)) [
          | inl hidden ↦ inr (
              inr (
                (of_followers p.visibility (is_some current)
                    (follows_author orm current p db.follows) (is_id current p.user_id) hidden).0,
                (of_followers p.visibility (is_some current)
                    (follows_author orm current p db.follows) (is_id current p.user_id) hidden).1,
                ground (arith, found, open_post, hidden),
              ))
          | inr shown ↦ inl (
            of_open p.visibility (is_some current) (follows_author orm current p db.follows)
                (is_id current p.user_id) open_post shown,
            ground (arith, found, open_post, shown),
          )
        ]
      ],
    )
  ]

-- A private post that is there can be neither edited nor deleted, by its author or by anybody else:
-- `update` and `delete` read it without a reader, throw that the post is private, and change nothing.
pub private_post_lem :
    (orm : Orm) (goes_through : String → Bool) (texts : Texts) (ids : NewIds) (now id user_id : ℕ)
    (dto : UpdatePostDto) (uploads : Uploads) (db : Db) {p : Post}
    → orm.find_one (live_post id) db.posts ≡ some p
    → is_private p.visibility ≡ true
    → (update orm goes_through texts ids now id user_id dto uploads db
        ≡ raised (forbidden "This post is private") db)
      × (delete orm now id user_id db ≡ raised (forbidden "This post is private") db)
unfolding update delete find_one
private_post_lem orm goes_through texts ids now id user_id dto uploads db found private =
    (ground (arith, found, private), ground (arith, found, private))
