-- ===== src/Comments/Editing.antt =====
-- `update` and `delete`: who may call them, what they write, and what they keep.
use rideway_api.Prelude.{
  ℕ, ◌≤◌, ◌≡◌, refl, ◌∙◌, inl, inr, Bool, true, false, ◌&&◌, Option, none, some, ◌==◌, ==_true,
  eq_of_==, arith, Option-cases, count_if, String, String_set,
}
use rideway_api.Database.{Orm, Every}
use rideway_api.Database.Rows.{
  count_if-update_same, count_if-find_one, count_if-find_one_none, HasUniqueIds-update,
  Every-find_one, Every-update,
}
use rideway_api.Action.{done, raised, not_found, forbidden, HttpError}
use rideway_api.Comments.{Comment, Db, is_live, update, delete, find_one, mark_liked}
use rideway_api.Comments.Invariant.{
  IsWellFormed, KeepsPlace, RepliesCounted-update, HasTwoLevels-update, LikesExist-update,
  LikesCounted-update,
}

abbrev pub edit : String → Comment → Comment
edit content c = record c { content = content; is_edited = true }

edit-KeepsPlace : (content : String) → KeepsPlace (edit content)
edit-KeepsPlace content = record { id = λ c. refl; parent_id = λ c. refl }

-- Whether a comment was found and is the user's, and what is thrown if not.
abbrev pub is_own : ℕ → Option Comment → Bool
is_own user_id none = false
is_own user_id (some c) = c.user_id == user_id

pub is_own-some :
    (user_id : ℕ) (o : Option Comment)
    → is_own user_id o ≡ true
    → (c : Comment) × (o ≡ some c) × (c.user_id ≡ user_id)
is_own-some user_id none h = cc
is_own-some user_id (some c) h = (c, refl, eq_of_== _ _ h)

abbrev pub refusal : String → Option Comment → HttpError
refusal message none = not_found "Comment not found"
refusal message (some c) = forbidden message

module _ (orm : Orm) (id user_id : ℕ) (db : Db) where
  abbrev pub live_at : Comment → Bool
  live_at c = c.id == id && is_live c

  abbrev pub found_at : Option Comment
  found_at = orm.find_one live_at db.comments

  -- Only a live comment's own author edits or deletes it. Anybody else gets the exception "Comment
  -- not found" or the one that names the right that is missing, and nothing is written.
  pub update_delete_refused :
      (now : ℕ) (content : String)
      → is_own user_id found_at ≡ false
      → (update orm id user_id content db
          ≡ raised (refusal "You can only edit your own comments" found_at) db)
        × (delete orm now id user_id db
            ≡ raised (refusal "You can only delete your own comments" found_at) db)
  unfolding update delete find_one
  update_delete_refused now content h = (ground arith, ground arith)

  abbrev pub edited : String → Db
  edited content = record db { comments = orm.update (λ c. c.id == id) (edit content) db.comments }

  edited-IsWellFormed : (content : String) → IsWellFormed db → IsWellFormed (edited content)
  edited-IsWellFormed content wf = record {
    comment_ids = HasUniqueIds-update orm _ db.comments _ (edit content) (λ c. refl) wf.comment_ids;
    likes_table = wf.likes_table;
    likes_exist =
        LikesExist-update orm _ (edit content) (edit-KeepsPlace content) db.comments db.likes
          wf.likes_exist;
    likes_counted =
        LikesCounted-update orm _ (edit content) (edit-KeepsPlace content) db.comments db.likes
          (λ c. refl) wf.likes_counted;
    replies_counted =
        RepliesCounted-update orm _ (edit content) (edit-KeepsPlace content) db.comments (λ c. refl)
          (λ c. refl) wf.replies_counted;
    two_levels =
        HasTwoLevels-update orm _ (edit content) (edit-KeepsPlace content) db.comments
          wf.two_levels;
  }

  update-eq :
      (content : String) {c : Comment}
      → found_at ≡ some c
      → c.user_id ≡ user_id
      → update orm id user_id content db ≡ find_one orm id (some user_id) (edited content)
  unfolding update find_one
  update-eq content found own = ground (arith, found, own)

  live_at-id : (c : Comment) → live_at c ≡ true → c.id ≡ id
  live_at-id c h = ground arith

  edited-there :
      (content : String) {c : Comment}
      → found_at ≡ some c
      → 1 ≤ count_if live_at (edited content).comments
  edited-there content found =
      rw (count_if-update_same orm live_at (λ c. c.id == id) (edit content) db.comments (λ c. refl))
        (count_if-find_one orm live_at live_at db.comments found
          (orm.find_one-some live_at db.comments found).1)

  -- The author's `update` of a live comment succeeds: it returns the comment with the new text and
  -- the mark of an edit, and keeps the invariant.
  pub update_lem :
      (content : String) {c : Comment}
      → IsWellFormed db
      → found_at ≡ some c
      → c.user_id ≡ user_id
      → (comment : Comment) × (db' : Db) × (update orm id user_id content db ≡ done comment db')
        × (comment.id ≡ id)
        × (comment.content ≡ content)
        × (comment.is_edited ≡ true)
        × IsWellFormed db'
  unfolding find_one
  update_lem content wf found own =
      elim (Option-cases (orm.find_one live_at (edited content).comments)) [
        | inl missing ↦ absurd (
            omega (
              arith,
              edited-there content found,
              count_if-find_one_none orm live_at (edited content).comments missing,
            ))
        | inr (c', found') ↦
            let same : c'.id ≡ id =
              live_at-id c' (orm.find_one-some live_at (edited content).comments found').1 in
            let (text, mark) =
              Every-find_one orm live_at (edited content).comments found' (new_text content) same in
            (
              mark_liked orm (some user_id) db.likes c',
              edited content,
              update-eq content found own ∙ ground (arith, found'),
              same,
              text,
              mark,
              edited-IsWellFormed content wf,
            )
      ]
    where
      new_text :
          (content : String)
          → Every
              (λ (c : Comment). c.id ≡ id → (c.content ≡ content) × (c.is_edited ≡ true))
              (edited content).comments
      new_text content =
          Every-update orm {P = λ c. Unit {0}} (λ c. c.id == id) (edit content) db.comments
            (λ c. hlevel String_set) (λ c e _ _. (refl, refl))
            (λ c e _ same. absurd (let t : (c.id == id) ≡ true = ==_true c.id id same in cc))
            (λ c m. tt)
