-- ===== src/Comments/Nesting.antt =====
-- `create`, `update` and `delete` keep the invariant: comments stay two levels deep, and each
-- counter of replies stays the number of replies that are not deleted.
use rideway_api.Prelude.{
  ℕ, ◌+◌, ◌≡◌, refl, sym, ap, ◌∙◌, Bool, true, false, ◌&&◌, Option, none, some, List, ◌==◌, ==_true,
  is_id, is_none, ℤ, pos, ℤ_set, +ℤ-pos, -ℤ-pos, arith, if◌then◌else◌, bit, not, count_if,
  count_if_congr, count_if_split,
}
use rideway_api.Database.{Orm, Every, HasUniqueIds}
use rideway_api.Database.Rows.{
  count_if-insert, count_if-update, count_if-at_found, Every-insert, Every-find_one, Every-update,
}
use rideway_api.Comments.{
  Comment, Db, is_live, add_replies, drop_replies, soft_delete, on_parent, flatten,
}
use rideway_api.Comments.Invariant.{
  KeepsPlace, replies_of-update, RepliesCounted, HasTwoLevels, likes_of, replies_of,
}

-- The id that the database generates for a new comment is one that no row mentions.
pub record IsFresh (id : ℕ) (db : Db) : Type 0 where
  pub no_comment : count_if (λ (c : Comment). c.id == id) db.comments ≡ 0
  pub no_reply : count_if (λ (c : Comment). is_id c.parent_id id) db.comments ≡ 0
  pub no_like : likes_of id db.likes ≡ 0

-- A comment that may be replied to: it hangs under none.
abbrev pub IsRoot : ℕ → List Comment → Type 0
IsRoot id comments = count_if (λ (r : Comment). is_none r.parent_id && r.id == id) comments ≡ 1

-- What `actual_parent` finds is a root.
abbrev pub HasRoot : Option ℕ → List Comment → Type 0
HasRoot none comments = Unit
HasRoot (some id) comments = IsRoot id comments

pub flatten-HasRoot :
    (orm : Orm) (id : ℕ) (p : Comment → Bool) (comments : List Comment) {c : Comment}
    → HasUniqueIds (λ (x : Comment). x.id) comments
    → HasTwoLevels comments
    → orm.find_one p comments ≡ some c
    → c.id ≡ id
    → HasRoot (flatten id c) comments
flatten-HasRoot orm id p comments {c} unique levels found at = go c.parent_id refl
  where
    go :
        (o : Option ℕ)
        → c.parent_id ≡ o
        → HasRoot (elim o [ none ↦ some id | some root ↦ some root ]) comments
    go none e =
        count_if-at_found orm p (λ x. x.id == id) (λ x. is_none x.parent_id) comments found
          (==_true _ _ at) (unique id)
        ∙ ap bit (ap is_none e)
    go (some root) e = Every-find_one orm p comments found levels root e

pub add_replies-KeepsPlace : (n : ℤ) → KeepsPlace (add_replies n)
add_replies-KeepsPlace n = record { id = λ c. refl; parent_id = λ c. refl }

pub drop_replies-KeepsPlace : (n : ℤ) → KeepsPlace (drop_replies n)
drop_replies-KeepsPlace n = record { id = λ c. refl; parent_id = λ c. refl }

-- Whether a comment hangs under the one with an id.
hangs_under :
    {o : Option ℕ} (parent_id : Option ℕ) (id : ℕ)
    → parent_id ≡ o
    → bit (is_id parent_id id) ≡ bit (is_id o id)
hangs_under parent_id id e = ap (λ o. bit (is_id o id)) e

bit_same : (p id : ℕ) → (id == p) ≡ true → bit (p == id) ≡ 1
bit_same p id e = ground arith

bit_other : (p id : ℕ) → (id == p) ≡ false → bit (p == id) ≡ 0
bit_other p id e = ground arith

&&_true : (b : Bool) → (b && true) ≡ b
&&_true true = refl
&&_true false = refl

-- A row comes in, or changes from live to deleted: its parent's counter follows.
module _ (orm : Orm) (before after : List Comment) (parent_id : ℕ) where
  up :
      ((id : ℕ) → replies_of id after ≡ bit (parent_id == id) + replies_of id before)
      → Every (λ c. c.replies_count ≡ pos (replies_of c.id before)) after
      → RepliesCounted (orm.update (λ c. c.id == parent_id) (add_replies (pos 1)) after)
  up more =
      let same : (id : ℕ)
          → replies_of id (orm.update (λ c. c.id == parent_id) (add_replies (pos 1)) after)
            ≡ replies_of id after =
        replies_of-update orm _ _ (add_replies-KeepsPlace (pos 1)) after (λ c. refl) in
      Every-update orm (λ c. c.id == parent_id) (add_replies (pos 1)) after (λ x. ℤ_set _ _)
        (λ x e k.
          rw (k, +ℤ-pos) (ap pos (omega (arith, same x.id, more x.id, bit_same parent_id x.id e))))
        (λ x e k. rw k (ap pos (omega (arith, same x.id, more x.id, bit_other parent_id x.id e))))

  down :
      ((id : ℕ) → replies_of id after + bit (parent_id == id) ≡ replies_of id before)
      → Every (λ c. c.replies_count ≡ pos (replies_of c.id before)) after
      → RepliesCounted (orm.update (λ c. c.id == parent_id) (drop_replies (pos 1)) after)
  down less =
      let same : (id : ℕ)
          → replies_of id (orm.update (λ c. c.id == parent_id) (drop_replies (pos 1)) after)
            ≡ replies_of id after =
        replies_of-update orm _ _ (drop_replies-KeepsPlace (pos 1)) after (λ c. refl) in
      Every-update orm (λ c. c.id == parent_id) (drop_replies (pos 1)) after (λ x. ℤ_set _ _)
        (λ x e k. rw k (
          -ℤ-pos _ 1 (omega (arith, less x.id, bit_same parent_id x.id e))
          ∙ ap pos (omega (arith, same x.id, less x.id, bit_same parent_id x.id e))))
        (λ x e k. rw k (ap pos (omega (arith, same x.id, less x.id, bit_other parent_id x.id e))))

module _ (orm : Orm) (n : Comment) (comments : List Comment) (live : is_live n ≡ true) where
  replies_of-insert :
      {o : Option ℕ} (id : ℕ)
      → n.parent_id ≡ o
      → replies_of id (orm.insert n comments) ≡ bit (is_id o id) + replies_of id comments
  replies_of-insert id at = omega (
    arith,
    count_if-insert orm (λ c. is_id c.parent_id id && is_live c) n comments,
    ap (λ b. bit (is_id n.parent_id id && b)) live,
    ap bit (&&_true (is_id n.parent_id id)),
    hangs_under n.parent_id id at,
  )

  pub RepliesCounted-insert :
      (parent_id : Option ℕ)
      → n.parent_id ≡ parent_id
      → n.replies_count ≡ pos 0
      → replies_of n.id comments ≡ 0
      → RepliesCounted comments
      → RepliesCounted (on_parent orm (add_replies (pos 1)) parent_id (orm.insert n comments))
  RepliesCounted-insert parent_id at zero_count no_reply h = go parent_id at
    where
      old : Every (λ c. c.replies_count ≡ pos (replies_of c.id comments)) (orm.insert n comments)
      old =
          Every-insert orm {P = λ c. c.replies_count ≡ pos (replies_of c.id comments)} n comments
            (λ x. ℤ_set _ _) (zero_count ∙ ap pos (sym no_reply)) h

      go :
          (o : Option ℕ)
          → n.parent_id ≡ o
          → RepliesCounted (on_parent orm (add_replies (pos 1)) o (orm.insert n comments))
      go none e = λ x m. old x m ∙ ap pos (omega (arith, replies_of-insert x.id e))
      go (some p) e = up orm comments (orm.insert n comments) p (λ id. replies_of-insert id e) old

-- A live row that was found, deleted.
module _ (orm : Orm) (now id : ℕ) (comments : List Comment) {c : Comment}
    (unique : HasUniqueIds (λ (x : Comment). x.id) comments)
    (found : orm.find_one (λ x. x.id == id && is_live x) comments ≡ some c) where
  -- A count of live rows goes down by the row, if it counted it.
  pub count_if-soft_delete :
      (r : Comment → Bool)
      → count_if (λ x. r x && is_live x) (orm.update (λ x. x.id == id) (soft_delete now) comments)
          + bit (r c)
        ≡ count_if (λ x. r x && is_live x) comments
  count_if-soft_delete r =
      let p : Comment → Bool = λ x. r x && is_live x in
      let test : (c.id == id && is_live c) ≡ true = (orm.find_one-some _ comments found).1 in
      omega (
        arith,
        count_if-update orm p (λ x. x.id == id) (soft_delete now) comments,
        count_if_congr (λ x. p (if x.id == id then soft_delete now x else x))
            (λ x. p x && not (x.id == id)) comments (λ x. ground arith),
        count_if_split p (λ x. x.id == id) comments,
        count_if-at_found orm _ (λ x. x.id == id) p comments found (ground arith) (unique id),
        counted test,
      )
    where
      counted : (c.id == id && is_live c) ≡ true → bit (r c && is_live c) ≡ bit (r c)
      counted test = ground arith

  replies_of-soft_delete :
      {o : Option ℕ} (k : ℕ)
      → c.parent_id ≡ o
      → replies_of k (orm.update (λ x. x.id == id) (soft_delete now) comments) + bit (is_id o k)
        ≡ replies_of k comments
  replies_of-soft_delete k at =
      omega (arith, count_if-soft_delete (λ x. is_id x.parent_id k), hangs_under c.parent_id k at)

  pub RepliesCounted-soft_delete :
      RepliesCounted comments
      → RepliesCounted (
          on_parent orm
            (drop_replies (pos 1))
            c.parent_id
            (orm.update (λ x. x.id == id) (soft_delete now) comments))
  RepliesCounted-soft_delete h = go c.parent_id refl
    where
      old :
          Every
            (λ x. x.replies_count ≡ pos (replies_of x.id comments))
            (orm.update (λ x. x.id == id) (soft_delete now) comments)
      old =
          Every-update orm (λ x. x.id == id) (soft_delete now) comments (λ x. ℤ_set _ _)
            (λ x _ e. e) (λ x _ e. e) h

      go :
          (o : Option ℕ)
          → c.parent_id ≡ o
          → RepliesCounted (
              on_parent orm
                (drop_replies (pos 1))
                o
                (orm.update (λ x. x.id == id) (soft_delete now) comments))
      go none e = λ x m. old x m ∙ ap pos (omega (arith, replies_of-soft_delete x.id e))
      go (some p) e = down orm comments _ p (λ k. replies_of-soft_delete k e) old
