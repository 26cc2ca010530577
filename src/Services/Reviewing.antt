-- ===== src/Services/Reviewing.antt =====
-- The calls of the service keep the invariant, whether they succeed or throw.
use mathlib.Core.HLevel.{×_prop}
use native.Mathlib.Nat.{ℕ_set}
use rideway_api.Prelude.{
  ℕ, ◌≤◌, ◌≡◌, refl, ap, ◌∙◌, inl, inr, Bool, true, false, not, ◌&&◌, some, List, ◌==◌, arith, bit,
  count_if, Bool-cases, count_if-pos_of_mem, count_if_mono,
}
use rideway_api.Database.{Orm, Every}
use rideway_api.Database.Rows.{
  Every-update, HasUniqueIds-update, HasUniqueIds-delete, count_if-at_found, count_if-insert,
  count_if-delete, count_if-update_same,
}
use rideway_api.Services.{
  Service, ServiceReview, Db, UpdateReviewDto, is_review_of, live_service, edit_review, rated,
  update_service_rating,
}
use rideway_api.Services.Ratings.{
  IsWellFormed, IsReviewTable, HasNoOwnReview, AgreeBeside, IsRated-update_service_rating,
}

module _ (orm : Orm) (avg : (total count : ℕ) → ℕ) (db : Db) (wf : IsWellFormed avg db) where
  -- The tables once the reviews have changed and the rating is computed again.
  abbrev pub rerated : (service_id : ℕ) → List ServiceReview → Db
  rerated service_id reviews =
      update_service_rating orm avg service_id (record db { reviews = reviews })

  pub rerated-IsWellFormed :
      (service_id : ℕ) (reviews : List ServiceReview)
      → IsReviewTable reviews
      → AgreeBeside service_id db.reviews reviews
      → HasNoOwnReview reviews db.services
      → IsWellFormed avg (rerated service_id reviews)
  rerated-IsWellFormed service_id reviews table agree no_own = record {
    service_ids =
        HasUniqueIds-update orm _ db.services _ (rated avg reviews service_id) (λ x. refl)
          wf.service_ids;
    reviews = table;
    rated =
        IsRated-update_service_rating orm avg service_id db.reviews reviews db.services agree
          wf.rated;
    no_own =
        Every-update orm _ (rated avg reviews service_id) db.services (λ x. ℕ_set _ _) (λ x _ h. h)
          (λ x _ h. h) no_own;
  }

  -- An edit of services that moves neither their owner nor what their reviews say.
  pub edited-IsWellFormed :
      (q : Service → Bool) (f : Service → Service)
      → ((x : Service) → (f x).id ≡ x.id)
      → ((x : Service) → (f x).user_id ≡ x.user_id)
      → ((x : Service) → (f x).reviews_count ≡ x.reviews_count)
      → ((x : Service) → (f x).rating_avg ≡ x.rating_avg)
      → IsWellFormed avg (record db { services = orm.update q f db.services })
  edited-IsWellFormed q f same_id same_user same_count same_avg = record {
    service_ids = HasUniqueIds-update orm _ db.services q f same_id wf.service_ids;
    reviews = wf.reviews;
    rated =
        Every-update orm q f db.services (λ x. ×_prop (ℕ_set _ _) (ℕ_set _ _))
          (λ x _ h. rw (same_count, same_avg, same_id) h) (λ x _ h. h) wf.rated;
    no_own =
        Every-update orm q f db.services (λ x. ℕ_set _ _) (λ x _ h. rw (same_id, same_user) h)
          (λ x _ h. h) wf.no_own;
  }

  module _ (r : ServiceReview) {s : Service}
      (found : orm.find_one (live_service r.service_id) db.services ≡ some s)
      (other : (s.user_id == r.user_id) ≡ false) where
    -- Every row of the service that was found has its owner, who is not the author of the review.
    not_own : Every (λ x. is_review_of x.id x.user_id r ≡ false) db.services
    not_own x m = elim (Bool-cases (is_review_of x.id x.user_id r)) [
      | inr f ↦ f
      | inl own ↦ absurd (
          omega (
            arith,
            count_if-pos_of_mem (λ (y : Service). y.user_id == r.user_id && y.id == r.service_id)
                db.services m (at own),
            count_if-at_found orm (live_service r.service_id) (λ y. y.id == r.service_id)
                (λ y. y.user_id == r.user_id) db.services found
                (here (orm.find_one-some _ db.services found).1) (wf.service_ids r.service_id),
            ap bit other,
          ))
    ]
      where
        at :
            is_review_of x.id x.user_id r ≡ true
            → (x.user_id == r.user_id && x.id == r.service_id) ≡ true
        at h = ground arith

        here : live_service r.service_id s ≡ true → (s.id == r.service_id) ≡ true
        here h = ground arith

    pub HasNoOwnReview-insert : HasNoOwnReview (orm.insert r db.reviews) db.services
    HasNoOwnReview-insert x m = omega (
      arith,
      count_if-insert orm (is_review_of x.id x.user_id) r db.reviews,
      ap bit (not_own x m),
      wf.no_own x m,
    )

  -- Fewer reviews are fine.
  pub reviews-delete :
      (q : ServiceReview → Bool)
      → IsReviewTable (orm.delete q db.reviews)
        × HasNoOwnReview (orm.delete q db.reviews) db.services
  reviews-delete q = (
    record {
      ids = HasUniqueIds-delete orm _ db.reviews q wf.reviews.ids;
      once = λ t u. omega (arith, wf.reviews.once t u, fewer t u);
    },
    λ x m. omega (arith, wf.no_own x m, fewer x.id x.user_id),
  )
    where
      fewer :
          (t u : ℕ)
          → count_if (is_review_of t u) (orm.delete q db.reviews)
            ≤ count_if (is_review_of t u) db.reviews
      fewer t u = omega (
        arith,
        count_if-delete orm (is_review_of t u) q db.reviews,
        count_if_mono (λ r. is_review_of t u r && not (q r)) (is_review_of t u) db.reviews
            (λ r. ground arith),
      )

  -- So are other ratings and comments.
  pub reviews-edit :
      (q : ServiceReview → Bool) (dto : UpdateReviewDto)
      → IsReviewTable (orm.update q (edit_review dto) db.reviews)
        × HasNoOwnReview (orm.update q (edit_review dto) db.reviews) db.services
  reviews-edit q dto = (
    record {
      ids = HasUniqueIds-update orm _ db.reviews q (edit_review dto) (λ r. refl) wf.reviews.ids;
      once = λ t u. omega (
        arith,
        wf.reviews.once t u,
        count_if-update_same orm (is_review_of t u) q (edit_review dto) db.reviews (λ r. refl),
      );
    },
    λ x m.
        count_if-update_same orm (is_review_of x.id x.user_id) q (edit_review dto) db.reviews
          (λ r. refl)
        ∙ wf.no_own x m,
  )
