-- ===== src/Services/Editing.antt =====
-- `updateReview` keeps the invariant, with a new rating and without one.
use mathlib.Core.Path.{subst}
use rideway_api.Prelude.{
  ℕ, ◌≡◌, refl, sym, ◌∙◌, inl, inr, Bool, none, some, if◌then◌else◌, List, ◌==◌, arith, Bool-cases,
  Option-cases, Perm-sum_of, sum_of-map, sum_of_congr,
}
use rideway_api.Database.{Orm}
use rideway_api.Database.Rows.{count_if-update_same}
use rideway_api.Action.{Outcome}
use rideway_api.Services.{
  Service, ServiceReview, Db, UpdateReviewDto, edit_review, reviews_of, ratings_of, find_review,
  update_review,
}
use rideway_api.Services.Ratings.{IsWellFormed, IsRated, AgreeBeside-update}
use rideway_api.Services.Reviewing.{rerated, rerated-IsWellFormed, reviews-edit}
use rideway_api.Services.Calls.{Leaves, unchanged, find_review-state}

module _ (orm : Orm) (q : ServiceReview → Bool) (dto : UpdateReviewDto)
    (reviews : List ServiceReview) (no_rating : dto.rating ≡ none) where
  same_total :
      (k : ℕ) → ratings_of (orm.update q (edit_review dto) reviews) k ≡ ratings_of reviews k
  same_total k =
      Perm-sum_of (λ x. if x.service_id == k then x.rating else 0)
        (orm.update-perm q (edit_review dto) reviews)
      ∙ sum_of-map (λ x. if x.service_id == k then x.rating else 0)
          (λ x. if q x then edit_review dto x else x) reviews
      ∙ sum_of_congr _ _ reviews
          (λ x _. elim (Bool-cases (q x)) [ inl t ↦ rw (t, no_rating) refl | inr t ↦ rw t refl ])

  -- Without a new rating the ratings of the services are still right.
  IsRated-edit :
      (avg : (total count : ℕ) → ℕ) (services : List Service)
      → IsRated avg reviews services
      → IsRated avg (orm.update q (edit_review dto) reviews) services
  IsRated-edit avg services h s m =
      let same_count : reviews_of (orm.update q (edit_review dto) reviews) s.id
          ≡ reviews_of reviews s.id =
        count_if-update_same orm _ q (edit_review dto) reviews (λ r. refl) in
      rw (same_count, same_total s.id) (h s m)

module _ (orm : Orm) (avg : (total count : ℕ) → ℕ) (db : Db) (wf : IsWellFormed avg db)
    (id user_id : ℕ) (dto : UpdateReviewDto) where
  abbrev call : Outcome Db ServiceReview
  call = update_review orm avg id user_id dto db

  abbrev edited : List ServiceReview
  edited = orm.update (λ r. r.id == id) (edit_review dto) db.reviews

  commented-IsWellFormed : dto.rating ≡ none → IsWellFormed avg (record db { reviews = edited })
  commented-IsWellFormed no_rating =
      let (table, no_own) = reviews-edit orm avg db wf (λ r. r.id == id) dto in
      record {
        service_ids = wf.service_ids;
        reviews = table;
        rated =
            IsRated-edit orm (λ r. r.id == id) dto db.reviews no_rating avg db.services wf.rated;
        no_own = no_own;
      }

  read_back :
      (after : Db)
      → IsWellFormed avg after
      → call ≡ find_review orm avg id (some user_id) after
      → Leaves orm avg call
  read_back after wf' e =
      subst (Leaves orm avg) (sym e)
        (subst (IsWellFormed avg) (sym (find_review-state orm avg id (some user_id) after)) wf')

  pub update_review-IsWellFormed : Leaves orm avg call
  unfolding update_review find_review
  update_review-IsWellFormed = elim (Option-cases (orm.find_one (λ r. r.id == id) db.reviews)) [
    | inl missing ↦ unchanged orm avg db wf call (ground (arith, missing))
    | inr (r, found) ↦ elim (Bool-cases (r.user_id == user_id)) [
      | inr other ↦ unchanged orm avg db wf call (ground (arith, found, other))
      | inl own ↦ elim (Option-cases dto.rating) [
        | inl no_rating ↦
            read_back (record db { reviews = edited }) (commented-IsWellFormed no_rating)
              (ground (arith, found, own, no_rating))
        | inr (n, rating) ↦
            let (table, no_own) = reviews-edit orm avg db wf (λ r. r.id == id) dto in
            read_back (rerated orm avg db wf r.service_id edited)
              (rerated-IsWellFormed orm avg db wf r.service_id edited table
                (AgreeBeside-update orm db.reviews id wf.reviews.ids found (edit_review dto)
                  (λ x. refl))
                no_own)
              (ground (arith, found, own, rating))
      ]
    ]
  ]
