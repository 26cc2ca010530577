-- ===== src/Services/History.antt =====
-- Any sequence of calls on services and reviews, successful or throwing.
use rideway_api.Prelude.{ℕ, ◌≡◌, ◌==◌, count_if}
use rideway_api.Database.{Orm}
use rideway_api.Action.{state_of}
use rideway_api.Services.{
  ServiceReview, Db, CreateReviewDto, UpdateReviewDto, delete, verify, create_review, update_review,
  delete_review,
}
use rideway_api.Services.Ratings.{IsWellFormed}
use rideway_api.Services.Calls.{
  delete-IsWellFormed, verify-IsWellFormed, create_review-IsWellFormed, delete_review-IsWellFormed,
}
use rideway_api.Services.Editing.{update_review-IsWellFormed}

pub data Step (orm : Orm) (avg : (total count : ℕ) → ℕ) (db : Db) : Db → Type 0 where
  deleted : (now id user_id : ℕ) → Step orm avg db (state_of (delete orm avg now id user_id db))
  verified : (id : ℕ) → Step orm avg db (state_of (verify orm avg id db))
  reviewed :
      (new_id now service_id user_id : ℕ) (dto : CreateReviewDto)
      → count_if (λ (r : ServiceReview). r.id == new_id) db.reviews ≡ 0
      → Step orm avg db (state_of (create_review orm avg new_id now service_id user_id dto db))
  review_updated :
      (id user_id : ℕ) (dto : UpdateReviewDto)
      → Step orm avg db (state_of (update_review orm avg id user_id dto db))
  review_deleted :
      (id user_id : ℕ) → Step orm avg db (state_of (delete_review orm avg id user_id db))

pub data ReviewReach (orm : Orm) (avg : (total count : ℕ) → ℕ) (db : Db) : Db → Type 0 where
  here : ReviewReach orm avg db db
  next :
      {db' db'' : Db}
      → ReviewReach orm avg db db'
      → Step orm avg db' db''
      → ReviewReach orm avg db db''

module _ (orm : Orm) (avg : (total count : ℕ) → ℕ) where
  Step-IsWellFormed :
      {db db' : Db} → Step orm avg db db' → IsWellFormed avg db → IsWellFormed avg db'
  Step-IsWellFormed {db} (deleted now id user_id) wf =
      delete-IsWellFormed orm avg db wf now id user_id
  Step-IsWellFormed {db} (verified id) wf = verify-IsWellFormed orm avg db wf id
  Step-IsWellFormed {db} (reviewed new_id now service_id user_id dto fresh) wf =
      create_review-IsWellFormed orm avg db wf new_id now service_id user_id dto fresh
  Step-IsWellFormed {db} (review_updated id user_id dto) wf =
      update_review-IsWellFormed orm avg db wf id user_id dto
  Step-IsWellFormed {db} (review_deleted id user_id) wf =
      delete_review-IsWellFormed orm avg db wf id user_id

  -- From well-formed tables of services and reviews, whatever calls on them are made, and whether
  -- they succeed or throw, the tables stay well-formed: each service carries the number and the
  -- average of the reviews that it has, a user reviews a service at most once, and nobody reviews a
  -- service of their own.
  pub ReviewReach-IsWellFormed :
      {db db' : Db} → ReviewReach orm avg db db' → IsWellFormed avg db → IsWellFormed avg db'
  ReviewReach-IsWellFormed here wf = wf
  ReviewReach-IsWellFormed (next r s) wf = Step-IsWellFormed s (ReviewReach-IsWellFormed r wf)
