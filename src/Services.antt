-- ===== src/Services.antt =====
-- ServicesService of src/modules/services/services.service.ts: reviews and the rating of a service,
-- `findOne`, `verify` and `delete`. Of a service the columns that these calls use are kept. The
-- creation and the edit of a service, with its images, and the searches are left out.
pub mod Ratings
pub mod Reviewing
pub mod Calls
pub mod Editing
pub mod History
mod Tests
use rideway_api.Prelude.{
  ℕ, ◌+◌, Bool, true, false, not, ◌&&◌, Option, none, some, is_some, is_none, or_else,
  if◌then◌else◌, String, List, ◌==◌, sum_of, count_if,
}
use rideway_api.Database.{Orm}
use rideway_api.Action.{
  Action, ◌>>=◌, ◌>>◌, modify, ensure, pure, gets, or_throw, not_found, forbidden, conflict,
}

pub record Service : Type 0 where
  pub id : ℕ
  pub user_id : ℕ
  pub name : String
  pub rating_avg : ℕ
  pub reviews_count : ℕ
  pub is_verified : Bool
  pub deleted_at : Option ℕ
  pub is_owner : Option Bool

pub record ServiceReview : Type 0 where
  pub id : ℕ
  pub service_id : ℕ
  pub user_id : ℕ
  pub rating : ℕ
  pub comment : Option String
  pub created_at : ℕ
  pub is_owner : Option Bool

pub record Db : Type 0 where
  pub services : List Service
  pub reviews : List ServiceReview

pub record CreateReviewDto : Type 0 where
  pub rating : ℕ
  pub comment : Option String

-- `PartialType(CreateReviewDto)`
pub record UpdateReviewDto : Type 0 where
  pub rating : Option ℕ
  pub comment : Option String

abbrev pub live_service : ℕ → Service → Bool
live_service id s = s.id == id && is_none s.deleted_at

-- The condition `{ serviceId, userId }`.
abbrev pub is_review_of : ℕ → ℕ → ServiceReview → Bool
is_review_of service_id user_id r = r.service_id == service_id && r.user_id == user_id

abbrev pub new_review : (id now service_id user_id : ℕ) → CreateReviewDto → ServiceReview
new_review id now service_id user_id dto = record {
  id = id;
  service_id = service_id;
  user_id = user_id;
  rating = dto.rating;
  comment = dto.comment;
  created_at = now;
  is_owner = none;
}

-- `update(id, dto)`: an undefined property leaves its column.
abbrev pub edit_review : UpdateReviewDto → ServiceReview → ServiceReview
edit_review dto r = record r {
  rating = or_else dto.rating r.rating;
  comment = if is_some dto.comment then dto.comment else r.comment;
}

abbrev pub own_service : Option ℕ → Service → Service
own_service none s = s
own_service (some user_id) s = record s { is_owner = some (s.user_id == user_id) }

abbrev pub own_review : Option ℕ → ServiceReview → ServiceReview
own_review none r = r
own_review (some user_id) r = record r { is_owner = some (r.user_id == user_id) }

-- The ratings and the number of the reviews of a service.
abbrev pub ratings_of : List ServiceReview → ℕ → ℕ
ratings_of reviews k = sum_of (λ r. if r.service_id == k then r.rating else 0) reviews

abbrev pub reviews_of : List ServiceReview → ℕ → ℕ
reviews_of reviews k = count_if (λ r. r.service_id == k) reviews

module _ (avg : (total count : ℕ) → ℕ) where
  -- `parseFloat(AVG(review.rating)) || 0`, as the column keeps it. `avg` is the database's average,
  -- rounded to the one decimal of the column and counted in tenths.
  abbrev pub rating_of : List ServiceReview → ℕ → ℕ
  rating_of reviews k =
      if reviews_of reviews k == 0 then 0 else avg (ratings_of reviews k) (reviews_of reviews k)

  abbrev pub rated : List ServiceReview → ℕ → Service → Service
  rated reviews service_id x = record x {
    rating_avg = rating_of reviews service_id;
    reviews_count = reviews_of reviews service_id;
  }

module _ (orm : Orm) (avg : (total count : ℕ) → ℕ) where
  abbrev pub update_service_rating : (service_id : ℕ) → Db → Db
  update_service_rating service_id s = record s {
    services = orm.update (λ x. x.id == service_id) (rated avg s.reviews service_id) s.services;
  }

  unfoldable pub find_one : (id : ℕ) → (current_user_id : Option ℕ) → Action Db Service
  find_one id current_user_id = do
    found ← gets (λ s. orm.find_one (live_service id) s.services)
    service ← or_throw (not_found "Service not found") found
    pure (own_service current_user_id service)

  unfoldable pub find_review : (id : ℕ) → (current_user_id : Option ℕ) → Action Db ServiceReview
  find_review id current_user_id = do
    found ← gets (λ s. orm.find_one (λ r. r.id == id) s.reviews)
    review ← or_throw (not_found "Review not found") found
    pure (own_review current_user_id review)

  unfoldable pub delete : (now id user_id : ℕ) → Action Db (Unit {0})
  delete now id user_id = do
    service ← find_one id none
    ensure (service.user_id == user_id) (forbidden "You can only delete your own services")
    modify (λ s. record s {
      services = orm.update (λ x. x.id == id) (λ x. record x { deleted_at = some now }) s.services;
    })

  unfoldable pub verify : (id : ℕ) → Action Db Service
  verify id = do
    service ← find_one id none
    modify (λ s. record s {
      services =
          orm.update (λ x. x.id == id) (λ x. record x { is_verified = not service.is_verified })
            s.services;
    })
    find_one id none

  unfoldable pub create_review :
      (new_id now service_id user_id : ℕ) → CreateReviewDto → Action Db ServiceReview
  create_review new_id now service_id user_id dto = do
    service ← find_one service_id none
    ensure (not (service.user_id == user_id)) (forbidden "You cannot review your own service")
    existing ← gets (λ s. orm.find_one (is_review_of service_id user_id) s.reviews)
    ensure (is_none existing) (conflict "You have already reviewed this service")
    modify (λ s. record s {
      reviews = orm.insert (new_review new_id now service_id user_id dto) s.reviews;
    })
    modify (update_service_rating service_id)
    find_review new_id (some user_id)

  unfoldable pub update_review : (id user_id : ℕ) → UpdateReviewDto → Action Db ServiceReview
  update_review id user_id dto = do
    review ← find_review id none
    ensure (review.user_id == user_id) (forbidden "You can only edit your own reviews")
    modify (λ s. record s { reviews = orm.update (λ r. r.id == id) (edit_review dto) s.reviews })
    modify (λ s. if is_some dto.rating then update_service_rating review.service_id s else s)
    find_review id (some user_id)

  unfoldable pub delete_review : (id user_id : ℕ) → Action Db (Unit {0})
  delete_review id user_id = do
    review ← find_review id none
    ensure (review.user_id == user_id) (forbidden "You can only delete your own reviews")
    modify (λ s. record s { reviews = orm.delete (λ r. r.id == id) s.reviews })
    modify (update_service_rating review.service_id)
