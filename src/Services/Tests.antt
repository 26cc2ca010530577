-- ===== src/Services/Tests.antt =====
-- The calls at a concrete service with one review.
use mathlib.Core.HLevel.{×_prop}
use native.Mathlib.Nat.{ℕ_set}
use Prim.Native.Nat.{◌/◌}
use rideway_api.Prelude.{
  ℕ, ◌+◌, ◌*◌, ◌≤◌, refl, Bool, true, false, ◌&&◌, none, some, [], ◌∷◌, ◌==◌, bit, arith,
}
use rideway_api.Database.InMemory.{in_memory, Every-nil, Every-cons}
use rideway_api.Action.{Outcome, state_of}
use rideway_api.Services.{
  Service, ServiceReview, Db, CreateReviewDto, UpdateReviewDto, new_review, create_review,
  update_review,
}
use rideway_api.Services.Ratings.{IsWellFormed}
use rideway_api.Services.History.{here, next, reviewed, review_updated, ReviewReach-IsWellFormed}

-- The average in tenths, rounded down.
abbrev tenths : (total count : ℕ) → ℕ
tenths total count = 10 * total / count

abbrev garage : Service
garage = record {
  id = 1;
  user_id = 7;
  name = "Garage";
  rating_avg = 40;
  reviews_count = 1;
  is_verified = false;
  deleted_at = none;
  is_owner = none;
}

abbrev good : ServiceReview
good = new_review 2 100 1 8 (record { rating = 4; comment = none })

abbrev catalogue : Db
catalogue = record { services = garage ∷ []; reviews = good ∷ [] }

bit-le : (b : Bool) → bit b + 0 ≤ 1
bit-le true = omega arith
bit-le false = omega arith

catalogue-IsWellFormed : IsWellFormed tenths catalogue
catalogue-IsWellFormed = record {
  service_ids = λ i. bit-le (1 == i);
  reviews = record { ids = λ i. bit-le (2 == i); once = λ t u. bit-le (1 == t && 8 == u) };
  rated = Every-cons (λ _. ×_prop (ℕ_set _ _) (ℕ_set _ _)) (refl, refl) (Every-nil _);
  no_own = Every-cons (λ _. ℕ_set _ _) refl (Every-nil _);
}

abbrev great : CreateReviewDto
great = record { rating = 5; comment = some "Great" }

abbrev worse : UpdateReviewDto
worse = record { rating = some 2; comment = none }

abbrev later : Db
later = state_of (
    update_review in_memory tenths 2 8 worse
      (state_of (create_review in_memory tenths 3 110 1 9 great catalogue)))

ReviewReach-IsWellFormed_example : IsWellFormed tenths later
ReviewReach-IsWellFormed_example =
    ReviewReach-IsWellFormed in_memory tenths
      (next (next here (reviewed 3 110 1 9 great refl)) (review_updated 2 8 worse))
      catalogue-IsWellFormed

abbrev created : Outcome Db ServiceReview
created = create_review in_memory tenths 3 110 1 9 great catalogue
