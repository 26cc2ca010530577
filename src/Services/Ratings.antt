-- ===== src/Services/Ratings.antt =====
-- The invariant of services and reviews, and what a changed table of reviews does to the ratings.
use mathlib.Core.HLevel.{×_prop}
use native.Mathlib.Nat.{ℕ_set}
use rideway_api.Prelude.{
  ℕ, ◌≡◌, refl, sym, ap, ◌∙◌, inl, inr, true, false, not, ◌&&◌, some, if◌then◌else◌, List, ◌==◌,
  eq_of_==, arith, bit, count_if, Bool-cases, Perm-sum_of, sum_of_congr, sum_of-map, sum_of-filter,
  count_if-pos_of_mem,
}
use rideway_api.Database.{Orm, Every, HasUniqueIds}
use rideway_api.Database.Rows.{Every-update, count_if-at_found}
use rideway_api.Database.Toggles.{IsToggleTable}
use rideway_api.Services.{
  Service, ServiceReview, Db, is_review_of, ratings_of, reviews_of, rating_of, rated,
}

abbrev pub IsReviewTable : List ServiceReview → Type 0
IsReviewTable = IsToggleTable (λ (r : ServiceReview). r.id) (λ r. r.service_id) (λ r. r.user_id)

-- The two columns of a service say what its reviews say.
abbrev pub IsRated : ((total count : ℕ) → ℕ) → List ServiceReview → List Service → Type 0
IsRated avg reviews services =
    Every
      (λ s.
        (s.reviews_count ≡ reviews_of reviews s.id) × (s.rating_avg ≡ rating_of avg reviews s.id))
      services

-- Nobody has reviewed a service of their own.
abbrev pub HasNoOwnReview : List ServiceReview → List Service → Type 0
HasNoOwnReview reviews services =
    Every (λ s. count_if (is_review_of s.id s.user_id) reviews ≡ 0) services

pub record IsWellFormed (avg : (total count : ℕ) → ℕ) (db : Db) : Type 0 where
  pub service_ids : HasUniqueIds (λ (s : Service). s.id) db.services
  pub reviews : IsReviewTable db.reviews
  pub rated : IsRated avg db.reviews db.services
  pub no_own : HasNoOwnReview db.reviews db.services

-- The reviews of every service but one are as before.
pub record AgreeBeside (service_id : ℕ) (before after : List ServiceReview) : Type 0 where
  pub count : (k : ℕ) → (k == service_id) ≡ false → reviews_of after k ≡ reviews_of before k
  pub total : (k : ℕ) → (k == service_id) ≡ false → ratings_of after k ≡ ratings_of before k

pub IsRated-update_service_rating :
    (orm : Orm) (avg : (total count : ℕ) → ℕ) (service_id : ℕ) (before after : List ServiceReview)
    (services : List Service)
    → AgreeBeside service_id before after
    → IsRated avg before services
    → IsRated avg after (orm.update (λ x. x.id == service_id) (rated avg after service_id) services)
IsRated-update_service_rating orm avg service_id before after services agree =
    Every-update orm _ (rated avg after service_id) services (λ x. ×_prop (ℕ_set _ _) (ℕ_set _ _))
      (λ x e _. (
        ap (λ k. reviews_of after k) (sym (eq_of_== _ _ e)),
        ap (λ k. rating_of avg after k) (sym (eq_of_== _ _ e)),
      ))
      (λ x e (n, r). (n ∙ sym (agree.count x.id e), rw (agree.count x.id e, agree.total x.id e) r))

module _ (orm : Orm) (reviews : List ServiceReview) where
  pub AgreeBeside-insert :
      (r : ServiceReview) → AgreeBeside r.service_id reviews (orm.insert r reviews)
  AgreeBeside-insert r = record {
    count = λ k e.
        Perm-sum_of (λ x. bit (x.service_id == k)) (orm.insert-perm r reviews)
        ∙ omega (arith, zero_bit k e);
    total = λ k e.
        Perm-sum_of (λ x. if x.service_id == k then x.rating else 0) (orm.insert-perm r reviews)
        ∙ omega (arith, zero_rating k e);
  }
    where
      zero_bit : (k : ℕ) → (k == r.service_id) ≡ false → bit (r.service_id == k) ≡ 0
      zero_bit k e = ground arith

      zero_rating :
          (k : ℕ) → (k == r.service_id) ≡ false → (if r.service_id == k then r.rating else 0) ≡ 0
      zero_rating k e = ground arith

  module _ (id : ℕ) {r : ServiceReview}
      (unique : HasUniqueIds (λ (x : ServiceReview). x.id) reviews)
      (found : orm.find_one (λ x. x.id == id) reviews ≡ some r) where
    -- The rows with the id of the review that was found are about its service.
    same_service : Every (λ x. (x.id == id) ≡ true → (x.service_id == r.service_id) ≡ true) reviews
    same_service x m e = elim (Bool-cases (x.service_id == r.service_id)) [
      | inl t ↦ t
      | inr f ↦ absurd (
          omega (
            arith,
            count_if-pos_of_mem (λ y. not (y.service_id == r.service_id) && y.id == id) reviews m
                (ground (arith, f, e)),
            count_if-at_found orm (λ y. y.id == id) (λ y. y.id == id)
                (λ y. not (y.service_id == r.service_id)) reviews found
                (orm.find_one-some _ reviews found).1 (unique id),
            self,
          ))
    ]
      where
        self : bit (not (r.service_id == r.service_id)) ≡ 0
        self = ground arith

    pub AgreeBeside-delete : AgreeBeside r.service_id reviews (orm.delete (λ x. x.id == id) reviews)
    AgreeBeside-delete = record {
      count = λ k e.
          Perm-sum_of (λ x. bit (x.service_id == k)) (orm.delete-perm _ reviews)
          ∙ sum_of-filter (λ x. bit (x.service_id == k)) (λ x. not (x.id == id)) reviews
          ∙ sum_of_congr _ _ reviews (λ x m. let at = same_service x m in ground (arith, at, e));
      total = λ k e.
          Perm-sum_of (λ x. if x.service_id == k then x.rating else 0) (orm.delete-perm _ reviews)
          ∙ sum_of-filter (λ x. if x.service_id == k then x.rating else 0) (λ x. not (x.id == id))
              reviews
          ∙ sum_of_congr _ _ reviews (λ x m. let at = same_service x m in ground (arith, at, e));
    }

    pub AgreeBeside-update :
        (f : ServiceReview → ServiceReview)
        → ((x : ServiceReview) → (f x).service_id ≡ x.service_id)
        → AgreeBeside r.service_id reviews (orm.update (λ x. x.id == id) f reviews)
    AgreeBeside-update f same = record {
      count = λ k e.
          Perm-sum_of (λ x. bit (x.service_id == k)) (orm.update-perm _ f reviews)
          ∙ sum_of-map _ _ reviews
          ∙ sum_of_congr _ _ reviews (λ x m. elim (Bool-cases (x.id == id)) [
            | inl t ↦ rw (t, same) refl
            | inr t ↦ rw t refl
          ]);
      total = λ k e.
          Perm-sum_of (λ x. if x.service_id == k then x.rating else 0) (orm.update-perm _ f reviews)
          ∙ sum_of-map _ _ reviews
          ∙ sum_of_congr _ _ reviews (λ x m. elim (Bool-cases (x.id == id)) [
            | inl t ↦ let at = same_service x m t in rw (t, same) (away (f x).rating x k at e)
            | inr t ↦ rw t refl
          ]);
    }
      where
        away :
            (n : ℕ) (x : ServiceReview) (k : ℕ)
            → (x.service_id == r.service_id) ≡ true
            → (k == r.service_id) ≡ false
            → (if x.service_id == k then n else 0) ≡ (if x.service_id == k then x.rating else 0)
        away n x k at e = ground arith
