-- ===== src/Services/Calls.antt =====
-- The whole calls: what they throw, and the tables that they leave.
use mathlib.Core.Path.{subst}
use rideway_api.Prelude.{
  ◌∙◌, Bool, true, false, is_some, ℕ, ◌+◌, ◌≡◌, ◌⊎◌, refl, sym, ap, inl, inr, false, not, Option,
  none, some, ◌==◌, arith, bit, count_if, Bool-cases, Option-cases,
}
use rideway_api.Database.{Orm}
use rideway_api.Database.Rows.{count_if-insert}
use rideway_api.Database.Toggles.{IsToggleTable-insert}
use rideway_api.Action.{Outcome, done, raised, state_of, forbidden, conflict, not_found}
use rideway_api.Services.{
  Service, ServiceReview, Db, CreateReviewDto, is_review_of, live_service, new_review, reviews_of,
  find_one, find_review, delete, verify, create_review, delete_review,
}
use rideway_api.Services.Ratings.{IsWellFormed, AgreeBeside-insert, AgreeBeside-delete}
use rideway_api.Services.Reviewing.{
  rerated, rerated-IsWellFormed, edited-IsWellFormed, HasNoOwnReview-insert, reviews-delete,
}

-- Whether the service that was found belongs to the user.
abbrev pub is_service_of : (user_id : ℕ) → Option Service → Bool
is_service_of user_id none = false
is_service_of user_id (some s) = s.user_id == user_id

module _ (orm : Orm) (avg : (total count : ℕ) → ℕ) where
  find_one-state :
      (id : ℕ) (user : Option ℕ) (db : Db) → state_of (find_one orm avg id user db) ≡ db
  unfolding find_one
  find_one-state id user db = elim (Option-cases (orm.find_one (live_service id) db.services)) [
    | inl missing ↦ ground (arith, missing)
    | inr (s, found) ↦ ground (arith, found)
  ]

  pub find_review-state :
      (id : ℕ) (user : Option ℕ) (db : Db) → state_of (find_review orm avg id user db) ≡ db
  unfolding find_review
  find_review-state id user db = elim (Option-cases (orm.find_one (λ r. r.id == id) db.reviews)) [
    | inl missing ↦ ground (arith, missing)
    | inr (s, found) ↦ ground (arith, found)
  ]

  abbrev pub Leaves : {A : Type 0} → Outcome Db A → Type 0
  Leaves o = IsWellFormed avg (state_of o)

  module _ (db : Db) (wf : IsWellFormed avg db) where
    pub unchanged : {A : Type 0} (o : Outcome Db A) → state_of o ≡ db → Leaves o
    unchanged o e = subst (IsWellFormed avg) (sym e) wf

    pub delete-IsWellFormed : (now id user_id : ℕ) → Leaves (delete orm avg now id user_id db)
    unfolding delete find_one
    delete-IsWellFormed now id user_id =
        elim (Option-cases (orm.find_one (live_service id) db.services)) [
          | inl missing ↦ unchanged (delete orm avg now id user_id db) (ground (arith, missing))
          | inr (s, found) ↦ elim (Bool-cases (s.user_id == user_id)) [
            | inr other ↦
                unchanged (delete orm avg now id user_id db) (ground (arith, found, other))
            | inl own ↦
                let f : Service → Service = λ x. record x { deleted_at = some now } in
                let e : delete orm avg now id user_id db
                    ≡ done tt
                        (record db { services = orm.update (λ x. x.id == id) f db.services }) =
                  ground (arith, found, own) in
                subst Leaves (sym e) (
                  edited-IsWellFormed orm avg db wf (λ x. x.id == id) f (λ x. refl) (λ x. refl)
                    (λ x. refl) (λ x. refl))
          ]
        ]

    pub verify-IsWellFormed : (id : ℕ) → Leaves (verify orm avg id db)
    unfolding verify find_one
    verify-IsWellFormed id = elim (Option-cases (orm.find_one (live_service id) db.services)) [
      | inl missing ↦ unchanged (verify orm avg id db) (ground (arith, missing))
      | inr (s, found) ↦
          let f : Service → Service = λ x. record x { is_verified = not s.is_verified } in
          let after : Db = record db { services = orm.update (λ x. x.id == id) f db.services } in
          let e : verify orm avg id db ≡ find_one orm avg id none after = ground (arith, found) in
          subst Leaves (sym e) (
            subst (IsWellFormed avg) (sym (find_one-state id none after)) (
              edited-IsWellFormed orm avg db wf (λ x. x.id == id) f (λ x. refl) (λ x. refl)
                (λ x. refl) (λ x. refl)))
    ]

    pub delete_review-IsWellFormed : (id user_id : ℕ) → Leaves (delete_review orm avg id user_id db)
    unfolding delete_review find_review
    delete_review-IsWellFormed id user_id =
        elim (Option-cases (orm.find_one (λ r. r.id == id) db.reviews)) [
          | inl missing ↦ unchanged (delete_review orm avg id user_id db) (ground (arith, missing))
          | inr (r, found) ↦ elim (Bool-cases (r.user_id == user_id)) [
            | inr other ↦
                unchanged (delete_review orm avg id user_id db) (ground (arith, found, other))
            | inl own ↦
                let after : Db =
                  rerated orm avg db wf r.service_id (orm.delete (λ x. x.id == id) db.reviews) in
                let e : delete_review orm avg id user_id db ≡ done tt after =
                  ground (arith, found, own) in
                let (table, no_own) = reviews-delete orm avg db wf (λ x. x.id == id) in
                subst Leaves (sym e) (
                  rerated-IsWellFormed orm avg db wf r.service_id _ table
                    (AgreeBeside-delete orm db.reviews id wf.reviews.ids found) no_own)
          ]
        ]

    -- What a review that passes the checks leaves.
    reviewed-IsWellFormed :
        (r : ServiceReview) {s : Service}
        → orm.find_one (live_service r.service_id) db.services ≡ some s
        → (s.user_id == r.user_id) ≡ false
        → orm.find_one (is_review_of r.service_id r.user_id) db.reviews ≡ none
        → count_if (λ (x : ServiceReview). x.id == r.id) db.reviews ≡ 0
        → IsWellFormed avg (rerated orm avg db wf r.service_id (orm.insert r db.reviews))
    reviewed-IsWellFormed r found other missing fresh =
        rerated-IsWellFormed orm avg db wf r.service_id _
          (IsToggleTable-insert _ _ _ orm db.reviews wf.reviews r.service_id r.user_id r refl refl
            fresh missing)
          (AgreeBeside-insert orm db.reviews r) (HasNoOwnReview-insert orm avg db wf r found other)

    module _ (new_id now service_id user_id : ℕ) (dto : CreateReviewDto) where
      abbrev call : Outcome Db ServiceReview
      call = create_review orm avg new_id now service_id user_id dto db

      create_review-eq :
          {s : Service}
          → orm.find_one (live_service service_id) db.services ≡ some s
          → (s.user_id == user_id) ≡ false
          → orm.find_one (is_review_of service_id user_id) db.reviews ≡ none
          → call
            ≡ find_review orm avg new_id (some user_id) (
                rerated orm avg db wf service_id
                  (orm.insert (new_review new_id now service_id user_id dto) db.reviews))
      unfolding create_review find_one
      create_review-eq found other missing = ground (arith, found, other, missing)

      pub create_review_lem :
          count_if (λ (x : ServiceReview). x.id == new_id) db.reviews ≡ 0
          → ((orm.find_one (live_service service_id) db.services ≡ none)
              × (call ≡ raised (not_found "Service not found") db))
            ⊎ ((is_service_of user_id (orm.find_one (live_service service_id) db.services) ≡ true)
                × (call ≡ raised (forbidden "You cannot review your own service") db))
            ⊎ ((is_some (orm.find_one (is_review_of service_id user_id) db.reviews) ≡ true)
                × (call ≡ raised (conflict "You have already reviewed this service") db))
            ⊎ ((db' : Db) × (call ≡ find_review orm avg new_id (some user_id) db')
                × IsWellFormed avg db'
                × (reviews_of db'.reviews service_id ≡ 1 + reviews_of db.reviews service_id))
      unfolding create_review find_one
      create_review_lem fresh =
          elim (Option-cases (orm.find_one (live_service service_id) db.services)) [
            | inl missing ↦ inl (missing, ground (arith, missing))
            | inr (s, found) ↦ elim (Bool-cases (s.user_id == user_id)) [
              | inl own ↦
                  inr (inl ((ap (is_service_of user_id) found ∙ own), ground (arith, found, own)))
              | inr other ↦
                  elim (Option-cases (orm.find_one (is_review_of service_id user_id) db.reviews)) [
                    | inr (r, had) ↦
                        inr (inr (inl (ap is_some had, ground (arith, found, other, had))))
                    | inl missing ↦
                        let r = new_review new_id now service_id user_id dto in
                        inr (
                          inr (
                            inr (
                              _,
                              create_review-eq found other missing,
                              reviewed-IsWellFormed r found other missing fresh,
                              more,
                            )))
                  ]
            ]
          ]
        where
          more :
              reviews_of
                (orm.insert (new_review new_id now service_id user_id dto) db.reviews)
                service_id
              ≡ 1 + reviews_of db.reviews service_id
          more = omega (
            arith,
            count_if-insert orm (λ x. x.service_id == service_id)
                (new_review new_id now service_id user_id dto) db.reviews,
            self,
          )
            where
              self : bit (service_id == service_id) ≡ 1
              self = ground arith

      pub create_review-IsWellFormed :
          count_if (λ (x : ServiceReview). x.id == new_id) db.reviews ≡ 0 → Leaves call
      create_review-IsWellFormed fresh = elim (create_review_lem fresh) [
        | inl (_, e) ↦ unchanged call (ap state_of e)
        | inr (inl (_, e)) ↦ unchanged call (ap state_of e)
        | inr (inr (inl (_, e))) ↦ unchanged call (ap state_of e)
        | inr (inr (inr (db', e, wf', _))) ↦
            subst Leaves (sym e)
              (subst (IsWellFormed avg) (sym (find_review-state new_id (some user_id) db')) wf')
      ]
