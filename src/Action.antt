-- ===== src/Action.antt =====
-- Methods that read and write the database and may throw one of NestJS's HTTP exceptions. There
-- are no transactions: what was written before a throw stays written, so the state comes back
-- beside the exception too.
use rideway_api.Prelude.{◌≡◌, ap, Bool, true, false, Option, none, some, String}

-- The exceptions of `@nestjs/common` that the services throw, each with its message.
pub data HttpError : Type 0 where
  not_found forbidden conflict bad_request unauthorized : String → HttpError
  -- What Nest answers for an error that is no HTTP exception.
  internal_error : HttpError

pub data Outcome (S A : Type 0) : Type 0 where
  done : A → S → Outcome S A
  raised : HttpError → S → Outcome S A

abbrev pub Action : Type 0 → Type 0 → Type 0
Action S A = S → Outcome S A

module _ {S A B : Type 0} where
  infixl 5 ◌>>=◌ ◌>>◌
  abbrev pub ◌>>=◌ : Action S A → (A → Action S B) → Action S B
  ◌>>=◌ m f s = elim (m s) [ done a s' ↦ f a s' | raised e s' ↦ raised e s' ]

  abbrev pub ◌>>◌ : Action S A → Action S B → Action S B
  ◌>>◌ m n s = elim (m s) [ done _ s' ↦ n s' | raised e s' ↦ raised e s' ]

module _ {S : Type 0} where
  abbrev pub modify : (S → S) → Action S (Unit {0})
  modify f s = done tt (f s)

  -- `if (!test) throw error`
  abbrev pub ensure : Bool → HttpError → Action S (Unit {0})
  ensure true e s = done tt s
  ensure false e s = raised e s

module _ {S A : Type 0} where
  abbrev pub pure : A → Action S A
  pure a s = done a s

  abbrev pub gets : (S → A) → Action S A
  gets f s = done (f s) s

  -- `if (!found) throw error`
  abbrev pub or_throw : HttpError → Option A → Action S A
  or_throw e none s = raised e s
  or_throw e (some a) s = done a s

  -- The state that a call leaves, whether it returns or throws.
  abbrev pub state_of : Outcome S A → S
  state_of (done a s) = s
  state_of (raised e s) = s

  pub done_value : {a b : A} {s s' : S} → done a s ≡ done b s' → a ≡ b
  done_value e = cc

  pub done_state : {a b : A} {s s' : S} → done a s ≡ done b s' → s ≡ s'
  done_state e = ap state_of e
