-- ===== src/Errors.antt =====
-- The errors that the coordinator's services throw (coordinator/src/services), one constructor for
-- each place that throws, with the values that its message shows; and the monad of an operation
-- that throws and changes a state. The state comes back after a throw too: what was written stays.
use over_sync.Prelude.{◌≡◌, refl, ap, arith, Bool, true, false, Option, Text}
use over_sync.Status.{OrderStatus, OrderTransitionAction, OrderFailureCode}
use over_sync.Order.{Chain, Direction}
use over_sync.Timelock.{TimelockValidationError, SecretWindowError}

-- `TransitionRejectionInfo`
pub record TransitionRejectionInfo : Type 0 where
  pub public_id : Text
  pub from : OrderStatus
  pub to : OrderStatus
  pub action : OrderTransitionAction
  pub code : OrderFailureCode
  pub reason : Text
  pub writer : Text
  pub tx_hash : Option Text

-- The errors of coordinator/src/services/quote-service.ts.
pub data QuoteError : Type 0 where
  not_found expired amount_mismatch terms_mismatch : QuoteError
  -- `AmountParseError`, which `announce` passes on as it is
  amount_parse : QuoteError

pub data ServiceError : Type 0 where
  -- `OrderValidationError`
  unknown_order : Text → ServiceError
  not_a_target : OrderStatus → ServiceError
  timelock : TimelockValidationError → ServiceError
  bad_address : Chain → Text → ServiceError
  direction_mismatch : Direction → ServiceError
  duplicate_hashlock : Text → Text → ServiceError
  bad_quote : QuoteError → ServiceError
  not_dst_locked : Text → OrderStatus → ServiceError
  inactive_resolver : Text → ServiceError
  -- `OrderTransitionRejectedError`
  rejected : TransitionRejectionInfo → ServiceError
  -- the repository's `Error("Unknown order")` and `Error("Failed to insert order")`, and a
  -- violated UNIQUE constraint
  repo_unknown_order insert_failed unique_violation : ServiceError
  -- an `AmountParseError` that nobody catches
  uncaught_quote : QuoteError → ServiceError
  -- the secret service
  bad_secret_format : ServiceError
  secret_unknown_order : Text → ServiceError
  preimage_mismatch : ServiceError
  secret_conflict : ServiceError
  preimage_reused : ServiceError
  secret_expired : Option SecretWindowError → ServiceError
  order_id_too_large : ServiceError
  -- the chain event processor
  cursor_mismatch : Text → Text → ServiceError

-- `err instanceof OrderValidationError`: a rejected transition is one too.
abbrev pub is_validation_error : ServiceError → Bool
is_validation_error (unknown_order _) = true
is_validation_error (not_a_target _) = true
is_validation_error (timelock _) = true
is_validation_error (bad_address _ _) = true
is_validation_error (direction_mismatch _) = true
is_validation_error (duplicate_hashlock _ _) = true
is_validation_error (bad_quote _) = true
is_validation_error (not_dst_locked _ _) = true
is_validation_error (inactive_resolver _) = true
is_validation_error (rejected _) = true
is_validation_error _ = false

pub data Result (A : Type 0) : Type 0 where
  ok : A → Result A
  err : ServiceError → Result A

-- An operation on the state `S`.
abbrev pub Action : Type 0 → Type 0 → Type 0
Action S A = S → Result A × S

module _ {S A : Type 0} where
  abbrev pub pure : A → Action S A
  pure a s = (ok a, s)

  abbrev pub throw : ServiceError → Action S A
  throw e s = (err e, s)

  abbrev pub gets : (S → A) → Action S A
  gets f s = (ok (f s), s)

abbrev pub modify : {S : Type 0} → (S → S) → Action S (Unit {0})
modify f s = (ok tt, f s)

infixl 5 ◌>>=◌ ◌>>◌
abbrev pub ◌>>=◌ : {S A B : Type 0} → Action S A → (A → Action S B) → Action S B
◌>>=◌ m f s = let (r, s') = m s in elim r [ ok a ↦ f a s' | err e ↦ (err e, s') ]

abbrev pub ◌>>◌ : {S A B : Type 0} → Action S A → Action S B → Action S B
m >> k = m >>= λ _. k

-- A sequence whose first operation returns, or throws.
module _ {S A B : Type 0} (m : Action S A) (k : A → Action S B) (s s' : S) where
  pub bind_ok : (a : A) → m s ≡ (ok a, s') → (m >>= k) s ≡ k a s'
  bind_ok a e = ap (λ out. elim out.0 [ ok x ↦ k x out.1 | err x ↦ (err x, out.1) ]) e

  pub bind_err : (x : ServiceError) → m s ≡ (err x, s') → (m >>= k) s ≡ (err x, s')
  bind_err x e = ap (λ out. elim out.0 [ ok a ↦ k a out.1 | err y ↦ (err y, out.1) ]) e

-- A sequence that returns: its first operation returned, and the rest is what is left.
module _ {S A B : Type 0} (m : Action S A) (k : A → Action S B) (s : S) where
  abbrev First : Type 0
  First = (a : A) × (s' : S) × (m s ≡ (ok a, s')) × ((m >>= k) s ≡ k a s')

  first_of : (b : B) (out : Result A × S) → m s ≡ out → ((m >>= k) s).0 ≡ ok b → First
  first_of b (ok a, s') e h = (a, s', e, bind_ok m k s s' a e)
  first_of b (err x, s') e h = absurd (ground (arith, ap (λ out. out.0) (bind_err m k s s' x e)))

  pub returned_first : (b : B) → ((m >>= k) s).0 ≡ ok b → First
  returned_first b h = first_of b (m s) refl h
