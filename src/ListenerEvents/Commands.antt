-- ===== src/ListenerEvents/Commands.antt =====
-- Which commands of the order service a listener's event stands for, and what is left of it.
use over_sync.Prelude.{
  ℕ, ◌≡◌, ◌≢◌, ◌⊎◌, refl, ap, sym, ◌∙◌, inl, inr, Bool, true, false, none, some, List, [], ◌∷◌,
  ◌++◌, ◌==◌, Text, text_eq, option_eq,
}
use over_sync.Order.{OrderRow, LockInput}
use over_sync.Errors.{Result, ok, err, ServiceError, Action, pure, bind_ok, bind_err, ◌>>◌}
use over_sync.Store.{Store}
use over_sync.Service.Commands.{Command, src_lock, dst_lock, reveal, settle, give_back, execute}
use over_sync.ListenerEvents.{
  lock, claim, refund, BridgeOrderEvent, BridgeEventOutcome, applied, outcome_of, truthy,
  lower_option,
}

-- The commands that an event stands for when it is about an order.
pub data Prescribed (writer : Text) (event : BridgeOrderEvent) (order : OrderRow)
    : List Command → Type 0 where
  lock_on_source :
      (input : LockInput)
      → event.kind ≡ lock
      → event.chain ≡ order.src_chain
      → input.public_id ≡ order.public_id
      → truthy event.order_id ≡ some input.order_id
      → event.timelock ≡ some input.timelock
      → input.tx_hash ≡ event.tx_hash
      → input.block_number ≡ event.block_number
      → Prescribed writer event order (src_lock input (some writer) ∷ [])
  lock_on_destination :
      (input : LockInput)
      → event.kind ≡ lock
      → event.chain ≢ order.src_chain
      → input.public_id ≡ order.public_id
      → truthy event.order_id ≡ some input.order_id
      → event.timelock ≡ some input.timelock
      → input.tx_hash ≡ event.tx_hash
      → input.block_number ≡ event.block_number
      → Prescribed writer event order (dst_lock input none (some writer) ∷ [])
  claim_without_secret :
      event.kind ≡ claim
      → truthy (lower_option event.preimage) ≡ none
      → Prescribed writer event order (settle order.public_id event.tx_hash (some writer) ∷ [])
  claim_with_known_secret :
      (preimage : Text)
      → event.kind ≡ claim
      → truthy (lower_option event.preimage) ≡ some preimage
      → (order.preimage == some preimage) ≡ true
      → Prescribed writer event order (settle order.public_id event.tx_hash (some writer) ∷ [])
  claim_with_new_secret :
      (preimage : Text)
      → event.kind ≡ claim
      → truthy (lower_option event.preimage) ≡ some preimage
      → (order.preimage == some preimage) ≡ false
      → Prescribed writer event order (
          reveal order.public_id preimage event.tx_hash (some writer)
          ∷ settle order.public_id event.tx_hash (some writer)
          ∷ [])
  refund_paid :
      event.kind ≡ refund
      → Prescribed writer event order (give_back order.public_id event.tx_hash (some writer) ∷ [])

abbrev pub is_applied : BridgeEventOutcome → Bool
is_applied (applied id) = true
is_applied _ = false

-- Commands, one after the other, at the store's own time
unfoldable pub obey : ℕ → List Command → Store → Store
obey min_gap [] s = s
obey min_gap (c ∷ cs) s = obey min_gap cs (execute min_gap c s).1

-- A beginning of the commands was carried out. Either that is all of them, and the event was applied to
-- the order, or the last one was refused and the event was not applied.
abbrev pub Obeyed : ℕ → List Command → Text → Store → BridgeEventOutcome × Store → Type 0
Obeyed min_gap commands id s out =
    (carried_out left : List Command) × (carried_out ++ left ≡ commands)
    × (out.1 ≡ obey min_gap carried_out s)
    × (((out.0 ≡ applied id) × (left ≡ [])) ⊎ (is_applied out.0 ≡ false))

failed_not_applied : (x : ServiceError) → is_applied (outcome_of (err x)) ≡ false
failed_not_applied (ServiceError.rejected info) = refl
failed_not_applied e = refl

abbrev pub finish : Result BridgeEventOutcome × Store → BridgeEventOutcome × Store
finish (r, s') = (outcome_of r, s')

module _ (min_gap : ℕ) (m : Action Store (Unit {0})) (id : Text) (s s' : Store)
    (carried_out : List Command) (ran : obey min_gap carried_out s ≡ s') where
  -- All the commands returned.
  all_returned :
      (u : Unit {0})
      → m s ≡ (ok u, s')
      → Obeyed min_gap (carried_out ++ []) id s (finish ((m >> pure (applied id)) s))
  all_returned u e =
      let end = ap finish (bind_ok m (λ _. pure (applied id)) s s' u e) in
      (carried_out, [], refl, ap (λ o. o.1) end ∙ sym ran, inl (ap (λ o. o.0) end, refl))

  -- The last one was refused.
  last_refused :
      (x : ServiceError) (left : List Command)
      → m s ≡ (err x, s')
      → Obeyed min_gap (carried_out ++ left) id s (finish ((m >> pure (applied id)) s))
  last_refused x left e =
      let end = ap finish (bind_err m (λ _. pure (applied id)) s s' x e) in
      (
        carried_out,
        left,
        refl,
        ap (λ o. o.1) end ∙ sym ran,
        inr (ap (λ o. is_applied o.0) end ∙ failed_not_applied x),
      )

pub one_command :
    (min_gap : ℕ) (c : Command) (id : Text) (s : Store)
    → Obeyed min_gap (c ∷ []) id s (finish ((execute min_gap c >> pure (applied id)) s))
unfolding obey
one_command min_gap c id s = split (execute min_gap c s) refl
  where
    split :
        (out : Result (Unit {0}) × Store)
        → execute min_gap c s ≡ out
        → Obeyed min_gap (c ∷ []) id s (finish ((execute min_gap c >> pure (applied id)) s))
    split (ok u, s₁) e =
        all_returned min_gap (execute min_gap c) id s s₁ (c ∷ []) (ap (λ o. o.1) e) u e
    split (err x, s₁) e =
        last_refused min_gap (execute min_gap c) id s s₁ (c ∷ []) (ap (λ o. o.1) e) x [] e

pub two_commands :
    (min_gap : ℕ) (c d : Command) (id : Text) (s : Store)
    → Obeyed min_gap
        (c ∷ d ∷ [])
        id
        s
        (finish ((execute min_gap c >> execute min_gap d >> pure (applied id)) s))
unfolding obey
two_commands min_gap c d id s = split (execute min_gap c s) refl
  where
    both : Action Store (Unit {0})
    both = execute min_gap c >> execute min_gap d

    second :
        (u : Unit {0}) (s₁ : Store) (out : Result (Unit {0}) × Store)
        → execute min_gap c s ≡ (ok u, s₁)
        → execute min_gap d s₁ ≡ out
        → Obeyed min_gap (c ∷ d ∷ []) id s (finish ((both >> pure (applied id)) s))
    second u s₁ (ok v, s₂) e e₂ =
        all_returned min_gap both id s s₂ (c ∷ d ∷ [])
          (ap (λ o. (execute min_gap d o.1).1) e ∙ ap (λ o. o.1) e₂) v
          (bind_ok (execute min_gap c) (λ _. execute min_gap d) s s₁ u e ∙ e₂)
    second u s₁ (err x, s₂) e e₂ =
        last_refused min_gap both id s s₂ (c ∷ d ∷ [])
          (ap (λ o. (execute min_gap d o.1).1) e ∙ ap (λ o. o.1) e₂) x []
          (bind_ok (execute min_gap c) (λ _. execute min_gap d) s s₁ u e ∙ e₂)

    split :
        (out : Result (Unit {0}) × Store)
        → execute min_gap c s ≡ out
        → Obeyed min_gap (c ∷ d ∷ []) id s (finish ((both >> pure (applied id)) s))
    split (ok u, s₁) e = second u s₁ (execute min_gap d s₁) e refl
    split (err x, s₁) e =
        last_refused min_gap both id s s₁ (c ∷ []) (ap (λ o. o.1) e) x (d ∷ [])
          (bind_err (execute min_gap c) (λ _. execute min_gap d) s s₁ x e)
