-- ===== src/Sdk/RefundTimeline.antt =====
-- packages/sdk/src/state-machine/refund-timeline.ts. The clock is the argument `now`; a `Date` is the
-- number of milliseconds that it is built from.
use over_sync.Prelude.{
  ℕ, ◌+◌, ◌*◌, ◌≤◌, ◌≡◌, ◌↔◌, Bool, true, false, not, ◌&&◌, ◌||◌, some, [], ◌∷◌, ◌++◌, arith, ltb,
  if◌then◌else◌, Text, text,
}
use over_sync.Timelock.{ethereum, stellar, evaluate_refund_eligibility, validate_timelock_ordering}

pub data SimulatorDirection : Type 0 where
  eth_to_xlm xlm_to_eth : SimulatorDirection

pub data SimulatedState : Type 0 where
  waiting claimable refundable : SimulatedState

pub record RefundTimelineInput : Type 0 where
  pub direction : SimulatorDirection
  pub source_timelock : ℕ
  pub destination_timelock : ℕ
  pub source_lock_observed : Bool
  pub destination_lock_observed : Bool

pub record RefundTimelineResult : Type 0 where
  pub state : SimulatedState
  pub state_label : Text
  pub state_description : Text
  pub source_timelock_expiry : ℕ
  pub destination_timelock_expiry : ℕ
  pub claimable_by : Text
  pub refundable_by : Text

-- `DIRECTION_LABELS`: the source and the destination.
direction_labels : SimulatorDirection → Text × Text
direction_labels eth_to_xlm = (text "Ethereum", text "Stellar")
direction_labels xlm_to_eth = (text "Stellar", text "Ethereum")

-- `describeState`: the label and the description.
describe_state : SimulatedState → Text × Text → Text × Text
describe_state waiting (source, destination) = (
  text "Waiting",
  text "The "
      ++ (destination
          ++ text
              " lock has not been observed yet, or timelocks are still active. No action is available yet."),
)
describe_state claimable (source, destination) = (
  text "Claimable",
  text "Funds are locked on "
      ++ (destination
          ++ text
              ". You can claim them before the destination timelock expires by providing the correct hashlock preimage."),
)
describe_state refundable (source, destination) = (
  text "Refundable",
  text "Both chain timelocks have expired. You can refund your original deposit from the "
      ++ (source ++ text " HTLC contract."),
)

claim_description : SimulatorDirection → Text
claim_description eth_to_xlm =
    text "You can claim XLM on Stellar (destination) before the destination timelock expires."
claim_description xlm_to_eth =
    text "You can claim ETH on Ethereum (destination) before the destination timelock expires."

refund_description : SimulatorDirection → Text
refund_description eth_to_xlm =
    text "You can refund ETH on Ethereum (source) after both chain timelocks expire."
refund_description xlm_to_eth =
    text "You can refund XLM on Stellar (source) after both chain timelocks expire."

-- The state that `simulateRefundTimeline` settles on.
simulated_state : RefundTimelineInput → ℕ → SimulatedState
simulated_state input now =
    let src_expired = ltb input.source_timelock now in
    let dst_expired = ltb input.destination_timelock now in
    if not input.source_lock_observed || not input.destination_lock_observed
    then waiting
    else if src_expired && dst_expired
    then refundable
    else if not dst_expired
    then claimable
    else waiting

pub simulate_refund_timeline : RefundTimelineInput → ℕ → RefundTimelineResult
unfolding simulated_state
simulate_refund_timeline input now =
    let state = simulated_state input now in
    let described = describe_state state (direction_labels input.direction) in
    record {
      state = state;
      state_label = described.0;
      state_description = described.1;
      source_timelock_expiry = input.source_timelock * 1000;
      destination_timelock_expiry = input.destination_timelock * 1000;
      claimable_by = claim_description input.direction;
      refundable_by = refund_description input.direction;
    }

-- With both locks observed, the simulator says claimable exactly until the destination timelock, and
-- refundable exactly when the coordinator finds a refund eligible for the two timelocks; a lock that
-- was not observed leaves it waiting.
pub simulate_refund_timeline-evaluate_refund_eligibility :
    (input : RefundTimelineInput) (now : ℕ)
    → let both = input.source_lock_observed && input.destination_lock_observed in
      let state = (simulate_refund_timeline input now).state in
      let eligible =
        (evaluate_refund_eligibility
          ((ethereum, some input.source_timelock) ∷ (stellar, some input.destination_timelock) ∷ [])
          now).eligible in
      ((state ≡ claimable) ↔ ((both ≡ true) × (now ≤ input.destination_timelock)))
      × ((state ≡ refundable) ↔ ((both ≡ true) × (eligible ≡ true)))
      × (both ≡ false → state ≡ waiting)
unfolding simulate_refund_timeline evaluate_refund_eligibility
simulate_refund_timeline-evaluate_refund_eligibility input now = ground arith

-- For timelocks that pass the ordering test, time moves the state only forwards, from claimable
-- through waiting to refundable, and a state that is claimable leaves the gap until the source
-- timelock.
pub simulated_state_forwards :
    (input : RefundTimelineInput) (gap now later : ℕ)
    → now ≤ later
    → (validate_timelock_ordering input.source_timelock input.destination_timelock gap).is_valid
      ≡ true
    → let state = (simulate_refund_timeline input now).state in
      let state' = (simulate_refund_timeline input later).state in
      (state ≡ refundable → state' ≡ refundable)
      × (state' ≡ claimable → state ≡ claimable)
      × (state ≡ claimable → now + gap ≤ input.source_timelock)
unfolding simulate_refund_timeline validate_timelock_ordering
simulated_state_forwards input gap now later p v = ground arith
