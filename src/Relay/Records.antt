-- ===== src/Relay/Records.antt =====
-- The types of relayer/src/relay-submission-tracker.ts, and `PersistedSubmission` of
-- relayer/src/relay-submission-store.ts. A result is its JSON text.
use over_sync.Prelude.{ℕ, ◌≡◌, refl, ◌↔◌, Bool, true, false, Option, Text, JsEqual, arith}

pub data RelayStatus : Type 0 where
  in_flight pending succeeded failed : RelayStatus

abbrev pub relay_status_beq : RelayStatus → RelayStatus → Bool
relay_status_beq in_flight in_flight = true
relay_status_beq pending pending = true
relay_status_beq succeeded succeeded = true
relay_status_beq failed failed = true
relay_status_beq _ _ = false

pub relay_status_beq_iff : (a b : RelayStatus) → (relay_status_beq a b ≡ true) ↔ (a ≡ b)
relay_status_beq_iff in_flight in_flight = (λ _. refl, λ _. refl)
relay_status_beq_iff _ _ = (λ h. ground arith, λ h. ground arith)

instance abbrev pub relay_status_eq : JsEqual RelayStatus
relay_status_eq = record { equals = relay_status_beq; equals_iff = relay_status_beq_iff }

-- `RelayTerminalReason`, of which `failed` is spelt `failed_on_chain` here
pub data RelayTerminalReason : Type 0 where
  failed_on_chain not_found non_retryable staging_failed : RelayTerminalReason

-- `RelayAction`; `destination`, `amount` and `extra` are for diagnostics and no code reads them.
pub record RelayAction : Type 0 where
  pub order_id : Text
  pub side : Text
  pub action : Text
  pub chain : Text
  pub network : Option Text

-- `StagedSubmission`, without the closure that broadcasts
pub record StagedSubmission : Type 0 where
  pub tx_hash : Text
  pub network : Option Text

pub record SubmissionRecord : Type 0 where
  pub key : Text
  pub order_key : Text
  pub action : RelayAction
  pub status : RelayStatus
  pub attempts : ℕ
  pub max_attempts : ℕ
  pub broadcasts : ℕ
  pub tx_hash : Option Text
  pub network : Option Text
  pub last_error : Option Text
  pub terminal_reason : Option RelayTerminalReason
  pub result : Option Text
  pub first_seen_at : ℕ
  pub last_attempt_at : Option ℕ
  pub completed_at : Option ℕ
  pub restored : Bool

-- A status that a store may hold: what else is there is `unknown`.
pub data StoredStatus : Type 0 where
  known : RelayStatus → StoredStatus
  unknown : Text → StoredStatus

pub record PersistedSubmission : Type 0 where
  pub key : Text
  pub order_key : Text
  pub order_id : Text
  pub side : Text
  pub action : Text
  pub chain : Text
  pub network : Option Text
  pub tx_hash : Option Text
  pub status : StoredStatus
  pub attempts : ℕ
  pub max_attempts : ℕ
  pub broadcasts : ℕ
  pub last_error : Option Text
  pub terminal_reason : Option RelayTerminalReason
  pub result : Option Text
  pub first_seen_at : ℕ
  pub last_attempt_at : Option ℕ
  pub completed_at : Option ℕ

-- `RelayConfirmationState`
pub data RelayConfirmationState : Type 0 where
  is_succeeded is_failed is_pending is_not_found : RelayConfirmationState

pub record RelayConfirmation : Type 0 where
  pub state : RelayConfirmationState
  pub error : Option Text
  pub result : Option Text

-- What `await this.cfg.confirm(ref)` does: it answers, or throws with a message.
pub data ConfirmReply : Type 0 where
  answered : RelayConfirmation → ConfirmReply
  threw : Text → ConfirmReply

pub data RelayTrackerEventType : Type 0 where
  attempt broadcast retry confirmation_pending confirmation_timeout : RelayTrackerEventType
  success terminal_failure duplicate_skipped in_flight_skipped order_busy : RelayTrackerEventType

pub record RelayTrackerEvent : Type 0 where
  pub type : RelayTrackerEventType
  pub key : Text
  pub order_key : Text
  pub action : RelayAction
  pub attempt : ℕ
  pub max_attempts : ℕ
  pub tx_hash : Option Text
  pub network : Option Text
  pub blocking_key : Option Text
  pub error : Option Text

-- `RelayOutcome` without its record, and its `status` as the flag `already_handled`
pub record RelayOutcome : Type 0 where
  pub already_handled : Bool
  pub result : Option Text
  pub duplicate : Bool
  pub tx_hash : Option Text
  pub network : Option Text
  pub reconciled : Bool

-- The errors, with the fields that they carry
pub data RelaySubmissionError : Type 0 where
  terminal_error : Text → ℕ → Option Text → RelayTerminalReason → RelaySubmissionError
  confirmation_timeout_error : Text → Option Text → Option Text → ℕ → RelaySubmissionError
  in_flight_error : Text → RelaySubmissionError
  order_busy_error : Text → Text → RelayStatus → Text → RelaySubmissionError

-- What a caller of `submit` has after a step: nothing yet, a wait for the operation of the key that
-- runs, the promise's value, or an error.
pub data Response : Type 0 where
  waiting : Response
  joined : Response
  resolved : RelayOutcome → Response
  rejected : RelaySubmissionError → Response
