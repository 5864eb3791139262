-- ===== src/Watchdog.antt =====
-- The scans of relayer/src/refund-watchdog.ts, over the tracker of Relay. `Date.parse` is a parameter;
-- what the tracker holds when a turn asks it, and what `submit` answers in the end, are arguments. In
-- `turn` nothing changes the order while it waits for `submit`; in `watch` other turns may, no other code.
pub mod Refunds
use over_sync.Prelude.{
  ℕ, ◌+◌, ◌*◌, Bool, true, false, ◌&&◌, ◌||◌, not, is_empty, Option, none, some, List, [], ◌∷◌,
  ◌++◌, ◌-◌, ltb, ◌=ℕ◌, ◌==◌, option_eq, text_eq, if◌then◌else◌, Text, text,
}
use over_sync.Relay.Records.{RelayAction}
use over_sync.Relay.Tracker.{RelayTrackerConfig, Tracker, get_blocking_record, or_option}
use over_sync.Relay.Restore.{is_set}

-- A time as an order may hold it: a number, or a date in a text
pub data Moment : Type 0 where
  number : ℕ → Moment
  date : Text → Moment

-- `WatchdogOrder`, with the fields that the code reads or writes
pub record WatchdogOrder : Type 0 where
  pub order_id : Option Text
  pub direction : Option Text
  pub status : Option Text
  pub stellar_address : Option Text
  pub stellar_tx_hash : Option Text
  pub xlm_received_at : Option Moment
  pub created : Option Moment
  pub network_mode : Option Text
  pub refund_tx_hash : Option Text
  pub refunded_at : Option ℕ
  pub watchdog_failed_at : Option ℕ
  pub watchdog_failure_reason : Option Text

-- `WatchdogConfig`, with the tracker's own configuration
pub record WatchdogConfig : Type 0 where
  pub tracker_config : RelayTrackerConfig
  pub stale_after_ms : ℕ
  pub network_mode : Text
  pub parse_date : Text → Option ℕ

-- `toMillis`
unfoldable pub to_millis : (Text → Option ℕ) → Option Moment → Option ℕ
to_millis parse_date none = none
to_millis parse_date (some (number n)) = some (if ltb 1000000000000 n then n else n * 1000)
to_millis parse_date (some (date s)) = parse_date s

-- A number that a condition takes as true
abbrev pub is_nonzero : Option ℕ → Bool
is_nonzero none = false
is_nonzero (some n) = not (n =ℕ 0)

-- `isXlmToEthAwaitingEth`
unfoldable pub is_xlm_to_eth_awaiting_eth : WatchdogOrder → Bool
is_xlm_to_eth_awaiting_eth order =
    if not (order.direction == some (text "xlm_to_eth"))
    then false
    else if not (is_set order.stellar_tx_hash)
    then false
    else if is_set order.refund_tx_hash || is_nonzero order.refunded_at
    then false
    else if order.status == some (text "eth_tx_sent") || order.status == some (text "completed")
    then false
    else if order.status == some (text "refunded")
    then false
    else true

-- `x || y` of texts
abbrev set_or : Option Text → Text → Text
set_or none other = other
set_or (some []) other = other
set_or (some (c ∷ s)) other = c ∷ s

-- `watchdogRefundAction`
abbrev pub watchdog_refund_action : Text → WatchdogOrder → Text → RelayAction
watchdog_refund_action order_id order network_mode = record {
  order_id = set_or order.order_id order_id;
  side = text "xlm_to_eth";
  action = text "refund";
  chain = text "stellar";
  network = some (set_or order.network_mode network_mode);
}

-- `order.watchdogFailedAt && now - order.watchdogFailedAt < 10 * 60_000`
abbrev pub backs_off : ℕ → Option ℕ → Bool
backs_off now none = false
backs_off now (some failed_at) = not (failed_at =ℕ 0) && ltb now (failed_at + 600000)

-- `!startedAt`, or an age below `staleAfterMs`
abbrev pub too_young : (now stale_after_ms : ℕ) → Option ℕ → Bool
too_young now stale_after_ms none = true
too_young now stale_after_ms (some started_at) =
    started_at =ℕ 0 || ltb now (started_at + stale_after_ms)

-- How the call of `submit` ends: a submission with its hash and its result's, one of the tracker's
-- errors, or another error with its message.
pub data SubmitReply : Type 0 where
  submission : (tx_hash result_hash : Option Text) → SubmitReply
  order_is_busy terminal_error confirmation_timeout : SubmitReply
  thrown : (message : Text) → SubmitReply

-- What a turn of the loop does about an order.
pub data TurnOutcome : Type 0 where
  skipped : TurnOutcome
  refunded : (tx_hash : Text) → TurnOutcome
  not_refunded : TurnOutcome
  failed_attempt : TurnOutcome

-- What a turn meets: the tracker, and how and when its `submit` ends.
pub record Sight : Type 0 where
  pub tracker : Tracker
  pub reply : SubmitReply
  pub ended_at : ℕ

abbrev attempt_failed : Text → ℕ → WatchdogOrder → TurnOutcome × WatchdogOrder
attempt_failed message ended_at order = (
  failed_attempt,
  record order { watchdog_failed_at = some ended_at; watchdog_failure_reason = some message },
)

-- The writes of a refund
abbrev pub paid : Text → ℕ → WatchdogOrder → WatchdogOrder
paid tx_hash ended_at order = record order {
  status = some (text "refunded");
  refund_tx_hash = some tx_hash;
  refunded_at = some ended_at;
  watchdog_failed_at = none;
}

abbrev after_hash : Option Text → ℕ → WatchdogOrder → TurnOutcome × WatchdogOrder
after_hash none ended_at order =
    attempt_failed (text "refund submission returned no transaction hash") ended_at order
after_hash (some []) ended_at order =
    attempt_failed (text "refund submission returned no transaction hash") ended_at order
after_hash (some (c ∷ s)) ended_at order = (refunded (c ∷ s), paid (c ∷ s) ended_at order)

-- The turn from `submit` on
unfoldable pub after_submit : SubmitReply → ℕ → WatchdogOrder → TurnOutcome × WatchdogOrder
after_submit (submission tx_hash result_hash) ended_at order =
    after_hash (or_option tx_hash result_hash) ended_at order
after_submit (thrown message) ended_at order = attempt_failed message ended_at order
after_submit _ ended_at order = (not_refunded, order)

module _ (cfg : WatchdogConfig) where
  -- `toMillis(order.xlmReceivedAt) ?? toMillis(order.created)`
  abbrev pub started_at : WatchdogOrder → Option ℕ
  unfolding to_millis
  started_at order =
      or_option (to_millis cfg.parse_date order.xlm_received_at)
        (to_millis cfg.parse_date order.created)

  -- The tests of a turn before it asks the tracker
  unfoldable pub is_due : ℕ → WatchdogOrder → Bool
  unfolding is_xlm_to_eth_awaiting_eth to_millis
  is_due now order =
      if not (is_xlm_to_eth_awaiting_eth order)
      then false
      else if backs_off now order.watchdog_failed_at
      then false
      else if too_young now cfg.stale_after_ms (started_at order)
      then false
      else is_set order.stellar_address

  abbrev pub ask_tracker : Option ℕ → Sight → WatchdogOrder → TurnOutcome × WatchdogOrder
  unfolding after_submit
  ask_tracker (some blocking) sight order = (skipped, order)
  ask_tracker none sight order = after_submit sight.reply sight.ended_at order

  -- A turn of the loop of `scan`
  unfoldable pub turn : ℕ → Text → Sight → WatchdogOrder → TurnOutcome × WatchdogOrder
  unfolding is_due after_submit
  turn now key sight order =
      let action = watchdog_refund_action key order cfg.network_mode in
      if is_due now order
      then ask_tracker (get_blocking_record cfg.tracker_config action sight.tracker) sight order
      else (skipped, order)

-- The turns of one order. `setInterval` starts a scan while an older one still waits for its `submit`, so
-- several turns of one order may be at their await: `waiting` counts them.
pub record Watched : Type 0 where
  pub order : WatchdogOrder
  pub waiting : ℕ

-- A turn of a scan that started at `now` reaches the order, or the `submit` of one that waits ends.
pub data WatchEvent : Type 0 where
  turn_starts : (now : ℕ) (tracker : Tracker) → WatchEvent
  submit_ends : (reply : SubmitReply) (ended_at : ℕ) → WatchEvent

abbrev pub refund_of : TurnOutcome → List Text
refund_of (refunded tx_hash) = tx_hash ∷ []
refund_of _ = []

abbrev is_none {ℓ} : {A : Type ℓ} → Option A → Bool
is_none none = true
is_none (some a) = false

module _ (cfg : WatchdogConfig) (key : Text) where
  -- A turn goes on to `submit`.
  abbrev pub begins : ℕ → Tracker → WatchdogOrder → Bool
  unfolding is_due
  begins now tracker order =
      is_due cfg now order
      && is_none (
          get_blocking_record cfg.tracker_config (watchdog_refund_action key order cfg.network_mode)
            tracker)

  -- The refunds that are marked, and what becomes of the order
  unfoldable pub observe : WatchEvent → Watched → List Text × Watched
  unfolding is_due after_submit
  observe (turn_starts now tracker) w =
      if begins now tracker w.order then ([], record w { waiting = w.waiting + 1 }) else ([], w)
  observe (submit_ends reply ended_at) w =
      let out = after_submit reply ended_at w.order in
      if w.waiting =ℕ 0
      then ([], w)
      else (refund_of out.0, record { order = out.1; waiting = w.waiting - 1 })

  unfoldable pub watch : List WatchEvent → Watched → List Text × Watched
  unfolding observe
  watch [] w = ([], w)
  watch (e ∷ es) w =
      let here = observe e w in let later = watch es here.1 in (here.0 ++ later.0, later.1)
