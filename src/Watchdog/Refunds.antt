-- ===== src/Watchdog/Refunds.antt =====
-- When the watchdog refunds an order, how often, and what keeps it from it.
use over_sync.Prelude.{
  ℕ, ◌+◌, ◌≤◌, ◌<◌, ◌≡◌, ◌⊎◌, refl, sym, ap, ◌∙◌, true, false, Option, none, some, List, [], ◌∷◌,
  length, length-append, ◌=ℕ◌, Text, text, option_eq, text_eq, ◌==◌, Bool-cases, Option-cases, inl,
  inr, arith,
}
use over_sync.Relay.Tracker.{get_blocking_record, Tracker, or_option}
use over_sync.Relay.Restore.{is_set}
use over_sync.Watchdog.{
  WatchdogOrder, WatchdogConfig, is_xlm_to_eth_awaiting_eth, watchdog_refund_action, backs_off,
  too_young, started_at, SubmitReply, submission, thrown, skipped, refunded, failed_attempt, Sight,
  paid, after_hash, after_submit, is_due, turn, Watched, WatchEvent, turn_starts, submit_ends,
  refund_of, begins, observe, watch,
}

awaiting_facts :
    (order : WatchdogOrder)
    → is_xlm_to_eth_awaiting_eth order ≡ true
    → ((order.direction == some (text "xlm_to_eth")) ≡ true)
      × (is_set order.stellar_tx_hash ≡ true)
      × (is_set order.refund_tx_hash ≡ false)
unfolding is_xlm_to_eth_awaiting_eth
awaiting_facts order h = ground (arith, h)

module _ (cfg : WatchdogConfig) where
  due_facts :
      (now : ℕ) (order : WatchdogOrder)
      → is_due cfg now order ≡ true
      → (is_xlm_to_eth_awaiting_eth order ≡ true)
        × (backs_off now order.watchdog_failed_at ≡ false)
        × (too_young now cfg.stale_after_ms (started_at cfg order) ≡ false)
        × (is_set order.stellar_address ≡ true)
  unfolding is_due
  due_facts now order h = ground (arith, h)

  after_hash-refunded :
      (hash : Option Text) (ended_at : ℕ) (order : WatchdogOrder) (paid_by : Text)
      → (after_hash hash ended_at order).0 ≡ refunded paid_by
      → (is_set (some paid_by) ≡ true)
        × ((after_hash hash ended_at order).1 ≡ paid paid_by ended_at order)
  after_hash-refunded none ended_at order paid_by e = absurd (ground arith)
  after_hash-refunded (some []) ended_at order paid_by e = absurd (ground arith)
  after_hash-refunded (some (c ∷ s)) ended_at order paid_by e =
      let same : c ∷ s ≡ paid_by = cc e in
      (ap (λ t. is_set (some t)) (sym same), ap (λ t. paid t ended_at order) same)

  turn_due :
      (now : ℕ) (key : Text) (sight : Sight) (order : WatchdogOrder)
      → is_due cfg now order ≡ false
      → turn cfg now key sight order ≡ (skipped, order)
  unfolding turn
  turn_due now key sight order h = rw h refl

  after_submit-refunded :
      (reply : SubmitReply) (ended_at : ℕ) (order : WatchdogOrder) (paid_by : Text)
      → (after_submit reply ended_at order).0 ≡ refunded paid_by
      → (is_set (some paid_by) ≡ true)
        × ((after_submit reply ended_at order).1 ≡ paid paid_by ended_at order)
  unfolding after_submit
  after_submit-refunded (submission tx_hash result_hash) ended_at order paid_by e =
      after_hash-refunded (or_option tx_hash result_hash) ended_at order paid_by e
  after_submit-refunded _ ended_at order paid_by e = absurd (ground arith)

  -- A turn skips the order, or goes on with `submit`.
  turn-cases :
      (now : ℕ) (key : Text) (sight : Sight) (order : WatchdogOrder)
      → (turn cfg now key sight order ≡ (skipped, order))
        ⊎ ((is_due cfg now order ≡ true)
            × (get_blocking_record cfg.tracker_config
                  (watchdog_refund_action key order cfg.network_mode)
                  sight.tracker
                ≡ none)
            × (turn cfg now key sight order ≡ after_submit sight.reply sight.ended_at order))
  unfolding turn
  turn-cases now key sight order = elim (Bool-cases (is_due cfg now order)) [
    | inr early ↦ inl (rw early refl)
    | inl due ↦
        elim (Option-cases (
          get_blocking_record cfg.tracker_config (watchdog_refund_action key order cfg.network_mode)
            sight.tracker)) [
              | inr (i, busy) ↦ inl (rw (due, busy) refl)
              | inl free ↦ inr (due, free, rw (due, free) refl)
            ]
  ]

  abbrev Paying : ℕ → Text → Sight → WatchdogOrder → Text → Type 0
  Paying now key sight order paid_by =
      (is_due cfg now order ≡ true)
      × (get_blocking_record cfg.tracker_config (watchdog_refund_action key order cfg.network_mode)
            sight.tracker
          ≡ none)
      × (is_set (some paid_by) ≡ true)
      × ((turn cfg now key sight order).1 ≡ paid paid_by sight.ended_at order)

  turn-refunded :
      (now : ℕ) (key : Text) (sight : Sight) (order : WatchdogOrder) (paid_by : Text)
      → (turn cfg now key sight order).0 ≡ refunded paid_by
      → Paying now key sight order paid_by
  turn-refunded now key sight order paid_by e = elim (turn-cases now key sight order) [
    | inl skips ↦ absurd (ground (arith, sym (ap (λ t. t.0) skips) ∙ e))
    | inr (due, free, asks) ↦
        let facts =
          after_submit-refunded sight.reply sight.ended_at order paid_by
            (sym (ap (λ t. t.0) asks) ∙ e) in
        (due, free, facts.0, ap (λ t. t.1) asks ∙ facts.1)
  ]

  -- A refund that a turn of a scan pays goes to an order from XLM to ETH with a Stellar transaction and
  -- an address, that has no refund yet, whose known start lies `staleAfterMs` or more before the scan,
  -- and of which the tracker holds no live submission of another action. The order then holds the
  -- hash of the refund.
  pub turn-refunded_facts :
      (now : ℕ) (key : Text) (sight : Sight) (order : WatchdogOrder) (paid_by : Text)
      → (turn cfg now key sight order).0 ≡ refunded paid_by
      → ((order.direction == some (text "xlm_to_eth")) ≡ true)
        × (is_set order.stellar_tx_hash ≡ true)
        × (is_set order.stellar_address ≡ true)
        × (is_set order.refund_tx_hash ≡ false)
        × ((t : ℕ) × (started_at cfg order ≡ some t) × (t + cfg.stale_after_ms ≤ now))
        × (get_blocking_record cfg.tracker_config
              (watchdog_refund_action key order cfg.network_mode)
              sight.tracker
            ≡ none)
        × ((turn cfg now key sight order).1.refund_tx_hash ≡ some paid_by)
  turn-refunded_facts now key sight order paid_by e =
      let pays = turn-refunded now key sight order paid_by e in
      let due = due_facts now order pays.0 in
      let awaits = awaiting_facts order due.0 in
      (
        awaits.0,
        awaits.1,
        due.3,
        awaits.2,
        old_enough (started_at cfg order) due.2,
        pays.1,
        ap (λ (o : WatchdogOrder). o.refund_tx_hash) pays.3,
      )
    where
      old_enough :
          (started : Option ℕ)
          → too_young now cfg.stale_after_ms started ≡ false
          → (t : ℕ) × (started ≡ some t) × (t + cfg.stale_after_ms ≤ now)
      old_enough none h = absurd (ground (arith, h))
      old_enough (some t) h = (t, refl, ground (arith, h))

  refunded_not_due :
      (now : ℕ) (order : WatchdogOrder)
      → is_set order.refund_tx_hash ≡ true
      → is_due cfg now order ≡ false
  refunded_not_due now order h = elim (Bool-cases (is_due cfg now order)) [
    | inl due ↦ absurd (ground (arith, h, (awaiting_facts order (due_facts now order due).0).2))
    | inr early ↦ early
  ]

  -- How many refunds may still be marked
  abbrev Spent : Watched → List Text × Watched → Type 0
  Spent w out =
      (length out.0 + out.1.waiting ≤ w.waiting) × (is_set out.1.order.refund_tx_hash ≡ true)

  after_submit-is_set :
      (reply : SubmitReply) (ended_at : ℕ) (order : WatchdogOrder)
      → is_set order.refund_tx_hash ≡ true
      → let out = after_submit reply ended_at order in
        (is_set out.1.refund_tx_hash ≡ true) × (length (refund_of out.0) ≤ 1)
  unfolding after_submit
  after_submit-is_set (submission tx_hash result_hash) ended_at order h =
      by_hash (or_option tx_hash result_hash)
    where
      by_hash :
          (hash : Option Text)
          → let out = after_hash hash ended_at order in
            (is_set out.1.refund_tx_hash ≡ true) × (length (refund_of out.0) ≤ 1)
      by_hash none = (h, omega arith)
      by_hash (some []) = (h, omega arith)
      by_hash (some (c ∷ s)) = (refl, omega arith)
  after_submit-is_set (thrown message) ended_at order h = (h, omega arith)
  after_submit-is_set _ ended_at order h = (h, omega arith)

  observe-Spent :
      (key : Text) (e : WatchEvent) (w : Watched)
      → is_set w.order.refund_tx_hash ≡ true
      → Spent w (observe cfg key e w)
  unfolding observe
  observe-Spent key (turn_starts now tracker) w h =
      rw (refunded_not_due now w.order h) (omega arith, h)
  observe-Spent key (submit_ends reply ended_at) w h = elim (Bool-cases (w.waiting =ℕ 0)) [
    | inl idle ↦ rw idle (omega arith, h)
    | inr busy ↦
        let more : 1 ≤ w.waiting = ground (arith, busy) in
        let ends = after_submit-is_set reply ended_at w.order h in
        rw busy (omega (arith, more, ends.1), ends.0)
  ]

  -- However the turns of overlapping scans interleave, and whatever the tracker holds and answers: once an
  -- order has the hash of a refund it keeps one, no turn that reaches it, whenever it does, goes on to
  -- `submit`, and no more refunds are marked than turns were waiting for their `submit` then; none, if
  -- none was.
  pub watch-refunded :
      (key : Text) (events : List WatchEvent) (w : Watched)
      → is_set w.order.refund_tx_hash ≡ true
      → (length (watch cfg key events w).0 + (watch cfg key events w).1.waiting ≤ w.waiting)
        × (is_set (watch cfg key events w).1.order.refund_tx_hash ≡ true)
        × ((now : ℕ) (tracker : Tracker)
            → begins cfg key now tracker (watch cfg key events w).1.order ≡ false)
  unfolding watch
  watch-refunded key [] w h =
      (omega arith, h, λ now tracker. rw (refunded_not_due now w.order h) refl)
  watch-refunded key (e ∷ es) w h =
      let here = observe cfg key e w in
      let step = observe-Spent key e w h in
      let rest = watch-refunded key es here.1 step.1 in
      (
        omega (arith, length-append here.0 (watch cfg key es here.1).0, step.0, rest.0),
        rest.1,
        rest.2,
      )

  after_hash-failed_attempt :
      (hash : Option Text) (ended_at : ℕ) (order : WatchdogOrder)
      → (after_hash hash ended_at order).0 ≡ failed_attempt
      → (after_hash hash ended_at order).1.watchdog_failed_at ≡ some ended_at
  after_hash-failed_attempt none ended_at order e = refl
  after_hash-failed_attempt (some []) ended_at order e = refl
  after_hash-failed_attempt (some (c ∷ s)) ended_at order e = absurd (ground arith)

  after_submit-failed_attempt :
      (reply : SubmitReply) (ended_at : ℕ) (order : WatchdogOrder)
      → (after_submit reply ended_at order).0 ≡ failed_attempt
      → (after_submit reply ended_at order).1.watchdog_failed_at ≡ some ended_at
  unfolding after_submit
  after_submit-failed_attempt (submission tx_hash result_hash) ended_at order e =
      after_hash-failed_attempt (or_option tx_hash result_hash) ended_at order e
  after_submit-failed_attempt (thrown message) ended_at order e = refl
  after_submit-failed_attempt _ ended_at order e = absurd (ground arith)

  turn-failed_attempt :
      (now : ℕ) (key : Text) (sight : Sight) (order : WatchdogOrder)
      → (turn cfg now key sight order).0 ≡ failed_attempt
      → (turn cfg now key sight order).1.watchdog_failed_at ≡ some sight.ended_at
  turn-failed_attempt now key sight order e = elim (turn-cases now key sight order) [
    | inl skips ↦ absurd (ground (arith, sym (ap (λ t. t.0) skips) ∙ e))
    | inr (due, free, asks) ↦
        ap (λ t. t.1.watchdog_failed_at) asks
        ∙ after_submit-failed_attempt sight.reply sight.ended_at order
            (sym (ap (λ t. t.0) asks) ∙ e)
  ]

  not_due_yet :
      (now : ℕ) (order : WatchdogOrder)
      → backs_off now order.watchdog_failed_at ≡ true
      → is_due cfg now order ≡ false
  not_due_yet now order h = elim (Bool-cases (is_due cfg now order)) [
    | inl due ↦ absurd (ground (arith, h, (due_facts now order due).1))
    | inr early ↦ early
  ]

  -- After a turn whose submission failed with another error than the tracker's own three, at a time
  -- that is not 0, every scan that starts less than ten minutes later skips the order.
  pub failed_attempt_waits :
      (now : ℕ) (key : Text) (sight : Sight) (order : WatchdogOrder)
      → (turn cfg now key sight order).0 ≡ failed_attempt
      → 0 < sight.ended_at
      → (later : ℕ) (other : Sight) → later < sight.ended_at + 600000
      → let order' = (turn cfg now key sight order).1 in
        turn cfg later key other order' ≡ (skipped, order')
  failed_attempt_waits now key sight order e positive later other soon =
      turn_due later key other _ (
        not_due_yet later _ (
          ap (backs_off later) (turn-failed_attempt now key sight order e)
          ∙ ground (arith, positive, soon)))
