-- ===== src/Timelock/Safety.antt =====
-- What the timelock tests guarantee together: an order that passes the ordering test leaves the
-- claimant the gap, and a refund is never open while a secret may be revealed.
use over_sync.Prelude.{
  ℕ, ◌+◌, ◌≤◌, ◌<◌, ◌≡◌, refl, ◌↔◌, inl, inr, true, false, Option, none, some, List, [], ◌∷◌, arith,
  Bool-cases, leb,
}
use over_sync.Timelock.{
  RefundChain, ethereum, stellar, timelocks_reversed, gap_too_small, src_timelock_expired,
  dst_timelock_expired, evaluate_refund_eligibility, validate_timelock_ordering,
  evaluate_secret_window,
}

-- The ordering test accepts exactly the pairs where the destination ends before the source by the
-- gap at least; it reports a reversal exactly where the destination does not end first, and a small
-- gap exactly where it ends first by less than the gap.
pub validate_timelock_ordering_iff :
    (src dst gap : ℕ)
    → let v = validate_timelock_ordering src dst gap in
      ((v.is_valid ≡ true) ↔ ((dst < src) × (dst + gap ≤ src)))
      × ((v.error ≡ some timelocks_reversed) ↔ (src ≤ dst))
      × ((v.error ≡ some gap_too_small) ↔ ((dst < src) × (src < dst + gap)))
      × ((v.is_valid ≡ true) ↔ (v.error ≡ none))
unfolding validate_timelock_ordering
validate_timelock_ordering_iff src dst gap = ground arith

-- Once both timelocks are set and ordered, a secret that is accepted leaves at least the gap until
-- the source timelock ends; between the two ends the window is closed by the destination timelock,
-- and after the source timelock by the source timelock.
pub secret_window_leaves_gap :
    (src dst gap now : ℕ)
    → 0 < dst
    → (validate_timelock_ordering src dst gap).is_valid ≡ true
    → let w = evaluate_secret_window (some src) (some dst) now in
      (w.is_open ≡ true → now + gap ≤ src)
      × ((w.error ≡ some dst_timelock_expired) ↔ ((dst < now) × (now ≤ src)))
      × ((w.error ≡ some src_timelock_expired) ↔ (src < now))
unfolding validate_timelock_ordering evaluate_secret_window
secret_window_leaves_gap src dst gap now p v = ground arith

-- Every entry of the list has a timelock, and it has passed.
abbrev pub AllPassed : ℕ → List (RefundChain × Option ℕ) → Type 0
AllPassed now [] = Unit
AllPassed now ((chain, none) ∷ rest) = ⊥
AllPassed now ((chain, some timelock) ∷ rest) = (timelock < now) × AllPassed now rest

-- A refund is eligible exactly when every side has a timelock that has passed.
pub evaluate_refund_eligibility_iff :
    (timelocks : List (RefundChain × Option ℕ)) (now : ℕ)
    → ((evaluate_refund_eligibility timelocks now).eligible ≡ true) ↔ AllPassed now timelocks
unfolding evaluate_refund_eligibility
evaluate_refund_eligibility_iff [] now = (λ _. tt, λ _. refl)
evaluate_refund_eligibility_iff ((chain, none) ∷ rest) now = (λ h. cc, λ h. absurd h)
evaluate_refund_eligibility_iff ((chain, some timelock) ∷ rest) now =
    elim (Bool-cases (leb now timelock)) [
      | inl y ↦ (λ h. ground arith, λ h. ground arith)
      | inr n ↦ (
        λ h. ground (arith, evaluate_refund_eligibility_iff rest now),
        λ h. ground (arith, evaluate_refund_eligibility_iff rest now),
      )
    ]

-- If the source timelock is set and a refund of an order with both timelocks is eligible, then the
-- secret window is closed, and the refund stays eligible at every later time.
pub refund_excludes_reveal :
    (src dst now later : ℕ)
    → 0 < src
    → now ≤ later
    → (evaluate_refund_eligibility ((ethereum, some src) ∷ (stellar, some dst) ∷ []) now).eligible
      ≡ true
    → ((evaluate_secret_window (some src) (some dst) now).is_open ≡ false)
      × ((evaluate_refund_eligibility
            ((ethereum, some src) ∷ (stellar, some dst) ∷ [])
            later).eligible
          ≡ true)
unfolding evaluate_refund_eligibility evaluate_secret_window
refund_excludes_reveal src dst now later p q h = ground arith
