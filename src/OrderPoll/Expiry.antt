-- ===== src/OrderPoll/Expiry.antt =====
-- What `expireAbandonedOrders` leaves to be monitored.
use over_sync.Prelude.{
  ℕ, ◌+◌, ◌≡◌, refl, ap, ◌∙◌, true, false, ◌&&◌, ◌||◌, not, Option, List, [], ◌∷◌, length, select,
  any, Text, text, text_beq, Bool-cases, inl, inr, arith,
}
use over_sync.OrderPoll.{
  ActiveOrder, is_monitored, needs_chain_monitoring, is_abandoned, expire_abandoned_orders,
}

module _ (parse_date : Text → Option ℕ) (max_age_ms now : ℕ) where
  expired_not_abandoned :
      (o : ActiveOrder)
      → is_abandoned parse_date max_age_ms now (record o { status = text "expired" }) ≡ false
  unfolding is_abandoned text_beq
  expired_not_abandoned o = refl

  expired_not_monitored :
      (o : ActiveOrder) → is_monitored (record o { status = text "expired" }) ≡ false
  unfolding text_beq
  expired_not_monitored o = refl

  expired_first :
      (o : ActiveOrder) (orders : List ActiveOrder)
      → is_abandoned parse_date max_age_ms now o ≡ true
      → let rest = expire_abandoned_orders parse_date max_age_ms now orders in
        expire_abandoned_orders parse_date max_age_ms now (o ∷ orders)
        ≡ (rest.0 + 1, record o { status = text "expired" } ∷ rest.1)
  unfolding expire_abandoned_orders
  expired_first o orders h = rw h refl

  kept_first :
      (o : ActiveOrder) (orders : List ActiveOrder)
      → is_abandoned parse_date max_age_ms now o ≡ false
      → let rest = expire_abandoned_orders parse_date max_age_ms now orders in
        expire_abandoned_orders parse_date max_age_ms now (o ∷ orders) ≡ (rest.0, o ∷ rest.1)
  unfolding expire_abandoned_orders
  kept_first o orders h = rw h refl

  -- `expireAbandonedOrders` counts the abandoned orders. After it the relayer monitors the chain just
  -- if an order needs it that was not abandoned, and at the same time a second call changes nothing.
  pub expire_abandoned_orders-needs_chain_monitoring :
      (orders : List ActiveOrder)
      → let out = expire_abandoned_orders parse_date max_age_ms now orders in
        (out.0 ≡ length (select (is_abandoned parse_date max_age_ms now) orders))
        × (needs_chain_monitoring out.1
            ≡ any (λ o. not (is_abandoned parse_date max_age_ms now o) && is_monitored o) orders)
        × (expire_abandoned_orders parse_date max_age_ms now out.1 ≡ (0, out.1))
  unfolding expire_abandoned_orders
  expire_abandoned_orders-needs_chain_monitoring [] = (refl, refl, refl)
  expire_abandoned_orders-needs_chain_monitoring (o ∷ orders) =
      let rest = expire_abandoned_orders-needs_chain_monitoring orders in
      let left = (expire_abandoned_orders parse_date max_age_ms now orders).1 in
      elim (Bool-cases (is_abandoned parse_date max_age_ms now o)) [
        | inl abandoned ↦
            let gone : ActiveOrder = record o { status = text "expired" } in
            rw (expired_first o orders abandoned) (
              rw abandoned (omega (arith, rest.0)),
              rw abandoned (rw (expired_not_monitored o) rest.1),
              kept_first gone left (expired_not_abandoned o) ∙ ap (λ r. (r.0, gone ∷ r.1)) rest.2,
            )
        | inr kept ↦ rw (kept_first o orders kept) (
          rw kept rest.0,
          rw kept (ap (λ b. is_monitored o || b) rest.1),
          kept_first o left kept ∙ ap (λ r. (r.0, o ∷ r.1)) rest.2,
        )
      ]
