-- ===== src/ListenerEvents/Applied.antt =====
-- What `OrderEventApplier.apply` does to the order book and answers.
use over_sync.Prelude.{
  ℕ, ◌≡◌, ◌⊎◌, Bool, true, false, ◌&&◌, ◌||◌, Option, none, some, List, ◌==◌, find, Text, text_eq,
  option_eq, to_lower_case,
}
use over_sync.Order.{chain_beq, Chain, OrderRow}
use over_sync.Errors.{Result, ok, Action}
use over_sync.Store.{Store}
use over_sync.Service.Commands.{Command}
use over_sync.ListenerEvents.{BridgeEventKind, lock, BridgeOrderEvent, BridgeEventOutcome}
use over_sync.ListenerEvents.Commands.{Prescribed, is_applied, Obeyed, finish}

-- The event names the order by its hashlock, or by its id on the event's chain; a lock by its hashlock.
abbrev by_hash : Option Text → OrderRow → Bool
by_hash none order = false
by_hash (some h) order = order.hashlock == to_lower_case h

abbrev on_chain : Chain → Option Text → OrderRow → Bool
on_chain chain none order = false
on_chain chain (some id) order =
    (chain_beq order.src_chain chain && order.src_order_id == some id)
    || (chain_beq order.dst_chain chain && order.dst_order_id == some id)

abbrev pub is_named : BridgeOrderEvent → BridgeEventKind → OrderRow → Bool
is_named event lock order = by_hash event.hashlock order
is_named event _ order = on_chain event.chain event.order_id order || by_hash event.hashlock order

-- A row of the table that the event names
abbrev pub Found : BridgeOrderEvent → Store → OrderRow → Type 0
Found event s order =
    ((p : OrderRow → Bool) × (find p s.orders ≡ some order))
    × (is_named event event.kind order ≡ true)

-- The event was not applied and nothing changed, or its commands were given for an order that it names.
abbrev pub Decided : ℕ → Text → BridgeOrderEvent → Store → BridgeEventOutcome × Store → Type 0
Decided min_gap writer event s out =
    ((is_applied out.0 ≡ false) × (out.1 ≡ s))
    ⊎ ((order : OrderRow) × (commands : List Command) × Found event s order
        × Prescribed writer event order commands
        × Obeyed min_gap commands order.public_id s out)

module _ (min_gap : ℕ) (writer : Text) (event : BridgeOrderEvent) (s : Store) where
  abbrev Ends : Result BridgeEventOutcome × Store → Type 0
  Ends out = Decided min_gap writer event s (finish out)

  -- A look-up reads the store, never fails, and finds only an order that the event names.
  abbrev Finds : Action Store (Option OrderRow) → Type 0
  Finds m =
      (found : Option OrderRow) × (m s ≡ (ok found, s))
      × ((order : OrderRow) → found ≡ some order → Found event s order)
