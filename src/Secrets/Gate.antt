-- ===== src/Secrets/Gate.antt =====
-- What a reveal that succeeds has passed.
use over_sync.Prelude.{
  ℕ, ◌/◌, ◌≡◌, refl, ◌⊎◌, inl, inr, Bool, true, false, not, Option, none, some, List, [], ◌∷◌,
  arith, ◌==◌, if◌then◌else◌, Text, text_eq, text_beq_iff, to_lower_case,
}
use over_sync.Decimal.{to_bigint}
use over_sync.Timelock.{evaluate_secret_window}
use over_sync.Order.{OrderRow}
use over_sync.Errors.{ok, ServiceError, Action, pure, throw}
use over_sync.Store.{Store, find_row, find_by_public_id, find_by_preimage}
use over_sync.Service.{record_secret}
use over_sync.Secrets.{
  is_valid_secret_format, known_ids, cons_some, compare_digest, hash_order_preimage, matches_id,
  matches_known_orders, reveal_new, reveal_matched, reveal_checked, reveal_found, reveal,
}

compare_digest-true :
    (o : Option Text) (hashlock : Text) → compare_digest o hashlock ≡ some true → o ≡ some hashlock
compare_digest-true none hashlock h = ground arith
compare_digest-true (some digest) hashlock h = ground (arith, text_beq_iff digest hashlock)

gated :
    (b : Bool) (m : Action Store (Unit {0})) (e : ServiceError) (s : Store)
    → ((if b then m else throw e) s).0 ≡ ok tt
    → (b ≡ true) × (m s ≡ (ok tt, ((if b then m else throw e) s).1))
gated true m e s h = (refl, ground arith)
gated false m e s h = ground arith

ungated :
    (b : Bool) (m : Action Store (Unit {0})) (e : ServiceError) (s : Store)
    → ((if b then throw e else m) s).0 ≡ ok tt
    → (b ≡ false) × ((m s).0 ≡ ok tt)
ungated true m e s h = ground arith
ungated false m e s h = (refl, h)

module _ (sha256 : List ℕ → Text) where
  -- One of the order's ids on the chains, with the preimage, hashes to the order's hashlock.
  abbrev pub Opens : Text → OrderRow → Type 0
  Opens canonical order =
      (id : Text) × ((order.src_order_id ≡ some id) ⊎ (order.dst_order_id ≡ some id))
      × (hash_order_preimage sha256 (to_bigint id) canonical ≡ some order.hashlock)

  matches_id-opens :
      (canonical : Text) (order : OrderRow) (id : Text)
      → matches_id sha256 canonical order id ≡ some true
      → hash_order_preimage sha256 (to_bigint id) canonical ≡ some order.hashlock
  matches_id-opens canonical order id h =
      compare_digest-true (hash_order_preimage sha256 (to_bigint id) canonical) order.hashlock
        (ground arith)

  first_match :
      (canonical : Text) (order : OrderRow) (id : Text) (ids : List Text)
      → matches_known_orders sha256 canonical order (id ∷ ids) ≡ some true
      → (matches_id sha256 canonical order id ≡ some true)
        ⊎ (matches_known_orders sha256 canonical order ids ≡ some true)
  unfolding matches_known_orders
  first_match canonical order id ids h =
      split (matches_id sha256 canonical order id) (matches_known_orders sha256 canonical order ids)
        h
    where
      split :
          (first rest : Option Bool)
          → (elim first [ none ↦ none | some matched ↦ if matched then some true else rest ])
            ≡ some true
          → (first ≡ some true) ⊎ (rest ≡ some true)
      split none rest h = ground arith
      split (some true) rest h = inl refl
      split (some false) rest h = inr h

  matches_dst :
      (canonical : Text) (order : OrderRow) (dst : Option Text)
      → matches_known_orders sha256 canonical order (cons_some dst []) ≡ some true
      → (id : Text) × (dst ≡ some id)
        × (hash_order_preimage sha256 (to_bigint id) canonical ≡ some order.hashlock)
  unfolding matches_known_orders
  matches_dst canonical order none h = ground arith
  matches_dst canonical order (some id) h = elim (first_match canonical order id [] h) [
    | inl this ↦ (id, refl, matches_id-opens canonical order id this)
    | inr later ↦ absurd (ground arith)
  ]

  matches_both :
      (canonical : Text) (order : OrderRow) (src dst : Option Text)
      → matches_known_orders sha256 canonical order (cons_some src (cons_some dst [])) ≡ some true
      → (id : Text) × ((src ≡ some id) ⊎ (dst ≡ some id))
        × (hash_order_preimage sha256 (to_bigint id) canonical ≡ some order.hashlock)
  matches_both canonical order none dst h =
      let (id, own, opens) = matches_dst canonical order dst h in (id, inr own, opens)
  matches_both canonical order (some src) dst h =
      elim (first_match canonical order src (cons_some dst []) h) [
        | inl this ↦ (src, inl refl, matches_id-opens canonical order src this)
        | inr later ↦
            let (id, own, opens) = matches_dst canonical order dst later in (id, inr own, opens)
      ]

  -- How a new preimage came to be written: the order stores none yet, no other order has it, neither
  -- timelock has passed, and the order service recorded it.
  abbrev pub Recorded : ℕ → Text → Text → OrderRow → Store → Store → Type 0
  Recorded now canonical tx_hash order s s' =
      (order.preimage ≡ none)
      × ((other : OrderRow)
          → (find_by_preimage canonical s).0 ≡ ok (some other)
          → other.public_id ≡ order.public_id)
      × ((evaluate_secret_window order.src_timelock order.dst_timelock (now / 1000)).is_open ≡ true)
      × (record_secret order.public_id canonical tx_hash none s ≡ (ok tt, s'))

  reveal_new-Recorded :
      (now : ℕ) (canonical tx_hash : Text) (order : OrderRow) (existing : Option OrderRow)
      (s : Store)
      → (reveal_new sha256 now canonical tx_hash order existing s).0 ≡ ok tt
      → let s' = (reveal_new sha256 now canonical tx_hash order existing s).1 in
        ((other : OrderRow) → existing ≡ some other → other.public_id ≡ order.public_id)
        × ((evaluate_secret_window order.src_timelock order.dst_timelock (now / 1000)).is_open
            ≡ true)
        × (record_secret order.public_id canonical tx_hash none s ≡ (ok tt, s'))
  reveal_new-Recorded now canonical tx_hash order none s h =
      let (inside, wrote) = gated _ (record_secret order.public_id canonical tx_hash none) _ s h in
      (λ other e. ground arith, inside, wrote)
  reveal_new-Recorded now canonical tx_hash order (some other) s h =
      let (fresh, h') = ungated (not (other.public_id == order.public_id)) _ _ s h in
      let (inside, wrote) =
        gated _ (record_secret order.public_id canonical tx_hash none) _ s (rw fresh at h) in
      (
        λ other' e. ground (arith, text_beq_iff other.public_id order.public_id),
        inside,
        rw fresh wrote,
      )

  -- What holds of an order and the store before and after a reveal for it that succeeds.
  abbrev pub Passed : ℕ → Text → Text → OrderRow → Store → Store → Type 0
  Passed now canonical tx_hash order s s' =
      Opens canonical order
      × (((order.preimage ≡ some canonical) × (s' ≡ s)) ⊎ Recorded now canonical tx_hash order s s')

  reveal_matched-Passed :
      (now : ℕ) (canonical tx_hash : Text) (order : OrderRow) (stored : Option Text) (s : Store)
      → order.preimage ≡ stored
      → (reveal_matched sha256 now canonical tx_hash order stored s).0 ≡ ok tt
      → let s' = (reveal_matched sha256 now canonical tx_hash order stored s).1 in
        ((order.preimage ≡ some canonical) × (s' ≡ s)) ⊎ Recorded now canonical tx_hash order s s'
  unfolding find_by_preimage
  reveal_matched-Passed now canonical tx_hash order (some p) s e h =
      let (same, _) = gated (p == canonical) (pure tt) _ s h in
      inl (ground (arith, text_beq_iff p canonical), rw same refl)
  reveal_matched-Passed now canonical tx_hash order none s e h =
      let (unique, inside, wrote) = reveal_new-Recorded now canonical tx_hash order _ s h in
      inr (e, λ other found. unique other (ground arith), inside, wrote)

  reveal_checked-Passed :
      (now : ℕ) (canonical tx_hash : Text) (order : OrderRow) (matched : Option Bool) (s : Store)
      → matches_known_orders sha256 canonical order (known_ids order) ≡ matched
      → (reveal_checked sha256 now canonical tx_hash order matched s).0 ≡ ok tt
      → Passed now canonical tx_hash order s
          (reveal_checked sha256 now canonical tx_hash order matched s).1
  reveal_checked-Passed now canonical tx_hash order none s e h = ground arith
  reveal_checked-Passed now canonical tx_hash order (some false) s e h = ground arith
  reveal_checked-Passed now canonical tx_hash order (some true) s e h = (
    matches_both canonical order order.src_order_id order.dst_order_id e,
    reveal_matched-Passed now canonical tx_hash order order.preimage s refl h,
  )

  reveal_found-Passed :
      (now : ℕ) (public_id canonical tx_hash : Text) (found : Option OrderRow) (s : Store)
      → find_row public_id s.orders ≡ found
      → (reveal_found sha256 now public_id canonical tx_hash found s).0 ≡ ok tt
      → (order : OrderRow) × (find_row public_id s.orders ≡ some order)
        × Passed now canonical tx_hash order s
            (reveal_found sha256 now public_id canonical tx_hash found s).1
  reveal_found-Passed now public_id canonical tx_hash none s e h = ground arith
  reveal_found-Passed now public_id canonical tx_hash (some order) s e h =
      (order, e, reveal_checked-Passed now canonical tx_hash order _ s refl h)

  -- A reveal that succeeds had a well-formed preimage of a known order; with one of the order's ids on
  -- the chains the preimage hashes to the order's hashlock; and either the order stored this very
  -- preimage already, and nothing at all was written, or it stored none, no other order had it,
  -- neither timelock had passed, and the order service recorded it.
  pub reveal-Passed :
      (now : ℕ) (public_id preimage tx_hash : Text) (s : Store)
      → (reveal sha256 now public_id preimage tx_hash s).0 ≡ ok tt
      → (is_valid_secret_format preimage ≡ true)
        × (order : OrderRow) × (find_row public_id s.orders ≡ some order)
        × Passed now
            (to_lower_case preimage)
            tx_hash
            order
            s
            (reveal sha256 now public_id preimage tx_hash s).1
  unfolding reveal find_by_public_id
  reveal-Passed now public_id preimage tx_hash s h =
      let (valid, _) = gated (is_valid_secret_format preimage) _ _ s h in
      let (order, found, passed) =
        reveal_found-Passed now public_id (to_lower_case preimage) tx_hash _ s refl
          (rw valid at h) in
      rw valid (refl, order, found, passed)
