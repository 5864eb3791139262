-- ===== src/Announce/Accepted.antt =====
-- What an order that is announced has passed, and what is written for it.
use mathlib.Core.Path.{subst}
use over_sync.Prelude.{
  ℕ, ◌≡◌, refl, ap, sym, ◌∙◌, inl, inr, Bool, true, false, ◌&&◌, Option, none, some, List, [], ◌∷◌,
  ◌++◌, arith, Bool-cases, ◌==◌, if◌then◌else◌, find, is_empty, Text, text_eq, text_beq_iff,
  to_lower_case,
}
use over_sync.Order.{chain_beq, chain_beq_iff, OrderRow, AnnounceOrderInput}
use over_sync.Errors.{
  Result, ok, err, ServiceError, Action, pure, throw, ◌>>=◌, ◌>>◌, returned_first,
}
use over_sync.Store
use over_sync.Store.{
  Store, find_row, find_by_hashlock, find_by_public_id, announced_row, insert_order,
  record_transition, insert_event,
}
use over_sync.Quotes
use over_sync.Quotes.{
  Quotes, QuoteResult, PriceQuote, QuoteTerms, OrderTerms, assert_fresh, binds, bind_fresh,
  bind_order_terms,
}
use over_sync.Announce.{
  AnnounceInput, World, on_store, is_address, validate_chain_address, wanted_src, wanted_dst,
  validate_direction_against_chains, quote_verdict, bind_quote, fresh_quote, gate_with, gate_id,
  quote_gate, lowered, order_terms, announce_new, announce,
}

guarded :
    (b : Bool) (e : ServiceError) (w w' : World) (u : Unit {0})
    → (if b then pure tt else throw e) w ≡ (ok u, w')
    → (b ≡ true) × (w' ≡ w)
guarded true e w w' u h = ground arith
guarded false e w w' u h = ground arith

both_true : (a b : Bool) → (a && b) ≡ true → (a ≡ true) × (b ≡ true)
both_true a b h = ground arith

verdict_ok :
    (r : QuoteResult PriceQuote) (w w' : World) (u : Unit {0})
    → quote_verdict r w ≡ (ok u, w')
    → (quote : PriceQuote) × (r ≡ Quotes.ok quote) × (w' ≡ w)
verdict_ok (Quotes.ok quote) w w' u h = (quote, refl, ground arith)
verdict_ok (Quotes.err e) w w' u h = absurd (ground arith)

-- The quote that the order names is fresh for its amount, if there is a quote service.
abbrev pub QuotePassed : ℕ → AnnounceInput → World → Type 0
QuotePassed now input w =
    (quote_id : Text) (qs : Quotes)
    → input.quote_id ≡ some quote_id
    → is_empty quote_id ≡ false
    → w.quotes ≡ some qs
    → (quote : PriceQuote) × (assert_fresh now quote_id (some input.order.src_amount) qs
        ≡ Quotes.ok quote)

fresh_passes :
    (now : ℕ) (input : AnnounceOrderInput) (quote_id : Text) (o : Option Quotes) (w w' : World)
    (u : Unit {0})
    → fresh_quote now input quote_id o w ≡ (ok u, w')
    → (w' ≡ w)
      × ((qs : Quotes)
          → o ≡ some qs
          → (quote : PriceQuote) × (assert_fresh now quote_id (some input.src_amount) qs
              ≡ Quotes.ok quote))
fresh_passes now input quote_id none w w' u h = (ground arith, λ qs e. ground arith)
fresh_passes now input quote_id (some qs) w w' u h =
    let (quote, fresh, same) =
      verdict_ok (assert_fresh now quote_id (some input.src_amount) qs) w w' u h in
    (same, λ qs' e. (quote, ground arith))

bind_keeps_store :
    (now : ℕ) (input : AnnounceOrderInput) (quote_id : Text) (qs : Quotes) (w w' : World)
    (u : Unit {0})
    → bind_quote now input quote_id qs w ≡ (ok u, w')
    → w'.store ≡ w.store
bind_keeps_store now input quote_id qs w w' u h =
    let (quote, _, same) = verdict_ok _ _ w' u h in ap (λ x. x.store) same

-- The gate writes no order, and lets through only a fresh quote.
Gated : ℕ → AnnounceOrderInput → Text → World → World → Type 0
Gated now input quote_id w w' =
    (w'.store ≡ w.store)
    × ((qs : Quotes)
        → w'.quotes ≡ some qs
        → (quote : PriceQuote) × (assert_fresh now quote_id (some input.src_amount) qs
            ≡ Quotes.ok quote))

gate_with-Gated :
    (now : ℕ) (input : AnnounceOrderInput) (quote_id : Text) (o : Option Quotes) (w w' : World)
    (u : Unit {0})
    → w.quotes ≡ o
    → gate_with now input quote_id o w ≡ (ok u, w')
    → Gated now input quote_id w w'
unfolding Gated
gate_with-Gated now input quote_id none w w' u q h =
    let same : w' ≡ w = ground arith in (ap (λ x. x.store) same, λ qs e. ground (arith, same))
gate_with-Gated now input quote_id (some qs) w w' u q h =
    let (v, w₁, bound, rest) =
      returned_first (bind_quote now input quote_id qs)
        (λ _ x. fresh_quote now input quote_id x.quotes x) w u (ap (λ out. out.0) h) in
    let (same, fresh) = fresh_passes now input quote_id w₁.quotes w₁ w' u (sym rest ∙ h) in
    (
      ap (λ x. x.store) same ∙ bind_keeps_store now input quote_id qs w w₁ v bound,
      λ qs' e. fresh qs' (sym (ap (λ x. x.quotes) same) ∙ e),
    )

gate_id-QuotePassed :
    (now : ℕ) (input : AnnounceOrderInput) (quote_id : Option Text) (w w' : World) (u : Unit {0})
    → gate_id now input quote_id w ≡ (ok u, w')
    → (w'.store ≡ w.store) × QuotePassed now (record { order = input; quote_id = quote_id }) w'
unfolding Gated
gate_id-QuotePassed now input none w w' u h = (ground arith, λ id qs e. ground arith)
gate_id-QuotePassed now input (some id) w w' u h = elim (Bool-cases (is_empty id)) [
  | inl empty ↦ (ground arith, λ id' qs e given. ground arith)
  | inr given ↦
      let (store, fresh) = gate_with-Gated now input id w.quotes w w' u refl (rw given at h) in
      (store, λ id' qs e given' q. let (quote, f) = fresh qs q in (quote, ground arith))
]

find_row-append :
    (public_id : Text) (rows : List OrderRow) (row : OrderRow)
    → row.public_id ≡ public_id
    → find_row public_id rows ≡ none
    → find_row public_id (rows ++ row ∷ []) ≡ some row
unfolding find_row
find_row-append public_id [] row own h = ground (arith, text_beq_iff row.public_id public_id)
find_row-append public_id (r ∷ rows) row own h =
    ground (arith, find_row-append public_id rows row own)

-- What is written for an order that is announced.
abbrev pub Inserted : Text → AnnounceOrderInput → Store → Store → OrderRow → Type 0
Inserted public_id input s s' order =
    (find_row public_id s.orders ≡ none)
    × (order ≡ announced_row public_id input s)
    × (s'.orders ≡ s.orders ++ order ∷ [])

announce-Inserted :
    (public_id : Text) (input : AnnounceOrderInput) (s s' : Store) (order : OrderRow)
    → Store.announce public_id input s ≡ (ok order, s')
    → Inserted public_id input s s' order
unfolding Store.announce insert_order find_by_public_id record_transition insert_event
announce-Inserted public_id input s s' order h = go (find_row public_id s.orders) refl
  where
    go :
        (o : Option OrderRow)
        → find_row public_id s.orders ≡ o
        → Inserted public_id input s s' order
    go (some taken) e = absurd (ground arith)
    go none e =
        let added = find_row-append public_id s.orders (announced_row public_id input s) refl e in
        (e, ground (arith, added), ground (arith, added))

new-Inserted :
    (public_id : Text) (input : AnnounceOrderInput) (o : Option OrderRow) (w : World)
    (order : OrderRow)
    → (announce_new public_id input o w).0 ≡ ok order
    → (o ≡ none)
      × ((announce_new public_id input o w).1.quotes ≡ w.quotes)
      × Inserted public_id input w.store (announce_new public_id input o w).1.store order
new-Inserted public_id input (some existing) w order h = absurd (ground arith)
new-Inserted public_id input none w order h = go (Store.announce public_id input w.store) refl
  where
    go :
        (out : Result OrderRow × Store)
        → Store.announce public_id input w.store ≡ out
        → ((let o : Option OrderRow = none in o) ≡ none)
          × ((announce_new public_id input none w).1.quotes ≡ w.quotes)
          × Inserted public_id input w.store (announce_new public_id input none w).1.store order
    go (ok o, s') e = (
      refl,
      ground (arith, e),
      ground (arith, e, announce-Inserted public_id input w.store s' o e),
    )
    go (err x, s') e = absurd (ground (arith, e))

-- What holds of an order that is announced, of the store before and of the state after.
abbrev pub AcceptedBy : Text → ℕ → AnnounceInput → Store → World → OrderRow → Type 0
AcceptedBy public_id now input before after order =
    (wanted_src input.order.direction ≡ input.order.src_chain)
    × (wanted_dst input.order.direction ≡ input.order.dst_chain)
    × (is_address input.order.src_chain input.order.src_address ≡ true)
    × (is_address input.order.dst_chain input.order.dst_address ≡ true)
    × QuotePassed now input after
    × (find (λ row. row.hashlock == to_lower_case input.order.hashlock) before.orders ≡ none)
    × Inserted public_id (lowered input.order) before after.store order

-- The terms of a quote are those of an order.
abbrev IssuedFor : QuoteTerms → AnnounceOrderInput → Type 0
IssuedFor issued input =
    (issued.src_chain ≡ input.src_chain)
    × (issued.src_asset ≡ input.src_asset)
    × (issued.src_amount ≡ input.src_amount)
    × (issued.dst_chain ≡ input.dst_chain)
    × (issued.dst_asset ≡ input.dst_asset)

-- The quote that the order names, if there is a quote service before, is fresh when its terms are
-- bound, and if it was issued for certain terms, then for those of the order.
abbrev pub TermsBound : ℕ → AnnounceInput → World → Type 0
TermsBound now input before =
    (quote_id : Text) (qs : Quotes)
    → input.quote_id ≡ some quote_id
    → is_empty quote_id ≡ false
    → before.quotes ≡ some qs
    → (quote : PriceQuote) × (assert_fresh now quote_id none qs ≡ Quotes.ok quote)
      × ((issued : QuoteTerms) → quote.issued_terms ≡ some issued → IssuedFor issued input.order)

binds-IssuedFor :
    (terms : Option QuoteTerms) (issued : QuoteTerms) (input : AnnounceOrderInput)
    → binds terms (order_terms input) ≡ true
    → terms ≡ some issued
    → IssuedFor issued input
binds-IssuedFor none issued input h e = absurd (ground (arith, e))
binds-IssuedFor (some t) issued input h e =
    let same : t ≡ issued = ground (arith, e) in
    subst (λ (x : QuoteTerms). IssuedFor x input) same
      (
        (chain_beq_iff t.src_chain input.src_chain).0 (ground (arith, h)),
        (text_beq_iff t.src_asset input.src_asset).0 (ground (arith, h)),
        (text_beq_iff t.src_amount input.src_amount).0 (ground (arith, h)),
        (chain_beq_iff t.dst_chain input.dst_chain).0 (ground (arith, h)),
        (text_beq_iff t.dst_asset input.dst_asset).0 (ground (arith, h)),
      )

bind_fresh-bound :
    (quote_id : Text) (terms : OrderTerms) (qs : Quotes) (r : QuoteResult PriceQuote)
    (bound : PriceQuote)
    → (bind_fresh quote_id terms qs r).0 ≡ Quotes.ok bound
    → (quote : PriceQuote) × (r ≡ Quotes.ok quote) × (binds quote.issued_terms terms ≡ true)
unfolding bind_fresh
bind_fresh-bound quote_id terms qs (Quotes.err e) bound h = absurd (ground arith)
bind_fresh-bound quote_id terms qs (Quotes.ok quote) bound h =
    elim (Bool-cases (binds quote.issued_terms terms)) [
      | inl same ↦ (quote, refl, same)
      | inr other ↦ absurd (ground (arith, rw other at h))
    ]

bind_quote-IssuedFor :
    (now : ℕ) (input : AnnounceOrderInput) (quote_id : Text) (qs : Quotes) (w w' : World)
    (u : Unit {0})
    → bind_quote now input quote_id qs w ≡ (ok u, w')
    → (quote : PriceQuote) × (assert_fresh now quote_id none qs ≡ Quotes.ok quote)
      × ((issued : QuoteTerms) → quote.issued_terms ≡ some issued → IssuedFor issued input)
unfolding bind_order_terms
bind_quote-IssuedFor now input quote_id qs w w' u h =
    let (bound, answer, _) = verdict_ok _ _ w' u h in
    let (quote, fresh, same) =
      bind_fresh-bound quote_id (order_terms input) qs (assert_fresh now quote_id none qs) bound
        answer in
    (quote, fresh, λ issued e. binds-IssuedFor quote.issued_terms issued input same e)

gate_with-IssuedFor :
    (now : ℕ) (input : AnnounceOrderInput) (quote_id : Text) (o : Option Quotes) (w w' : World)
    (u : Unit {0})
    → gate_with now input quote_id o w ≡ (ok u, w')
    → (qs : Quotes) → o ≡ some qs
    → (quote : PriceQuote) × (assert_fresh now quote_id none qs ≡ Quotes.ok quote)
      × ((issued : QuoteTerms) → quote.issued_terms ≡ some issued → IssuedFor issued input)
gate_with-IssuedFor now input quote_id none w w' u h qs e = absurd (ground (arith, e))
gate_with-IssuedFor now input quote_id (some qs₀) w w' u h qs e =
    let (v, w₁, bound, rest) =
      returned_first (bind_quote now input quote_id qs₀)
        (λ _ x. fresh_quote now input quote_id x.quotes x) w u (ap (λ out. out.0) h) in
    let same : qs₀ ≡ qs = ground (arith, e) in
    bind_quote-IssuedFor now input quote_id qs w w₁ v
      (subst (λ q. bind_quote now input quote_id q w ≡ (ok v, w₁)) same bound)

gate_id-TermsBound :
    (now : ℕ) (input : AnnounceOrderInput) (quote_id : Option Text) (w w' : World) (u : Unit {0})
    → gate_id now input quote_id w ≡ (ok u, w')
    → TermsBound now (record { order = input; quote_id = quote_id }) w
gate_id-TermsBound now input none w w' u h = λ id qs e given wired. absurd (ground (arith, e))
gate_id-TermsBound now input (some id) w w' u h = λ id' qs e given wired.
    let same : id ≡ id' = ground (arith, e) in
    let here : is_empty id ≡ false = ap (λ t. is_empty t) same ∙ given in
    subst
      (λ t.
        (quote : PriceQuote) × (assert_fresh now t none qs ≡ Quotes.ok quote)
        × ((issued : QuoteTerms) → quote.issued_terms ≡ some issued → IssuedFor issued input))
      same (gate_with-IssuedFor now input id w.quotes w w' u (rw here at h) qs wired)

-- An order that is announced has passed every test: its chains are those of its direction, both
-- addresses are well formed on their chains, the quote that it names, if a quote service is wired in,
-- was fresh before and is fresh for its amount after, and was issued for no terms or for the order's
-- chains, assets and source amount, and no order has its hashlock, in lower case, or its public id. The row
-- that is returned is the one of the input, announced, with no lock and no preimage; it is added
-- behind the rows that were there, which stay as they were.
pub announce-AcceptedBy :
    (now : ℕ) (public_id : Text) (input : AnnounceInput) (w : World) (order : OrderRow)
    → (announce now public_id input w).0 ≡ ok order
    → AcceptedBy public_id now input w.store (announce now public_id input w).1 order
      × TermsBound now input w
unfolding announce validate_direction_against_chains validate_chain_address quote_gate
    find_by_hashlock
announce-AcceptedBy now public_id input w order h =
    let o : AnnounceOrderInput = input.order in
    let direction : Action World (Unit {0}) = validate_direction_against_chains o in
    let src : Action World (Unit {0}) = validate_chain_address o.src_chain o.src_address in
    let dst : Action World (Unit {0}) = validate_chain_address o.dst_chain o.dst_address in
    let gate : Action World (Unit {0}) = quote_gate now input in
    let last : Action World OrderRow =
      on_store (find_by_hashlock (to_lower_case o.hashlock))
      >>= announce_new public_id (lowered o) in
    let (u₄, w₄, e₄, r₄) = returned_first (direction >> src >> dst >> gate) (λ _. last) w order h in
    let (u₃, w₃, e₃, r₃) =
      returned_first (direction >> src >> dst) (λ _. gate) w u₄ (ap (λ out. out.0) e₄) in
    let (u₂, w₂, e₂, r₂) =
      returned_first (direction >> src) (λ _. dst) w u₃ (ap (λ out. out.0) e₃) in
    let (u₁, w₁, e₁, r₁) = returned_first direction (λ _. src) w u₂ (ap (λ out. out.0) e₂) in
    let (chains, s₁) = guarded _ _ w w₁ u₁ e₁ in
    let (src_fits, s₂) = guarded _ _ w₁ w₂ u₂ (sym r₁ ∙ e₂) in
    let (dst_fits, s₃) = guarded _ _ w₂ w₃ u₃ (sym r₂ ∙ e₃) in
    let (kept, passed) = gate_id-QuotePassed now o input.quote_id w₃ w₄ u₄ (sym r₃ ∙ e₄) in
    let same : w₄.store ≡ w.store = kept ∙ ap (λ x. x.store) (s₃ ∙ s₂ ∙ s₁) in
    let (src_same, dst_same) =
      both_true (chain_beq (wanted_src o.direction) o.src_chain)
        (chain_beq (wanted_dst o.direction) o.dst_chain) chains in
    let (fresh, quotes, inserted) =
      new-Inserted public_id (lowered o) _ w₄ order (sym (ap (λ out. out.0) r₄) ∙ h) in
    let reached : AcceptedBy public_id now input w₄.store (last w₄).1 order = (
      (chain_beq_iff (wanted_src o.direction) o.src_chain).0 src_same,
      (chain_beq_iff (wanted_dst o.direction) o.dst_chain).0 dst_same,
      src_fits,
      dst_fits,
      λ id qs named given wired. passed id qs named given (sym quotes ∙ wired),
      fresh,
      inserted,
    ) in
    (
      subst (λ out. AcceptedBy public_id now input w.store out.1 order) (sym r₄)
          (subst (λ store. AcceptedBy public_id now input store (last w₄).1 order) same reached),
      subst (λ (x : World). TermsBound now input x) (s₃ ∙ s₂ ∙ s₁)
          (gate_id-TermsBound now o input.quote_id w₃ w₄ u₄ (sym r₃ ∙ e₄)),
    )
