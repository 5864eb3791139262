-- ===== src/ChainEvents/Cursor.antt =====
-- The cursor of a chain.
use over_sync.Prelude.{
  ℕ, ◌≤◌, ◌<◌, ◌≡◌, refl, ap, ◌≢◌, ◌⊎◌, inl, inr, true, ◌&&◌, Option, none, some, List, [], ◌∷◌,
  arith, Bool-cases, leb, ◌==◌, if◌then◌else◌, find, Text, text_eq, text_beq_iff,
}
use over_sync.Errors.{ok, err, cursor_mismatch, bind_ok}
use over_sync.Store.{Store, ChainName, ethereum, soroban, ChainCursor, chain_name_beq}
use over_sync.ChainEvents.{
  get_chain_cursor, upsert_cursor, save_chain_cursor, check_network, resume, advance,
}

abbrev lookup : ChainName → List ChainCursor → Option ChainCursor
lookup chain rows = find (λ c. chain_name_beq c.chain chain) rows

chain_name_beq_refl : (c : ChainName) → chain_name_beq c c ≡ true
chain_name_beq_refl ethereum = refl
chain_name_beq_refl soroban = refl

-- What a save for a network leaves of a row that was there: the new row, if it is for the same
-- network and not earlier, else the old row.
abbrev Kept : ChainCursor → ChainCursor → ChainCursor → Type 0
Kept old new row =
    ((row ≡ new) × (old.network_id ≡ new.network_id) × (old.position ≤ new.position))
    ⊎ ((row ≡ old) × ((old.network_id ≢ new.network_id) ⊎ (new.position < old.position)))

abbrev written : ChainCursor → ChainCursor → ChainCursor
written old new =
    if old.network_id == new.network_id && leb old.position new.position then new else old

written-Kept : (old new : ChainCursor) → Kept old new (written old new)
written-Kept old new =
    elim (Bool-cases (old.network_id == new.network_id && leb old.position new.position)) [
      | inl y ↦
          inl (rw y refl, ground (arith, text_beq_iff old.network_id new.network_id), ground arith)
      | inr n ↦ inr (rw n refl, ground (arith, text_beq_iff old.network_id new.network_id))
    ]

written_chain :
    (old new : ChainCursor)
    → chain_name_beq old.chain new.chain ≡ true
    → chain_name_beq (written old new).chain new.chain ≡ true
written_chain old new here =
    elim (Bool-cases (old.network_id == new.network_id && leb old.position new.position)) [
      | inl y ↦ rw y (chain_name_beq_refl new.chain)
      | inr n ↦ rw n here
    ]

find-upsert_cursor :
    (new : ChainCursor) (rows : List ChainCursor)
    → ((lookup new.chain rows ≡ none) × (lookup new.chain (upsert_cursor new rows) ≡ some new))
      ⊎ ((old : ChainCursor) × (row : ChainCursor) × (lookup new.chain rows ≡ some old)
          × (lookup new.chain (upsert_cursor new rows) ≡ some row)
          × Kept old new row)
unfolding upsert_cursor
find-upsert_cursor new [] = inl (refl, ground (arith, chain_name_beq_refl new.chain))
find-upsert_cursor new (r ∷ rows) = elim (Bool-cases (chain_name_beq r.chain new.chain)) [
  | inl here ↦
      rw here (inr (r, written r new, refl, rw (written_chain r new here) refl, written-Kept r new))
  | inr there ↦ rw (there, there) (find-upsert_cursor new rows)
]

-- The network that the saved cursor of a chain, if there is one, belongs to.
abbrev SavedFor : Text → Option ChainCursor → Type 0
SavedFor network_id none = Unit
SavedFor network_id (some saved) = saved.network_id ≡ network_id

check_network-SavedFor :
    (chain : ChainName) (network_id : Text) (saved : Option ChainCursor) (s : Store)
    → SavedFor network_id saved
      ⊎ ((old : ChainCursor) × (saved ≡ some old)
          × (old.network_id ≢ network_id)
          × (check_network chain network_id saved s
              ≡ (err (cursor_mismatch old.network_id network_id), s)))
check_network-SavedFor chain network_id none s = inl tt
check_network-SavedFor chain network_id (some saved) s =
    elim (Bool-cases (saved.network_id == network_id)) [
      | inl y ↦ inl ((text_beq_iff saved.network_id network_id).0 y)
      | inr n ↦
          inr (saved, refl, ground (arith, text_beq_iff saved.network_id network_id), rw n refl)
    ]

check_network_fits :
    (chain : ChainName) (network_id : Text) (saved : Option ChainCursor) (s : Store)
    → SavedFor network_id saved
    → (r : Option (ℕ × Option Text)) × (check_network chain network_id saved s ≡ (ok r, s))
check_network_fits chain network_id none s fits = (none, refl)
check_network_fits chain network_id (some saved) s fits = (
  some (saved.position, saved.cursor),
  rw ((text_beq_iff saved.network_id network_id).1 fits) refl,
)

advance_saves :
    (chain : ChainName) (network_id : Text) (position : ℕ) (cursor : Option Text) (s : Store)
    → SavedFor network_id (lookup chain s.chain_cursors)
    → advance chain network_id position cursor s
      ≡ save_chain_cursor
          (record { chain = chain; network_id = network_id; position = position; cursor = cursor })
          s
unfolding advance resume get_chain_cursor
advance_saves chain network_id position cursor s fits =
    let (r, e) = check_network_fits chain network_id (lookup chain s.chain_cursors) s fits in
    bind_ok (resume chain network_id)
      (λ _.
        save_chain_cursor
          (record { chain = chain; network_id = network_id; position = position; cursor = cursor }))
      s s r e

advance_mismatch :
    (chain : ChainName) (network_id : Text) (position : ℕ) (cursor : Option Text) (s : Store)
    (old : ChainCursor)
    → lookup chain s.chain_cursors ≡ some old
    → check_network chain network_id (lookup chain s.chain_cursors) s
      ≡ (err (cursor_mismatch old.network_id network_id), s)
    → advance chain network_id position cursor s
      ≡ (err (cursor_mismatch old.network_id network_id), s)
unfolding advance resume get_chain_cursor
advance_mismatch chain network_id position cursor s old found e = ground arith

≤_refl : (n : ℕ) → n ≤ n
≤_refl n = omega arith

-- What a save for the network of the old row leaves is not behind the old row or the new one.
Kept-ahead :
    (old new row : ChainCursor)
    → old.network_id ≡ new.network_id
    → Kept old new row
    → (row.network_id ≡ new.network_id)
      × (new.position ≤ row.position)
      × (old.position ≤ row.position)
Kept-ahead old new row own kept = ground arith

-- If the saved cursor of a chain is for another network, `advance` fails with that error and changes
-- nothing. Otherwise it returns, and the chain has a cursor of this network whose position is neither
-- before the new one nor before the one that was saved.
pub advance-get_chain_cursor :
    (chain : ChainName) (network_id : Text) (position : ℕ) (cursor : Option Text) (s : Store)
    → let out = advance chain network_id position cursor s in
      let saved = (get_chain_cursor chain s).0 in
      ((old : ChainCursor) × (saved ≡ ok (some old))
        × (old.network_id ≢ network_id)
        × (out ≡ (err (cursor_mismatch old.network_id network_id), s)))
      ⊎ ((row : ChainCursor) × (out.0 ≡ ok tt)
          × ((get_chain_cursor chain out.1).0 ≡ ok (some row))
          × (row.network_id ≡ network_id)
          × (position ≤ row.position)
          × ((old : ChainCursor)
              → saved ≡ ok (some old)
              → (old.network_id ≡ network_id) × (old.position ≤ row.position)))
unfolding get_chain_cursor save_chain_cursor
advance-get_chain_cursor chain network_id position cursor s =
    elim (check_network-SavedFor chain network_id (lookup chain s.chain_cursors) s) [
      | inr (old, found, other, e) ↦
          inl (
            old,
            ap ok found,
            other,
            advance_mismatch chain network_id position cursor s old found e,
          )
      | inl fits ↦
          rw (advance_saves chain network_id position cursor s fits)
            (elim (find-upsert_cursor
              (record {
                chain = chain;
                network_id = network_id;
                position = position;
                cursor = cursor;
              })
              s.chain_cursors) [
                | inl (fresh, new) ↦ inr (
                  _,
                  refl,
                  ap ok new,
                  refl,
                  ≤_refl position,
                  λ old e. absurd (ground (arith, fresh)),
                )
                | inr (old, row, found, new, kept) ↦
                    let own : old.network_id ≡ network_id = rw found at fits in
                    let (net, ahead, on) = Kept-ahead old _ row own kept in
                    inr (row, refl, ap ok new, net, ahead, λ old' e. ground arith)
              ])
    ]
