-- ===== src/Examples/Fills.antt =====
-- Trees of two and four secrets, and an order that is filled in fragments.
use over_sync.Prelude.{
  ℕ, ◌≡◌, refl, true, some, List, [], ◌∷◌, ◌++◌, replicate, Text, text, text_beq,
}
use over_sync.Fills.Merkle.{
  combine, leaves_from, build_tree, climb, next_level, compute_proof_hash, leaf_at, verify_proof,
}
use over_sync.Fills.Manager.{
  Amount, active, PartialFillOrder, FillRequest, valid, lookup, store, executed_amount,
  executions_of, validate_order, validate_fill, execute_validated, execute_partial_fill,
  finish_fill, initialize, Call, initialized, executed_fill, run_call, run_calls, new_manager,
}
use over_sync.Fills.Manager.Pending.{fills_never_complete, fill_accepted_again}

-- A hash of 32 zero bytes, whatever is hashed
abbrev zero_hash : List ℕ → Text
zero_hash bytes = text "0x" ++ replicate 64 b'0'

abbrev leaf_hash : ℕ → Text
leaf_hash n = 9 ∷ n ∷ []

abbrev secret_of : ℕ → Text
secret_of c = text "0x" ++ replicate 64 c

abbrev amount_of : Text → ℕ → Amount
amount_of digits value = record { digits = digits; value = value }

abbrev half_order : PartialFillOrder
half_order = record {
  order_id = leaf_hash 7;
  making_amount = amount_of (text "1000") 1000;
  merkle_root = [];
  allow_partial_fills = true;
  auction_start_time = 10;
  auction_end_time = 20;
  status = active;
  created_at = 0;
  updated_at = 0;
}

abbrev first_fill : FillRequest
first_fill = record {
  order_id = leaf_hash 7;
  fragment_index = 0;
  fill_amount = amount_of (text "500") 500;
  resolver = leaf_hash 8;
  secret_hash = leaf_hash 1;
  merkle_proof = leaf_hash 2 ∷ [];
}

abbrev some_calls : List Call
some_calls =
    initialized half_order (leaf_hash 1 ∷ leaf_hash 2 ∷ []) 10 ∷ executed_fill first_fill 12 ∷ []

accepted_now :
    validate_fill zero_hash first_fill 13 (run_calls zero_hash some_calls new_manager) ≡ valid
unfolding validate_fill run_calls run_call initialize execute_partial_fill execute_validated
    finish_fill validate_order verify_proof compute_proof_hash executed_amount lookup store
    leaves_from leaf_at build_tree climb next_level text_beq
accepted_now = refl

fill_accepted_again_example :
    let m = run_calls zero_hash some_calls new_manager in
    validate_fill zero_hash first_fill 13 (execute_partial_fill zero_hash first_fill 13 m).1 ≡ valid
fill_accepted_again_example = fill_accepted_again zero_hash some_calls first_fill 13 accepted_now

abbrev stored_order : PartialFillOrder
stored_order = record half_order {
  merkle_root = combine zero_hash (leaf_hash 1) (leaf_hash 2);
  created_at = 10;
  updated_at = 10;
}

stored_found :
    lookup (leaf_hash 7) (run_calls zero_hash some_calls new_manager).orders ≡ some stored_order
unfolding validate_fill run_calls run_call initialize execute_partial_fill execute_validated
    finish_fill validate_order verify_proof compute_proof_hash executed_amount lookup store
    leaves_from leaf_at build_tree climb next_level text_beq
stored_found = refl

fills_never_complete_example :
    (stored_order.status ≡ active)
    × (executed_amount (executions_of (leaf_hash 7) (run_calls zero_hash some_calls new_manager))
        ≡ 0)
fills_never_complete_example =
    fills_never_complete zero_hash some_calls (leaf_hash 7) stored_order stored_found
