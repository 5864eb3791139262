-- ===== src/Examples/Orders.antt =====
-- The order service.
use mathlib.Core.Path.{subst}
use over_sync.Prelude.{
  ◌≡◌, refl, ◌≢◌, ◌⊎◌, true, false, none, some, [], ◌∷◌, arith, text, text_beq, text_eq,
}
use over_sync.Status.{
  announced, src_locked, secret_revealed, completed, claim, repeated_step, conflicting_step,
  claim_before_secret, OrderFailureCode,
}
use over_sync.Order.{OrderRow}
use over_sync.Errors.{ok, err, rejected, TransitionRejectionInfo}
use over_sync.Store
use over_sync.Store.{Store, find_row}
use over_sync.Machine.{target_status, can_transition, evaluate_transition}
use over_sync.Service.{
  AdvanceRequest, record_src_lock, advance_found, advance_order, advance, settle_request,
}
use over_sync.Service.Commands.{execute, execute-cases, CommandGuard, command_columns}
use over_sync.Service.Steps.{Untouched, Advanced}
use over_sync.Service.Moves.{run_commands, Followed, Moved, execute-Moved, run_commands-Followed}
use over_sync.Service.Invariants.{
  Every, TimelocksOrdered, Kept, run_commands-TimelocksOrdered, run_commands-Kept,
  run_commands-preimage,
}
use over_sync.Service.Refusals.{advance-logged, logged, refused_as}
use over_sync.Service.Repeats.{execute_again}
use over_sync.Examples.Data.{swap, tx, announced_order, book, lock_source, life, store_of, row_with}

-- A book of one order: what holds of the order holds of every order in it.
one_row : (P : OrderRow → Type 0) (row : OrderRow) → P row → Every P (store_of (row ∷ []))
unfolding find_row text_beq
one_row P row p id r e = subst P (ground arith) p

run_commands-Followed_example : Followed swap announced_order (run_commands 600 life book)
unfolding find_row text_beq
run_commands-Followed_example = run_commands-Followed 600 life book swap announced_order refl

run_commands-TimelocksOrdered_example : Every (TimelocksOrdered 600) (run_commands 600 life book)
run_commands-TimelocksOrdered_example =
    run_commands-TimelocksOrdered 600 life book (one_row (TimelocksOrdered 600) announced_order tt)

run_commands-Kept_example : Every Kept (run_commands 600 life book)
run_commands-Kept_example =
    run_commands-Kept 600 life book (tt, (tt, (tt, (tt, (tt, tt)))))
      (one_row Kept announced_order tt)

abbrev open_order : OrderRow
open_order = row_with secret_revealed (some 5000) (some 3000) (some (text "0xab"))

run_commands-preimage_example :
    (r : OrderRow) × (find_row swap (run_commands 600 life (store_of (open_order ∷ []))).orders
      ≡ some r)
    × (r.preimage ≡ some (text "0xab"))
unfolding find_row text_beq
run_commands-preimage_example =
    run_commands-preimage 600 life (store_of (open_order ∷ [])) swap (text "0xab") open_order
      (tt, (tt, (tt, (tt, (tt, tt))))) (one_row Kept open_order tt) refl refl

execute-cases_example :
    Untouched book (execute 600 lock_source book)
    ⊎ Advanced swap src_locked
        (CommandGuard 600 lock_source)
        (command_columns lock_source)
        book
        (execute 600 lock_source book)
execute-cases_example = execute-cases 600 lock_source book

execute-Moved_example :
    Moved src_locked
      (find_row swap book.orders)
      (find_row swap (execute 600 lock_source book).1.orders)
    × (swap ≢ swap
        → find_row swap (execute 600 lock_source book).1.orders ≡ find_row swap book.orders)
execute-Moved_example = execute-Moved 600 lock_source book swap

abbrev early_claim : AdvanceRequest
early_claim = settle_request claim completed swap tx none

abbrev early_info : OrderFailureCode → TransitionRejectionInfo
early_info code = refused_as code early_claim announced_order

advance-logged_example :
    (announced ≡ target_status claim
      → true ≡ true
      → advance early_claim book ≡ (ok tt, logged announced_order (early_info repeated_step) book))
    × (announced ≡ target_status claim
        → true ≡ false
        → advance early_claim book ≡ (
          err (rejected (early_info conflicting_step)),
          logged announced_order (early_info conflicting_step) book,
        ))
    × (announced ≢ target_status claim
        → can_transition announced (target_status claim) ≡ false
        → advance early_claim book ≡ (
          err (rejected (early_info claim_before_secret)),
          logged announced_order (early_info claim_before_secret) book,
        ))
unfolding find_row text_beq
advance-logged_example = advance-logged early_claim announced_order book refl

execute_again_example :
    let s' = record (execute 600 lock_source book).1 { clock = 200 } in
    ((execute 600 lock_source s').0 ≡ ok tt) × ((execute 600 lock_source s').1.orders ≡ s'.orders)
unfolding execute record_src_lock advance_found advance_order text_beq find_row target_status
    evaluate_transition can_transition Store.record_src_lock
execute_again_example = execute_again 600 lock_source book 200 refl
