-- ===== src/Service/Invariants.antt =====
-- What holds of every order that the service writes.
use mathlib.Core.Option
use mathlib.Core.Path.{subst}
use over_sync.Prelude.{
  ℕ, ◌+◌, ◌≤◌, ◌<◌, ◌≡◌, refl, ◌≢◌, inl, inr, true, Option, none, some, List, [], ◌∷◌, arith,
  Bool-cases, ◌==◌, if◌then◌else◌, Text, text_eq, text_beq_iff,
}
use over_sync.Status.{
  OrderStatus, announced, src_locked, dst_locked, secret_revealed, completed, expired,
}
use over_sync.Machine.{can_transition}
use over_sync.Timelock.{validate_timelocks_at_creation}
use over_sync.Order.{OrderRow}
use over_sync.Store.{Store, find_row, update_where}
use over_sync.Store.Rows.{find_row-update_where}
use over_sync.Service.Commands.{
  Command, execute, command_id, command_target, CommandGuard, command_columns, PassesOrdering,
  execute-cases,
}
use over_sync.Service.Moves.{run_commands, columns_keep}

-- A predicate of every order that a look-up finds.
abbrev pub Every : (OrderRow → Type 0) → Store → Type 0
Every P s = (id : Text) (r : OrderRow) → find_row id s.orders ≡ some r → P r

-- A predicate that the columns of a command keep is kept by the command.
module _ (P : OrderRow → Type 0) (min_gap : ℕ) (c : Command)
    (keeps : (now : ℕ) (r : OrderRow)
      → P r
      → can_transition r.status (command_target c) ≡ true
      → CommandGuard min_gap c r
      → P (command_columns c now r)) where
  update-Every :
      (now : ℕ) (rows : List OrderRow) (order : OrderRow)
      → find_row (command_id c) rows ≡ some order
      → P (command_columns c now order)
      → ((id : Text) (r : OrderRow) → find_row id rows ≡ some r → P r)
      → (id : Text) (r : OrderRow)
      → find_row id (update_where (command_id c) (command_columns c now) rows) ≡ some r
      → P r
  update-Every now rows order found new old id r e = elim (Bool-cases (command_id c == id)) [
    | inl own ↦ subst P (ground (arith, text_beq_iff (command_id c) id, looked id r e)) new
    | inr other ↦ old id r (rw other at (looked id r e))
  ]
    where
      looked :
          (id : Text) (r : OrderRow)
          → find_row id (update_where (command_id c) (command_columns c now) rows) ≡ some r
          → (if command_id c == id
              then Option.map (command_columns c now) (find_row id rows)
              else find_row id rows)
            ≡ some r
      looked id r e =
          rw
            (find_row-update_where (command_id c) (command_columns c now) (columns_keep c now) id
              rows)
            at e

  pub execute-Every : (s : Store) → Every P s → Every P (execute min_gap c s).1
  execute-Every s h id r e = elim (execute-cases min_gap c s) [
    | inl same ↦ h id r (rw same at e)
    | inr (order, found, legal, passes, w) ↦
        update-Every s.clock s.orders order found
          (keeps s.clock order (h (command_id c) order found) legal passes) h id r (rw w.1 at e)
  ]

-- Where both timelocks are set, the destination's ends before the source's by the gap at least.
abbrev pub OrderedPair : ℕ → Option ℕ → Option ℕ → Type 0
OrderedPair gap (some src) (some dst) = (dst < src) × (dst + gap ≤ src)
OrderedPair gap _ _ = Unit

abbrev pub TimelocksOrdered : ℕ → OrderRow → Type 0
TimelocksOrdered gap r = OrderedPair gap r.src_timelock r.dst_timelock

passes-OrderedPair :
    (gap : ℕ) (src dst : Option ℕ) → PassesOrdering gap src dst → OrderedPair gap src dst
unfolding validate_timelocks_at_creation
passes-OrderedPair gap none dst h = tt
passes-OrderedPair gap (some src) none h = tt
passes-OrderedPair gap (some src) (some dst) h = ground arith

columns-TimelocksOrdered :
    (gap : ℕ) (c : Command) (now : ℕ) (r : OrderRow)
    → TimelocksOrdered gap r
    → can_transition r.status (command_target c) ≡ true
    → CommandGuard gap c r
    → TimelocksOrdered gap (command_columns c now r)
columns-TimelocksOrdered gap (Command.src_lock input writer) now r h legal passes =
    passes-OrderedPair gap (some input.timelock) r.dst_timelock passes
columns-TimelocksOrdered gap (Command.dst_lock input resolver writer) now r h legal passes =
    passes-OrderedPair gap r.src_timelock (some input.timelock) passes
columns-TimelocksOrdered gap (Command.reveal id preimage tx writer) now r h legal passes = h
columns-TimelocksOrdered gap (Command.settle id tx writer) now r h legal passes = h
columns-TimelocksOrdered gap (Command.give_back id tx writer) now r h legal passes = h
columns-TimelocksOrdered gap (Command.mark id status writer) now r h legal passes = h

-- A preimage is stored where the secret was revealed or the order completed, and not before the
-- reveal.
abbrev pub PreimageFits : OrderStatus → Option Text → Type 0
PreimageFits secret_revealed none = ⊥
PreimageFits completed none = ⊥
PreimageFits announced (some p) = ⊥
PreimageFits src_locked (some p) = ⊥
PreimageFits dst_locked (some p) = ⊥
PreimageFits expired (some p) = ⊥
PreimageFits _ _ = Unit

-- `markStatus` can set secret_revealed with no preimage. Nothing under coordinator/src calls it.
abbrev pub MarksNoReveal : Command → Type 0
MarksNoReveal (Command.mark id status writer) = status ≢ secret_revealed
MarksNoReveal _ = Unit

columns-PreimageFits :
    (c : Command) (now : ℕ) (r : OrderRow)
    → MarksNoReveal c
    → PreimageFits r.status r.preimage
    → can_transition r.status (command_target c) ≡ true
    → let r' = command_columns c now r in
      PreimageFits r'.status r'.preimage × ((p : Text) → r.preimage ≡ some p → r'.preimage ≡ some p)
unfolding can_transition
columns-PreimageFits (Command.src_lock input writer) now r m h legal = ground arith
columns-PreimageFits (Command.dst_lock input resolver writer) now r m h legal = ground arith
columns-PreimageFits (Command.reveal id preimage tx writer) now r m h legal = ground arith
columns-PreimageFits (Command.settle id tx writer) now r m h legal = ground arith
columns-PreimageFits (Command.give_back id tx writer) now r m h legal = ground arith
columns-PreimageFits (Command.mark id status writer) now r m h legal = ground arith

run_commands-Every :
    (P : OrderRow → Type 0) (min_gap : ℕ) (cs : List (ℕ × Command)) (s : Store)
    → ((c : Command) (now : ℕ) (r : OrderRow)
        → P r
        → can_transition r.status (command_target c) ≡ true
        → CommandGuard min_gap c r
        → P (command_columns c now r))
    → Every P s
    → Every P (run_commands min_gap cs s)
unfolding run_commands
run_commands-Every P min_gap [] s keeps h = h
run_commands-Every P min_gap ((now, c) ∷ rest) s keeps h =
    run_commands-Every P min_gap rest (execute min_gap c (record s { clock = now })).1 keeps
      (execute-Every P min_gap c (keeps c) (record s { clock = now }) h)

-- If the timelocks of every order of the table are ordered, with the gap between them, then they
-- still are after any commands: whichever side is locked first, no second lock is recorded that
-- ends too late or too early for the first.
pub run_commands-TimelocksOrdered :
    (min_gap : ℕ) (cs : List (ℕ × Command)) (s : Store)
    → Every (TimelocksOrdered min_gap) s
    → Every (TimelocksOrdered min_gap) (run_commands min_gap cs s)
run_commands-TimelocksOrdered min_gap cs s h =
    run_commands-Every (TimelocksOrdered min_gap) min_gap cs s (columns-TimelocksOrdered min_gap) h

-- The order's preimage is where its status says.
abbrev pub Kept : OrderRow → Type 0
Kept r = PreimageFits r.status r.preimage

abbrev pub AllMarkNoReveal : List (ℕ × Command) → Type 0
AllMarkNoReveal [] = Unit
AllMarkNoReveal ((now, c) ∷ rest) = MarksNoReveal c × AllMarkNoReveal rest

execute-Kept :
    (min_gap : ℕ) (c : Command) (s : Store)
    → MarksNoReveal c
    → Every Kept s
    → Every Kept (execute min_gap c s).1
execute-Kept min_gap c s m h =
    execute-Every Kept min_gap c
      (λ now r k legal passes. (columns-PreimageFits c now r m k legal).0) s h

-- If every order that is secret_revealed or completed stores its preimage, and no announced, locked
-- or expired one does, then this still holds after any commands none of which marks an order as
-- secret_revealed by its bare status.
pub run_commands-Kept :
    (min_gap : ℕ) (cs : List (ℕ × Command)) (s : Store)
    → AllMarkNoReveal cs
    → Every Kept s
    → Every Kept (run_commands min_gap cs s)
unfolding run_commands
run_commands-Kept min_gap [] s m h = h
run_commands-Kept min_gap ((now, c) ∷ rest) s (m, ms) h =
    run_commands-Kept min_gap rest (execute min_gap c (record s { clock = now })).1 ms
      (execute-Kept min_gap c (record s { clock = now }) m h)

execute-preimage :
    (min_gap : ℕ) (c : Command) (s : Store) (id p : Text) (r : OrderRow)
    → MarksNoReveal c
    → Kept r
    → find_row id s.orders ≡ some r
    → r.preimage ≡ some p
    → (r' : OrderRow) × (find_row id (execute min_gap c s).1.orders ≡ some r')
      × (r'.preimage ≡ some p)
execute-preimage min_gap c s id p r m k found has = elim (execute-cases min_gap c s) [
  | inl same ↦ (r, rw same found, has)
  | inr (order, found', legal, passes, w) ↦
      rw
        (
          w.1,
          find_row-update_where (command_id c) (command_columns c s.clock) (columns_keep c s.clock)
              id s.orders,
          found,
        )
        (elim (Bool-cases (command_id c == id)) [
          | inl own ↦
              let same_row : order ≡ r = ground (arith, text_beq_iff (command_id c) id) in
              (
                command_columns c s.clock r,
                rw own refl,
                (columns-PreimageFits c s.clock r m k (rw same_row at legal)).1 p has,
              )
          | inr other ↦ (r, rw other refl, has)
        ])
]

-- If every order that is secret_revealed or completed stores its preimage, and no announced, locked
-- or expired one does, then a preimage that an order stores is neither replaced nor removed by any
-- commands none of which marks an order as secret_revealed by its bare status.
pub run_commands-preimage :
    (min_gap : ℕ) (cs : List (ℕ × Command)) (s : Store) (id p : Text) (r : OrderRow)
    → AllMarkNoReveal cs
    → Every Kept s
    → find_row id s.orders ≡ some r
    → r.preimage ≡ some p
    → (r' : OrderRow) × (find_row id (run_commands min_gap cs s).orders ≡ some r')
      × (r'.preimage ≡ some p)
unfolding run_commands
run_commands-preimage min_gap [] s id p r m h found has = (r, found, has)
run_commands-preimage min_gap ((now, c) ∷ rest) s id p r (m, ms) h found has =
    let s' : Store = record s { clock = now } in
    let (r₁, found₁, has₁) = execute-preimage min_gap c s' id p r m (h id r found) found has in
    run_commands-preimage min_gap rest (execute min_gap c s').1 id p r₁ ms
      (execute-Kept min_gap c s' m h) found₁ has₁
