-- ===== src/Service/Moves.antt =====
-- Whatever commands are executed, each order follows the state machine.
use mathlib.Core.Path.{subst}
use over_sync.Prelude.{
  ℕ, ◌≡◌, refl, ◌≢◌, ◌⊎◌, inl, inr, true, Option, none, some, List, [], ◌∷◌, arith, Bool-cases,
  ◌==◌, Text, text_eq, text_beq_iff,
}
use over_sync.Status.{OrderStatus}
use over_sync.Machine.{can_transition}
use over_sync.Machine.Reach.{Run, stay, move}
use over_sync.Order.{OrderRow}
use over_sync.Store.{Store, find_row, update_where}
use over_sync.Store.Rows.{find_row-update_where}
use over_sync.Service.Commands.{
  Command, execute, command_id, command_target, command_columns, execute-cases,
}

-- What no command may change of an order: who swaps what with whom.
pub record SameTerms (r r' : OrderRow) : Type 0 where
  pub same_id : r'.id ≡ r.id
  pub same_public_id : r'.public_id ≡ r.public_id
  pub same_direction : r'.direction ≡ r.direction
  pub same_hashlock : r'.hashlock ≡ r.hashlock
  pub same_src_chain : r'.src_chain ≡ r.src_chain
  pub same_src_address : r'.src_address ≡ r.src_address
  pub same_src_asset : r'.src_asset ≡ r.src_asset
  pub same_src_amount : r'.src_amount ≡ r.src_amount
  pub same_src_safety_deposit : r'.src_safety_deposit ≡ r.src_safety_deposit
  pub same_dst_chain : r'.dst_chain ≡ r.dst_chain
  pub same_dst_address : r'.dst_address ≡ r.dst_address
  pub same_dst_asset : r'.dst_asset ≡ r.dst_asset
  pub same_dst_amount : r'.dst_amount ≡ r.dst_amount
  pub same_created_at : r'.created_at ≡ r.created_at

columns-SameTerms : (c : Command) (now : ℕ) (r : OrderRow) → SameTerms r (command_columns c now r)
columns-SameTerms (Command.src_lock input writer) now r = ground arith
columns-SameTerms _ now r = ground arith

columns_status :
    (c : Command) (now : ℕ) (r : OrderRow)
    → can_transition r.status (command_target c) ≡ true
    → (command_columns c now r).status ≡ command_target c
unfolding can_transition
columns_status (Command.src_lock input writer) now r h = ground arith
columns_status (Command.dst_lock input resolver writer) now r h = ground arith
columns_status _ now r h = refl

-- How one order may look before and after a command that targets a status: unknown orders stay
-- unknown, a known one is left as it was or moves along a legal edge to that status, on the same
-- terms.
abbrev pub Moved : OrderStatus → Option OrderRow → Option OrderRow → Type 0
Moved to none after = after ≡ none
Moved to (some r) none = ⊥
Moved to (some r) (some r') =
    (r' ≡ r) ⊎ ((can_transition r.status to ≡ true) × (r'.status ≡ to) × SameTerms r r')

Moved-same : (to : OrderStatus) (o : Option OrderRow) → Moved to o o
Moved-same to none = refl
Moved-same to (some r) = inl refl

Moved-map :
    (c : Command) (now : ℕ) (order : OrderRow)
    → can_transition order.status (command_target c) ≡ true
    → Moved (command_target c) (some order) (some (command_columns c now order))
Moved-map c now order h = inr (h, columns_status c now order h, columns-SameTerms c now order)

pub columns_keep :
    (c : Command) (now : ℕ) (r : OrderRow) → (command_columns c now r).public_id ≡ r.public_id
columns_keep c now r = (columns-SameTerms c now r).same_public_id

update-Moved :
    (c : Command) (now : ℕ) (rows : List OrderRow) (order : OrderRow) (id : Text)
    → find_row (command_id c) rows ≡ some order
    → can_transition order.status (command_target c) ≡ true
    → let rows' = update_where (command_id c) (command_columns c now) rows in
      Moved (command_target c) (find_row id rows) (find_row id rows')
      × (id ≢ command_id c → find_row id rows' ≡ find_row id rows)
update-Moved c now rows order id found legal =
    rw (find_row-update_where (command_id c) (command_columns c now) (columns_keep c now) id rows)
      (elim (Bool-cases (command_id c == id)) [
        | inl own ↦
            rw (own, ← (text_beq_iff (command_id c) id).0 own, found)
              (Moved-map c now order legal, λ ne. absurd (ne refl))
        | inr other ↦ rw other (Moved-same _ _, λ _. refl)
      ])

-- A command leaves every order but its own alone, and its own it leaves alone or moves along a legal
-- edge to the status of the command, on the same terms.
pub execute-Moved :
    (min_gap : ℕ) (c : Command) (s : Store) (id : Text)
    → let s' = (execute min_gap c s).1 in
      Moved (command_target c) (find_row id s.orders) (find_row id s'.orders)
      × (id ≢ command_id c → find_row id s'.orders ≡ find_row id s.orders)
execute-Moved min_gap c s id = elim (execute-cases min_gap c s) [
  | inl same ↦ rw same (Moved-same (command_target c) (find_row id s.orders), λ _. refl)
  | inr (order, found, legal, passes, w) ↦
      rw w.1 (update-Moved c s.clock s.orders order id found legal)
]

-- Commands that arrive one after the other, each with the time at which the database sees it. A
-- command that fails does not stop the next one.
unfoldable pub run_commands : ℕ → List (ℕ × Command) → Store → Store
run_commands min_gap [] s = s
run_commands min_gap ((now, c) ∷ rest) s =
    run_commands min_gap rest (execute min_gap c (record s { clock = now })).1

-- What has become of a known order.
abbrev pub Followed : Text → OrderRow → Store → Type 0
Followed id r s =
    (r' : OrderRow) × (path : List OrderStatus) × (find_row id s.orders ≡ some r')
    × Run r.status path r'.status
    × SameTerms r r'

SameTerms-refl : (r : OrderRow) → SameTerms r r
SameTerms-refl r = ground arith

SameTerms-trans : {r r' r'' : OrderRow} → SameTerms r r' → SameTerms r' r'' → SameTerms r r''
SameTerms-trans h k = ground arith

follow :
    (to : OrderStatus) (id : Text) (r : OrderRow) (s' : Store) (o : Option OrderRow)
    → Moved to (some r) o
    → ((r' : OrderRow) → o ≡ some r' → Followed id r' s')
    → Followed id r s'
follow to id r s' none moved rest = absurd moved
follow to id r s' (some r₁) (inl same) rest = subst (λ x. Followed id x s') same (rest r₁ refl)
follow to id r s' (some r₁) (inr (legal, there, terms)) rest =
    let (r', path, found, run, terms') = rest r₁ refl in
    (r', r₁.status ∷ path, found, move (rw there legal) run, SameTerms-trans terms terms')

-- Whatever commands arrive, in any order and however often, a known order stays known, its status
-- goes from where it was along legal edges of the state machine only, and its terms never change.
pub run_commands-Followed :
    (min_gap : ℕ) (cs : List (ℕ × Command)) (s : Store) (id : Text) (r : OrderRow)
    → find_row id s.orders ≡ some r
    → Followed id r (run_commands min_gap cs s)
unfolding run_commands
run_commands-Followed min_gap [] s id r found = (r, [], found, stay, SameTerms-refl r)
run_commands-Followed min_gap ((now, c) ∷ rest) s id r found =
    let s₁ : Store = (execute min_gap c (record s { clock = now })).1 in
    follow (command_target c) id r (run_commands min_gap rest s₁) (find_row id s₁.orders)
      (rw found at (execute-Moved min_gap c (record s { clock = now }) id).0)
      (λ r' found'. run_commands-Followed min_gap rest s₁ id r' found')
