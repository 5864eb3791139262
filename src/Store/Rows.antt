-- ===== src/Store/Rows.antt =====
-- What an UPDATE of one order leaves alone, and where it is seen.
use mathlib.Core.Option
use over_sync.Prelude.{◌≡◌, List, [], ◌∷◌, arith, ◌==◌, if◌then◌else◌, Text, text_eq, text_beq_iff}
use over_sync.Order.{OrderRow}
use over_sync.Store.{update_where, find_row}

-- An update that keeps the public id is seen by the look-up of that id, and by no other.
module _ (public_id : Text) (set : OrderRow → OrderRow)
    (keeps : (row : OrderRow) → (set row).public_id ≡ row.public_id) where
  pub find_row-update_where :
      (other : Text) (rows : List OrderRow)
      → find_row other (update_where public_id set rows)
        ≡ (if public_id == other then Option.map set (find_row other rows) else find_row other rows)
  unfolding find_row update_where
  find_row-update_where other [] = ground arith
  find_row-update_where other (row ∷ rows) = ground (
    arith,
    keeps row,
    find_row-update_where other rows,
    text_beq_iff row.public_id public_id,
    text_beq_iff row.public_id other,
    text_beq_iff public_id other,
  )
