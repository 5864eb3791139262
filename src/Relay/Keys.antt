-- ===== src/Relay/Keys.antt =====
-- The keys of relayer/src/relay-submission-tracker.ts. `digest` is the first eight hexadecimal digits
-- of Node's SHA-256, and `quoted` is `JSON.stringify` on a string.
use over_sync.Prelude.{
  ℕ, ◌≡◌, refl, Bool, false, is_empty, ◌&&◌, ◌||◌, [], ◌∷◌, ◌++◌, take, is_digit, leb, ◌=ℕ◌,
  if◌then◌else◌, Text, text,
}
use over_sync.Relay.Records.{RelayAction}

-- The class `[A-Za-z0-9._-]`
abbrev is_safe : ℕ → Bool
is_safe c =
    is_digit c
    || (leb b'a' c && leb c b'z')
    || (leb b'A' c && leb c b'Z')
    || c =ℕ b'.'
    || c =ℕ b'_'
    || c =ℕ b'-'

abbrev sanitize : Text → Text
sanitize [] = []
sanitize (c ∷ s) = (if is_safe c then c else b'_') ∷ sanitize s

abbrev safe_or_unknown : Text → Text
safe_or_unknown [] = text "unknown"
safe_or_unknown (c ∷ s) = c ∷ s

-- `humanizeOrderId`
unfoldable pub humanize_order_id : Text → Text
humanize_order_id order_id = safe_or_unknown (take 64 (sanitize order_id))

module _ (digest quoted : Text → Text) where
  -- `computeOrderKey`
  unfoldable pub compute_order_key : Text → Text → Text
  unfolding humanize_order_id
  compute_order_key order_id side =
      humanize_order_id order_id ++ text "|" ++ side ++ text "#" ++ digest order_id

  -- `computeSubmissionKey`
  unfoldable pub compute_submission_key : RelayAction → Text
  unfolding humanize_order_id
  compute_submission_key action =
      action.side
      ++ text ":"
      ++ action.action
      ++ text ":"
      ++ humanize_order_id action.order_id
      ++ text "#"
      ++ digest (quoted action.order_id)

-- A text is not empty if something stands before its last part.
is_empty-append : (s : Text) (c : ℕ) (t : Text) → is_empty (s ++ c ∷ [] ++ t) ≡ false
is_empty-append [] c t = refl
is_empty-append (x ∷ s) c t = refl

module _ (digest quoted : Text → Text) where
  pub order_key_set :
      (order_id side : Text) → is_empty (compute_order_key digest quoted order_id side) ≡ false
  unfolding compute_order_key
  order_key_set order_id side =
      is_empty-append (humanize_order_id order_id ++ text "|" ++ side) b'#' (digest order_id)

  pub submission_key_set :
      (action : RelayAction) → is_empty (compute_submission_key digest quoted action) ≡ false
  unfolding compute_submission_key
  submission_key_set action =
      is_empty-append
        (action.side ++ text ":" ++ action.action ++ text ":" ++ humanize_order_id action.order_id)
        b'#' (digest (quoted action.order_id))
