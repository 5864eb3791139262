-- ===== src/Secrets/Encoding.antt =====
-- What the hashed bytes of an order tell.
use over_sync.Prelude.{
  ◌≤◌, Option, none, All, ℕ, ◌+◌, ◌*◌, ◌^◌, ◌<◌, ◌≡◌, some, List, [], ◌∷◌, ◌++◌, length, Text,
}
use over_sync.Secrets.{hex_to_bytes, strip_prefix}

-- The number that bytes stand for, the most significant one first.
unfoldable pub number_of : ℕ → List ℕ → ℕ
number_of acc [] = acc
number_of acc (b ∷ bs) = number_of (256 * acc + b) bs

-- What `hashOrderPreimage` promises of its message: 32 bytes that are the order id, the most significant
-- one first, and then the bytes of the preimage; no message exactly for an id that does not fit.
abbrev pub MessageOf : ℕ → Text → Option (List ℕ) → Type 0
MessageOf id preimage none = 2 ^ 256 ≤ id
MessageOf id preimage (some message) =
    (id < 2 ^ 256)
    × (front : List ℕ) × (message ≡ front ++ hex_to_bytes (strip_prefix preimage))
    × (length front ≡ 32)
    × All (λ b. b < 256) front
    × (number_of 0 front ≡ id)
