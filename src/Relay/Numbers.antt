-- ===== src/Relay/Numbers.antt =====
-- Lists of numbers of records.
use mathlib.Core.Path.{subst}
use over_sync.Prelude.{
  ◌∙◌, ℕ, ◌≡◌, ◌≢◌, sym, true, ◌||◌, List, [], ◌∷◌, ◌++◌, includes, All, Pairwise, ◌==◌, nat_eq,
  =ℕ_iff, Bool-cases, arith, inl, inr,
}

pub All-includes {κ} :
    (P : ℕ → Type κ) (xs : List ℕ) (i : ℕ) → All P xs → includes xs i ≡ true → P i
All-includes P [] i h m = absurd (ground arith)
All-includes P (x ∷ xs) i h m = elim (Bool-cases (x == i)) [
  | inl same ↦ subst P ((=ℕ_iff x i).0 same) h.0
  | inr other ↦ All-includes P xs i h.1 (ground arith)
]

pub All-of_includes {κ} :
    (P : ℕ → Type κ) (xs : List ℕ) → ((i : ℕ) → includes xs i ≡ true → P i) → All P xs
All-of_includes P [] f = tt
All-of_includes P (x ∷ xs) f =
    (f x (ground (arith, =ℕ_iff x x)), All-of_includes P xs (λ i m. f i (ground arith)))

pub includes-append_one :
    (xs : List ℕ) (i j : ℕ) → includes (xs ++ j ∷ []) i ≡ (includes xs i || j == i)
includes-append_one [] i j = ground arith
includes-append_one (x ∷ xs) i j = ground (arith, includes-append_one xs i j)

-- Two different elements are related one way or the other.
pub Pairwise-includes {κ} :
    (R : ℕ → ℕ → Type κ) (xs : List ℕ) (i j : ℕ)
    → ((a b : ℕ) → R a b → R b a)
    → Pairwise R xs
    → includes xs i ≡ true
    → includes xs j ≡ true
    → i ≢ j
    → R i j
Pairwise-includes R [] i j flip h mi mj d = absurd (ground arith)
Pairwise-includes R (x ∷ xs) i j flip h mi mj d = elim (Bool-cases (x == i)) [
  | inl xi ↦ elim (Bool-cases (x == j)) [
    | inl xj ↦ absurd (d (sym ((=ℕ_iff x i).0 xi) ∙ (=ℕ_iff x j).0 xj))
    | inr nj ↦ subst (λ a. R a j) ((=ℕ_iff x i).0 xi) (All-includes (R x) xs j h.0 (ground arith))
  ]
  | inr ni ↦ elim (Bool-cases (x == j)) [
    | inl xj ↦
        flip j i
          (subst (λ a. R a i) ((=ℕ_iff x j).0 xj) (All-includes (R x) xs i h.0 (ground arith)))
    | inr nj ↦ Pairwise-includes R xs i j flip h.1 (ground arith) (ground arith) d
  ]
]
