-- ===== src/Prelude/Relations.antt =====
-- Predicates on all elements of a list, and relations between every two.
use mathlib.Core.Path.{◌≡◌, refl, ap}
use mathlib.Core.List.{List, [], ◌∷◌, ◌++◌, map}

module _ {ℓ κ} {A : Type ℓ} where
  abbrev pub All : (A → Type κ) → List A → Type κ
  All P [] = Unit
  All P (x ∷ xs) = P x × All P xs

  -- Every element is related to every later one.
  abbrev pub Pairwise : (A → A → Type κ) → List A → Type κ
  Pairwise R [] = Unit
  Pairwise R (x ∷ xs) = All (R x) xs × Pairwise R xs

  pub All-append : (P : A → Type κ) (xs ys : List A) → All P xs → All P ys → All P (xs ++ ys)
  All-append P [] ys h k = k
  All-append P (x ∷ xs) ys h k = (h.0, All-append P xs ys h.1 k)

  pub All-of : (P : A → Type κ) (xs : List A) → ((x : A) → P x) → All P xs
  All-of P [] f = tt
  All-of P (x ∷ xs) f = (f x, All-of P xs f)

  pub All-mono : (P Q : A → Type κ) (xs : List A) → ((x : A) → P x → Q x) → All P xs → All Q xs
  All-mono P Q [] f h = tt
  All-mono P Q (x ∷ xs) f h = (f x h.0, All-mono P Q xs f h.1)

  pub Pairwise-append_one :
      (R : A → A → Type κ) (xs : List A) (y : A)
      → Pairwise R xs
      → All (λ x. R x y) xs
      → Pairwise R (xs ++ y ∷ [])
  Pairwise-append_one R [] y h k = (tt, tt)
  Pairwise-append_one R (x ∷ xs) y h k =
      (All-append (R x) xs (y ∷ []) h.0 (k.0, tt), Pairwise-append_one R xs y h.1 k.1)

  pub Pairwise-mono :
      (R S : A → A → Type κ) (xs : List A)
      → ((x y : A) → R x y → S x y)
      → Pairwise R xs
      → Pairwise S xs
  Pairwise-mono R S [] f h = tt
  Pairwise-mono R S (x ∷ xs) f h = (All-mono (R x) (S x) xs (f x) h.0, Pairwise-mono R S xs f h.1)

  pub All-both :
      (P Q R : A → Type κ) (xs : List A)
      → ((x : A) → P x → Q x → R x)
      → All P xs
      → All Q xs
      → All R xs
  All-both P Q R [] f h k = tt
  All-both P Q R (x ∷ xs) f h k = (f x h.0 k.0, All-both P Q R xs f h.1 k.1)

  -- The relation may be weakened with what holds of all elements.
  pub Pairwise-mono_on :
      (P : A → Type κ) (R S : A → A → Type κ) (xs : List A)
      → ((x y : A) → P x → P y → R x y → S x y)
      → All P xs
      → Pairwise R xs
      → Pairwise S xs
  Pairwise-mono_on P R S [] f p h = tt
  Pairwise-mono_on P R S (x ∷ xs) f p h = (
    All-both P (R x) (S x) xs (λ y py r. f x y p.0 py r) p.1 h.0,
    Pairwise-mono_on P R S xs f p.1 h.1,
  )

module _ {ℓ κ μ} {A : Type ℓ} {B : Type κ} (f : A → B) where
  pub All-map : (P : B → Type μ) (xs : List A) → All (λ a. P (f a)) xs → All P (map f xs)
  All-map P [] h = tt
  All-map P (x ∷ xs) h = (h.0, All-map P xs h.1)

  pub All-unmap : (P : B → Type μ) (xs : List A) → All P (map f xs) → All (λ a. P (f a)) xs
  All-unmap P [] h = tt
  All-unmap P (x ∷ xs) h = (h.0, All-unmap P xs h.1)

  pub Pairwise-map :
      (R : B → B → Type μ) (xs : List A)
      → Pairwise (λ a b. R (f a) (f b)) xs
      → Pairwise R (map f xs)
  Pairwise-map R [] h = tt
  Pairwise-map R (x ∷ xs) h = (All-map (R (f x)) xs h.0, Pairwise-map R xs h.1)

  pub Pairwise-unmap :
      (R : B → B → Type μ) (xs : List A)
      → Pairwise R (map f xs)
      → Pairwise (λ a b. R (f a) (f b)) xs
  Pairwise-unmap R [] h = tt
  Pairwise-unmap R (x ∷ xs) h = (All-unmap (R (f x)) xs h.0, Pairwise-unmap R xs h.1)

module _ {ℓ} {A : Type ℓ} where
  pub append_nil : (xs : List A) → xs ++ [] ≡ xs
  append_nil [] = refl
  append_nil (x ∷ xs) = ap (λ l. x ∷ l) (append_nil xs)

  pub append_snoc : (xs : List A) (y : A) (ys : List A) → (xs ++ y ∷ []) ++ ys ≡ xs ++ y ∷ ys
  append_snoc [] y ys = refl
  append_snoc (x ∷ xs) y ys = ap (λ l. x ∷ l) (append_snoc xs y ys)
