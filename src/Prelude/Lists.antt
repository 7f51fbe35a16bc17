-- ===== src/Prelude/Lists.antt =====
-- Lists measured by native numbers, membership by recursion, and predicates on all elements.
use Prim.Native.Nat.{ℕ, suc, ◌+◌}
use mathlib.Core.Path.{◌≡◌}
use mathlib.Core.Logic.{◌⊎◌, inl, inr}
use mathlib.Core.List.{List, [], ◌∷◌, ◌++◌}
use native.Mathlib.Omega.{arith}

module _ {ℓ} {A : Type ℓ} where
  abbrev pub length : List A → ℕ
  length [] = 0
  length (x ∷ xs) = suc (length xs)

  abbrev pub All {κ} : (A → Type κ) → List A → Type κ
  All P [] = Unit
  All P (x ∷ xs) = P x × All P xs

  pub All-append {κ} : (P : A → Type κ) (xs ys : List A) → All P xs → All P ys → All P (xs ++ ys)
  All-append P [] ys h k = k
  All-append P (x ∷ xs) ys h k = (h.0, All-append P xs ys h.1 k)

  pub All-map {κ μ} :
      (P : A → Type κ) (Q : A → Type μ) (xs : List A) → ((x : A) → P x → Q x) → All P xs → All Q xs
  All-map P Q [] h k = tt
  All-map P Q (x ∷ xs) h k = (h x k.0, All-map P Q xs h k.1)

  pub length-append : (xs ys : List A) → length (xs ++ ys) ≡ length xs + length ys
  length-append [] ys = omega arith
  length-append (x ∷ xs) ys = omega (arith, length-append xs ys)

module _ {A : Type 0} where
  infix 40 ◌∈◌
  abbrev pub ◌∈◌ : A → List A → Type 0
  q ∈ [] = ⊥
  q ∈ x ∷ xs = (q ≡ x) ⊎ (q ∈ xs)

  pub mem-append_left : (q : A) (xs ys : List A) → q ∈ xs → q ∈ xs ++ ys
  mem-append_left q (x ∷ xs) ys (inl e) = inl e
  mem-append_left q (x ∷ xs) ys (inr h) = inr (mem-append_left q xs ys h)
  mem-append_left q [] ys h = absurd h

  pub mem-append_right : (q : A) (xs ys : List A) → q ∈ ys → q ∈ xs ++ ys
  mem-append_right q [] ys h = h
  mem-append_right q (x ∷ xs) ys h = inr (mem-append_right q xs ys h)

  pub mem-append_cases : (q : A) (xs ys : List A) → q ∈ xs ++ ys → (q ∈ xs) ⊎ (q ∈ ys)
  mem-append_cases q [] ys h = inr h
  mem-append_cases q (x ∷ xs) ys (inl e) = inl (inl e)
  mem-append_cases q (x ∷ xs) ys (inr h) = elim (mem-append_cases q xs ys h) [
    | inl l ↦ inl (inr l)
    | inr r ↦ inr r
  ]
