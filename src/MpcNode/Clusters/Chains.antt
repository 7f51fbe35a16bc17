-- ===== src/MpcNode/Clusters/Chains.antt =====
-- Chains of parents, under the writes of `find` and `union`.
use navigation.Prelude.{
  ℕ, zero, suc, ◌≤◌, ◌≡◌, refl, sym, ap, ◌∙◌, inl, inr, true, false, Bool-cases, arith,
}
use mathlib.Core.Path.{subst}
use navigation.MpcNode.Clusters.{Cell, Parents, same_cell, set_parent}

-- The root `r` is at most `n` parents above `x`.
pub data Chain (parent : Parents) (r : Cell) : ℕ → Cell → Type 0 where
  top : {n : ℕ} {x : Cell} → x ≡ r → parent x ≡ x → Chain parent r n x
  up : {n : ℕ} {x : Cell} → Chain parent r n (parent x) → Chain parent r (suc n) x

pub same_cell→≡ : (a b : Cell) → same_cell a b ≡ true → a ≡ b
same_cell→≡ (a, a') (b, b') h = ground (arith)

pub same_cell_refl : (a : Cell) → same_cell a a ≡ true
same_cell_refl a = ground arith

-- A parent that is set, read at its own cell and at another.
set_same : (a b : Cell) (parent : Parents) → set_parent a b parent a ≡ b
unfolding set_parent
set_same a b parent = rw (same_cell_refl a) refl

set_other :
    (a b x : Cell) (parent : Parents) → same_cell x a ≡ false → set_parent a b parent x ≡ parent x
unfolding set_parent
set_other a b x parent h = rw h refl

module _ (parent : Parents) where
  pub weaken : {r : Cell} {n : ℕ} {x : Cell} → Chain parent r n x → Chain parent r (suc n) x
  weaken (top q e) = top q e
  weaken (up c) = up (weaken c)

  -- A root's only root is itself.
  chain_root : {r : Cell} {n : ℕ} {x : Cell} → parent x ≡ x → Chain parent r n x → x ≡ r
  chain_root e (top q _) = q
  chain_root e (up c) = sym e ∙ chain_root (ap parent e) c

  abbrev pub halved : Cell → Parents
  halved a = set_parent a (parent (parent a)) parent

  halved_at : (a x : Cell) → same_cell x a ≡ true → halved a x ≡ parent (parent x)
  halved_at a x h =
      let e = same_cell→≡ x a h in
      subst (λ y. halved y x ≡ parent (parent x)) e (set_same x (parent (parent x)) parent)

  halve-root : (a r : Cell) → parent r ≡ r → halved a r ≡ r
  halve-root a r e = elim (Bool-cases (same_cell r a)) [
    | inl h ↦ halved_at a r h ∙ ap parent e ∙ e
    | inr h ↦ set_other a (parent (parent a)) r parent h ∙ e
  ]

pub weaken_to :
    (parent : Parents) (r : Cell) (n m : ℕ) (x : Cell)
    → m ≤ n
    → Chain parent r m x
    → Chain parent r n x
weaken_to parent r n m x le (top q e) = top q e
weaken_to parent r zero (suc m) x le (up c) = absurd (omega (arith, le))
weaken_to parent r (suc n) (suc m) x le (up c) =
    up (weaken_to parent r n m (parent x) (omega (arith, le)) c)

-- A step to a parent that is known.
via :
    (parent : Parents) (r : Cell) (n : ℕ) (x y : Cell)
    → parent x ≡ y
    → Chain parent r n y
    → Chain parent r (suc n) x
via parent r n x y e c = up (subst (Chain parent r n) (sym e) c)

module _ (parent : Parents) where
  -- Path halving shortens every chain or leaves it.
  pub halve-Chain :
      (a r : Cell) (n : ℕ) (x : Cell) → Chain parent r n x → Chain (halved parent a) r n x
  halve-Chain a r n x (top q e) = top q (halve-root parent a x e)
  halve-Chain a r (suc n) x (up (top q e)) = elim (Bool-cases (same_cell x a)) [
    | inl h ↦
        via (halved parent a) r n x (parent (parent x)) (halved_at parent a x h)
          (top (e ∙ q) (halve-root parent a (parent (parent x)) (ap parent e)))
    | inr h ↦
        via (halved parent a) r n x (parent x) (set_other a (parent (parent a)) x parent h)
          (top q (halve-root parent a (parent x) e))
  ]
  halve-Chain a r (suc (suc n)) x (up (up c)) = elim (Bool-cases (same_cell x a)) [
    | inl h ↦ weaken (halved parent a) (
        via (halved parent a) r n x (parent (parent x)) (halved_at parent a x h)
          (halve-Chain a r n (parent (parent x)) c))
    | inr h ↦
        via (halved parent a) r (suc n) x (parent x) (set_other a (parent (parent a)) x parent h)
          (halve-Chain a r (suc n) (parent x) (up c))
  ]

pub above :
    (parent : Parents) (r : Cell) (n : ℕ) (a : Cell)
    → Chain parent r (suc n) a
    → same_cell (parent a) a ≡ false
    → Chain parent r n (parent (parent a))
above parent r n a (top q e) h = top (ap parent e ∙ e ∙ q) (ap parent (ap parent e))
above parent r n a (up (top q e)) h = top (e ∙ q) (ap parent e)
above parent r (suc n) a (up (up c)) h = weaken parent c

set_at : (a b x : Cell) (parent : Parents) → same_cell x a ≡ true → set_parent a b parent x ≡ b
unfolding set_parent
set_at a b x parent h = rw h refl

set_root : (a b : Cell) (parent : Parents) → parent b ≡ b → set_parent a b parent b ≡ b
set_root a b parent e = elim (Bool-cases (same_cell b a)) [
  | inl h ↦ set_at a b b parent h
  | inr h ↦ set_other a b b parent h ∙ e
]

-- A root that gets a parent deepens a chain by one at most.
pub link-Chain :
    (a b : Cell) (parent : Parents) (r : Cell) (n : ℕ) (x : Cell)
    → parent b ≡ b
    → Chain parent r n x
    → (r' : Cell) × Chain (set_parent a b parent) r' (suc n) x
link-Chain a b parent r n x root (top q e) = elim (Bool-cases (same_cell x a)) [
  | inl h ↦ (
    b,
    via (set_parent a b parent) b n x b (set_at a b x parent h)
        (top refl (set_root a b parent root)),
  )
  | inr h ↦ (x, top refl (set_other a b x parent h ∙ e))
]
link-Chain a b parent r (suc n) x root (up c) = elim (Bool-cases (same_cell x a)) [
  | inl h ↦ (
    b,
    via (set_parent a b parent) b (suc n) x b (set_at a b x parent h)
        (top refl (set_root a b parent root)),
  )
  | inr h ↦
      let (r', d) = link-Chain a b parent r n (parent x) root c in
      (r', via (set_parent a b parent) r' (suc n) x (parent x) (set_other a b x parent h) d)
]
