-- ===== src/PersistentMap/Eviction.antt =====
-- That an update leaves the persistent map small and fresh, and never fails.
use navigation.Prelude.{
  ℕ, ◌+◌, ◌-◌, ◌≤◌, ◌≡◌, refl, sym, ap, ◌∙◌, inl, inr, Bool, true, false, ◌&&◌, ◌⊎◌, Option, none,
  some, List, [], ◌∷◌, All, ltb, length, arith, Bool-cases,
}
use mathlib.Core.Path.{subst}
use navigation.Float.{Float, ◌⊖◌, less, nought}
use navigation.Grid.{Cell}
use navigation.AStar.{eq_cell}
use navigation.AStar.Moves.{eq_cell_refl}
use navigation.PersistentMap.{
  Entry, PersistentMap, store_all, keys, take, stale_keys, by_time, evict_stale, evict_excess,
  evict, cells_of, update,
}
use navigation.PersistentMap.Entries.{has, IsDistinct, delete_all-IsRid}
use navigation.PersistentMap.Sorting.{
  no_part, or_right, AreKeys-all, store_all-IsDistinct, has-take, take-IsDistinct, length-take,
  has-by_time, by_time-IsDistinct, length-by_time,
}

module _ {F : Type 0} ⦃f : Float F⦄ where
  All-zip :
      {P R S : Entry F → Type 0} (c : List (Entry F))
      → All P c
      → All R c
      → ((e : Entry F) → P e → R e → S e)
      → All S c
  All-zip [] p r k = tt
  All-zip (e ∷ c) p r k = (k e p.0 r.0, All-zip c p.1 r.1 k)

  own_keys : (c : List (Entry F)) → All (λ e. has e.0 (keys c) ≡ true) c
  own_keys [] = tt
  own_keys (e ∷ c) = (
    rw (eq_cell_refl e.0) refl,
    All-zip c (own_keys c) (own_keys c) (λ x h k. or_right (eq_cell x.0 e.0) _ h),
  )

  has-stale_keys :
      (cutoff : F) (c : List (Entry F)) (j : Cell)
      → has j (keys c) ≡ false
      → has j (stale_keys cutoff c) ≡ false
  unfolding stale_keys
  has-stale_keys cutoff [] j h = refl
  has-stale_keys cutoff (e ∷ c) j h =
      let (a, b) = no_part (eq_cell j e.0) (has j (keys c)) h in
      elim (Bool-cases (less e.1 cutoff)) [
        | inl old ↦ rw (old, a) (has-stale_keys cutoff c j b)
        | inr new ↦ rw new (has-stale_keys cutoff c j b)
      ]

  stale_keys-IsDistinct :
      (cutoff : F) (c : List (Entry F)) → IsDistinct (keys c) → IsDistinct (stale_keys cutoff c)
  unfolding stale_keys
  stale_keys-IsDistinct cutoff [] d = tt
  stale_keys-IsDistinct cutoff (e ∷ c) d = elim (Bool-cases (less e.1 cutoff)) [
    | inl old ↦ rw old (has-stale_keys cutoff c e.0 d.0, stale_keys-IsDistinct cutoff c d.1)
    | inr new ↦ rw new (stale_keys-IsDistinct cutoff c d.1)
  ]

  -- Every stale entry is listed.
  abbrev IsListed : F → List Cell → Entry F → Type 0
  IsListed cutoff ks e = (less e.1 cutoff ≡ false) ⊎ (has e.0 ks ≡ true)

  stale_keys-IsListed :
      (cutoff : F) (c : List (Entry F)) → All (IsListed cutoff (stale_keys cutoff c)) c
  unfolding stale_keys
  stale_keys-IsListed cutoff [] = tt
  stale_keys-IsListed cutoff (e ∷ c) = elim (Bool-cases (less e.1 cutoff)) [
    | inl old ↦
        let first : stale_keys cutoff (e ∷ c) ≡ e.0 ∷ stale_keys cutoff c = rw old refl in
        subst (λ ks. All (IsListed cutoff ks) (e ∷ c)) (sym first)
          (
            inr (rw (eq_cell_refl e.0) refl),
            All-zip c (stale_keys-IsListed cutoff c) (stale_keys-IsListed cutoff c)
                (λ x h k. longer x h),
          )
    | inr new ↦
        let first : stale_keys cutoff (e ∷ c) ≡ stale_keys cutoff c = rw new refl in
        subst (λ ks. All (IsListed cutoff ks) (e ∷ c)) (sym first)
          (inl new, stale_keys-IsListed cutoff c)
  ]
    where
      longer :
          (x : Entry F)
          → IsListed cutoff (stale_keys cutoff c) x
          → IsListed cutoff (e.0 ∷ stale_keys cutoff c) x
      longer x (inl new) = inl new
      longer x (inr h) = inr (or_right (eq_cell x.0 e.0) _ h)

  -- Not older than the decay time, if there is one.
  abbrev pub IsFresh : F → F → Entry F → Type 0
  IsFresh decay_sec now e = (less nought decay_sec && less e.1 (now ⊖ decay_sec)) ≡ false

  evict_stale-IsFresh :
      (decay_sec now : F) (c : List (Entry F))
      → IsDistinct (keys c)
      → (c' : List (Entry F)) × (evict_stale decay_sec now c ≡ some c')
        × IsDistinct (keys c')
        × All (IsFresh decay_sec now) c'
  unfolding evict_stale
  evict_stale-IsFresh decay_sec now c d = elim (Bool-cases (less nought decay_sec)) [
    | inl on ↦
        let cutoff = now ⊖ decay_sec in
        let ks = stale_keys cutoff c in
        let (c', eq, r) =
          delete_all-IsRid ks c (stale_keys-IsDistinct cutoff c d) d
            (AreKeys-all c ks (λ j. contrapose _ _ (has-stale_keys cutoff c j))) in
        let evicted : evict_stale decay_sec now c ≡ some c' = rw on eq in
        (
          c',
          evicted,
          r.distinct,
          All-zip c' (r.subset (IsListed cutoff ks) (stale_keys-IsListed cutoff c)) (own_keys c')
              (λ e listed own. and_false _ _ (left e c' ks (r.gone e.0) listed own)),
        )
    | inr off ↦
        let evicted : evict_stale decay_sec now c ≡ some c = rw off refl in
        (c, evicted, d, All-zip c (own_keys c) (own_keys c) (λ e h k. false_and _ _ off))
  ]
    where
      contrapose : (a b : Bool) → (b ≡ false → a ≡ false) → a ≡ true → b ≡ true
      contrapose a b h k = ground arith

      and_false : (a b : Bool) → b ≡ false → (a && b) ≡ false
      and_false a b h = ground arith

      false_and : (a b : Bool) → a ≡ false → (a && b) ≡ false
      false_and a b h = ground arith

      left :
          (e : Entry F) (c' : List (Entry F)) (ks : List Cell)
          → (has e.0 ks ≡ true → has e.0 (keys c') ≡ false)
          → IsListed (now ⊖ decay_sec) ks e
          → has e.0 (keys c') ≡ true
          → less e.1 (now ⊖ decay_sec) ≡ false
      left e c' ks gone (inl new) own = new
      left e c' ks gone (inr h) own = ground (arith, gone h, own)

  evict_excess-Fits :
      (max_cells : ℕ) (c : List (Entry F)) (P : Entry F → Type 0)
      → IsDistinct (keys c)
      → All P c
      → (c' : List (Entry F)) × (evict_excess max_cells c ≡ some c')
        × IsDistinct (keys c')
        × (length c' ≤ max_cells)
        × All P c'
  unfolding evict_excess
  evict_excess-Fits max_cells c P d a = elim (Bool-cases (ltb max_cells (length c))) [
    | inl over ↦
        let ks = take (length c - max_cells) (keys (by_time c)) in
        let (c', eq, r) =
          delete_all-IsRid ks c (take-IsDistinct _ _ (by_time-IsDistinct c d)) d
            (AreKeys-all c ks (λ j. known j)) in
        rw over (c', eq, r.distinct, fits over r.size, r.subset P a)
    | inr under ↦ rw under (c, refl, d, ground arith, a)
  ]
    where
      known :
          (j : Cell)
          → has j (take (length c - max_cells) (keys (by_time c))) ≡ true
          → has j (keys c) ≡ true
      known j h =
          sym (has-by_time c j)
          ∙ contrapose _ _ (has-take (length c - max_cells) (keys (by_time c)) j) h
        where
          contrapose : (a b : Bool) → (b ≡ false → a ≡ false) → a ≡ true → b ≡ true
          contrapose a b h k = ground arith

      taken : length (take (length c - max_cells) (keys (by_time c))) ≡ length c - max_cells
      taken = length-take _ _ (omega (arith, length-by_time c))

      fits :
          {n : ℕ}
          → ltb max_cells (length c) ≡ true
          → n + length (take (length c - max_cells) (keys (by_time c))) ≡ length c
          → n ≤ max_cells
      fits over size = ground (arith, over, size, taken)

  evict-Keeps :
      (decay_sec now : F) (max_cells : ℕ) (c : List (Entry F))
      → IsDistinct (keys c)
      → (c' : List (Entry F)) × (evict decay_sec now max_cells c ≡ some c')
        × IsDistinct (keys c')
        × (length c' ≤ max_cells)
        × All (IsFresh decay_sec now) c'
  unfolding evict
  evict-Keeps decay_sec now max_cells c d =
      let (c1, eq1, d1, fresh) = evict_stale-IsFresh decay_sec now c d in
      let (c2, eq2, d2, fits, fresh2) =
        evict_excess-Fits max_cells c1 (IsFresh decay_sec now) d1 fresh in
      (
        c2,
        ap
              (λ o. elim o as (λ _. Option (List (Entry F))) [
                | none ↦ none
                | some c' ↦ evict_excess max_cells c'
              ])
              eq1
            ∙ eq2,
        d2,
        fits,
        fresh2,
      )

  -- However many points a scan has: an update of a map whose cells are distinct raises no `KeyError`; and
  -- after it the cells are distinct, there are at most `max_cells` of them, and none is older than the
  -- decay time, if there is one.
  pub update-Keeps :
      (points : Option (List (F × F))) (now : F) (m : PersistentMap F)
      → IsDistinct (keys m.entries)
      → (m' : PersistentMap F) × (update points now m ≡ some m')
        × IsDistinct (keys m'.entries)
        × (length m'.entries ≤ m.max_cells)
        × All (IsFresh m.decay_sec now) m'.entries
  unfolding update
  update-Keeps points now m d =
      let hits : List Cell = elim points as (λ _. List Cell) [
        | none ↦ []
        | some pts ↦ cells_of m.reso pts
      ] in
      let stored = store_all now hits m.entries in
      let (c, eq, d2, fits, fresh) =
        evict-Keeps m.decay_sec now m.max_cells stored
          (store_all-IsDistinct now hits m.entries d) in
      (
        record m { entries = c },
        ap
            (λ o. elim o as (λ _. Option (PersistentMap F)) [
              | none ↦ none
              | some c' ↦ some (record m { entries = c' })
            ])
            eq,
        d2,
        fits,
        fresh,
      )
