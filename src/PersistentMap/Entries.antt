-- ===== src/PersistentMap/Entries.antt =====
-- The dictionary of the persistent map: what deletion does to its keys and its size.
use navigation.Prelude.{
  suc, ◌+◌, ◌≡◌, refl, sym, ap, ◌∙◌, inl, inr, Bool, true, false, ◌||◌, Option, none, some, List,
  [], ◌∷◌, All, length, arith, Bool-cases,
}
use navigation.Grid.{Cell}
use navigation.AStar.{eq_cell}
use navigation.AStar.Moves.{eq_cell→≡}
use navigation.PersistentMap.{Entry, delete, delete_all, keys}

abbrev pub has : Cell → List Cell → Bool
has k [] = false
has k (j ∷ js) = eq_cell k j || has k js

abbrev pub IsDistinct : List Cell → Type 0
IsDistinct [] = Unit
IsDistinct (k ∷ ks) = (has k ks ≡ false) × IsDistinct ks

pub eq_cell_sym : (j k : Cell) → eq_cell j k ≡ eq_cell k j
eq_cell_sym j k = ground arith

-- Equal cells are keys of the same lists.
pub has_eq : (j k : Cell) (ks : List Cell) → eq_cell j k ≡ true → has j ks ≡ has k ks
has_eq j k ks h = ap (λ c. has c ks) (eq_cell→≡ j k h)

module _ {F : Type 0} where
  -- The dictionary `c'` is `c` without the key `k`.
  pub record IsWithout (k : Cell) (c c' : List (Entry F)) : Type 1 where
    pub distinct : IsDistinct (keys c')
    pub shorter : suc (length c') ≡ length c
    pub gone : has k (keys c') ≡ false
    pub kept : (j : Cell) → eq_cell j k ≡ false → has j (keys c') ≡ has j (keys c)
    pub subset : (Q : Entry F → Type 0) → All Q c → All Q c'

  pub delete-IsWithout :
      (k : Cell) (c : List (Entry F))
      → IsDistinct (keys c)
      → has k (keys c) ≡ true
      → (c' : List (Entry F)) × (delete k c ≡ some c') × IsWithout k c c'
  unfolding delete
  delete-IsWithout k [] d h = ground arith
  delete-IsWithout k (e ∷ c) d h = elim (Bool-cases (eq_cell k e.0)) [
    | inl same ↦ rw same (
      c,
      refl,
      record {
        distinct = d.1;
        shorter = refl;
        gone = has_eq k e.0 (keys c) same ∙ d.0;
        kept = λ j other. later j other same;
        subset = λ Q q. q.1;
      },
    )
    | inr other ↦
        let (c', eq, w) = delete-IsWithout k c d.1 (ground (arith, h, other)) in
        rw (other, eq)
          (
            e ∷ c',
            refl,
            record {
              distinct = (w.kept e.0 (eq_cell_sym e.0 k ∙ other) ∙ d.0, w.distinct);
              shorter = ap suc w.shorter;
              gone = ground (arith, other, w.gone);
              kept = λ j off. ap (λ b. eq_cell j e.0 || b) (w.kept j off);
              subset = λ Q q. (q.0, w.subset Q q.1);
            },
          )
  ]
    where
      later :
          (j : Cell)
          → eq_cell j k ≡ false
          → eq_cell k e.0 ≡ true
          → has j (keys c) ≡ (eq_cell j e.0 || has j (keys c))
      later j other same =
          sym (ap (λ b. b || has j (keys c)) (ap (eq_cell j) (sym (eq_cell→≡ k e.0 same)) ∙ other))

  -- The dictionary `c'` is `c` without the keys `ks`.
  pub record IsRid (ks : List Cell) (c c' : List (Entry F)) : Type 1 where
    pub distinct : IsDistinct (keys c')
    pub size : length c' + length ks ≡ length c
    pub gone : (j : Cell) → has j ks ≡ true → has j (keys c') ≡ false
    pub absent : (j : Cell) → has j (keys c) ≡ false → has j (keys c') ≡ false
    pub subset : (Q : Entry F → Type 0) → All Q c → All Q c'

  abbrev pub AreKeys : List (Entry F) → List Cell → Type 0
  AreKeys c ks = All (λ k. has k (keys c) ≡ true) ks

  still-AreKeys :
      (k : Cell) (c c' : List (Entry F)) (ks : List Cell)
      → IsWithout k c c'
      → has k ks ≡ false
      → AreKeys c ks
      → AreKeys c' ks
  still-AreKeys k c c' [] w h a = tt
  still-AreKeys k c c' (j ∷ js) w h a =
      let apart : (eq_cell k j ≡ false) × (has k js ≡ false) = both (eq_cell k j) (has k js) h in
      (w.kept j (eq_cell_sym j k ∙ apart.0) ∙ a.0, still-AreKeys k c c' js w apart.1 a.1)
    where
      both : (a b : Bool) → (a || b) ≡ false → (a ≡ false) × (b ≡ false)
      both a b h = ground arith

  without-absent :
      (k j : Cell) (c c' : List (Entry F))
      → IsWithout k c c'
      → has j (keys c) ≡ false
      → has j (keys c') ≡ false
  without-absent k j c c' w h = elim (Bool-cases (eq_cell j k)) [
    | inl same ↦ has_eq j k (keys c') same ∙ w.gone
    | inr other ↦ w.kept j other ∙ h
  ]

  pub delete_all-IsRid :
      (ks : List Cell) (c : List (Entry F))
      → IsDistinct ks
      → IsDistinct (keys c)
      → AreKeys c ks
      → (c' : List (Entry F)) × (delete_all ks c ≡ some c') × IsRid ks c c'
  unfolding delete_all
  delete_all-IsRid [] c d e a = (
    c,
    refl,
    record {
      distinct = e;
      size = omega arith;
      gone = λ j h. ground arith;
      absent = λ j h. h;
      subset = λ Q q. q;
    },
  )
  delete_all-IsRid (k ∷ ks) c d e a =
      let (c1, eq, w) = delete-IsWithout k c e a.0 in
      let (c', eq', r) =
        delete_all-IsRid ks c1 d.1 w.distinct (still-AreKeys k c c1 ks w d.0 a.1) in
      (
        c',
        first eq ∙ eq',
        record {
          distinct = r.distinct;
          size = omega (arith, r.size, w.shorter);
          gone = λ j h. elim (Bool-cases (eq_cell j k)) [
            | inl same ↦ r.absent j (has_eq j k (keys c1) same ∙ w.gone)
            | inr other ↦ r.gone j (ground (arith, h, other))
          ];
          absent = λ j h. r.absent j (without-absent k j c c1 w h);
          subset = λ Q q. r.subset Q (w.subset Q q);
        },
      )
    where
      first :
          {o : Option (List (Entry F))}
          → delete k c ≡ o
          → delete_all (k ∷ ks) c
            ≡ elim o as (λ _. Option (List (Entry F))) [ none ↦ none | some c1 ↦ delete_all ks c1 ]
      first eq =
          ap
            (λ o. elim o as (λ _. Option (List (Entry F))) [
              | none ↦ none
              | some c1 ↦ delete_all ks c1
            ])
            eq
