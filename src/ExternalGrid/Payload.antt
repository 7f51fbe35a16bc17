-- ===== src/ExternalGrid/Payload.antt =====
-- The payload's contract: what a publisher lays out is what the planner reads.
use navigation.Prelude.{
  ℕ, zero, suc, ◌+◌, ◌*◌, ◌<◌, ◌≡◌, ◌≢◌, refl, ap, ◌∙◌, Bool, true, false, not, Option, none, some,
  List, [], ◌∷◌, ◌++◌, ℤ, pos, pos_part, leb_ℤ, ◌==◌, if◌then◌else◌, length, length-append, arith,
  Bool-cases, inl, inr,
}
use navigation.Float.{Float}
use navigation.Grid.{GridMap}
use navigation.ExternalGrid.{
  Parsed, malformed, parsed, no_meta, non_positive, wrong_length, nth, external_grid,
  parse_costmap_raw,
}

module _ {F : Type 0} ⦃f : Float F⦄ where
  -- Row `i` of the costs from column `j` on, `n` of them, and `k` rows from row `i` on.
  abbrev row : (ℕ → ℕ → F) → ℕ → ℕ → ℕ → List F
  row m i j zero = []
  row m i j (suc n) = m i j ∷ row m i (suc j) n

  abbrev rows : (ℕ → ℕ → F) → ℕ → ℕ → ℕ → List F
  rows m n i zero = []
  rows m n i (suc k) = row m i 0 n ++ rows m n (suc i) k

  -- `[minx, miny, reso, cells]` and the costs, row after row.
  abbrev pub payload : F → F → F → ℕ → (ℕ → ℕ → F) → List F
  payload minx miny reso n m = minx ∷ miny ∷ reso ∷ f.of_int (pos n) ∷ rows m n 0 n

  length-row : (m : ℕ → ℕ → F) (i j n : ℕ) → length (row m i j n) ≡ n
  length-row m i j zero = refl
  length-row m i j (suc n) = omega (arith, length-row m i (suc j) n)

  length-rows : (m : ℕ → ℕ → F) (n i k : ℕ) → length (rows m n i k) ≡ k * n
  length-rows m n i zero = omega arith
  length-rows m n i (suc k) = omega (
    arith,
    length-append (row m i 0 n) (rows m n (suc i) k),
    length-row m i 0 n,
    length-rows m n (suc i) k,
  )

  nth-append_left : (xs ys : List F) (k : ℕ) → k < length xs → nth (xs ++ ys) k ≡ nth xs k
  nth-append_left [] ys k h = absurd (omega arith)
  nth-append_left (x ∷ xs) ys zero h = refl
  nth-append_left (x ∷ xs) ys (suc k) h = nth-append_left xs ys k (omega arith)

  nth-append_right : (xs ys : List F) (k : ℕ) → nth (xs ++ ys) (length xs + k) ≡ nth ys k
  nth-append_right [] ys k = ap (nth ys) (omega arith)
  nth-append_right (x ∷ xs) ys k = ap (nth (x ∷ xs ++ ys)) later ∙ nth-append_right xs ys k
    where
      later : length (x ∷ xs) + k ≡ suc (length xs + k)
      later = omega arith

  nth-row : (m : ℕ → ℕ → F) (i j n t : ℕ) → t < n → nth (row m i j n) t ≡ m i (j + t)
  nth-row m i j zero t h = absurd (omega arith)
  nth-row m i j (suc n) zero h = ap (m i) (omega arith)
  nth-row m i j (suc n) (suc t) h = nth-row m i (suc j) n t (omega arith) ∙ ap (m i) (omega arith)

  nth-rows :
      (m : ℕ → ℕ → F) (n i k a b : ℕ) → a < k → b < n → nth (rows m n i k) (a * n + b) ≡ m (i + a) b
  nth-rows m n i zero a b h l = absurd (omega arith)
  nth-rows m n i (suc k) zero b h l =
      ap (nth (rows m n i (suc k))) first
      ∙ nth-append_left (row m i 0 n) (rows m n (suc i) k) b (omega (arith, length-row m i 0 n))
      ∙ nth-row m i 0 n b l
      ∙ ap (m i) column
      ∙ ap (λ x. m x b) same_row
    where
      first : 0 * n + b ≡ b
      first = omega arith

      column : 0 + b ≡ b
      column = omega arith

      same_row : i ≡ i + 0
      same_row = omega arith
  nth-rows m n i (suc k) (suc a) b h l =
      ap (nth (rows m n i (suc k))) later
      ∙ nth-append_right (row m i 0 n) (rows m n (suc i) k) (a * n + b)
      ∙ nth-rows m n (suc i) k a b (omega arith) l
      ∙ ap (λ x. m x b) (omega arith)
    where
      later : suc a * n + b ≡ length (row m i 0 n) + (a * n + b)
      later = omega (arith, length-row m i 0 n)

  -- The grid that is read has the payload's origin, resolution and size, no height layer, and at every
  -- cell the cost that was laid out.
  pub record IsReadBack (minx miny reso : F) (n : ℕ) (m : ℕ → ℕ → F) (g : GridMap F) : Type 0 where
    pub same_minx : g.minx ≡ minx
    pub same_miny : g.miny ≡ miny
    pub same_reso : g.reso ≡ reso
    pub same_cells : g.cells ≡ n
    pub no_heights : g.hmap ≡ none
    pub same_costs : (i j : ℕ) → i < n → j < n → g.gmap (pos i, pos j) ≡ m i j

  parse_payload :
      (minx miny reso : F) (n : ℕ) (m : ℕ → ℕ → F)
      → 0 < n
      → f.round (f.of_int (pos n)) ≡ pos n
      → parse_costmap_raw (payload minx miny reso n m)
        ≡ parsed (external_grid (rows m n 0 n) minx miny reso n)
  unfolding parse_costmap_raw
  parse_payload minx miny reso n m h r =
      rw r (accepted (leb_ℤ (pos n) (pos 0)) _ (ground arith) (ground (arith, length-rows m n 0 n)))
    where
      accepted :
          (a b : Bool)
          → a ≡ false
          → b ≡ true
          → (if a
              then malformed (non_positive (pos n))
              else if not b
              then malformed (wrong_length (4 + length (rows m n 0 n)) n)
              else parsed (external_grid (rows m n 0 n) minx miny reso n))
            ≡ parsed (external_grid (rows m n 0 n) minx miny reso n)
      accepted a b h k = ground (arith, h, k)

  -- A payload that lays out a square of costs by the contract, with at least one cell and a count that
  -- rounds back to itself, is accepted, and the planner reads each cost where it was put.
  pub parse-reads_back :
      (minx miny reso : F) (n : ℕ) (m : ℕ → ℕ → F)
      → 0 < n
      → f.round (f.of_int (pos n)) ≡ pos n
      → (g : GridMap F) × (parse_costmap_raw (payload minx miny reso n m) ≡ parsed g)
        × IsReadBack minx miny reso n m g
  unfolding external_grid
  parse-reads_back minx miny reso n m h r = (
    external_grid (rows m n 0 n) minx miny reso n,
    parse_payload minx miny reso n m h r,
    record {
      same_minx = refl;
      same_miny = refl;
      same_reso = refl;
      same_cells = refl;
      no_heights = refl;
      same_costs = λ i j a b. nth-rows m n 0 n i j a b ∙ ap (λ x. m x j) (omega arith);
    },
  )

  -- The grid of a payload: its origin and resolution, a count that rounds to the number of its cells along a
  -- side, which is not 0, and as many costs as there are cells, in rows.
  abbrev pub IsGridOf : List F → GridMap F → Type 0
  IsGridOf (minx ∷ miny ∷ reso ∷ count ∷ values) g =
      (g.minx ≡ minx)
      × (g.miny ≡ miny)
      × (g.reso ≡ reso)
      × (f.round count ≡ pos g.cells)
      × (0 < g.cells)
      × (length values ≡ g.cells * g.cells)
      × ((i j : ℕ) → g.gmap (pos i, pos j) ≡ nth values (i * g.cells + j))
  IsGridOf _ g = ⊥

  -- The fourth value, rounded.
  abbrev pub count_of : List F → Option ℤ
  count_of (minx ∷ miny ∷ reso ∷ count ∷ values) = some (f.round count)
  count_of _ = none

  -- What an outcome says of the payload.
  abbrev pub IsJustified : List F → Parsed F → Type 0
  IsJustified data_ (parsed g) = IsGridOf data_ g
  IsJustified data_ (malformed no_meta) = length data_ < 4
  IsJustified data_ (malformed (non_positive c)) =
      (count_of data_ ≡ some c) × (leb_ℤ c (pos 0) ≡ true)
  IsJustified data_ (malformed (wrong_length k n)) =
      (count_of data_ ≡ some (pos n)) × (0 < n) × (k ≡ length data_) × (k ≢ 4 + n * n)

  -- Every payload, however short or long, is either accepted, with the origin, the resolution and the
  -- positive number of cells that it gives and exactly the values that these cells need, each where it
  -- stands; or refused, as too short for the four values of its head, or because its count rounds to 0 or
  -- less, or because its count is positive and its length does not fit the count.
  pub parse-IsJustified : (data_ : List F) → IsJustified data_ (parse_costmap_raw data_)
  unfolding parse_costmap_raw external_grid
  parse-IsJustified [] = omega arith
  parse-IsJustified (a ∷ []) = omega arith
  parse-IsJustified (a ∷ b ∷ []) = omega arith
  parse-IsJustified (a ∷ b ∷ c ∷ []) = omega arith
  parse-IsJustified (minx ∷ miny ∷ reso ∷ count ∷ values) =
      elim (Bool-cases (leb_ℤ (f.round count) (pos 0))) [
        | inl neg ↦ rw neg (refl, neg)
        | inr some_cells ↦
            elim (Bool-cases
              (4 + length values == 4 + pos_part (f.round count) * pos_part (f.round count))) [
                | inl fits ↦
                    rw (some_cells, fits)
                      (
                        refl,
                        refl,
                        refl,
                        whole (f.round count) some_cells,
                        positive (f.round count) some_cells,
                        ground arith,
                        λ i j. refl,
                      )
                | inr off ↦
                    rw (some_cells, off)
                      (
                        ap some (whole (f.round count) some_cells),
                        positive (f.round count) some_cells,
                        omega arith,
                        ground arith,
                      )
              ]
      ]
    where
      positive : (c : ℤ) → leb_ℤ c (pos 0) ≡ false → 0 < pos_part c
      positive c h = ground arith

      whole : (c : ℤ) → leb_ℤ c (pos 0) ≡ false → c ≡ pos (pos_part c)
      whole c h = ground arith
