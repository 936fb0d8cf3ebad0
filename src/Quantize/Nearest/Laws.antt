-- ===== src/Quantize/Nearest/Laws.antt =====
-- color/quantize.rs, step 7: what the early end of the search rests on, and what the search finds.
use mpris_chroma.Prelude.{
  ℕ, zero, suc, ◌+◌, ◌-◌, ◌*◌, ◌%◌, ◌^◌, ◌≤◌, ◌<◌, ◌≡◌, refl, sym, ap, inl, inr, true, false, List,
  [], ◌∷◌, ◌++◌, arith, ltb, leb, ◌==◌, ltb→lt, leb→le, ==_iff, Bool-cases, Option-cases, if_cases,
  length, All, All-append, All-mono,
}
use mpris_chroma.Prelude.Sort.{IsSorted, sort_by-IsSorted, All-sort_by, sort_by-All}
use mpris_chroma.Quantize.{Rgb, IsRgb, diff, dist_sq, get_elem?, get_elem?-All}
use mpris_chroma.Quantize.Nearest.{
  indices_below, entry, avg_dist, row_le, sort_key, Best, closer, search_row, search_all, nearest,
}

cross-le : (x y : ℕ) → x ≤ y → 2 * (x * y) ≤ x * x + y * y
cross-le x y h = let k = y - x in let e : y ≡ x + k = omega arith in rw e (grind arith)

cross : (x y : ℕ) → 2 * (x * y) ≤ x * x + y * y
cross x y = elim (Bool-cases (leb x y)) [
  | inl t ↦ cross-le x y (leb→le x y t)
  | inr f ↦ let turned = cross-le y x (ground arith) in grind (arith, turned)
]

square_mono : (x y : ℕ) → x ≤ y → x * x ≤ y * y
square_mono x y h = grind arith

square_sum : (d x y : ℕ) → d ≤ x + y → d * d ≤ 2 * (x * x) + 2 * (y * y)
square_sum d x y h =
    let widened = square_mono d (x + y) h in let mixed = cross x y in grind (arith, widened, mixed)

diff_triangle : (a b c : ℕ) → diff a b ≤ diff a c + diff b c
diff_triangle a b c = omega arith

-- The square of a distance is at most twice the sum of the squares by way of a third colour.
dist_sq_triangle : (a b c : Rgb) → dist_sq a b ≤ 2 * dist_sq a c + 2 * dist_sq b c
unfolding dist_sq
dist_sq_triangle a b c =
    let by_channel =
      λ (u v w : ℕ). square_sum (diff u v) (diff u w) (diff v w) (diff_triangle u v w) in
    omega (
      arith,
      by_channel a.red b.red c.red,
      by_channel a.green b.green c.green,
      by_channel a.blue b.blue c.blue,
    )

square_bound : (x : ℕ) → x < 256 → x * x < 65536
square_bound x h = let m = square_mono x 255 (omega arith) in omega (arith, m)

dist_sq-lt : (a b : Rgb) → IsRgb a → IsRgb b → dist_sq a b < 196608
unfolding dist_sq
dist_sq-lt a b ha hb =
    let by_channel =
      λ (u v : ℕ) (p : u < 256) (q : v < 256). square_bound (diff u v) (omega arith) in
    omega (
      arith,
      by_channel a.red b.red ha.0 hb.0,
      by_channel a.green b.green ha.1 hb.1,
      by_channel a.blue b.blue ha.2 hb.2,
    )

pub entry-IsRgb : (palette : List Rgb) (i : ℕ) → All IsRgb palette → IsRgb (entry palette i)
unfolding entry
entry-IsRgb palette i a = elim (Option-cases (get_elem? i palette)) [
  | inl e ↦ rw (e, entry) (omega arith, omega arith, omega arith)
  | inr (c, e) ↦ rw (e, entry) (get_elem?-All IsRgb i palette c e a)
]

pub All-indices_below : (P : ℕ → Type 0) (n : ℕ) → ((j : ℕ) → j < n → P j) → All P (indices_below n)
unfolding indices_below
All-indices_below P zero h = tt
All-indices_below P (suc n) h =
    All-append P (indices_below n) (n ∷ []) (All-indices_below P n (λ j l. h j (omega arith)))
      (h n (omega arith), tt)

All-append_left : (P : ℕ → Type 0) (xs ys : List ℕ) → All P (xs ++ ys) → All P xs × All P ys
All-append_left P [] ys a = (tt, a)
All-append_left P (x ∷ xs) ys a = let r = All-append_left P xs ys a.1 in ((a.0, r.0), r.1)

indices_below-All : (P : ℕ → Type 0) (n : ℕ) → All P (indices_below n) → (j : ℕ) → j < n → P j
unfolding indices_below
indices_below-All P zero a j h = absurd (omega arith)
indices_below-All P (suc n) a j h =
    let r = All-append_left P (indices_below n) (n ∷ []) a in
    elim (Bool-cases (j == n)) [
      | inl t ↦ let e : n ≡ j = sym ((==_iff j n).0 t) in rw e at r.1.0
      | inr f ↦ indices_below-All P n r.0 j (ground arith)
    ]

module _ (palette : List Rgb) (p : Rgb) where
  abbrev to_pixel : ℕ → ℕ
  to_pixel j = dist_sq (entry palette j) p

  closer-le : (idx : ℕ) (b : Best) → (closer palette p idx b).best_dist ≤ b.best_dist
  unfolding closer
  closer-le idx b = ground arith

  closer-le_entry : (idx : ℕ) (b : Best) → (closer palette p idx b).best_dist ≤ to_pixel idx
  unfolding closer
  closer-le_entry idx b = ground arith

  search_all-le : (row : List ℕ) (b : Best) → (search_all palette p row b).best_dist ≤ b.best_dist
  unfolding search_all
  search_all-le [] b = omega arith
  search_all-le (idx ∷ rest) b =
      omega (arith, closer-le idx b, search_all-le rest (closer palette p idx b))

  search_all-minimal :
      (row : List ℕ) (b : Best) → All (λ j. (search_all palette p row b).best_dist ≤ to_pixel j) row
  unfolding search_all
  search_all-minimal [] b = tt
  search_all-minimal (idx ∷ rest) b =
      let next = closer palette p idx b in
      (omega (arith, closer-le_entry idx b, search_all-le rest next), search_all-minimal rest next)

  -- The index belongs to the distance, and is one of the palette's.
  abbrev IsFound : Best → Type 0
  IsFound b = (b.best_dist ≡ to_pixel b.best) × (b.best < length palette)

  closer-IsFound :
      (idx : ℕ) (b : Best) → idx < length palette → IsFound b → IsFound (closer palette p idx b)
  unfolding closer
  closer-IsFound idx b l f =
      if_cases IsFound (ltb (to_pixel idx) b.best_dist) _ _ (λ _. (refl, l)) (λ _. f)

  search_all-IsFound :
      (row : List ℕ) (b : Best)
      → All (λ j. j < length palette) row
      → IsFound b
      → IsFound (search_all palette p row b)
  unfolding search_all
  search_all-IsFound [] b l f = f
  search_all-IsFound (idx ∷ rest) b l f =
      search_all-IsFound rest (closer palette p idx b) l.1 (closer-IsFound idx b l.0 f)

  module _ (own : ℕ) where
    row_le-avg :
        (j k : ℕ) → row_le palette own j k ≡ true → avg_dist palette own j ≤ avg_dist palette own k
    unfolding row_le
    row_le-avg j k h = ground arith

    far-ge : (j : ℕ) → to_pixel own * 4 < avg_dist palette own j → to_pixel own ≤ to_pixel j
    unfolding avg_dist
    far-ge j h = omega (arith, dist_sq_triangle (entry palette own) (entry palette j) p)

    search_all_far :
        (row : List ℕ) (b : Best)
        → b.best_dist ≤ to_pixel own
        → All (λ j. to_pixel own * 4 < avg_dist palette own j) row
        → search_all palette p row b ≡ b
    unfolding search_all closer
    search_all_far [] b l a = refl
    search_all_far (idx ∷ rest) b l a =
        let kept : ltb (to_pixel idx) b.best_dist ≡ false = ground (arith, far-ge idx a.0) in
        rw kept (search_all_far rest b l a.1)

    search_row-eq :
        (limit : ℕ)
        → limit ≡ to_pixel own * 4
        → (row : List ℕ) (b : Best) → IsSorted (row_le palette own) row
        → b.best_dist ≤ to_pixel own
        → search_row palette p own limit row b ≡ search_all palette p row b
    unfolding search_row search_all
    search_row-eq limit e [] b s l = refl
    search_row-eq limit e (idx ∷ rest) b s l =
        if_cases (λ r. r ≡ search_all palette p (idx ∷ rest) b)
          (ltb limit (avg_dist palette own idx)) _ _
          (λ t.
            let far : to_pixel own * 4 < avg_dist palette own idx =
              omega (arith, e, ltb→lt _ _ t) in
            sym (
              search_all_far (idx ∷ rest) b l
                (far, All-mono _ _ rest (λ j h. omega (arith, far, row_le-avg idx j h)) s.0)))
          (λ _.
            search_row-eq limit e rest (closer palette p idx b) s.1
              (omega (arith, closer-le idx b)))

    row_le_trans :
        (i j k : ℕ)
        → row_le palette own i j ≡ true
        → row_le palette own j k ≡ true
        → row_le palette own i k ≡ true
    unfolding row_le
    row_le_trans i j k a b = ground arith

    row_le_total : (i j : ℕ) → row_le palette own i j ≡ false → row_le palette own j i ≡ true
    unfolding row_le
    row_le_total i j a = ground arith

    abbrev from_own : Best
    from_own = record { best = own; best_dist = to_pixel own }

    -- The search of the whole row, with no early end.
    abbrev pub full_search : Best
    full_search = search_all palette p (sort_key palette own) from_own

    module _ (colors : All IsRgb palette) (pixel : IsRgb p) (inside : own < length palette) where
      nearest-full_search : nearest palette own p ≡ full_search.best
      unfolding nearest
      nearest-full_search =
          let small = dist_sq-lt (entry palette own) p (entry-IsRgb palette own colors) pixel in
          let limit : to_pixel own * 4 % 2 ^ 32 ≡ to_pixel own * 4 = omega (arith, small) in
          ap (λ b. b.best)
            (search_row-eq (to_pixel own * 4 % 2 ^ 32) limit (sort_key palette own) from_own sorted
              (omega arith))
        where
          sorted : IsSorted (row_le palette own) (sort_key palette own)
          sorted =
              unfold sort_key in
              sort_by-IsSorted (row_le palette own) row_le_trans row_le_total
                (indices_below (length palette))

      -- The search from any entry of a palette of 8-bit colours, for any 8-bit pixel, finds the same
      -- entry as the search of the whole row with no early end, an index of the palette whose
      -- colour is at most as far from the pixel as each other colour of the palette.
      pub nearest_lem :
          (nearest palette own p ≡ full_search.best)
          × (nearest palette own p < length palette)
          × ((j : ℕ)
              → j < length palette
              → dist_sq (entry palette (nearest palette own p)) p ≤ dist_sq (entry palette j) p)
      unfolding sort_key
      nearest_lem =
          let in_range = All-indices_below (λ j. j < length palette) (length palette) (λ j h. h) in
          let found =
            search_all-IsFound (sort_key palette own) from_own
              (All-sort_by (row_le palette own) _ _ in_range) (refl, inside) in
          let least = indices_below-All _ (length palette) (
            sort_by-All (row_le palette own) _ _
              (search_all-minimal (sort_key palette own) from_own)) in
          rw nearest-full_search (refl, found.1, λ j h. omega (arith, found.0, least j h))
