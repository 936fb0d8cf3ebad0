-- ===== src/Quantize/Paint/Whole.antt =====
-- color/quantize.rs, `quantize` as a whole: no step panics, and what the result is.
use mpris_chroma.Prelude.{
  ℕ, zero, suc, ◌-◌, ◌%◌, ◌^◌, ◌≤◌, ◌<◌, ◌≡◌, refl, ap, subst, ◌∙◌, inl, inr, true, ◌&&◌, some,
  List, [], ◌∷◌, map, arith, leb, le→leb, Bool-cases, Option-cases, is_some, length, replicate, All,
  All-map, All-mono,
}
use mpris_chroma.Prelude.Sort.{total}
use mpris_chroma.Quantize.{Rgb, IsRgb, Entry, pixel_hash, dist_sq}
use mpris_chroma.Quantize.Split.Laws.{pixels}
use mpris_chroma.Quantize.Nearest.{entry, nearest}
use mpris_chroma.Quantize.Nearest.Laws.{nearest_lem}
use mpris_chroma.Quantize.Cut.{Keyed, lookup, histogram, max_hash_entries}
use mpris_chroma.Quantize.Cut.Table.{has_hash, histogram_lem}
use mpris_chroma.Quantize.Cut.Loop.{cut_rounds_lem, one_box-IsCut}
use mpris_chroma.Quantize.Paint.{
  Numbered, Sums, add_pixel, add_at, add_in, add_pixels, mean_color, rgb_eq, Cache, cached,
  index_from, index_of, map_pixels, Quantized, no_sums, with_sums, with_numbers, with_cut,
  first_box, first_cut, with_entries, quantize_pixels, quantize_or_empty, quantize,
}
use mpris_chroma.Quantize.Paint.Leaves.{lookup-lt, number_leaves_lem}

add_at-defined :
    (b : ℕ) (p : Rgb) (ss : List Sums)
    → b < length ss
    → (ss' : List Sums) × (add_at b p ss ≡ some ss') × (length ss' ≡ length ss)
unfolding add_at
add_at-defined b p [] h = absurd (omega arith)
add_at-defined zero p (s ∷ ss) h = (add_pixel p s ∷ ss, refl, refl)
add_at-defined (suc b) p (s ∷ ss) h =
    let (ss', e, l) = add_at-defined b p ss (omega arith) in (s ∷ ss', rw e refl, ap suc l)

-- A pixel's hash has the number of a box.
abbrev HasBox : Keyed ℕ → ℕ → Rgb → Type 0
HasBox box_of n p = (b : ℕ) × (lookup (pixel_hash p) box_of ≡ some b) × (b < n)

add_pixels-defined :
    (box_of : Keyed ℕ) (ps : List Rgb) (ss : List Sums)
    → All (HasBox box_of (length ss)) ps
    → (ss' : List Sums) × (add_pixels box_of ps ss ≡ some ss') × (length ss' ≡ length ss)
unfolding add_pixels add_in
add_pixels-defined box_of [] ss a = (ss, refl, refl)
add_pixels-defined box_of (p ∷ ps) ss a =
    let (b, e, h) = a.0 in
    let (s1, e1, l1) = add_at-defined b p ss h in
    let (s2, e2, l2) = add_pixels-defined box_of ps s1 (rw l1 a.1) in (s2, rw (e, e1) e2, l2 ∙ l1)

mean_color-IsRgb : (s : Sums) → IsRgb (mean_color s)
mean_color-IsRgb s = (omega arith, omega arith, omega arith)

rgb_eq→eq : (a b : Rgb) → rgb_eq a b ≡ true → a ≡ b
rgb_eq→eq a b h = ground arith

module _ (palette : List Rgb) where
  -- No colour of the palette is closer to the pixel than the one at the index.
  abbrev pub IsNearest : Rgb → ℕ → Type 0
  IsNearest p i =
      (i < length palette)
      × ((j : ℕ) → j < length palette → dist_sq (entry palette i) p ≤ dist_sq (entry palette j) p)

  -- An index for each pixel, that of a nearest colour.
  abbrev pub AreNearest : List Rgb → List ℕ → Type 0
  AreNearest [] [] = Unit {0}
  AreNearest (p ∷ ps) (i ∷ is) = IsNearest p i × AreNearest ps is
  AreNearest _ _ = ⊥

  abbrev IsTrue : Rgb × ℕ → Type 0
  IsTrue (q, i) = IsNearest q i

  cached-IsNearest :
      (p : Rgb) (i : ℕ) (c : Cache) → All IsTrue c → cached p c ≡ some i → IsNearest p i
  unfolding cached
  cached-IsNearest p i [] a e = absurd (cc)
  cached-IsNearest p i ((q, k) ∷ c) a e = elim (Bool-cases (rgb_eq q p)) [
    | inl t ↦
        let same = rgb_eq→eq q p t in
        let same_index : k ≡ i = cc (rw t at e) in
        subst (λ x. IsNearest x i) same (subst (λ x. IsNearest q x) same_index a.0)
    | inr f ↦ cached-IsNearest p i c a.1 (rw f at e)
  ]

  module _ (colors : All IsRgb palette) (short : length palette ≤ 256) (box_of : Keyed ℕ) where
    index_of-IsNearest :
        (p : Rgb)
        → IsRgb p
        → HasBox box_of (length palette) p
        → (i : ℕ) × (index_of palette box_of p ≡ some i) × IsNearest p i
    unfolding index_of index_from
    index_of-IsNearest p r (b, e, h) =
        let found = nearest_lem palette p b colors r h in
        let byte : nearest palette b p % 256 ≡ nearest palette b p = omega (arith, found.1) in
        (nearest palette b p, rw e (ap some byte), (found.1, found.2))

    map_pixels-AreNearest :
        (ps : List Rgb) (c : Cache)
        → All IsRgb ps
        → All (HasBox box_of (length palette)) ps
        → All IsTrue c
        → (is : List ℕ) × (map_pixels palette box_of ps c ≡ some is) × AreNearest ps is
    unfolding map_pixels
    map_pixels-AreNearest [] c r h t = ([], refl, tt)
    map_pixels-AreNearest (p ∷ ps) c r h t = elim (Option-cases (cached p c)) [
      | inl e ↦
          let (i, f, near) = index_of-IsNearest p r.0 h.0 in
          let (is, g, rest) = map_pixels-AreNearest ps ((p, i) ∷ c) r.1 h.1 (near, t) in
          (i ∷ is, rw (e, f, g) refl, (near, rest))
      | inr (i, e) ↦
          let near = cached-IsNearest p i c t e in
          let (is, g, rest) = map_pixels-AreNearest ps c r.1 h.1 t in
          (i ∷ is, rw (e, g) refl, (near, rest))
    ]

length-map : {A B : Type 0} (f : A → B) (xs : List A) → length (map f xs) ≡ length xs
length-map f [] = refl
length-map f (x ∷ xs) = ap suc (length-map f xs)

length-replicate : {A : Type 0} (n : ℕ) (a : A) → length (replicate n a) ≡ n
length-replicate zero a = refl
length-replicate (suc n) a = ap suc (length-replicate n a)

-- What the quantizer owes: a palette of at least one and at most as many colours as were asked for,
-- and for each pixel the index of a nearest one.
abbrev pub IsQuantized : List Rgb → ℕ → Quantized → Type 0
IsQuantized ps colors q =
    (0 < length q.palette) × (length q.palette ≤ colors) × AreNearest q.palette ps q.indices

quantize_or_empty-some :
    (ps : List Rgb) (colors : ℕ)
    → 0 < length ps
    → quantize_or_empty ps colors ≡ quantize_pixels ps colors (histogram ps)
unfolding quantize_or_empty
quantize_or_empty-some [] colors h = absurd (omega arith)
quantize_or_empty-some (p ∷ ps) colors h = refl

hashed_nonempty :
    (ps : List Rgb) (es : List Entry)
    → 0 < length ps
    → All (λ p. 0 < total (has_hash (pixel_hash p)) es) ps
    → 0 < length es
hashed_nonempty [] es h a = absurd (omega arith)
hashed_nonempty (p ∷ ps) [] h a = absurd (omega (arith, a.0))
hashed_nonempty (p ∷ ps) (e ∷ es) h a = omega arith

module _ (ps : List Rgb) (rgb : All IsRgb ps) where
  with_numbers_lem :
      (colors : ℕ) (s : Numbered)
      → colors ≤ 256
      → 0 < s.n_entries
      → s.n_entries ≤ colors
      → All (HasBox s.box_of s.n_entries) ps
      → (q : Quantized) × (with_numbers ps (some s) ≡ some q) × IsQuantized ps colors q
  unfolding with_sums with_numbers
  with_numbers_lem colors s most some_leaf few boxes =
      let blank = replicate s.n_entries no_sums in
      let size = length-replicate s.n_entries no_sums in
      let (sums, e, l) = add_pixels-defined s.box_of ps blank (rw size boxes) in
      let palette = map mean_color sums in
      let same : length palette ≡ s.n_entries = length-map mean_color sums ∙ l ∙ size in
      let (is, f, near) =
        map_pixels-AreNearest palette (All-map IsRgb mean_color sums mean_color-IsRgb)
          (omega (arith, same)) s.box_of ps [] rgb (rw same boxes) tt in
      (
        record { palette = palette; indices = is },
        rw (e, f) refl,
        (omega (arith, same), omega (arith, same), near),
      )

  has_box :
      (s : Numbered)
      → All (λ p. p.1 < s.n_entries) s.box_of
      → (qs : List Rgb) → All (λ p. is_some (lookup (pixel_hash p) s.box_of) ≡ true) qs
      → All (HasBox s.box_of s.n_entries) qs
  has_box s below [] a = tt
  has_box s below (p ∷ qs) a = elim (Option-cases (lookup (pixel_hash p) s.box_of)) [
    | inl e ↦ absurd (cc (rw e at a.0))
    | inr (b, e) ↦
        ((b, e, lookup-lt s.n_entries (pixel_hash p) b s.box_of below e), has_box s below qs a.1)
  ]

  with_entries_lem :
      (colors : ℕ) (es : List Entry)
      → 1 ≤ colors
      → colors ≤ 256
      → 0 < length es
      → pixels es ≡ length ps
      → length ps < 2 ^ 31
      → All (λ p. 0 < total (has_hash (pixel_hash p)) es) ps
      → (q : Quantized) × (with_entries ps colors (some es) ≡ some q) × IsQuantized ps colors q
  unfolding with_entries with_cut first_cut
  with_entries_lem colors es least most some_entry counted small hashed =
      let few : pixels es < 2 ^ 31 = omega (arith, counted) in
      let start =
        one_box-IsCut es some_entry few (first_box ps es) refl (omega (arith, counted)) refl in
      let (c, ls, e, good, lo, hi) =
        cut_rounds_lem es few (colors - 1) (first_cut ps es) (0 ∷ []) start in
      let (s, f, n, below, there) =
        number_leaves_lem c.boxes ls (length c.boxes) good.walked good.full in
      let found =
        All-mono _ _ ps
          (λ p h. there (pixel_hash p) (omega (arith, h, good.shared (has_hash (pixel_hash p)))))
          hashed in
      let (q, g, done) =
        with_numbers_lem colors s most (omega (arith, n, lo)) (omega (arith, n, hi))
          (has_box s below ps found) in
      (q, rw (e, f) g, done)

  -- Quantizing at least one and fewer than 2^31 pixels of 8-bit colours, of which the histogram
  -- keeps at most 65536, to at least one and at most 256 colours does not panic: it gives a palette
  -- of at least one and at most that many colours, and one index for each pixel, of a palette
  -- colour that is nearest to it.
  pub quantize_lem :
      (colors : ℕ)
      → 1 ≤ colors
      → colors ≤ 256
      → 0 < length ps
      → length ps < 2 ^ 31
      → length (histogram ps).table ≤ 65536
      → (q : Quantized) × (quantize ps colors ≡ some q) × IsQuantized ps colors q
  unfolding quantize quantize_pixels
  quantize_lem colors least most some_pixel small table =
      let (es, e, counted, hashed) = histogram_lem ps (omega arith) in
      let (q, f, done) =
        with_entries_lem colors es least most (hashed_nonempty ps es some_pixel hashed) counted
          small hashed in
      let asked : (leb 1 colors && leb colors 256) ≡ true = ground arith in
      let kept : leb (length (histogram ps).table) max_hash_entries ≡ true = le→leb _ _ table in
      (q, rw (asked, quantize_or_empty-some ps colors some_pixel, kept, e) f, done)
