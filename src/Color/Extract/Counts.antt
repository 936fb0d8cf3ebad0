-- ===== src/Color/Extract/Counts.antt =====
-- src/color/quantize.rs, `Quantized::colors`, and the size of the histogram, as extraction uses them.
use mpris_chroma.Prelude.{
  ℕ, zero, suc, ◌+◌, ◌%◌, ◌^◌, ◌≤◌, ◌<◌, ◌≡◌, refl, ap, ◌∙◌, inl, inr, some, List, [], ◌∷◌, map,
  arith, ltb, Option-cases, if_cases, length, replicate, All, length-append, All-mono,
}
use mpris_chroma.Quantize.{Rgb, Entry, pixel_hash}
use mpris_chroma.Quantize.Cut.{
  Keyed, Histogram, histogram, count_pixel, histogram_from, lookup, bump,
}
use mpris_chroma.Quantize.Paint.{Quantized, tally_at, tally, positive_counts, listed, colors_of}
use mpris_chroma.Quantize.Paint.Whole.{AreNearest}

pub length-map : {A B : Type 0} (f : A → B) (xs : List A) → length (map f xs) ≡ length xs
length-map f [] = refl
length-map f (x ∷ xs) = ap suc (length-map f xs)

pub length-replicate : {A : Type 0} (n : ℕ) (x : A) → length (replicate n x) ≡ n
length-replicate zero x = refl
length-replicate (suc n) x = ap suc (length-replicate n x)

tally_at-defined :
    (i : ℕ) (cs : List ℕ)
    → i < length cs
    → (cs' : List ℕ) × (tally_at i cs ≡ some cs') × (length cs' ≡ length cs)
unfolding tally_at
tally_at-defined i [] h = absurd (omega arith)
tally_at-defined zero (c ∷ cs) h = ((c + 1) % 2 ^ 32 ∷ cs, refl, refl)
tally_at-defined (suc i) (c ∷ cs) h =
    let (cs', e, l) = tally_at-defined i cs (omega arith) in (c ∷ cs', rw e refl, ap suc l)

tally-defined :
    (is cs : List ℕ)
    → All (λ i. i < length cs) is
    → (cs' : List ℕ) × (tally is cs ≡ some cs') × (length cs' ≡ length cs)
unfolding tally
tally-defined [] cs a = (cs, refl, refl)
tally-defined (i ∷ is) cs a =
    let (c1, e1, l1) = tally_at-defined i cs a.0 in
    let (c2, e2, l2) = tally-defined is c1 (rw l1 a.1) in (c2, rw e1 e2, l2 ∙ l1)

positive_counts-lt :
    (i : ℕ) (cs : List ℕ) → All (λ (e : ℕ × ℕ). e.1 < i + length cs) (positive_counts i cs)
unfolding positive_counts
positive_counts-lt i [] = tt
positive_counts-lt i (c ∷ cs) =
    let rest =
      All-mono _ (λ (e : ℕ × ℕ). e.1 < i + suc (length cs)) (positive_counts (suc i) cs)
        (λ e h. omega (arith, h)) (positive_counts-lt (suc i) cs) in
    if_cases (All (λ (e : ℕ × ℕ). e.1 < i + suc (length cs))) (ltb 0 c) _ _
      (λ _. (omega arith, rest)) (λ _. rest)

pub nearest-lt :
    (palette ps : List Rgb) (is : List ℕ)
    → AreNearest palette ps is
    → All (λ i. i < length palette) is
nearest-lt palette [] [] a = tt
nearest-lt palette [] (i ∷ is) a = elim a [ ]
nearest-lt palette (p ∷ ps) [] a = elim a [ ]
nearest-lt palette (p ∷ ps) (i ∷ is) a = (a.0.0, nearest-lt palette ps is a.1)

-- The counts of a quantized image are listed without a panic, under indices of its palette.
pub colors_of-defined :
    (q : Quantized)
    → All (λ i. i < length q.palette) q.indices
    → (cs : List (ℕ × ℕ)) × (colors_of q ≡ some cs) × All (λ (e : ℕ × ℕ). e.1 < length q.palette) cs
unfolding colors_of listed
colors_of-defined q a =
    let size = length-replicate {A = ℕ} (length q.palette) 0 in
    let (cs, e, l) = tally-defined q.indices (replicate (length q.palette) 0) (rw size a) in
    let same : 0 + length cs ≡ length q.palette = omega (arith, l, size) in
    (positive_counts 0 cs, rw e refl, rw same at (positive_counts-lt 0 cs))

-- The histogram has at most one entry for each pixel.
length-bump : (h : ℕ) (m : Keyed Entry) → length (bump h m) ≡ length m
unfolding bump
length-bump h [] = refl
length-bump h ((j, e) ∷ m) = ground (arith, length-bump h m)

count_pixel-le : (p : Rgb) (t : Histogram) → length (count_pixel p t).table ≤ length t.table + 1
unfolding count_pixel
count_pixel-le p t = elim (Option-cases (lookup (pixel_hash p) t.table)) [
  | inl e ↦ rw e (
      omega
        (arith, length-append {0} t.table ((pixel_hash p, record { color = p; count = 1 }) ∷ [])))
  | inr (x, e) ↦ rw e (omega (arith, length-bump (pixel_hash p) t.table))
]

histogram_from-le :
    (ps : List Rgb) (t : Histogram)
    → length (histogram_from t ps).table ≤ length t.table + length ps
unfolding histogram_from
histogram_from-le [] t = omega arith
histogram_from-le (p ∷ ps) t =
    omega (arith, histogram_from-le ps (count_pixel p t), count_pixel-le p t)

pub histogram-le : (ps : List Rgb) → length (histogram ps).table ≤ length ps
unfolding histogram
histogram-le ps = omega (arith, histogram_from-le ps (record { order = []; table = [] }))
