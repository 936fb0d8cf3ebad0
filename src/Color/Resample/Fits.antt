-- ===== src/Color/Resample/Fits.antt =====
-- src/color/resize.rs, `precompute_coeffs`: the coefficients that are computed fit the source.
use native.Mathlib.Nat.{suc-mul}
use mpris_chroma.Prelude.{
  ℕ, suc, ◌+◌, ◌-◌, ◌*◌, ◌≤◌, ◌≡◌, refl, ap, subst, ◌∙◌, ◌⊎◌, inl, inr, Bool, true, false, Option,
  none, some, List, [], ◌∷◌, ◌++◌, map, arith, leb, if◌then◌else◌, Bool-cases, Option-cases, length,
  replicate, concat, All, length-append, All-mono,
}
use mpris_chroma.Quantize.Cut.{cons?}
use mpris_chroma.Color.{Float, ◌⊖◌, ◌⊗◌, ◌⊘◌}
use mpris_chroma.Color.Pick.Choice.{length-replicate}
use mpris_chroma.Color.Raster.{span, collect}
use mpris_chroma.Color.Raster.Places.{length-below, length-map}
use mpris_chroma.Color.Resample.{
  Coeffs, bound_of, weights_of, row_of, fixed_point, precompute_coeffs,
}

-- Each output pixel has its bounds and its row of coefficients, and its taps lie within the source.
pub record Fits (limit out : ℕ) (c : Coeffs) : Type 0 where
  pub sized : length c.bounds ≡ out
  pub rows : length c.kk ≡ out * c.ksize
  pub inside : All (λ b. (b.1 ≤ c.ksize) × ((b.0 + b.1 ≤ limit) ⊎ (b.1 ≡ 0))) c.bounds

cons?-some :
    {A : Type 0} (a : Option A) (b : Option (List A)) (ys : List A)
    → cons? a b ≡ some ys
    → (y : A) × (zs : List A) × (a ≡ some y) × (b ≡ some zs) × (y ∷ zs ≡ ys)
cons?-some (some y) (some zs) ys e = (y, zs, refl, refl, ground arith)
cons?-some (some y) none ys e = absurd (cc)
cons?-some none b ys e = absurd (cc)

collect-some :
    {A B : Type 0} (f : A → Option B) (P : A → Type 0) (Q : B → Type 0) (xs : List A) (ys : List B)
    → ((x : A) (y : B) → f x ≡ some y → P x × Q y)
    → collect f xs ≡ some ys
    → All P xs × (length ys ≡ length xs) × All Q ys
collect-some f P Q [] ys g e =
    let same : [] ≡ ys = ground arith in
    let (l, qs) = subst (λ l. (length l ≡ 0) × All Q l) same (refl, tt) in (tt, l, qs)
collect-some f P Q (x ∷ xs) ys g e =
    let (y, zs, d, h, same) = cons?-some (f x) (collect f xs) ys e in
    let (ps, l, qs) = collect-some f P Q xs zs g h in
    let (p, q) = g x y d in
    let (l', qs') = subst (λ l. (length l ≡ suc (length xs)) × All Q l) same (ap suc l, (q, qs)) in
    ((p, ps), l', qs')

length-concat :
    {A : Type 0} (k : ℕ) (xss : List (List A))
    → All (λ xs. length xs ≡ k) xss
    → length (concat xss) ≡ length xss * k
length-concat k [] a = omega arith
length-concat k (xs ∷ xss) a =
    omega (
      arith,
      length-append {0} xs (concat xss),
      a.0,
      length-concat k xss a.1,
      suc-mul (length xss) k,
    )

length-either :
    {A : Type 0} (c : Bool) (g : A → A) (xs : List A)
    → length (if c then map g xs else xs) ≡ length xs
length-either true g xs = length-map g xs
length-either false g xs = refl

padded_row :
    {A : Type 0} (n k : ℕ) (z : A) (xs row : List A)
    → length xs ≡ n
    → (if leb n k then some (xs ++ replicate (k - n) z) else none) ≡ some row
    → (n ≤ k) × (length row ≡ k)
padded_row n k z xs row l e = elim (Bool-cases (leb n k)) [
  | inl t ↦
      let same : xs ++ replicate (k - n) z ≡ row = ground arith in
      let few : n ≤ k = ground arith in
      (
        few,
        omega (
          arith,
          ap length same,
          l,
          length-append {0} xs (replicate (k - n) z),
          length-replicate (k - n) z,
        ),
      )
  | inr f ↦ absurd (cc (rw f at e))
]

map-All :
    {A B : Type 0} (f : A → B) (P : B → Type 0) (xs : List A)
    → All (λ x. P (f x)) xs
    → All P (map f xs)
map-All f P [] a = tt
map-All f P (x ∷ xs) a = (a.0, map-All f P xs a.1)

from_some : {A : Type 0} (x y : A) → some x ≡ some y → x ≡ y
from_some x y e = ground arith

module _ {F : Type 0} ⦃r : Float F⦄ (in_size ksize : ℕ)
    (in0 scale support inv_filterscale : F) where
  length-weights_of :
      (xx : ℕ)
      → length (weights_of in_size ksize in0 scale support inv_filterscale xx)
        ≡ (bound_of in_size ksize in0 scale support inv_filterscale xx).1
  unfolding weights_of
  length-weights_of xx =
      let b = bound_of in_size ksize in0 scale support inv_filterscale xx in
      length-either _ _ _ ∙ length-map _ (span 0 b.1) ∙ length-below b.1

  row_of-some :
      (xx : ℕ) (row : List F)
      → row_of in_size ksize in0 scale support inv_filterscale xx ≡ some row
      → ((bound_of in_size ksize in0 scale support inv_filterscale xx).1 ≤ ksize)
        × (length row ≡ ksize)
  unfolding row_of
  row_of-some xx row e =
      padded_row (bound_of in_size ksize in0 scale support inv_filterscale xx).1 ksize _ _ row
        (length-weights_of xx) e

  bound_of-inside :
      (xx : ℕ)
      → let b = bound_of in_size ksize in0 scale support inv_filterscale xx in
        (b.0 + b.1 ≤ in_size) ⊎ (b.1 ≡ 0)
  unfolding bound_of
  bound_of-inside xx = ground arith

  -- Whatever rows were collected, the coefficients that are made of them fit.
  rows-Fits :
      (out_size : ℕ) (pre : List (List F))
      → collect (row_of in_size ksize in0 scale support inv_filterscale) (span 0 out_size)
        ≡ some pre
      → Fits in_size out_size (record {
        ksize = ksize;
        bounds = map (bound_of in_size ksize in0 scale support inv_filterscale) (span 0 out_size);
        kk = map fixed_point (concat pre);
      })
  rows-Fits out_size pre e =
      let bound = bound_of in_size ksize in0 scale support inv_filterscale in
      let (few, count, sizes) =
        collect-some (row_of in_size ksize in0 scale support inv_filterscale)
          (λ xx. (bound xx).1 ≤ ksize) (λ row. length row ≡ ksize) (span 0 out_size) pre row_of-some
          e in
      record {
        sized = length-map _ (span 0 out_size) ∙ length-below out_size;
        rows =
            length-map _ (concat pre)
            ∙ length-concat ksize pre sizes
            ∙ ap (λ n. n * ksize) (count ∙ length-below out_size);
        inside =
            map-All bound (λ b. (b.1 ≤ ksize) × ((b.0 + b.1 ≤ in_size) ⊎ (b.1 ≡ 0)))
              (span 0 out_size)
              (All-mono (λ xx. (bound xx).1 ≤ ksize)
                (λ xx.
                  ((bound xx).1 ≤ ksize)
                  × (((bound xx).0 + (bound xx).1 ≤ in_size) ⊎ ((bound xx).1 ≡ 0)))
                (span 0 out_size) (λ xx h. (h, bound_of-inside xx)) few);
      }

module _ {S F : Type 0} ⦃s : Float S⦄ ⦃r : Float F⦄ (widen : S → F) where
  pub precompute_coeffs-Fits :
      (in_size : ℕ) (in0 in1 : S) (out_size : ℕ) (c : Coeffs)
      → precompute_coeffs widen in_size in0 in1 out_size ≡ some c
      → Fits in_size out_size c
  unfolding precompute_coeffs
  precompute_coeffs-Fits in_size in0 in1 out_size c e =
      let scale = widen (in1 ⊖ in0) ⊘ r.of_nat out_size in
      let filterscale = r.larger scale (r.decimal 10 1) in
      let support = r.decimal 20 1 ⊗ filterscale in
      let ksize = r.to_nat (r.ceil support) * 2 + 1 in
      let inv_filterscale = r.decimal 10 1 ⊘ filterscale in
      elim (Option-cases (
        collect (row_of in_size ksize (widen in0) scale support inv_filterscale)
          (span 0 out_size))) [
            | inl f ↦ absurd (cc (rw f at e))
            | inr (pre, f) ↦
                let same = rw f at e in
                let fits =
                  rows-Fits in_size ksize (widen in0) scale support inv_filterscale out_size pre
                    f in
                subst (Fits in_size out_size) (from_some _ c same) fits
          ]
