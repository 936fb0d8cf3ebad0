-- ===== src/Color/Resample/Passes.antt =====
-- src/color/resize.rs: the passes of the resampler on the coefficients that are computed for them.
use native.Mathlib.Nat.{mul-le-mul_right, suc-mul}
use mpris_chroma.Prelude.{
  ℕ, zero, suc, ◌+◌, ◌-◌, ◌*◌, ◌≤◌, ◌<◌, ◌≡◌, refl, sym, ap, subst, ◌∙◌, ◌⊎◌, inl, inr, true,
  Option, some, List, [], ◌∷◌, arith, leb, ◌==◌, length, take, drop, All, length-take,
}
use mpris_chroma.Prelude.Int.{ℤ, pos, negsuc}
use mpris_chroma.Quantize.{Rgb, IsRgb, get_elem?-All, get_elem?-defined}
use mpris_chroma.Color.{Float, ◌>>=◌}
use mpris_chroma.Color.Oklab.{Triple}
use mpris_chroma.Color.Raster.{Rgb8, new_raster, at, span, grid, collect}
use mpris_chroma.Color.Raster.Places.{
  IsRaster, IsInside, span-below, length-below, grid-All, length-grid, collect_lem, at_lem,
}
use mpris_chroma.Color.Resample.{
  Coeffs, clip8, slice, add_tap, convolve, clipped, round, tap_pixel, horizontal, vertical,
  precompute_coeffs,
}
use mpris_chroma.Color.Resample.Fits.{Fits, precompute_coeffs-Fits}

length-drop : {A : Type 0} (n : ℕ) (xs : List A) → length (drop n xs) ≡ length xs - n
length-drop zero xs = omega arith
length-drop (suc n) [] = omega arith
length-drop (suc n) (x ∷ xs) = omega (arith, length-drop n xs)

slice_lem :
    {A : Type 0} (lo n : ℕ) (xs : List A)
    → lo + n ≤ length xs
    → (ys : List A) × (slice lo n xs ≡ some ys) × (length ys ≡ n)
unfolding slice
slice_lem lo n xs h =
    let inside : leb (lo + n) (length xs) ≡ true = ground arith in
    (
      take n (drop lo xs),
      rw inside refl,
      omega (arith, length-take {0} n (drop lo xs), length-drop lo xs),
    )

convolve_lem :
    (pixel : ℕ → Option Rgb) (limit i : ℕ) (ks : List ℤ) (ss : Triple ℤ)
    → ((x : ℕ) → x < limit → (p : Rgb) × (pixel x ≡ some p))
    → (i + length ks ≤ limit) ⊎ (length ks ≡ 0)
    → (out : Triple ℤ) × (convolve pixel i ks ss ≡ some out)
unfolding convolve
convolve_lem pixel limit i [] ss total h = (ss, refl)
convolve_lem pixel limit i (k ∷ ks) ss total (inl h) =
    let (p, e) = total i (omega arith) in
    let (out, f) = convolve_lem pixel limit (suc i) ks (add_tap k p ss) total (inl (omega arith)) in
    (out, rw e f)
convolve_lem pixel limit i (k ∷ ks) ss total (inr h) = absurd (omega arith)

clip8-lt : (z : ℤ) → clip8 z < 256
unfolding clip8
clip8-lt (pos n) = omega arith
clip8-lt (negsuc n) = omega arith

clipped-IsRgb : (ss : Triple ℤ) → IsRgb (clipped ss)
clipped-IsRgb (a, b, c) = (clip8-lt a, clip8-lt b, clip8-lt c)

tap_pixel_lem :
    (pixel : ℕ → Option Rgb) (limit out i : ℕ) (c : Coeffs)
    → Fits limit out c
    → ((x : ℕ) → x < limit → (p : Rgb) × (pixel x ≡ some p))
    → i < out
    → (p : Rgb) × (tap_pixel pixel c i ≡ some p) × IsRgb p
unfolding tap_pixel
tap_pixel_lem pixel limit out i c fits total h =
    let (b, e) = get_elem?-defined i c.bounds (omega (arith, fits.sized)) in
    let (few, within) =
      get_elem?-All (λ b. (b.1 ≤ c.ksize) × ((b.0 + b.1 ≤ limit) ⊎ (b.1 ≡ 0))) i c.bounds b e
        fits.inside in
    let room = mul-le-mul_right {m = suc i} {n = out} c.ksize (omega arith) in
    let (k, f, l) =
      slice_lem (i * c.ksize) b.1 c.kk (omega (arith, room, suc-mul i c.ksize, fits.rows)) in
    let (ss, g) =
      convolve_lem pixel limit b.0 k (round, round, round) total
        (subst (λ n. (b.0 + n ≤ limit) ⊎ (n ≡ 0)) (sym l) within) in
    (clipped ss, rw (e, f, g) refl, clipped-IsRgb ss)

-- A raster of a size, with bytes for channels.
pub record IsImage (w h : ℕ) (r : Rgb8) : Type 0 where
  pub width : r.width ≡ w
  pub height : r.height ≡ h
  pub size : IsRaster r
  pub bytes : All IsRgb r.pixels

-- A pass that has a pixel for each place gives an image.
collect-IsImage :
    (w h : ℕ) (f : ℕ × ℕ → Option Rgb)
    → ((place : ℕ × ℕ) → IsInside h w place → (p : Rgb) × (f place ≡ some p) × IsRgb p)
    → (out : Rgb8) × ((collect f (grid (span 0 h) (span 0 w)) >>= new_raster w h) ≡ some out)
      × IsImage w h out
unfolding new_raster
collect-IsImage w h f total =
    let places = grid (span 0 h) (span 0 w) in
    let (pixels, e, l, bytes) = collect_lem f (IsInside h w) IsRgb places total (
      grid-All h w (span 0 h) (span 0 w) (span-below 0 h h (omega arith))
        (span-below 0 w w (omega arith))) in
    let size : length pixels ≡ w * h =
      l
      ∙ length-grid (span 0 h) (span 0 w)
      ∙ ap (λ k. k * length (span 0 h)) (length-below w)
      ∙ ap (λ k. w * k) (length-below h) in
    let same : (length pixels == w * h) ≡ true = ground arith in
    (
      record { width = w; height = h; pixels = pixels },
      rw (e, same) refl,
      record { width = refl; height = refl; size = size; bytes = bytes },
    )

at-defined :
    (src : Rgb8) (x y : ℕ)
    → IsRaster src
    → x < src.width
    → y < src.height
    → (p : Rgb) × (at src x y ≡ some p)
at-defined src x y size a b =
    let (p, e, t) = at_lem (λ p. Unit {0}) src x y size (all_of src.pixels) (b, a) in (p, e)
  where
    all_of : (ps : List Rgb) → All (λ (p : Rgb). Unit {0}) ps
    all_of [] = tt
    all_of (p ∷ ps) = (tt, all_of ps)

horizontal-IsImage :
    (src : Rgb8) (offset rows out_w : ℕ) (c : Coeffs)
    → IsRaster src
    → offset + rows ≤ src.height
    → Fits src.width out_w c
    → (out : Rgb8) × (horizontal src offset rows out_w c ≡ some out) × IsImage out_w rows out
unfolding horizontal
horizontal-IsImage src offset rows out_w c size room fits =
    collect-IsImage out_w rows _ (λ place inside.
      tap_pixel_lem (λ x. at src x (place.0 + offset)) src.width out_w place.1 c fits
        (λ x h. at-defined src x (place.0 + offset) size h (omega (arith, room, inside.0)))
        inside.1)

vertical-IsImage :
    (src : Rgb8) (out_h : ℕ) (c : Coeffs)
    → IsRaster src
    → Fits src.height out_h c
    → (out : Rgb8) × (vertical src out_h c ≡ some out) × IsImage src.width out_h out
unfolding vertical
vertical-IsImage src out_h c size fits = collect-IsImage src.width out_h _ (λ place inside.
    tap_pixel_lem (λ y. at src place.1 y) src.height out_h place.0 c fits
      (λ y h. at-defined src place.1 y size inside.1 h) inside.0)

module _ {S F : Type 0} ⦃s : Float S⦄ ⦃r : Float F⦄ (widen : S → F) where
  -- Once the coefficients for both sides of a raster are computed, neither pass panics, whatever the
  -- arithmetic: the horizontal one gives an image of the width asked for and of the rows asked for,
  -- where these lie within the raster, and the vertical one an image of the raster's width and of the
  -- height asked for. An image has as many pixels as its size says, of bytes.
  pub passes_lem :
      (src : Rgb8) (x0 x1 y0 y1 : S) (offset rows out_w out_h : ℕ) (horiz vert : Coeffs)
      → IsRaster src
      → offset + rows ≤ src.height
      → precompute_coeffs widen src.width x0 x1 out_w ≡ some horiz
      → precompute_coeffs widen src.height y0 y1 out_h ≡ some vert
      → ((out : Rgb8) × (horizontal src offset rows out_w horiz ≡ some out)
          × IsImage out_w rows out)
        × ((out : Rgb8) × (vertical src out_h vert ≡ some out) × IsImage src.width out_h out)
  passes_lem src x0 x1 y0 y1 offset rows out_w out_h horiz vert size room e f = (
    horizontal-IsImage src offset rows out_w horiz size room
        (precompute_coeffs-Fits widen src.width x0 x1 out_w horiz e),
    vertical-IsImage src out_h vert size
        (precompute_coeffs-Fits widen src.height y0 y1 out_h vert f),
  )
