-- ===== src/Color/Resample.antt =====
-- src/color/resize.rs: Pillow's bicubic resize with fixed-point coefficients. `S` are the numbers of
-- `f32` and `F` those of `f64`; an `i32` keeps its wrap-around, as a `usize` does where the source
-- subtracts. None stands for a panic.
pub mod Fits
pub mod Passes
use mpris_chroma.Prelude.{
  ℕ, zero, suc, ◌+◌, ◌-◌, ◌*◌, ◌/◌, ◌%◌, ◌^◌, ◌≤◌, ◌<◌, min, max, bit_and, bit_xor, ◌≡◌, refl, sym,
  ap, subst, ◌∙◌, ◌≢◌, ◌↔◌, ◌⊎◌, inl, inr, Bool, true, false, not, ◌&&◌, ◌||◌, Option, none, some,
  List, [], ◌∷◌, ◌++◌, map, append-nil, append_assoc, map-append, arith, ltb, leb, ◌==◌,
  if◌then◌else◌, ltb→lt, lt→ltb, leb→le, le→leb, ==_iff, Bool-cases, Option-cases, List-cases,
  is_some, if_cases, if_else, length, take, drop, replicate, concat, any, all, keep, All, Any,
  length-append, length-take, take-append-drop, All-append, All-map, All-mono, Any-mono, all-All,
  any-Any, Any-any,
}
use mpris_chroma.Prelude.Int.{ℤ, pos, negsuc}
use mpris_chroma.Quantize.{Rgb, get_elem?}
use mpris_chroma.Quantize.Cut.{cons?}
use mpris_chroma.Color.{Float, ◌⊕◌, ◌⊖◌, ◌⊗◌, ◌⊘◌, ◌>>=◌}
use mpris_chroma.Color.Oklab.{Triple}
use mpris_chroma.Color.Raster.{Rgb8, new_raster, at, span, grid, collect}

-- `PRECISION_BITS`.
abbrev pub precision_bits : ℕ
precision_bits = 32 - 8 - 2

abbrev pub signed_32 : ℕ → ℤ
signed_32 u = if ltb u (2 ^ 31) then pos u else negsuc (2 ^ 32 - 1 - u)

abbrev pub wrap_i32 : ℤ → ℤ
wrap_i32 (pos n) = signed_32 (n % 2 ^ 32)
wrap_i32 (negsuc n) = signed_32 (2 ^ 32 - 1 - n % 2 ^ 32)

-- `a - b` of two naturals.
abbrev pub difference : ℕ → ℕ → ℤ
difference a b = if leb b a then pos (a - b) else negsuc (b - a - 1)

-- The sum of two `i32`, and the product of a byte and an `i32`.
abbrev pub add_i32 : ℤ → ℤ → ℤ
add_i32 (pos a) (pos b) = wrap_i32 (pos (a + b))
add_i32 (pos a) (negsuc b) = wrap_i32 (difference a (b + 1))
add_i32 (negsuc a) (pos b) = wrap_i32 (difference b (a + 1))
add_i32 (negsuc a) (negsuc b) = wrap_i32 (negsuc (a + b + 1))

abbrev pub times_i32 : ℕ → ℤ → ℤ
times_i32 v (pos k) = wrap_i32 (pos (v * k))
times_i32 v (negsuc k) = wrap_i32 (difference 0 (v * (k + 1)))

-- `.max(0)` of a signed number.
abbrev pub or_zero : ℤ → ℕ
or_zero (pos n) = n
or_zero (negsuc n) = 0

abbrev pub clamp_i32 : ℤ → ℤ
clamp_i32 (pos n) = pos (min n (2 ^ 31 - 1))
clamp_i32 (negsuc n) = negsuc (min n (2 ^ 31 - 1))

-- `a - b` of two `usize`.
abbrev pub minus_usize : ℕ → ℕ → ℕ
minus_usize a b = (a + 2 ^ 64 - b) % 2 ^ 64

-- `Coeffs`.
pub record Coeffs : Type 0 where
  pub ksize : ℕ
  pub bounds : List (ℕ × ℕ)
  pub kk : List ℤ

-- `bx`: the left, upper, right and lower edge.
pub record Frame (S : Type 0) : Type 0 where
  pub x0 : S
  pub y0 : S
  pub x1 : S
  pub y1 : S

-- `clip8`: an arithmetic shift, and a clamp to a byte.
unfoldable pub clip8 : ℤ → ℕ
clip8 (pos n) = min 255 (n / 2 ^ precision_bits)
clip8 (negsuc n) = 0

-- `ROUND`.
abbrev pub round : ℤ
round = pos (2 ^ (precision_bits - 1))

-- `&xs[lo..lo + n]`.
unfoldable pub slice {ℓ} : {A : Type ℓ} → ℕ → ℕ → List A → Option (List A)
slice lo n xs = if leb (lo + n) (length xs) then some (take n (drop lo xs)) else none

unfoldable pub add_tap : ℤ → Rgb → Triple ℤ → Triple ℤ
add_tap k p (a, b, c) =
    (add_i32 a (times_i32 p.red k), add_i32 b (times_i32 p.green k), add_i32 c (times_i32 p.blue k))

-- The loop over the taps; `pixel` is the source's pixel at an index of the row or the column.
unfoldable pub convolve : (ℕ → Option Rgb) → ℕ → List ℤ → Triple ℤ → Option (Triple ℤ)
unfolding add_tap
convolve pixel i [] ss = some ss
convolve pixel i (k ∷ ks) ss = pixel i >>= λ p. convolve pixel (suc i) ks (add_tap k p ss)

abbrev pub clipped : Triple ℤ → Rgb
clipped (a, b, c) = record { red = clip8 a; green = clip8 b; blue = clip8 c }

-- One pixel of a pass.
unfoldable pub tap_pixel : (ℕ → Option Rgb) → Coeffs → ℕ → Option Rgb
unfolding get_elem? slice convolve clip8
tap_pixel pixel c i = get_elem? i c.bounds >>= λ bound.
    (slice (i * c.ksize) bound.1 c.kk >>= λ k.
    (convolve pixel bound.0 k (round, round, round) >>= λ ss. some (clipped ss)))

unfoldable pub horizontal : Rgb8 → ℕ → ℕ → ℕ → Coeffs → Option Rgb8
unfolding tap_pixel at new_raster
horizontal src offset rows out_w c =
    collect (λ (place : ℕ × ℕ). tap_pixel (λ x. at src x (place.0 + offset)) c place.1)
      (grid (span 0 rows) (span 0 out_w))
    >>= new_raster out_w rows

unfoldable pub vertical : Rgb8 → ℕ → Coeffs → Option Rgb8
unfolding tap_pixel at new_raster
vertical src out_h c =
    collect (λ (place : ℕ × ℕ). tap_pixel (λ y. at src place.1 y) c place.0)
      (grid (span 0 out_h) (span 0 src.width))
    >>= new_raster src.width out_h

module _ {F : Type 0} ⦃r : Float F⦄ where
  unfoldable pub bicubic_filter : F → F
  bicubic_filter y =
      let a = r.negative (r.decimal 5 1) in
      let x = r.abs y in
      if r.less x (r.decimal 10 1)
      then ((a ⊕ r.decimal 20 1) ⊗ x ⊖ (a ⊕ r.decimal 30 1)) ⊗ x ⊗ x ⊕ r.decimal 10 1
      else if r.less x (r.decimal 20 1)
      then (((x ⊖ r.decimal 50 1) ⊗ x ⊕ r.decimal 80 1) ⊗ x ⊖ r.decimal 40 1) ⊗ a
      else r.decimal 0 1

  abbrev pub sum_from : F → List F → F
  sum_from acc [] = acc
  sum_from acc (w ∷ ws) = sum_from (acc ⊕ w) ws

  -- `k as i32` in fixed point, rounded away from 0.
  unfoldable pub fixed_point : F → ℤ
  fixed_point k =
      let one = r.of_nat (2 ^ precision_bits) in
      if r.less k (r.decimal 0 1)
      then clamp_i32 (r.to_int (r.negative (r.decimal 5 1) ⊕ k ⊗ one))
      else clamp_i32 (r.to_int (r.decimal 5 1 ⊕ k ⊗ one))

  -- The taps of one output pixel: the first source index, how many, and the weights. `in0` is the
  -- edge of the box, as `f64`.
  module _ (in_size ksize : ℕ) (in0 scale support inv_filterscale : F) where
    unfoldable pub center_of : ℕ → F
    center_of xx = in0 ⊕ (r.of_nat xx ⊕ r.decimal 5 1) ⊗ scale

    unfoldable pub bound_of : ℕ → ℕ × ℕ
    unfolding center_of
    bound_of xx =
        let xmin = or_zero (r.to_int (center_of xx ⊖ support ⊕ r.decimal 5 1)) in
        (xmin, min (or_zero (r.to_int (center_of xx ⊕ support ⊕ r.decimal 5 1))) in_size - xmin)

    unfoldable pub weights_of : ℕ → List F
    unfolding center_of bound_of bicubic_filter
    weights_of xx =
        let (xmin, taps) = bound_of xx in
        let ws =
          map
            (λ x.
              bicubic_filter
                ((r.of_nat (x + xmin) ⊖ center_of xx ⊕ r.decimal 5 1) ⊗ inv_filterscale))
            (span 0 taps) in
        let ww = sum_from (r.decimal 0 1) ws in
        if not (r.equal ww (r.decimal 0 1)) then map (λ w. w ⊘ ww) ws else ws

    -- The row of `pre`, of `ksize` numbers; `k[..taps]` panics where the taps are more.
    unfoldable pub row_of : ℕ → Option (List F)
    unfolding bound_of weights_of
    row_of xx =
        let taps = (bound_of xx).1 in
        if leb taps ksize
        then some (weights_of xx ++ replicate (ksize - taps) (r.decimal 0 1))
        else none

module _ {S F : Type 0} ⦃s : Float S⦄ ⦃r : Float F⦄ (widen : S → F) where
  unfoldable pub precompute_coeffs : ℕ → S → S → ℕ → Option Coeffs
  unfolding bound_of row_of fixed_point
  precompute_coeffs in_size in0 in1 out_size =
      let scale = widen (in1 ⊖ in0) ⊘ r.of_nat out_size in
      let filterscale = r.larger scale (r.decimal 10 1) in
      let support = r.decimal 20 1 ⊗ filterscale in
      let ksize = r.to_nat (r.ceil support) * 2 + 1 in
      let inv_filterscale = r.decimal 10 1 ⊘ filterscale in
      collect (row_of in_size ksize (widen in0) scale support inv_filterscale) (span 0 out_size)
      >>= λ pre. some (record {
        ksize = ksize;
        bounds =
            map (bound_of in_size ksize (widen in0) scale support inv_filterscale)
              (span 0 out_size);
        kk = map fixed_point (concat pre);
      })

  -- The second half of `resample`: the columns of what the first half gave.
  abbrev pub then_vertical : Bool → ℕ → Coeffs → Option Rgb8 → Option Rgb8
  then_vertical need out_h vert current =
      current >>= λ input. (if need then vertical input out_h vert else some input)

  abbrev pub shifted : ℕ → Coeffs → Coeffs
  shifted first c = record c { bounds = map (λ (b : ℕ × ℕ). (minus_usize b.0 first, b.1)) c.bounds }

  unfoldable pub resample : Rgb8 → ℕ → ℕ → Frame S → Option Rgb8
  unfolding precompute_coeffs horizontal vertical get_elem?
  resample src out_w out_h bx =
      let need_horizontal =
        not (out_w == src.width)
        || (not (s.equal bx.x0 (s.decimal 0 1)) || not (s.equal bx.x1 (s.of_nat out_w))) in
      let need_vertical =
        not (out_h == src.height)
        || (not (s.equal bx.y0 (s.decimal 0 1)) || not (s.equal bx.y1 (s.of_nat out_h))) in
      precompute_coeffs src.height bx.y0 bx.y1 out_h >>= λ vert.
      (get_elem? 0 vert.bounds >>= λ first.
      (get_elem? (out_h - 1) vert.bounds >>= λ last.
      (let ybox_first = first.0 in
        let ybox_last = last.0 + last.1 in
        let rows = minus_usize ybox_last ybox_first in
        if need_horizontal
        then then_vertical need_vertical out_h (shifted ybox_first vert)
            (precompute_coeffs src.width bx.x0 bx.x1 out_w >>= horizontal src ybox_first rows out_w)
        else then_vertical need_vertical out_h vert (some src))))

  -- `(v as i32) as f32`.
  abbrev pub back_and_forth : ℤ → S
  back_and_forth (pos n) = s.of_nat n
  back_and_forth (negsuc n) = s.negative (s.of_nat (n + 1))

  abbrev pub integral : S → Bool
  integral v = s.equal (v ⊖ back_and_forth (clamp_i32 (s.to_int v))) (s.decimal 0 1)

  unfoldable pub crop : Rgb8 → ℕ → ℕ → ℕ → ℕ → Option Rgb8
  unfolding at new_raster
  crop src out_w out_h x0 y0 =
      collect (λ (place : ℕ × ℕ). at src (place.1 + x0) (place.0 + y0))
        (grid (span 0 out_h) (span 0 out_w))
      >>= new_raster out_w out_h

  unfoldable pub im_resize : Rgb8 → ℕ → ℕ → Frame S → Option Rgb8
  unfolding crop resample
  im_resize src out_w out_h bx =
      if integral bx.x0
        && (s.equal (bx.x1 ⊖ bx.x0) (s.of_nat out_w)
            && (integral bx.y0 && s.equal (bx.y1 ⊖ bx.y0) (s.of_nat out_h)))
      then crop src out_w out_h (s.to_nat bx.x0) (s.to_nat bx.y0)
      else resample src out_w out_h bx

  -- `resize`; a very tall image is resized in two steps.
  unfoldable pub resize_to : Rgb8 → ℕ → ℕ → Option Rgb8
  unfolding im_resize
  resize_to src out_w out_h =
      let zero_single = s.decimal 0 1 in
      let w = src.width in
      let h = src.height in
      let full : Frame S = record {
        x0 = zero_single;
        y0 = zero_single;
        x1 = s.of_nat w;
        y1 = s.of_nat h;
      } in
      if out_w == 0 || out_h == 0
      then none
      else if w == out_w && h == out_h
      then some src
      else if ltb (w * 100) h && ltb out_h h
      then (im_resize src w out_h full >>= λ tall.
          im_resize tall out_w out_h (record full { y1 = s.of_nat out_h }))
      else im_resize src out_w out_h full
