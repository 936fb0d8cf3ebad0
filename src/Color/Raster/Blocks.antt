-- ===== src/Color/Raster/Blocks.antt =====
-- src/color/decode.rs, `box_reduce`: the size of what it gives, and the bounds of its pixels.
use native.Mathlib.Nat.{
  mul-le-mul_right, mul-pos, le-div_iff_mul-le, div-lt_iff_lt-mul, div-add-mod', add-mul,
  div-mul-le_self, suc-mul,
}
use mpris_chroma.Prelude.{
  ℕ, suc, ◌+◌, ◌-◌, ◌*◌, ◌/◌, ◌%◌, ◌^◌, ◌≤◌, ◌<◌, min, ◌≡◌, refl, ap, ◌∙◌, inl, inr, true, false,
  some, List, [], ◌∷◌, arith, ◌==◌, Bool-cases, length, All,
}
use mpris_chroma.Quantize.{get_elem?-All, get_elem?-defined, Rgb}
use mpris_chroma.Color.Raster.{
  Rgb8, new_raster, span, grid, Block, add_color, pixel_u32, add_block, empty_block, half_up,
  block_mean, block_at, div_ceil, box_reduce,
}
use mpris_chroma.Color.Raster.Places.{
  IsRaster, IsInside, length-counted, grid-All, length-grid, collect_lem, index_inside,
  length-below, span-below,
}

abbrev pub IsWithin : ℕ → ℕ → Rgb → Type 0
IsWithin lo hi p =
    (lo ≤ p.red × p.red ≤ hi) × (lo ≤ p.green × p.green ≤ hi) × (lo ≤ p.blue × p.blue ≤ hi)

-- The sum of a channel over `n` pixels that are each within the bounds.
abbrev pub IsSum : ℕ → ℕ → ℕ → ℕ → Type 0
IsSum lo hi n v = lo * n ≤ v × v ≤ hi * n

-- The most pixels that a block may have for its sums to stay below 2^32.
abbrev most_pixels : ℕ
most_pixels = 4096 * 4096

IsSum-add :
    (lo hi n v c : ℕ)
    → n + 1 ≤ most_pixels
    → hi < 256
    → IsSum lo hi n v
    → lo ≤ c × c ≤ hi
    → IsSum lo hi ((n + 1) % 2 ^ 32) ((v + c) % 2 ^ 32)
IsSum-add lo hi n v c few byte s w =
    let low : lo * (n + 1) ≡ lo * n + lo = omega arith in
    let high : hi * (n + 1) ≡ hi * n + hi = omega arith in
    let most = mul-le-mul_right {m = hi} {n = 255} (n + 1) (omega arith) in
    let one_more : (n + 1) % 2 ^ 32 ≡ n + 1 = omega arith in
    let summed : (v + c) % 2 ^ 32 ≡ v + c = omega (arith, high, most) in
    rw (one_more, summed) (omega (arith, low), omega (arith, high))

half_up_lem :
    (lo hi n v : ℕ)
    → 0 < n
    → n ≤ most_pixels
    → hi < 256
    → IsSum lo hi n v
    → lo ≤ half_up n v × half_up n v ≤ hi
half_up_lem lo hi n v some_pixel few byte s =
    let most = mul-le-mul_right {m = hi} {n = 255} n (omega arith) in
    let whole : (v + n / 2) % 2 ^ 32 ≡ v + n / 2 = omega (arith, most) in
    let low = (le-div_iff_mul-le {k = n} {x = lo} {y = v + n / 2} some_pixel).1 (omega arith) in
    let high =
      (div-lt_iff_lt-mul {k = n} {x = v + n / 2} {y = suc hi} some_pixel).1
        (omega (arith, suc-mul hi n)) in
    rw whole (omega (arith, low, high), omega (arith, low, high))

pub record IsSummed (lo hi : ℕ) (b : Block) : Type 0 where
  pub red_sum : IsSum lo hi b.n b.sum.red
  pub green_sum : IsSum lo hi b.n b.sum.green
  pub blue_sum : IsSum lo hi b.n b.sum.blue

add_color-IsSummed :
    (lo hi : ℕ) (p : Rgb) (b : Block)
    → b.n + 1 ≤ most_pixels
    → hi < 256
    → IsWithin lo hi p
    → IsSummed lo hi b
    → IsSummed lo hi (add_color p b)
unfolding add_color
add_color-IsSummed lo hi p b few byte (r, g, l) s = record {
  red_sum = IsSum-add lo hi b.n b.sum.red p.red few byte s.red_sum r;
  green_sum = IsSum-add lo hi b.n b.sum.green p.green few byte s.green_sum g;
  blue_sum = IsSum-add lo hi b.n b.sum.blue p.blue few byte s.blue_sum l;
}

pixel_u32_lem :
    (P : Rgb → Type 0) (src : Rgb8) (x y : ℕ)
    → src.width * src.height ≤ 2 ^ 32
    → IsRaster src
    → All P src.pixels
    → IsInside src.height src.width (y, x)
    → (p : Rgb) × (pixel_u32 src x y ≡ some p) × P p
unfolding pixel_u32
pixel_u32_lem P src x y area size a inside =
    let within = index_inside src.width src.height x y inside.1 inside.0 in
    let index = (y * src.width + x) % 2 ^ 32 in
    let (p, e) = get_elem?-defined index src.pixels (omega (arith, size, within, area)) in
    (p, e, get_elem?-All P index src.pixels p e a)

add_block_lem :
    (lo hi : ℕ) (src : Rgb8) (coords : List (ℕ × ℕ)) (b : Block)
    → hi < 256
    → src.width * src.height ≤ 2 ^ 32
    → b.n + length coords ≤ most_pixels
    → IsRaster src
    → All (IsWithin lo hi) src.pixels
    → All (IsInside src.height src.width) coords
    → IsSummed lo hi b
    → (sum : Block) × (add_block src coords b ≡ some sum)
      × (sum.n ≡ b.n + length coords)
      × IsSummed lo hi sum
unfolding add_block add_color
add_block_lem lo hi src [] b byte area few size a inside s = (b, refl, omega arith, s)
add_block_lem lo hi src ((y, x) ∷ rest) b byte area few size a inside s =
    let (p, e, w) = pixel_u32_lem (IsWithin lo hi) src x y area size a inside.0 in
    let one_more : (add_color p b).n ≡ b.n + 1 = omega arith in
    let (sum, f, l, t) =
      add_block_lem lo hi src rest (add_color p b) byte area (omega (arith, one_more)) size a
        inside.1 (add_color-IsSummed lo hi p b (omega arith) byte w s) in
    (sum, rw e f, omega (arith, l, one_more), t)

block_mean_lem :
    (lo hi : ℕ) (b : Block)
    → 0 < b.n
    → b.n ≤ most_pixels
    → hi < 256
    → IsSummed lo hi b
    → (p : Rgb) × (block_mean b ≡ some p) × IsWithin lo hi p
unfolding block_mean
block_mean_lem lo hi b some_pixel few byte s =
    let filled : (b.n == 0) ≡ false = ground arith in
    (
      record {
        red = half_up b.n b.sum.red;
        green = half_up b.n b.sum.green;
        blue = half_up b.n b.sum.blue;
      },
      rw filled refl,
      (
        half_up_lem lo hi b.n b.sum.red some_pixel few byte s.red_sum,
        half_up_lem lo hi b.n b.sum.green some_pixel few byte s.green_sum,
        half_up_lem lo hi b.n b.sum.blue some_pixel few byte s.blue_sum,
      ),
    )

-- A block of the cover begins inside it.
div_ceil-starts : (n s i : ℕ) → 0 < s → i < div_ceil n s → i * s < n
unfolding div_ceil
div_ceil-starts n s i some_side h = elim (Bool-cases (n % s == 0)) [
  | inl t ↦
      let below : i < n / s = rw t at h in
      omega
        (arith, mul-le-mul_right {m = suc i} {n = n / s} s below, suc-mul i s, div-mul-le_self n s)
  | inr f ↦
      let upto : i < n / s + 1 = rw f at h in
      let rest : 0 < n % s = ground arith in
      omega (arith, mul-le-mul_right {m = i} {n = n / s} s (omega arith), div-add-mod' n s, rest)
]

-- The side of the blocks and the raster are small enough for `u32`.
pub record FitsU32 (src : Rgb8) (s : ℕ) : Type 0 where
  pub side : s ≤ 4096
  pub wide : src.width + s ≤ 2 ^ 32
  pub tall : src.height + s ≤ 2 ^ 32
  pub area : src.width * src.height ≤ 2 ^ 32

-- The span of one side of a block: some places, no more than the side, all before the end.
span_lem :
    (n s i : ℕ)
    → 0 < s
    → n + s ≤ 2 ^ 32
    → i < div_ceil n s
    → let places = span (i * s % 2 ^ 32) (min ((i + 1) * s % 2 ^ 32) n) in
      (0 < length places) × (length places ≤ s) × All (λ x. x < n) places
span_lem n s i some_side fits h =
    let start = div_ceil-starts n s i some_side h in
    let next : (i + 1) * s ≡ i * s + s = omega (arith, add-mul i 1 s) in
    let first : i * s % 2 ^ 32 ≡ i * s = omega arith in
    let second : (i + 1) * s % 2 ^ 32 ≡ i * s + s = omega (arith, next) in
    let count = length-counted (i * s) (min (i * s + s) n - i * s) in
    rw (first, second)
      (
        omega (arith, count, start),
        omega (arith, count),
        span-below (i * s) (min (i * s + s) n) n (omega arith),
      )

block_at_lem :
    (lo hi : ℕ) (src : Rgb8) (s : ℕ) (place : ℕ × ℕ)
    → 0 < s
    → hi < 256
    → FitsU32 src s
    → IsRaster src
    → All (IsWithin lo hi) src.pixels
    → IsInside (div_ceil src.height s) (div_ceil src.width s) place
    → (p : Rgb) × (block_at src s place ≡ some p) × IsWithin lo hi p
unfolding block_at
block_at_lem lo hi src s (by, bx) some_side byte fits size a inside =
    let ys = span (by * s % 2 ^ 32) (min ((by + 1) * s % 2 ^ 32) src.height) in
    let xs = span (bx * s % 2 ^ 32) (min ((bx + 1) * s % 2 ^ 32) src.width) in
    let (tall, few_rows, rows) = span_lem src.height s by some_side fits.tall inside.0 in
    let (wide, few_columns, columns) = span_lem src.width s bx some_side fits.wide inside.1 in
    let within = grid-All src.height src.width ys xs rows columns in
    let pixels : 0 < length xs * length ys = mul-pos wide tall in
    let most =
      mul-le-mul_right {m = length xs} {n = 4096} (length ys)
        (omega (arith, few_columns, fits.side)) in
    let few : length (grid ys xs) ≤ most_pixels =
      omega (arith, length-grid ys xs, most, few_rows, fits.side) in
    let (sum, e, l, t) =
      add_block_lem lo hi src (grid ys xs) empty_block byte fits.area (omega (arith, few)) size a
        within
        (record {
          red_sum = (omega arith, omega arith);
          green_sum = (omega arith, omega arith);
          blue_sum = (omega arith, omega arith);
        }) in
    let (p, f, w) =
      block_mean_lem lo hi sum (omega (arith, l, length-grid ys xs, pixels)) (omega (arith, l, few))
        byte t in
    (p, rw (e, f) refl, w)

-- The block average of a raster whose pixels are as many as its size says, for a positive side s of the
-- blocks of at most 4096, does not panic, where the raster's width and height are at most 2^32 - s
-- and its area at most 2^32: the sides of what it gives are the raster's divided by
-- s and rounded up, its pixels are as many as its size says, and every channel of them is within any
-- bounds, below 256, that hold every channel of the raster.
pub box_reduce_lem :
    (lo hi : ℕ) (src : Rgb8) (s : ℕ)
    → 0 < s
    → hi < 256
    → FitsU32 src s
    → IsRaster src
    → All (IsWithin lo hi) src.pixels
    → (out : Rgb8) × (box_reduce src s ≡ some out)
      × (out.width ≡ div_ceil src.width s)
      × (out.height ≡ div_ceil src.height s)
      × IsRaster out
      × All (IsWithin lo hi) out.pixels
unfolding box_reduce new_raster
box_reduce_lem lo hi src s some_side byte fits size a =
    let ow = div_ceil src.width s in
    let oh = div_ceil src.height s in
    let places = grid (span 0 oh) (span 0 ow) in
    let (pixels, e, l, w) =
      collect_lem (block_at src s) (IsInside oh ow) (IsWithin lo hi) places
        (λ place inside. block_at_lem lo hi src s place some_side byte fits size a inside)
        (grid-All oh ow (span 0 oh) (span 0 ow) (span-below 0 oh oh (omega arith))
          (span-below 0 ow ow (omega arith))) in
    let count : length pixels ≡ ow * oh =
      l
      ∙ length-grid (span 0 oh) (span 0 ow)
      ∙ ap (λ k. k * length (span 0 oh)) (length-below ow)
      ∙ ap (λ k. ow * k) (length-below oh) in
    let same : (length pixels == ow * oh) ≡ true = ground arith in
    (record { width = ow; height = oh; pixels = pixels }, rw (e, same) refl, refl, refl, count, w)
