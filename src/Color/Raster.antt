-- ===== src/Color/Raster.antt =====
-- src/color/resize.rs and src/color/decode.rs: the raster of 8-bit pixels, and the block average that
-- stands for a JPEG's draft. None stands for a panic. The sums, counts and
-- indices of the block average are `u32` and keep their wrap-around; those of a raster are `usize`.
pub mod Places
pub mod Blocks
use mpris_chroma.Prelude.{
  ℕ, zero, suc, ◌+◌, ◌-◌, ◌*◌, ◌/◌, ◌%◌, ◌^◌, ◌≤◌, ◌<◌, min, max, bit_and, bit_xor, ◌≡◌, refl, sym,
  ap, subst, ◌∙◌, ◌≢◌, ◌↔◌, ◌⊎◌, inl, inr, Bool, true, false, not, ◌&&◌, ◌||◌, Option, none, some,
  List, [], ◌∷◌, ◌++◌, map, append-nil, append_assoc, map-append, arith, ltb, leb, ◌==◌,
  if◌then◌else◌, ltb→lt, lt→ltb, leb→le, le→leb, ==_iff, Bool-cases, Option-cases, List-cases,
  is_some, if_cases, if_else, length, take, drop, replicate, concat, any, all, keep, All, Any,
  length-append, length-take, take-append-drop, All-append, All-map, All-mono, Any-mono, all-All,
  any-Any, Any-any,
}
use mpris_chroma.Quantize.{Rgb, get_elem?}
use mpris_chroma.Quantize.Cut.{cons?}
use mpris_chroma.Color.{◌>>=◌}

pub record Rgb8 : Type 0 where
  pub width : ℕ
  pub height : ℕ
  pub pixels : List Rgb

-- `Rgb8::new`, which asserts the size.
unfoldable pub new_raster : ℕ → ℕ → List Rgb → Option Rgb8
new_raster w h pixels =
    if length pixels == w * h
    then some (record { width = w; height = h; pixels = pixels })
    else none

-- `Rgb8::at`.
unfoldable pub at : Rgb8 → ℕ → ℕ → Option Rgb
unfolding get_elem?
at src x y = get_elem? (y * src.width + x) src.pixels

-- `lo..lo + n` and `lo..hi`.
abbrev pub counted : ℕ → ℕ → List ℕ
counted lo zero = []
counted lo (suc n) = lo ∷ counted (suc lo) n

abbrev pub span : ℕ → ℕ → List ℕ
span lo hi = counted lo (hi - lo)

-- The turns of a loop over rows with a loop over columns in it, as (row, column).
abbrev pub grid : List ℕ → List ℕ → List (ℕ × ℕ)
grid [] xs = []
grid (y ∷ ys) xs = map (λ x. (y, x)) xs ++ grid ys xs

-- A loop that pushes what each turn gives.
abbrev pub collect : {A B : Type 0} → (A → Option B) → List A → Option (List B)
collect f [] = some []
collect f (x ∷ xs) = cons? (f x) (collect f xs)

-- The sums of the channels, and the number of the pixels in them.
pub record Block : Type 0 where
  pub sum : Rgb
  pub n : ℕ

unfoldable pub add_color : Rgb → Block → Block
add_color p b = record {
  sum = record {
    red = (b.sum.red + p.red) % 2 ^ 32;
    green = (b.sum.green + p.green) % 2 ^ 32;
    blue = (b.sum.blue + p.blue) % 2 ^ 32;
  };
  n = (b.n + 1) % 2 ^ 32;
}

-- `src.pixels[(y * src.width + x) as usize]`.
unfoldable pub pixel_u32 : Rgb8 → ℕ → ℕ → Option Rgb
unfolding get_elem?
pixel_u32 src x y = get_elem? ((y * src.width + x) % 2 ^ 32) src.pixels

-- The two inner loops.
unfoldable pub add_block : Rgb8 → List (ℕ × ℕ) → Block → Option Block
unfolding pixel_u32 add_color
add_block src [] b = some b
add_block src ((y, x) ∷ rest) b = pixel_u32 src x y >>= λ p. add_block src rest (add_color p b)

abbrev pub empty_block : Block
empty_block = record { sum = record { red = 0; green = 0; blue = 0 }; n = 0 }

-- `((v + n / 2) / n) as u8`.
abbrev pub half_up : ℕ → ℕ → ℕ
half_up n v = (v + n / 2) % 2 ^ 32 / n % 256

unfoldable pub block_mean : Block → Option Rgb
block_mean b =
    if b.n == 0
    then none
    else some (record {
      red = half_up b.n b.sum.red;
      green = half_up b.n b.sum.green;
      blue = half_up b.n b.sum.blue;
    })

unfoldable pub block_at : Rgb8 → ℕ → ℕ × ℕ → Option Rgb
unfolding add_block block_mean
block_at src s (by, bx) =
    let ys = span (by * s % 2 ^ 32) (min ((by + 1) * s % 2 ^ 32) src.height) in
    let xs = span (bx * s % 2 ^ 32) (min ((bx + 1) * s % 2 ^ 32) src.width) in
    add_block src (grid ys xs) empty_block >>= block_mean

-- `n.div_ceil(s)`, which its one caller asks for a side above 1.
unfoldable pub div_ceil : ℕ → ℕ → ℕ
div_ceil n s = if n % s == 0 then n / s else n / s + 1

unfoldable pub box_reduce : Rgb8 → ℕ → Option Rgb8
unfolding block_at div_ceil new_raster
box_reduce src s =
    let ow = div_ceil src.width s in
    let oh = div_ceil src.height s in
    collect (block_at src s) (grid (span 0 oh) (span 0 ow)) >>= new_raster ow oh
