-- ===== src/Color/Decode/Tests.antt =====
-- src/color/decode.rs at concrete inputs, with a reader of three-byte images of one pixel.
use mpris_chroma.Prelude.{
  ℕ, ◌+◌, ◌*◌, ◌≡◌, refl, subst, inl, inr, ◌&&◌, Option, none, some, List, [], ◌∷◌, arith, leb,
  ◌==◌, if◌then◌else◌, Bool-cases, All,
}
use mpris_chroma.Prelude.Result.{Result, ok, err}
use mpris_chroma.Color.Raster.{Rgb8, box_reduce, div_ceil}
use mpris_chroma.Color.Raster.Places.{IsRaster}
use mpris_chroma.Color.Raster.Blocks.{IsWithin, FitsU32, box_reduce_lem}
use mpris_chroma.Color.Decode.{
  ImageFormat, png, other_format, DecodeError, too_many_pixels, DynamicImage, rgb8, ImageReader,
  draft_scale, decode,
}
use mpris_chroma.Color.Decode.Guards.{IsSound, Explains, decode_lem}

abbrev row : Rgb8
row = record {
  width = 3;
  height = 1;
  pixels =
      record { red = 10; green = 20; blue = 30 }
      ∷ record { red = 20; green = 20; blue = 31 }
      ∷ record { red = 40; green = 20; blue = 30 }
      ∷ [];
}

box_reduce-row :
    box_reduce row 2
    ≡ some (record {
      width = 2;
      height = 1;
      pixels =
          record { red = 15; green = 20; blue = 31 }
          ∷ record { red = 40; green = 20; blue = 30 }
          ∷ [];
    })
unfolding box_reduce
box_reduce-row = refl

row-FitsU32 : FitsU32 row 2
row-FitsU32 = record {
  side = omega arith;
  wide = omega arith;
  tall = omega arith;
  area = omega arith;
}

box_reduce_lem_example :
    (out : Rgb8) × (box_reduce row 2 ≡ some out)
    × (out.width ≡ div_ceil 3 2)
    × (out.height ≡ div_ceil 1 2)
    × IsRaster out
    × All (IsWithin 10 40) out.pixels
box_reduce_lem_example = box_reduce_lem 10 40 row 2 (omega arith) (omega arith) row-FitsU32 refl (
  ((omega arith, omega arith), (omega arith, omega arith), (omega arith, omega arith)),
  (
    ((omega arith, omega arith), (omega arith, omega arith), (omega arith, omega arith)),
    (((omega arith, omega arith), (omega arith, omega arith), (omega arith, omega arith)), tt),
  ),
)

draft_scales :
    (draft_scale 640 640 ≡ 4)
    × (draft_scale 1000 3000 ≡ 8)
    × (draft_scale 250 900 ≡ 2)
    × (draft_scale 64 64 ≡ 1)
unfolding draft_scale
draft_scales = (refl, refl, refl, refl)

abbrev guess : List ℕ → Option ImageFormat
guess [] = none
guess (b ∷ bytes) = some (if b == 137 then png else other_format)

-- The second byte is a side in thousands of pixels.
abbrev sides : List ℕ → Result ℕ (ℕ × ℕ)
sides (a ∷ b ∷ bytes) = ok (b * 1000 + 1, b * 1000 + 1)
sides _ = err 0

abbrev one_pixel : DynamicImage
one_pixel = record {
  width = 1;
  height = 1;
  buffer = rgb8 (record { red = 1; green = 2; blue = 3 } ∷ []);
}

abbrev small_reader : ImageReader ℕ
small_reader = record {
  guess_format = guess;
  into_dimensions = λ format bytes. sides bytes;
  read_image = λ w h format bytes. if leb 1 w && leb 1 h then ok one_pixel else err 1;
}

small_reader-IsSound :
    (w h : ℕ) (format : ImageFormat) (bytes : List ℕ) (img : DynamicImage)
    → small_reader.read_image w h format bytes ≡ ok img
    → IsSound w h img
small_reader-IsSound w h format bytes img e = elim (Bool-cases (leb 1 w && leb 1 h)) [
  | inl t ↦
      let got : ok one_pixel ≡ ok img = rw t at e in
      let same : one_pixel ≡ img = ground arith in
      subst (λ k. IsSound w h k) same
        (record {
          width_limit = ground arith;
          height_limit = ground arith;
          count = refl;
          typed = ((omega arith, omega arith, omega arith), tt);
        })
  | inr f ↦ absurd (cc (rw f at e))
]

decode_bomb : decode small_reader (137 ∷ 9 ∷ []) ≡ some (err too_many_pixels)
unfolding decode
decode_bomb = refl

decode_lem_example :
    (result : Result (DecodeError ℕ) Rgb8) × (decode small_reader (137 ∷ 0 ∷ []) ≡ some result)
    × Explains small_reader (137 ∷ 0 ∷ []) result
decode_lem_example = decode_lem small_reader small_reader-IsSound (137 ∷ 0 ∷ [])
