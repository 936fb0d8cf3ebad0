-- ===== src/Color/Decode.antt =====
-- src/color/decode.rs: from a cover's file to the sample that is quantized. The image crate is a
-- parameter, and so is what opening the file gives. None stands for a panic.
pub mod Guards
mod Tests
use mpris_chroma.Prelude.{
  ℕ, zero, suc, ◌+◌, ◌-◌, ◌*◌, ◌/◌, ◌%◌, ◌^◌, ◌≤◌, ◌<◌, min, max, bit_and, bit_xor, ◌≡◌, refl, sym,
  ap, subst, ◌∙◌, ◌≢◌, ◌↔◌, ◌⊎◌, inl, inr, Bool, true, false, not, ◌&&◌, ◌||◌, Option, none, some,
  List, [], ◌∷◌, ◌++◌, map, append-nil, append_assoc, map-append, arith, ltb, leb, ◌==◌,
  if◌then◌else◌, ltb→lt, lt→ltb, leb→le, le→leb, ==_iff, Bool-cases, Option-cases, List-cases,
  is_some, if_cases, if_else, length, take, drop, replicate, concat, any, all, keep, All, Any,
  length-append, length-take, take-append-drop, All-append, All-map, All-mono, Any-mono, all-All,
  any-Any, Any-any,
}
use mpris_chroma.Prelude.Result.{Result, ok, err}
use mpris_chroma.Cover.{IoError}
use mpris_chroma.Quantize.{Rgb}
use mpris_chroma.Color.{Float, ◌>>=◌}
use mpris_chroma.Color.Raster.{Rgb8, new_raster, box_reduce}
use mpris_chroma.Color.Resample.{resize_to}

-- `SAMPLE`, for each side.
abbrev pub sample_side : ℕ
sample_side = 100

abbrev pub max_decode_bytes : ℕ
max_decode_bytes = 16 * 1024 * 1024

abbrev pub max_pixels : ℕ
max_pixels = 16000000

pub data ImageFormat : Type 0 where
  jpeg : ImageFormat
  png : ImageFormat
  webp : ImageFormat
  other_format : ImageFormat

-- `ACCEPTED.contains`.
abbrev pub is_accepted : ImageFormat → Bool
is_accepted jpeg = true
is_accepted png = true
is_accepted webp = true
is_accepted other_format = false

abbrev pub is_jpeg : ImageFormat → Bool
is_jpeg jpeg = true
is_jpeg _ = false

pub data DecodeError (E : Type 0) : Type 0 where
  io : IoError → DecodeError E
  too_large : DecodeError E
  unaccepted : DecodeError E
  too_many_pixels : DecodeError E
  corrupt : E → DecodeError E

-- The pixels of a `DynamicImage`; alpha stands beside its pixel, and any other kind is what `to_rgb8`
-- gives of it.
pub data PixelBuffer : Type 0 where
  luma8 : List ℕ → PixelBuffer
  luma_a8 : List (ℕ × ℕ) → PixelBuffer
  rgb8 : List Rgb → PixelBuffer
  rgba8 : List (Rgb × ℕ) → PixelBuffer
  luma16 : List ℕ → PixelBuffer
  luma_a16 : List (ℕ × ℕ) → PixelBuffer
  rgb16 : List Rgb → PixelBuffer
  rgba16 : List (Rgb × ℕ) → PixelBuffer
  as_rgb8 : List Rgb → PixelBuffer

pub record DynamicImage : Type 0 where
  pub width : ℕ
  pub height : ℕ
  pub buffer : PixelBuffer

-- What is asked of the image crate. `read_image` decodes with the two sides as its limits.
pub record ImageReader (E : Type 0) : Type 0 where
  pub guess_format : List ℕ → Option ImageFormat
  pub into_dimensions : ImageFormat → List ℕ → Result E (ℕ × ℕ)
  pub read_image : ℕ → ℕ → ImageFormat → List ℕ → Result E DynamicImage

-- An open file: the size that its metadata tells, and the bytes that reading it gives.
pub record CoverFile : Type 0 where
  pub len : Result IoError ℕ
  pub content : Result IoError (List ℕ)

abbrev pub grey : ℕ → Rgb
grey v = record { red = v; green = v; blue = v }

-- `c >> 8` of each channel.
abbrev pub high_bytes : Rgb → Rgb
high_bytes p = record { red = p.red / 2 ^ 8; green = p.green / 2 ^ 8; blue = p.blue / 2 ^ 8 }

unfoldable pub pixels_of : PixelBuffer → List Rgb
pixels_of (luma8 b) = map (λ p. grey p) b
pixels_of (luma_a8 b) = map (λ (p : ℕ × ℕ). grey p.0) b
pixels_of (rgb8 b) = b
pixels_of (rgba8 b) = map (λ (p : Rgb × ℕ). p.0) b
pixels_of (luma16 b) = map (λ p. grey (min p 255)) b
pixels_of (luma_a16 b) = map (λ (p : ℕ × ℕ). grey (p.0 / 2 ^ 8)) b
pixels_of (rgb16 b) = map (λ p. high_bytes p) b
pixels_of (rgba16 b) = map (λ (p : Rgb × ℕ). high_bytes p.0) b
pixels_of (as_rgb8 b) = b

unfoldable pub to_rgb_like_pillow : DynamicImage → Option Rgb8
unfolding pixels_of new_raster
to_rgb_like_pillow img = new_raster img.width img.height (pixels_of img.buffer)

-- `find(|&s| scale >= s)`.
abbrev pub first_upto : ℕ → List ℕ → ℕ
first_upto scale [] = 1
first_upto scale (s ∷ rest) = if leb s scale then s else first_upto scale rest

unfoldable pub draft_scale : ℕ → ℕ → ℕ
draft_scale w h = first_upto (min (w / sample_side) (h / sample_side)) (8 ∷ 4 ∷ 2 ∷ [])

-- The draft of a JPEG.
unfoldable pub drafted : ImageFormat → ℕ → ℕ → Rgb8 → Option Rgb8
unfolding draft_scale box_reduce
drafted format w h rgb =
    if is_jpeg format && ltb 1 (draft_scale w h) then box_reduce rgb (draft_scale w h) else some rgb

abbrev pub as_ok : {E : Type 0} → Option Rgb8 → Option (Result E Rgb8)
as_ok o = o >>= λ rgb. some (ok rgb)

module _ {E : Type 0} (reader : ImageReader E) where
  -- What follows the decoding of the body.
  unfoldable pub convert :
      ImageFormat → ℕ → ℕ → Result E DynamicImage → Option (Result (DecodeError E) Rgb8)
  unfolding to_rgb_like_pillow drafted
  convert format w h (err e) = some (err (corrupt e))
  convert format w h (ok img) = as_ok (to_rgb_like_pillow img >>= drafted format w h)

  -- What follows the reading of the header.
  unfoldable pub within_pixels :
      ImageFormat → List ℕ → Result E (ℕ × ℕ) → Option (Result (DecodeError E) Rgb8)
  unfolding convert
  within_pixels format bytes (err e) = some (err (corrupt e))
  within_pixels format bytes (ok (w, h)) =
      if ltb max_pixels (w * h)
      then some (err too_many_pixels)
      else convert format w h (reader.read_image w h format bytes)

  -- What follows the guess.
  unfoldable pub of_format : List ℕ → Option ImageFormat → Option (Result (DecodeError E) Rgb8)
  unfolding within_pixels
  of_format bytes none = some (err unaccepted)
  of_format bytes (some format) =
      if not (is_accepted format)
      then some (err unaccepted)
      else within_pixels format bytes (reader.into_dimensions format bytes)

  unfoldable pub decode : List ℕ → Option (Result (DecodeError E) Rgb8)
  unfolding of_format
  decode bytes = of_format bytes (reader.guess_format bytes)

  -- The numbers of `f32` and of `f64` that the resampler computes with.
  module _ {S F : Type 0} ⦃s : Float S⦄ ⦃r : Float F⦄ (widen : S → F) where
    abbrev pub then_resize : Result (DecodeError E) Rgb8 → Option (Result (DecodeError E) Rgb8)
    then_resize (ok decoded) = as_ok (resize_to widen decoded sample_side sample_side)
    then_resize (err e) = some (err e)

    unfoldable pub sample_bytes : List ℕ → Option (Result (DecodeError E) Rgb8)
    unfolding decode resize_to
    sample_bytes bytes = decode bytes >>= then_resize

    abbrev pub after_read : ℕ → Result IoError (List ℕ) → Option (Result (DecodeError E) Rgb8)
    after_read max_bytes (err e) = some (err (io e))
    after_read max_bytes (ok content) =
        let bytes = take (max_bytes + 1) content in
        if ltb max_bytes (length bytes) then some (err too_large) else sample_bytes bytes

    abbrev pub after_stat : ℕ → CoverFile → Result IoError ℕ → Option (Result (DecodeError E) Rgb8)
    after_stat max_bytes file (err e) = some (err (io e))
    after_stat max_bytes file (ok len) =
        if ltb max_bytes len then some (err too_large) else after_read max_bytes file.content

    -- `sample_file`, of what `File::open` gave.
    unfoldable pub sample_file : Result IoError CoverFile → ℕ → Option (Result (DecodeError E) Rgb8)
    unfolding sample_bytes
    sample_file (err e) max_bytes = some (err (io e))
    sample_file (ok file) max_bytes = after_stat max_bytes file file.len
