-- ===== src/Color/Decode/Guards.antt =====
-- src/color/decode.rs: what stands between a cover's bytes and its raster.
use native.Mathlib.Nat.{mul-le-mul_left, mul-le-mul_right}
use mpris_chroma.Prelude.{
  ℕ, ◌*◌, ◌/◌, ◌^◌, ◌≤◌, ◌<◌, min, ◌≡◌, refl, ◌∙◌, ◌⊎◌, inl, inr, true, false, not, ◌&&◌, Option,
  none, some, List, [], ◌∷◌, map, arith, ltb, ◌==◌, if◌then◌else◌, Bool-cases, if_cases, length,
  All, All-mono,
}
use mpris_chroma.Prelude.Result.{Result, ok, err}
use mpris_chroma.Quantize.{Rgb}
use mpris_chroma.Color.{◌>>=◌}
use mpris_chroma.Color.Raster.{Rgb8, new_raster, div_ceil}
use mpris_chroma.Color.Raster.Places.{IsRaster, length-map}
use mpris_chroma.Color.Raster.Blocks.{IsWithin, FitsU32, box_reduce_lem}
use mpris_chroma.Color.Decode.{
  max_pixels, ImageFormat, is_accepted, is_jpeg, DecodeError, io, too_large, unaccepted,
  too_many_pixels, corrupt, PixelBuffer, luma8, luma_a8, rgb8, rgba8, luma16, luma_a16, rgb16,
  rgba16, as_rgb8, DynamicImage, ImageReader, grey, high_bytes, pixels_of, to_rgb_like_pillow,
  draft_scale, drafted, convert, within_pixels, of_format, decode,
}

-- How many pixels a buffer holds, and that its channels fit their types.
abbrev pub count_of : PixelBuffer → ℕ
count_of (luma8 b) = length b
count_of (luma_a8 b) = length b
count_of (rgb8 b) = length b
count_of (rgba8 b) = length b
count_of (luma16 b) = length b
count_of (luma_a16 b) = length b
count_of (rgb16 b) = length b
count_of (rgba16 b) = length b
count_of (as_rgb8 b) = length b

abbrev pub AreBelow : ℕ → Rgb → Type 0
AreBelow k p = (p.red < k) × (p.green < k) × (p.blue < k)

abbrev pub IsTyped : PixelBuffer → Type 0
IsTyped (luma8 b) = All (λ p. p < 2 ^ 8) b
IsTyped (luma_a8 b) = All (λ (p : ℕ × ℕ). p.0 < 2 ^ 8) b
IsTyped (rgb8 b) = All (AreBelow (2 ^ 8)) b
IsTyped (rgba8 b) = All (λ (p : Rgb × ℕ). AreBelow (2 ^ 8) p.0) b
IsTyped (luma16 b) = All (λ p. p < 2 ^ 16) b
IsTyped (luma_a16 b) = All (λ (p : ℕ × ℕ). p.0 < 2 ^ 16) b
IsTyped (rgb16 b) = All (AreBelow (2 ^ 16)) b
IsTyped (rgba16 b) = All (λ (p : Rgb × ℕ). AreBelow (2 ^ 16) p.0) b
IsTyped (as_rgb8 b) = All (AreBelow (2 ^ 8)) b

length-pixels_of : (b : PixelBuffer) → length (pixels_of b) ≡ count_of b
unfolding pixels_of
length-pixels_of (luma8 b) = length-map _ b
length-pixels_of (luma_a8 b) = length-map _ b
length-pixels_of (rgb8 b) = refl
length-pixels_of (rgba8 b) = length-map _ b
length-pixels_of (luma16 b) = length-map _ b
length-pixels_of (luma_a16 b) = length-map _ b
length-pixels_of (rgb16 b) = length-map _ b
length-pixels_of (rgba16 b) = length-map _ b
length-pixels_of (as_rgb8 b) = refl

bytes_of :
    {A : Type 0} (P : A → Type 0) (f : A → Rgb) (xs : List A)
    → ((x : A) → P x → IsWithin 0 255 (f x))
    → All P xs
    → All (IsWithin 0 255) (map f xs)
bytes_of P f [] g a = tt
bytes_of P f (x ∷ xs) g a = (g x a.0, bytes_of P f xs g a.1)

byte : (v : ℕ) → v < 2 ^ 8 → 0 ≤ v × v ≤ 255
byte v h = (omega arith, omega arith)

bytes_below : (p : Rgb) → AreBelow (2 ^ 8) p → IsWithin 0 255 p
bytes_below p (a, b, c) = (byte p.red a, byte p.green b, byte p.blue c)

grey-IsWithin : (v : ℕ) → v < 2 ^ 8 → IsWithin 0 255 (grey v)
grey-IsWithin v h = (byte v h, byte v h, byte v h)

high_bytes-IsWithin : (p : Rgb) → AreBelow (2 ^ 16) p → IsWithin 0 255 (high_bytes p)
high_bytes-IsWithin p (a, b, c) = bytes_below (high_bytes p) (omega arith, omega arith, omega arith)

pixels_of-IsWithin : (b : PixelBuffer) → IsTyped b → All (IsWithin 0 255) (pixels_of b)
unfolding pixels_of
pixels_of-IsWithin (luma8 b) a = bytes_of _ _ b (λ p h. grey-IsWithin p h) a
pixels_of-IsWithin (luma_a8 b) a = bytes_of _ _ b (λ p h. grey-IsWithin p.0 h) a
pixels_of-IsWithin (rgb8 b) a = All-mono _ _ b bytes_below a
pixels_of-IsWithin (rgba8 b) a = bytes_of _ _ b (λ p h. bytes_below p.0 h) a
pixels_of-IsWithin (luma16 b) a = bytes_of _ _ b (λ p h. grey-IsWithin (min p 255) (omega arith)) a
pixels_of-IsWithin (luma_a16 b) a =
    bytes_of _ _ b (λ p h. grey-IsWithin (p.0 / 2 ^ 8) (omega (arith, h))) a
pixels_of-IsWithin (rgb16 b) a = bytes_of _ _ b high_bytes-IsWithin a
pixels_of-IsWithin (rgba16 b) a = bytes_of _ _ b (λ p h. high_bytes-IsWithin p.0 h) a
pixels_of-IsWithin (as_rgb8 b) a = All-mono _ _ b bytes_below a

draft_scale-positive : (w h : ℕ) → 0 < draft_scale w h
unfolding draft_scale
draft_scale-positive w h = ground arith

-- A side of a raster after the draft.
abbrev pub drafted_side : ImageFormat → ℕ → ℕ → ℕ → ℕ
drafted_side format w h side =
    if is_jpeg format && ltb 1 (draft_scale w h) then div_ceil side (draft_scale w h) else side

-- An image that keeps to the two sides that its decoder was given as limits, whose pixels are as many
-- as its size says, and whose channels fit their types.
pub record IsSound (w h : ℕ) (img : DynamicImage) : Type 0 where
  pub width_limit : img.width ≤ w
  pub height_limit : img.height ≤ h
  pub count : count_of img.buffer ≡ img.width * img.height
  pub typed : IsTyped img.buffer

-- What a decoded raster owes to its image.
pub record IsCover (format : ImageFormat) (w h : ℕ) (img : DynamicImage) (out : Rgb8) : Type 0 where
  pub wide : out.width ≡ drafted_side format w h img.width
  pub tall : out.height ≡ drafted_side format w h img.height
  pub size : IsRaster out
  pub bytes : All (IsWithin 0 255) out.pixels

draft_scale-bounds : (w h : ℕ) → 1 < draft_scale w h → (draft_scale w h ≤ 8) × (1 ≤ w) × (1 ≤ h)
unfolding draft_scale
draft_scale-bounds w h several = ground arith

drafts-FitsU32 :
    (format : ImageFormat) (w h : ℕ) (img : DynamicImage) (pixels : List Rgb)
    → w * h ≤ max_pixels
    → IsSound w h img
    → (is_jpeg format && ltb 1 (draft_scale w h)) ≡ true
    → FitsU32 (record { width = img.width; height = img.height; pixels = pixels }) (draft_scale w h)
drafts-FitsU32 format w h img pixels few sound t =
    let several : 1 < draft_scale w h = ground arith in
    let (scale, some_width, some_height) = draft_scale-bounds w h several in
    let wide : w ≤ w * h = omega (arith, mul-le-mul_left {m = 1} {n = h} w some_height) in
    let tall : h ≤ w * h = omega (arith, mul-le-mul_right {m = 1} {n = w} h some_width) in
    let area = mul-le-mul_right {m = img.width} {n = w} img.height sound.width_limit in
    let area' = mul-le-mul_left {m = img.height} {n = h} w sound.height_limit in
    record {
      side = omega (arith, scale);
      wide = omega (arith, scale, wide, sound.width_limit, few);
      tall = omega (arith, scale, tall, sound.height_limit, few);
      area = omega (arith, area, area', few);
    }

convert_lem :
    (format : ImageFormat) (w h : ℕ) (img : DynamicImage)
    → w * h ≤ max_pixels
    → IsSound w h img
    → (out : Rgb8) × ((to_rgb_like_pillow img >>= drafted format w h) ≡ some out)
      × IsCover format w h img out
unfolding to_rgb_like_pillow drafted new_raster
convert_lem format w h img few sound =
    let rgb : Rgb8 = record {
      width = img.width;
      height = img.height;
      pixels = pixels_of img.buffer;
    } in
    let size : length (pixels_of img.buffer) ≡ img.width * img.height =
      length-pixels_of img.buffer ∙ sound.count in
    let same : (length (pixels_of img.buffer) == img.width * img.height) ≡ true = ground arith in
    let bytes = pixels_of-IsWithin img.buffer sound.typed in
    elim (Bool-cases (is_jpeg format && ltb 1 (draft_scale w h))) [
      | inl t ↦
          let (out, e, wide, tall, s, b) =
            box_reduce_lem 0 255 rgb (draft_scale w h) (draft_scale-positive w h) (omega arith)
              (drafts-FitsU32 format w h img rgb.pixels few sound t) size bytes in
          (
            out,
            rw (same, t) e,
            record { wide = wide ∙ rw t refl; tall = tall ∙ rw t refl; size = s; bytes = b },
          )
      | inr f ↦ (
        rgb,
        rw (same, f) refl,
        record { wide = rw f refl; tall = rw f refl; size = size; bytes = bytes },
      )
    ]

module _ {E : Type 0} (reader : ImageReader E) where
  -- What each result of `decode` tells of the bytes.
  pub Explains : List ℕ → Result (DecodeError E) Rgb8 → Type 0
  Explains bytes (ok out) =
      (format : ImageFormat) × (w : ℕ) × (h : ℕ) × (img : DynamicImage) × (reader.guess_format bytes
        ≡ some format)
      × (is_accepted format ≡ true)
      × (reader.into_dimensions format bytes ≡ ok (w, h))
      × (w * h ≤ max_pixels)
      × (reader.read_image w h format bytes ≡ ok img)
      × IsCover format w h img out
  Explains bytes (err unaccepted) =
      (reader.guess_format bytes ≡ none)
      ⊎ ((format : ImageFormat) × (reader.guess_format bytes ≡ some format)
          × (is_accepted format ≡ false))
  Explains bytes (err too_many_pixels) =
      (format : ImageFormat) × (w : ℕ) × (h : ℕ) × (reader.guess_format bytes ≡ some format)
      × (is_accepted format ≡ true)
      × (reader.into_dimensions format bytes ≡ ok (w, h))
      × (max_pixels < w * h)
  Explains bytes (err (corrupt e)) =
      (format : ImageFormat) × (reader.guess_format bytes ≡ some format)
      × (is_accepted format ≡ true)
      × ((reader.into_dimensions format bytes ≡ err e)
          ⊎ ((w : ℕ) × (h : ℕ) × (reader.into_dimensions format bytes ≡ ok (w, h))
              × (w * h ≤ max_pixels)
              × (reader.read_image w h format bytes ≡ err e)))
  Explains bytes (err too_large) = false ≡ true
  Explains bytes (err (io e)) = false ≡ true

  Explained : List ℕ → Option (Result (DecodeError E) Rgb8) → Type 0
  Explained bytes got =
      (result : Result (DecodeError E) Rgb8) × (got ≡ some result) × Explains bytes result

  module _
      (sound : (w h : ℕ) (format : ImageFormat) (bytes : List ℕ) (img : DynamicImage)
        → reader.read_image w h format bytes ≡ ok img
        → IsSound w h img)
      (bytes : List ℕ) where
    convert-Explained :
        (format : ImageFormat) (w h : ℕ) (got : Result E DynamicImage)
        → reader.guess_format bytes ≡ some format
        → is_accepted format ≡ true
        → reader.into_dimensions format bytes ≡ ok (w, h)
        → w * h ≤ max_pixels
        → reader.read_image w h format bytes ≡ got
        → Explained bytes (convert reader format w h got)
    unfolding convert Explains Explained
    convert-Explained format w h (err e) g a d few r =
        (err (corrupt e), refl, (format, g, a, inr (w, h, d, few, r)))
    convert-Explained format w h (ok img) g a d few r =
        let (out, f, cover) = convert_lem format w h img few (sound w h format bytes img r) in
        (ok out, rw f refl, (format, w, h, img, g, a, d, few, r, cover))

    within_pixels-Explained :
        (format : ImageFormat) (got : Result E (ℕ × ℕ))
        → reader.guess_format bytes ≡ some format
        → is_accepted format ≡ true
        → reader.into_dimensions format bytes ≡ got
        → Explained bytes (within_pixels reader format bytes got)
    unfolding within_pixels Explains Explained
    within_pixels-Explained format (err e) g a d = (err (corrupt e), refl, (format, g, a, inl d))
    within_pixels-Explained format (ok (w, h)) g a d =
        if_cases (Explained bytes) (ltb max_pixels (w * h)) (some (err too_many_pixels))
          (convert reader format w h (reader.read_image w h format bytes))
          (λ t. (err too_many_pixels, refl, (format, w, h, g, a, d, ground arith)))
          (λ f. convert-Explained format w h _ g a d (ground arith) refl)

    of_format-Explained :
        (got : Option ImageFormat)
        → reader.guess_format bytes ≡ got
        → Explained bytes (of_format reader bytes got)
    unfolding of_format Explains Explained
    of_format-Explained none g = (err unaccepted, refl, inl g)
    of_format-Explained (some format) g =
        if_cases (Explained bytes) (not (is_accepted format)) (some (err unaccepted))
          (within_pixels reader format bytes (reader.into_dimensions format bytes))
          (λ t. (err unaccepted, refl, inr (format, g, ground arith)))
          (λ f. within_pixels-Explained format _ g (ground arith) refl)

    -- Where each image that the reader decodes keeps to the two sides that it was given as limits, has
    -- as many pixels as its size says and channels that fit their types, decoding does not panic, and
    -- its result tells why it came: a raster only of an accepted format whose header keeps to the
    -- pixel budget, with the sides of the image after the draft, the number of pixels that they say,
    -- and bytes for channels; and each error only where its guard failed or the reader gave it, never
    -- one of the file's.
    pub decode_lem :
        (result : Result (DecodeError E) Rgb8) × (decode reader bytes ≡ some result)
        × Explains bytes result
    unfolding decode Explained
    decode_lem = of_format-Explained (reader.guess_format bytes) refl
