-- ===== src/Color/Oklab.antt =====
-- src/color/oklab.rs: the Oklab colour space and the texts of colours.
pub mod Hex
use mpris_chroma.Prelude.{
  ℕ, zero, suc, ◌+◌, ◌-◌, ◌*◌, ◌/◌, ◌%◌, ◌^◌, ◌≤◌, ◌<◌, min, max, bit_and, bit_xor, ◌≡◌, refl, sym,
  ap, subst, ◌∙◌, ◌≢◌, ◌↔◌, ◌⊎◌, inl, inr, Bool, true, false, not, ◌&&◌, ◌||◌, Option, none, some,
  List, [], ◌∷◌, ◌++◌, map, append-nil, append_assoc, map-append, arith, ltb, leb, ◌==◌,
  if◌then◌else◌, ltb→lt, lt→ltb, leb→le, le→leb, ==_iff, Bool-cases, Option-cases, List-cases,
  is_some, if_cases, if_else, length, take, drop, replicate, concat, any, all, keep, All, Any,
  length-append, length-take, take-append-drop, All-append, All-map, All-mono, Any-mono, all-All,
  any-Any, Any-any,
}
use mpris_chroma.Prelude.Text.{Str}
use mpris_chroma.Color.{Float, ◌⊕◌, ◌⊖◌, ◌⊗◌, ◌⊘◌, to_u8, ◌>>=◌}

-- Three channels: linear or gamma-encoded light, Oklab, or OkLCh with the hue in radians.
abbrev pub Triple : Type 0 → Type 0
Triple F = F × F × F

-- A hexadecimal digit of `{:x}`, and two of them.
unfoldable pub hex_digit : ℕ → ℕ
hex_digit n = if ltb n 10 then b'0' + n else b'a' + (n - 10)

-- `format!("#{:02x}{:02x}{:02x}", ..)`.
unfoldable pub hex_text : ℕ → ℕ → ℕ → Str
unfolding hex_digit
hex_text a b c =
    b'#'
    ∷ hex_digit (a / 16)
    ∷ hex_digit (a % 16)
    ∷ hex_digit (b / 16)
    ∷ hex_digit (b % 16)
    ∷ hex_digit (c / 16)
    ∷ hex_digit (c % 16)
    ∷ []

-- A digit's value in base 16.
unfoldable pub digit_value : ℕ → Option ℕ
digit_value c =
    if leb b'0' c && leb c b'9'
    then some (c - b'0')
    else if leb b'a' c && leb c b'f'
    then some (c - b'a' + 10)
    else if leb b'A' c && leb c b'F'
    then some (c - b'A' + 10)
    else none

abbrev pub two_digits : Option ℕ → Option ℕ → Option ℕ
two_digits (some a) (some b) = some (a * 16 + b)
two_digits _ _ = none

-- `u8::from_str_radix(.., 16)` of two characters: a plus sign may stand first.
unfoldable pub radix_16 : ℕ → ℕ → Option ℕ
unfolding digit_value
radix_16 a b = if a == b'+' then digit_value b else two_digits (digit_value a) (digit_value b)

abbrev pub three_values : {A : Type 0} → Option A → Option A → Option A → Option (A × A × A)
three_values (some a) (some b) (some c) = some (a, b, c)
three_values _ _ _ = none

-- `hex_channels`; none where it panics. A text of seven bytes with a longer character panics at a
-- slice or a digit, and so does here one of seven characters.
unfoldable pub hex_channels : Str → Option (ℕ × ℕ × ℕ)
unfolding radix_16
hex_channels (h ∷ a ∷ b ∷ c ∷ d ∷ e ∷ f ∷ []) =
    if h == b'#' then three_values (radix_16 a b) (radix_16 c d) (radix_16 e f) else none
hex_channels _ = none

module _ {F : Type 0} ⦃r : Float F⦄ where
  unfoldable pub to_linear : F → F
  to_linear c =
      if r.at_most c (r.decimal 4045 5)
      then c ⊘ r.decimal 1292 2
      else r.powf ((c ⊕ r.decimal 55 3) ⊘ r.decimal 1055 3) (r.decimal 24 1)

  unfoldable pub to_gamma : F → F
  to_gamma c =
      if r.at_most c (r.decimal 31308 7)
      then r.decimal 1292 2 ⊗ c
      else r.decimal 1055 3 ⊗ r.powf c (r.decimal 1 0 ⊘ r.decimal 24 1) ⊖ r.decimal 55 3

  -- `a * x + b * y + c * z`.
  abbrev pub mix : F → F → F → F → F → F → F
  mix a x b y c z = a ⊗ x ⊕ b ⊗ y ⊕ c ⊗ z

  unfoldable pub srgb_to_oklab : Triple F → Triple F
  unfolding to_linear
  srgb_to_oklab (r0, g0, b0) =
      let red = to_linear r0 in
      let green = to_linear g0 in
      let blue = to_linear b0 in
      let l = r.cbrt (
        mix (r.decimal 4122214708 10) red (r.decimal 5363325363 10) green (r.decimal 514459929 10)
          blue) in
      let m = r.cbrt (
        mix (r.decimal 2119034982 10) red (r.decimal 6806995451 10) green (r.decimal 1073969566 10)
          blue) in
      let s = r.cbrt (
        mix (r.decimal 883024619 10) red (r.decimal 2817188376 10) green (r.decimal 6299787005 10)
          blue) in
      (
        r.decimal 2104542553 10 ⊗ l ⊕ r.decimal 7936177850 10 ⊗ m ⊖ r.decimal 40720468 10 ⊗ s,
        r.decimal 19779984951 10 ⊗ l ⊖ r.decimal 24285922050 10 ⊗ m ⊕ r.decimal 4505937099 10 ⊗ s,
        r.decimal 259040371 10 ⊗ l ⊕ r.decimal 7827717662 10 ⊗ m ⊖ r.decimal 8086757660 10 ⊗ s,
      )

  unfoldable pub to_linear_rgb : Triple F → Triple F
  to_linear_rgb (l0, a, b) =
      let three = r.decimal 30 1 in
      let l = r.powf (l0 ⊕ r.decimal 3963377774 10 ⊗ a ⊕ r.decimal 2158037573 10 ⊗ b) three in
      let m = r.powf (l0 ⊖ r.decimal 1055613458 10 ⊗ a ⊖ r.decimal 638541728 10 ⊗ b) three in
      let s = r.powf (l0 ⊖ r.decimal 894841775 10 ⊗ a ⊖ r.decimal 12914855480 10 ⊗ b) three in
      (
        r.decimal 40767416621 10 ⊗ l ⊖ r.decimal 33077115913 10 ⊗ m ⊕ r.decimal 2309699292 10 ⊗ s,
        r.negative (r.decimal 12684380046 10) ⊗ l
            ⊕ r.decimal 26097574011 10 ⊗ m
            ⊖ r.decimal 3413193965 10 ⊗ s,
        r.negative (r.decimal 41960863 10) ⊗ l
            ⊖ r.decimal 7034186147 10 ⊗ m
            ⊕ r.decimal 17076147010 10 ⊗ s,
      )

  -- `(-1e-7..=1.0 + 1e-7).contains(&c)`.
  abbrev pub in_range : F → Bool
  in_range c =
      r.at_most (r.negative (r.decimal 1 7)) c && r.at_most c (r.decimal 10 1 ⊕ r.decimal 1 7)

  unfoldable pub in_gamut : Triple F → Bool
  unfolding to_linear_rgb
  in_gamut lab =
      let (red, green, blue) = to_linear_rgb lab in
      in_range red && (in_range green && in_range blue)

  -- `c.clamp(0.0, 1.0)`.
  abbrev pub clamp_unit : F → F
  clamp_unit c =
      if r.less c (r.decimal 0 1)
      then r.decimal 0 1
      else if r.less (r.decimal 10 1) c
      then r.decimal 10 1
      else c

  unfoldable pub encode : F → F
  unfolding to_gamma
  encode c = clamp_unit (to_gamma (clamp_unit c))

  unfoldable pub oklab_to_srgb : Triple F → Triple F
  unfolding to_linear_rgb encode
  oklab_to_srgb lab =
      let (red, green, blue) = to_linear_rgb lab in (encode red, encode green, encode blue)

  unfoldable pub to_lch : Triple F → Triple F
  to_lch (l, a, b) = (l, r.hypot a b, r.atan2 b a)

  unfoldable pub from_lch : F → F → F → Triple F
  from_lch l c h = (l, c ⊗ r.cos h, c ⊗ r.sin h)

  -- The bisection of `max_chroma`, for a number of steps.
  unfoldable pub bisect : ℕ → F → F → F → F → F
  unfolding in_gamut from_lch
  bisect zero l h lo hi = lo
  bisect (suc n) l h lo hi =
      let mid = (lo ⊕ hi) ⊘ r.decimal 20 1 in
      let inside = in_gamut (from_lch l mid h) in
      bisect n l h (if inside then mid else lo) (if inside then hi else mid)

  unfoldable pub max_chroma : F → F → F
  unfolding bisect
  max_chroma l h = bisect 24 l h (r.decimal 0 1) (r.decimal 5 1)

  unfoldable pub delta_e : Triple F → Triple F → F
  delta_e (p0, p1, p2) (q0, q1, q2) =
      let d0 = p0 ⊖ q0 in
      let d1 = p1 ⊖ q1 in let d2 = p2 ⊖ q2 in r.sqrt (d0 ⊗ d0 ⊕ d1 ⊗ d1 ⊕ d2 ⊗ d2)

  abbrev pub unit_channels : ℕ × ℕ × ℕ → Triple F
  unit_channels (a, b, c) =
      let scale = r.decimal 2550 1 in (r.of_nat a ⊘ scale, r.of_nat b ⊘ scale, r.of_nat c ⊘ scale)

  unfoldable pub hex_to_lch : Str → Option (Triple F)
  unfolding hex_channels srgb_to_oklab to_lch
  hex_to_lch value = hex_channels value >>= λ c. some (to_lch (srgb_to_oklab (unit_channels c)))

  unfoldable pub channel_to_u8 : F → ℕ
  channel_to_u8 v = to_u8 (r.round_ties_even (v ⊗ r.decimal 2550 1))

  unfoldable pub lch_to_hex : F → F → F → Str
  unfolding oklab_to_srgb from_lch channel_to_u8 hex_text
  lch_to_hex l c h =
      let (red, green, blue) = oklab_to_srgb (from_lch l c h) in
      hex_text (channel_to_u8 red) (channel_to_u8 green) (channel_to_u8 blue)
