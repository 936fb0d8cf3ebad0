-- ===== src/Color/Oklab/Hex.antt =====
-- src/color/oklab.rs: the texts of colours, read back and as wlchroma-ctl takes them.
use mpris_chroma.Prelude.{ℕ, ◌+◌, ◌*◌, ◌/◌, ◌%◌, ◌<◌, ◌≡◌, refl, ap, true, false, some, arith, ◌==◌}
use mpris_chroma.Apply.{is_ascii_hexdigit, valid_hex}
use mpris_chroma.Color.{Float}
use mpris_chroma.Color.Oklab.{
  hex_digit, hex_text, digit_value, radix_16, hex_channels, channel_to_u8, lch_to_hex,
  oklab_to_srgb, from_lch,
}

digit_value-hex_digit : (n : ℕ) → n < 16 → digit_value (hex_digit n) ≡ some n
unfolding digit_value hex_digit
digit_value-hex_digit n h = ground arith

hex_digit-ne_plus : (n : ℕ) → (hex_digit n == b'+') ≡ false
unfolding hex_digit
hex_digit-ne_plus n = ground arith

radix_16-hex_digit : (n : ℕ) → n < 256 → radix_16 (hex_digit (n / 16)) (hex_digit (n % 16)) ≡ some n
unfolding radix_16
radix_16-hex_digit n h =
    let whole : n / 16 * 16 + n % 16 ≡ n = omega arith in
    rw
      (
        hex_digit-ne_plus,
        digit_value-hex_digit (n / 16) (omega arith),
        digit_value-hex_digit (n % 16) (omega arith),
      )
      (ap some whole)

-- The text that is printed for three channels of 8 bits is read back as these channels.
pub hex_channels-hex_text :
    (a b c : ℕ) → a < 256 → b < 256 → c < 256 → hex_channels (hex_text a b c) ≡ some (a, b, c)
unfolding hex_channels hex_text
hex_channels-hex_text a b c ha hb hc =
    rw (radix_16-hex_digit a ha, radix_16-hex_digit b hb, radix_16-hex_digit c hc) refl

hex_digit-IsAscii : (n : ℕ) → n < 16 → is_ascii_hexdigit (hex_digit n) ≡ true
unfolding hex_digit
hex_digit-IsAscii n h = ground arith

pub valid_hex-hex_text :
    (a b c : ℕ) → a < 256 → b < 256 → c < 256 → valid_hex (hex_text a b c) ≡ true
unfolding valid_hex hex_text
valid_hex-hex_text a b c ha hb hc =
    rw
      (
        hex_digit-IsAscii (a / 16) (omega arith),
        hex_digit-IsAscii (a % 16) (omega arith),
        hex_digit-IsAscii (b / 16) (omega arith),
        hex_digit-IsAscii (b % 16) (omega arith),
        hex_digit-IsAscii (c / 16) (omega arith),
        hex_digit-IsAscii (c % 16) (omega arith),
      )
      refl

channel_to_u8-lt : {F : Type 0} ⦃r : Float F⦄ (v : F) → channel_to_u8 v < 256
unfolding channel_to_u8
channel_to_u8-lt v = omega arith

-- Whatever the arithmetic gives, the text of a colour is one that wlchroma-ctl takes.
pub valid_hex-lch_to_hex :
    {F : Type 0} ⦃r : Float F⦄ (l c h : F) → valid_hex (lch_to_hex l c h) ≡ true
unfolding lch_to_hex
valid_hex-lch_to_hex l c h =
    let srgb = oklab_to_srgb (from_lch l c h) in
    valid_hex-hex_text (channel_to_u8 srgb.0) (channel_to_u8 srgb.1) (channel_to_u8 srgb.2)
      (channel_to_u8-lt srgb.0) (channel_to_u8-lt srgb.1) (channel_to_u8-lt srgb.2)
