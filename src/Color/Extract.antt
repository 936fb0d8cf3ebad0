-- ===== src/Color/Extract.antt =====
-- src/color/mod.rs: extraction, from the pixels of a decoded sample to three colours. The
-- sample is what Color/Decode.antt gives; none stands for a file that does not decode.
pub mod Counts
pub mod Laws
use mpris_chroma.Prelude.{
  ℕ, zero, suc, ◌+◌, ◌-◌, ◌*◌, ◌/◌, ◌%◌, ◌^◌, ◌≤◌, ◌<◌, min, max, bit_and, bit_xor, ◌≡◌, refl, sym,
  ap, subst, ◌∙◌, ◌≢◌, ◌↔◌, ◌⊎◌, inl, inr, Bool, true, false, not, ◌&&◌, ◌||◌, Option, none, some,
  List, [], ◌∷◌, ◌++◌, map, append-nil, append_assoc, map-append, arith, ltb, leb, ◌==◌,
  if◌then◌else◌, ltb→lt, lt→ltb, leb→le, le→leb, ==_iff, Bool-cases, Option-cases, List-cases,
  is_some, if_cases, if_else, length, take, drop, replicate, concat, any, all, keep, All, Any,
  length-append, length-take, take-append-drop, All-append, All-map, All-mono, Any-mono, all-All,
  any-Any, Any-any,
}
use mpris_chroma.Prelude.Text.{Str, codes}
use mpris_chroma.State.{Mode}
use mpris_chroma.Worker.{Colors}
use mpris_chroma.Quantize.{Rgb, get_elem?}
use mpris_chroma.Quantize.Cut.{cons?}
use mpris_chroma.Quantize.Paint.{quantize, colors_of}
use mpris_chroma.Color.{Float, ◌>>=◌}
use mpris_chroma.Color.Oklab.{Triple, unit_channels, three_values}
use mpris_chroma.Color.Pick.{HistEntry, Picks, rgb_to_hsv, select}
use mpris_chroma.Color.Tone.{Toned, toned_hex, tone}
use mpris_chroma.Color.Tone.Separate.{separate}

-- `DEFAULT_ACCENT`.
abbrev pub default_accent : Str
default_accent = codes "#a48ec7"

-- `QUANTIZE_COLORS`.
abbrev pub quantize_colors : ℕ
quantize_colors = 16

module _ {F : Type 0} ⦃r : Float F⦄ where
  unfoldable pub hist_color : Rgb → Triple F
  unfolding rgb_to_hsv
  hist_color c = rgb_to_hsv (unit_channels (c.red, c.green, c.blue))

  -- `(count, hsv)` of each counted index.
  unfoldable pub hist_entries : List Rgb → List (ℕ × ℕ) → Option (List (HistEntry F))
  unfolding get_elem? hist_color
  hist_entries palette [] = some []
  hist_entries palette ((count, index) ∷ rest) =
      cons? (get_elem? index palette >>= λ c. some (count, hist_color c))
        (hist_entries palette rest)

  unfoldable pub histogram_of_sample : List Rgb → Option (List (HistEntry F))
  unfolding quantize colors_of hist_entries
  histogram_of_sample pixels =
      quantize pixels quantize_colors >>= λ q. (colors_of q >>= hist_entries q.palette)

  -- `histogram`, of what decoding gave.
  unfoldable pub histogram_of : Option (List Rgb) → Option (List (HistEntry F))
  unfolding histogram_of_sample
  histogram_of (some pixels) = histogram_of_sample pixels
  histogram_of none = some []

  unfoldable pub select_or_none : List (HistEntry F) → Option (Picks F)
  unfolding select
  select_or_none [] = some ([], 0)
  select_or_none (e ∷ hist) = select (e ∷ hist)

  unfoldable pub select_palette : Option (List Rgb) → Option (Picks F)
  unfolding histogram_of select_or_none
  select_palette sample = histogram_of sample >>= select_or_none

  unfoldable pub hex_at : List (Toned F) → ℕ → Option Str
  unfolding get_elem? toned_hex
  hex_at slots i = get_elem? i slots >>= λ t. some (toned_hex t)

  unfoldable pub render_palette : Picks F → Mode → Option Colors
  unfolding tone separate hex_at
  render_palette ([], n) mode = some (default_accent, default_accent, default_accent)
  render_palette (p ∷ picks, n) mode = tone (p ∷ picks) mode >>= λ toned.
      (separate toned mode n >>= λ s. three_values (hex_at s.0 0) (hex_at s.0 1) (hex_at s.0 2))

-- `extract_colors`, over the numbers that it computes with.
unfoldable pub extract_colors :
    (F : Type 0) ⦃r : Float F⦄ → Option (List Rgb) → Mode → Option Colors
unfolding select_palette render_palette
extract_colors F sample mode = select_palette {F = F} sample >>= λ picks. render_palette picks mode
