-- ===== src/Color/Extract/Laws.antt =====
-- src/color/mod.rs, `extract_colors`: no step panics, and the colours are texts that wlchroma-ctl takes.
use mpris_chroma.Prelude.{
  ℕ, ◌-◌, ◌≤◌, ◌<◌, ◌≡◌, refl, ap, ◌∙◌, ◌⊎◌, inl, inr, true, false, Option, none, some, List, [],
  ◌∷◌, arith, ltb, Bool-cases, length, replicate, All, length-append,
}
use mpris_chroma.Prelude.Text.{Str}
use mpris_chroma.State.{Mode}
use mpris_chroma.Apply.{valid_hex}
use mpris_chroma.Worker.{Colors}
use mpris_chroma.Quantize.{Rgb, IsRgb, get_elem?-defined}
use mpris_chroma.Quantize.Paint.{Quantized, colors_of}
use mpris_chroma.Quantize.Paint.Whole.{quantize_lem}
use mpris_chroma.Color.{Float, ◌>>=◌}
use mpris_chroma.Color.Oklab.{three_values}
use mpris_chroma.Color.Oklab.Hex.{valid_hex-lch_to_hex}
use mpris_chroma.Color.Pick.{HistEntry, Picks}
use mpris_chroma.Color.Pick.Choice.{select_lem}
use mpris_chroma.Color.Tone.{
  SeparationResult, duplicates, anchor_of, Toned, toned_hex, chroma_of, tone_around,
}
use mpris_chroma.Color.Tone.Separate.{separate}
use mpris_chroma.Color.Tone.Laws.{separate_lem}
use mpris_chroma.Color.Extract.Counts.{
  length-map, length-replicate, nearest-lt, colors_of-defined, histogram-le,
}
use mpris_chroma.Color.Extract.{
  default_accent, quantize_colors, hist_color, hist_entries, histogram_of_sample, histogram_of,
  select_or_none, select_palette, hex_at, render_palette, extract_colors,
}

-- A sample that decoding gives: 8-bit colours, no more than the quantizer takes.
abbrev pub IsSample : Option (List Rgb) → Type 0
IsSample none = Unit {0}
IsSample (some pixels) = All IsRgb pixels × (length pixels ≤ 65536)

abbrev pub AreValid : Colors → Type 0
AreValid (a, b, c) = (valid_hex a ≡ true) × (valid_hex b ≡ true) × (valid_hex c ≡ true)

module _ {F : Type 0} ⦃r : Float F⦄ where
  hist_entries-defined :
      (palette : List Rgb) (cs : List (ℕ × ℕ))
      → All (λ (e : ℕ × ℕ). e.1 < length palette) cs
      → (hist : List (HistEntry F)) × (hist_entries palette cs ≡ some hist)
  unfolding hist_entries
  hist_entries-defined palette [] a = ([], refl)
  hist_entries-defined palette ((count, index) ∷ cs) a =
      let (c, e) = get_elem?-defined index palette a.0 in
      let (rest, f) = hist_entries-defined palette cs a.1 in
      ((count, hist_color c) ∷ rest, rw (e, f) refl)

  counted_entries :
      (q : Quantized)
      → All (λ i. i < length q.palette) q.indices
      → (hist : List (HistEntry F)) × ((colors_of q >>= hist_entries q.palette) ≡ some hist)
  counted_entries q a =
      let (cs, e, below) = colors_of-defined q a in
      let (hist, f) = hist_entries-defined q.palette cs below in (hist, rw e f)

  histogram_of_sample-defined :
      (pixels : List Rgb)
      → All IsRgb pixels
      → length pixels ≤ 65536
      → (hist : List (HistEntry F)) × (histogram_of_sample pixels ≡ some hist)
  unfolding histogram_of_sample
  histogram_of_sample-defined [] rgb small =
      let empty : Quantized = record { palette = []; indices = [] } in counted_entries empty tt
  histogram_of_sample-defined (p ∷ ps) rgb small =
      let (q, e, done) =
        quantize_lem (p ∷ ps) rgb quantize_colors (omega arith) (omega arith) (omega arith)
          (omega arith) (omega (arith, histogram-le (p ∷ ps))) in
      let (hist, f) = counted_entries q (nearest-lt q.palette (p ∷ ps) q.indices done.2) in
      (hist, rw e f)

  -- No picks, or three, some of them real.
  abbrev ArePicks : Picks F → Type 0
  ArePicks (picks, n) = (picks ≡ []) ⊎ ((length picks ≡ 3) × (1 ≤ n) × (n ≤ 3))

  select_or_none-ArePicks :
      (hist : List (HistEntry F))
      → (picks : Picks F) × (select_or_none hist ≡ some picks) × ArePicks picks
  unfolding select_or_none
  select_or_none-ArePicks [] = (([], 0), refl, inl refl)
  select_or_none-ArePicks (e ∷ hist) =
      let (picks, n, f, c) = select_lem e hist in
      let size =
        ap length c.filled
        ∙ omega (
          arith,
          length-append {0} c.reals (replicate (3 - n) c.last),
          length-replicate (3 - n) c.last,
          c.counted,
          c.few,
        ) in
      ((picks, n), f, inr (size, c.some_real, c.few))

  select_palette-ArePicks :
      (sample : Option (List Rgb))
      → IsSample sample
      → (picks : Picks F) × (select_palette sample ≡ some picks) × ArePicks picks
  unfolding select_palette histogram_of
  select_palette-ArePicks none h = select_or_none-ArePicks []
  select_palette-ArePicks (some pixels) h =
      let (hist, e) = histogram_of_sample-defined pixels h.0 h.1 in
      let (picks, f, a) = select_or_none-ArePicks hist in (picks, rw e f, a)

  hex_at-valid :
      (slots : List (Toned F)) (i : ℕ)
      → i < length slots
      → (s : Str) × (hex_at slots i ≡ some s) × (valid_hex s ≡ true)
  unfolding hex_at toned_hex
  hex_at-valid slots i h =
      let (t, e) = get_elem?-defined i slots h in
      (toned_hex t, rw e refl, valid_hex-lch_to_hex t.l (chroma_of t) t.h)

  three_hex :
      (slots : List (Toned F))
      → length slots ≡ 3
      → (c : Colors) × (three_values (hex_at slots 0) (hex_at slots 1) (hex_at slots 2) ≡ some c)
        × AreValid c
  three_hex slots size =
      let (a, e, va) = hex_at-valid slots 0 (omega arith) in
      let (b, f, vb) = hex_at-valid slots 1 (omega arith) in
      let (c, g, vc) = hex_at-valid slots 2 (omega arith) in
      ((a, b, c), rw (e, f, g) refl, (va, vb, vc))

  separate-length :
      (slots : List (Toned F)) (mode : Mode) (n : ℕ)
      → 1 ≤ n
      → n ≤ length slots
      → (out : List (Toned F) × SeparationResult F) × (separate slots mode n ≡ some out)
        × (length out.0 ≡ length slots)
  separate-length slots mode n least few = elim (Bool-cases (ltb n 2)) [
    | inl one ↦
        let inside : ltb (length slots) n ≡ false = ground arith in
        let res : SeparationResult F = record {
          resolved = false;
          reason = duplicates;
          residual_de = r.decimal 0 1;
        } in
        ((slots, res), unfold separate in rw (inside, one) refl, refl)
    | inr f ↦
        let (out, res, e, s) = separate_lem slots mode n (ground arith) few in
        (
          (out, res),
          e,
          ap length s.filled
              ∙ omega (
                arith,
                length-append {0} s.work (replicate (length slots - n) s.last),
                length-replicate (length slots - n) s.last,
                s.counted,
              ),
        )
  ]

  render_palette-valid :
      (picks : Picks F) (mode : Mode)
      → ArePicks picks
      → (c : Colors) × (render_palette picks mode ≡ some c) × AreValid c
  unfolding render_palette valid_hex
  render_palette-valid ([], n) mode a =
      ((default_accent, default_accent, default_accent), refl, (refl, refl, refl))
  render_palette-valid (p ∷ picks, n) mode (inl e) = absurd (ground arith)
  render_palette-valid (p ∷ picks, n) mode (inr h) =
      let toned = tone_around (p ∷ picks) mode (anchor_of (p ∷ picks)) in
      let size : length toned ≡ 3 = length-map _ (p ∷ picks) ∙ h.0 in
      let (out, e, kept) = separate-length toned mode n h.1 (omega (arith, size, h.2)) in
      let (c, f, v) = three_hex out.0 (kept ∙ size) in (c, rw e f, v)

-- Extraction from a file that does not decode, or from a sample of at most 65536 pixels of 8-bit
-- colours, gives three texts that wlchroma-ctl takes, whatever the floating-point operations give:
-- no step that can fail here fails. These are all that can panic but the quantizer's lookups of a
-- box, a heap slot and a palette entry of its search, which have a default.
pub extract_colors-valid :
    (F : Type 0) ⦃r : Float F⦄ (sample : Option (List Rgb)) (mode : Mode)
    → IsSample sample
    → (c : Colors) × (extract_colors F sample mode ≡ some c) × AreValid c
unfolding extract_colors
extract_colors-valid F sample mode h =
    let (picks, e, a) = select_palette-ArePicks {F = F} sample h in
    let (c, f, v) = render_palette-valid picks mode a in (c, rw e f, v)
