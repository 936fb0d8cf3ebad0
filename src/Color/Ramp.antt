-- ===== src/Color/Ramp.antt =====
-- src/color/ramp.rs: the twelve cells that wlchroma blends of three colours, and their brightness.
use mpris_chroma.Prelude.{ℕ, Option, some, List, [], ◌∷◌, ◌++◌, map}
use mpris_chroma.Prelude.Text.{Str}
use mpris_chroma.Quantize.Cut.{cons?}
use mpris_chroma.Color.{Float, ◌⊕◌, ◌⊖◌, ◌⊗◌, ◌⊘◌, to_u8, ◌>>=◌}
use mpris_chroma.Color.Oklab.{hex_text, hex_channels, three_values, to_linear, unit_channels}

-- Channels of 8 bits.
abbrev pub Channels : Type 0
Channels = ℕ × ℕ × ℕ

module _ {F : Type 0} ⦃r : Float F⦄ where
  -- One channel of a blend, rounded half up.
  unfoldable pub mixed : F → ℕ → ℕ → ℕ
  mixed alpha fg bg =
      to_u8 (r.floor (r.of_nat bg ⊗ (r.decimal 10 1 ⊖ alpha) ⊕ r.of_nat fg ⊗ alpha ⊕ r.decimal 5 1))

  abbrev pub alphas : List F
  alphas = r.decimal 100 2 ∷ r.decimal 72 2 ∷ r.decimal 50 2 ∷ r.decimal 28 2 ∷ []

  unfoldable pub cell : Channels → Channels → F → Str
  unfolding mixed hex_text
  cell (fr, fg, fb) (br, bg, bb) alpha =
      hex_text (mixed alpha fr br) (mixed alpha fg bg) (mixed alpha fb bb)

  unfoldable pub luminance : Channels → F
  unfolding to_linear
  luminance channels =
      let (red, green, blue) = unit_channels channels in
      r.decimal 2126 4 ⊗ to_linear red
      ⊕ r.decimal 7152 4 ⊗ to_linear green
      ⊕ r.decimal 722 4 ⊗ to_linear blue

  unfoldable pub luminances : List Str → Option (List F)
  unfolding hex_channels luminance
  luminances [] = some []
  luminances (c ∷ cs) = cons? (hex_channels c >>= λ x. some (luminance x)) (luminances cs)

abbrev pub sum_floats : {F : Type 0} ⦃r : Float F⦄ → F → List F → F
sum_floats acc [] = acc
sum_floats acc (x ∷ xs) = sum_floats (acc ⊕ x) xs

-- The cells of the pairs (0, 1), (1, 2) and (2, 0).
unfoldable pub cells : (F : Type 0) ⦃r : Float F⦄ → Channels → Channels → Channels → List Str
unfolding cell
cells F a b c =
    let blends : List F = alphas in
    map (cell a b) blends ++ (map (cell b c) blends ++ map (cell c a) blends)

-- `expand`, over the numbers that it computes with; none where it panics.
unfoldable pub expand : (F : Type 0) ⦃r : Float F⦄ → Str → Str → Str → Option (List Str)
unfolding hex_channels cells
expand F c1 c2 c3 = three_values (hex_channels c1) (hex_channels c2) (hex_channels c3) >>= λ rgb.
    some (cells F rgb.0 rgb.1 rgb.2)

-- `mean_luminance`.
unfoldable pub mean_luminance : (F : Type 0) ⦃r : Float F⦄ → Str → Str → Str → Option F
unfolding expand luminances
mean_luminance F ⦃r⦄ c1 c2 c3 = expand F c1 c2 c3 >>= λ cs.
    (luminances cs >>= λ ls. some (sum_floats (r.negative (r.decimal 0 1)) ls ⊘ r.decimal 120 1))
