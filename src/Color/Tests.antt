-- ===== src/Color/Tests.antt =====
-- Colours on a coarse arithmetic of millionths that stops at 0, and each result at a concrete input.
use mpris_chroma.Prelude.{
  ℕ, ◌+◌, ◌-◌, ◌*◌, ◌/◌, ◌%◌, ◌^◌, min, max, ◌≡◌, refl, Option, none, some, List, [], ◌∷◌, arith,
  ltb, leb, ◌==◌, length,
}
use mpris_chroma.Prelude.Text.{Str, codes}
use mpris_chroma.Prelude.Int.{pos, negsuc}
use mpris_chroma.State.{dark, light}
use mpris_chroma.Worker.{Colors}
use mpris_chroma.Quantize.{Rgb}
use mpris_chroma.Color.{Float}
use mpris_chroma.Color.Oklab.{Triple, hex_text, hex_channels}
use mpris_chroma.Color.Oklab.Hex.{hex_channels-hex_text}
use mpris_chroma.Color.Pick.{HistEntry, rem_euclid_6, select}
use mpris_chroma.Color.Pick.Choice.{IsChoice, select_lem}
use mpris_chroma.Color.Tone.{Toned, SeparationResult}
use mpris_chroma.Color.Tone.Separate.{separate}
use mpris_chroma.Color.Tone.Laws.{IsSeparated, separate_lem}
use mpris_chroma.Color.Ramp.{expand}
use mpris_chroma.Color.Raster.{Rgb8}
use mpris_chroma.Color.Resample.{Coeffs, precompute_coeffs, horizontal, vertical}
use mpris_chroma.Color.Resample.Passes.{IsImage, passes_lem}
use mpris_chroma.Color.Extract.{extract_colors}
use mpris_chroma.Color.Extract.Laws.{AreValid, extract_colors-valid}

abbrev option_length : Option (List Str) → ℕ
option_length (some cells) = length cells
option_length none = 0

abbrev unit : ℕ
unit = 1000000

instance abbrev coarse : Float ℕ
coarse = record {
  decimal = λ m k. m * unit / 10 ^ k;
  infinity = unit * unit;
  of_nat = λ n. n * unit;
  plus = λ a b. a + b;
  minus = λ a b. a - b;
  times = λ a b. a * b / unit;
  over = λ a b. a * unit / b;
  remainder = λ a b. a % b;
  negative = λ a. 0;
  less = ltb;
  at_most = leb;
  equal = ◌==◌;
  total_le = leb;
  smaller = min;
  larger = max;
  abs = λ a. a;
  powf = λ a b. a;
  cbrt = λ a. a;
  sqrt = λ a. a;
  hypot = max;
  atan2 = λ a b. a;
  cos = λ a. unit;
  sin = λ a. 0;
  trunc = λ a. a / unit * unit;
  floor = λ a. a / unit * unit;
  ceil = λ a. (a + unit - 1) / unit * unit;
  round_ties_even = λ a. (a + unit / 2) / unit * unit;
  to_int = λ a. pos (a / unit);
  to_nat = λ a. a / unit;
}

hex_text-mixed : hex_text 10 255 7 ≡ codes "#0aff07"
unfolding hex_text
hex_text-mixed = refl

hex_channels-upper : hex_channels (codes "#0AfF07") ≡ some (10, 255, 7)
unfolding hex_channels
hex_channels-upper = refl

-- The blue sector of a negative hue.
sector_wraps : rem_euclid_6 (negsuc 0) ≡ 5
sector_wraps = refl

ramp_cells : option_length (expand ℕ (codes "#ff0000") (codes "#00ff00") (codes "#0000ff")) ≡ 12
unfolding expand
ramp_cells = refl

-- A plus sign is taken for a digit's place, and a minus sign is not.
hex_channels-plus : hex_channels (codes "#+aff07") ≡ some (10, 255, 7)
unfolding hex_channels
hex_channels-plus = refl

hex_channels-minus : hex_channels (codes "#-aff07") ≡ none
unfolding hex_channels
hex_channels-minus = refl

hex_channels-short : hex_channels (codes "#aff07") ≡ none
unfolding hex_channels
hex_channels-short = refl

hex_channels-hex_text_example : hex_channels (hex_text 10 255 7) ≡ some (10, 255, 7)
hex_channels-hex_text_example =
    hex_channels-hex_text 10 255 7 (omega arith) (omega arith) (omega arith)

abbrev entry : HistEntry ℕ
entry = (3, (200000, 500000, 900000))

abbrev hist : List (HistEntry ℕ)
hist = (1, (0, 0, 100000)) ∷ []

select_lem_example :
    (picks : List (Triple ℕ)) × (n : ℕ) × (select (entry ∷ hist) ≡ some (picks, n))
    × IsChoice (entry ∷ hist) picks n
select_lem_example = select_lem entry hist

abbrev slots : List (Toned ℕ)
slots =
    record { l = 300000; h = 1; c_src = 20000 }
    ∷ record { l = 320000; h = 2; c_src = 30000 }
    ∷ record { l = 320000; h = 2; c_src = 30000 }
    ∷ []

separate_lem_example :
    (out : List (Toned ℕ)) × (res : SeparationResult ℕ) × (separate slots dark 2 ≡ some (out, res))
    × IsSeparated slots 2 out res
separate_lem_example = separate_lem slots dark 2 (omega arith) (omega arith)

abbrev pixels : List Rgb
pixels =
    record { red = 200; green = 10; blue = 10 }
    ∷ record { red = 10; green = 10; blue = 200 }
    ∷ record { red = 200; green = 10; blue = 10 }
    ∷ []

extract_colors-valid_example :
    (c : Colors) × (extract_colors ℕ (some pixels) light ≡ some c) × AreValid c
extract_colors-valid_example = extract_colors-valid ℕ (some pixels) light (omega arith, omega arith)

undecoded : extract_colors ℕ none dark ≡ some (codes "#a48ec7", codes "#a48ec7", codes "#a48ec7")
unfolding extract_colors
undecoded = refl

abbrev flat : Rgb8
flat = record {
  width = 3;
  height = 1;
  pixels =
      record { red = 10; green = 20; blue = 30 }
      ∷ record { red = 20; green = 20; blue = 31 }
      ∷ record { red = 40; green = 20; blue = 30 }
      ∷ [];
}

abbrev or_empty : Option Coeffs → Coeffs
or_empty (some c) = c
or_empty none = record { ksize = 0; bounds = []; kk = [] }

abbrev same_number : ℕ → ℕ
same_number x = x

abbrev across : Coeffs
across = or_empty (precompute_coeffs same_number 3 0 (3 * unit) 2)

abbrev down : Coeffs
down = or_empty (precompute_coeffs same_number 1 0 (1 * unit) 2)

passes_lem_example :
    ((out : Rgb8) × (horizontal flat 0 1 2 across ≡ some out) × IsImage 2 1 out)
    × ((out : Rgb8) × (vertical flat 2 down ≡ some out) × IsImage 3 2 out)
unfolding precompute_coeffs
passes_lem_example =
    passes_lem same_number flat 0 (3 * unit) 0 (1 * unit) 0 1 2 2 across down refl (omega arith)
      refl refl
