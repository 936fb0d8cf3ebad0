-- ===== src/Apply.antt =====
-- src/apply.rs: the wlchroma-ctl client. The process runner is an interface over a world `W`; the
-- toml crate and the texts of messages are parameters.
pub mod Argv
mod Tests
use mpris_chroma.Prelude.{
  ℕ, suc, ◌+◌, Bool, true, false, not, ◌&&◌, ◌||◌, ◌==◌, ltb, leb, Option, none, some, List, [],
  ◌∷◌, ◌++◌, length, take, all, if◌then◌else◌,
}
use mpris_chroma.Prelude.Text.{Str, FilePath, codes, trim, decimal}
use mpris_chroma.Prelude.Int.{ℤ, pos, int_eq}
use mpris_chroma.Prelude.Result.{Result, ok, err}
use mpris_chroma.Worker.{Colors, CtlResult, done, ctl_error}

abbrev pub fade_default : ℕ
fade_default = 2000

-- 5 s, in nanoseconds.
abbrev pub ctl_timeout : ℕ
ctl_timeout = 5_000_000_000

abbrev pub max_diag : ℕ
max_diag = 200

abbrev pub fallback_palette : Str
fallback_palette = codes "witch_hour"

-- `RunError`; a failure to start is its text.
pub data RunError : Type 0 where
  timeout : RunError
  spawn : Str → RunError

pub record RunOutput : Type 0 where
  pub code : Option ℤ
  pub stderr : Str

-- A `toml::Value`, as far as the source looks: a string or something else.
pub data TomlValue : Type 0 where
  text : Str → TomlValue
  other : TomlValue

-- What the client calls: `palette_at` reads the file, parses it and gives the array at
-- `effect.settings.palette`, if there is one.
pub record CtlWorld (W : Type 0) : Type 0 where
  pub run : List Str → ℕ → W → W × Result RunError RunOutput
  pub palette_at : FilePath → W → Option (List TomlValue)
  pub code_text : Option ℤ → Str
  pub palette_text : Colors → Str

pub record Ctl : Type 0 where
  pub program : Str
  pub config_path : FilePath
  pub fade_ms : ℕ

abbrev pub is_ascii_hexdigit : ℕ → Bool
is_ascii_hexdigit c =
    (leb b'0' c && leb c b'9') || ((leb b'a' c && leb c b'f') || (leb b'A' c && leb c b'F'))

-- '#' and six hex digits. A character beyond ASCII has bytes that are no hex digits.
unfoldable pub valid_hex : Str → Bool
valid_hex [] = false
valid_hex (c ∷ s) = length s == 6 && (c == b'#' && all is_ascii_hexdigit s)

abbrev pub hex_value : TomlValue → Option Str
hex_value (text s) = if valid_hex s then some s else none
hex_value other = none

abbrev pub three_of : Option Str → Option Str → Option Str → Option Colors
three_of (some a) (some b) (some c) = some (a, b, c)
three_of _ _ _ = none

abbrev pub palette_of : Option (List TomlValue) → Option Colors
palette_of (some (a ∷ b ∷ c ∷ [])) = three_of (hex_value a) (hex_value b) (hex_value c)
palette_of _ = none

module _ {W : Type 0} (world : CtlWorld W) where
  unfoldable pub config_palette : FilePath → W → Option Colors
  config_palette path w = palette_of (world.palette_at path w)

  abbrev pub is_zero : Option ℤ → Bool
  is_zero none = false
  is_zero (some code) = int_eq code (pos 0)

  abbrev pub on_output : W × Result RunError RunOutput → W × CtlResult
  on_output (w, err timeout) = (w, ctl_error (codes "wlchroma-ctl timed out after 5s"))
  on_output (w, err (spawn why)) = (w, ctl_error (codes "wlchroma-ctl could not run: " ++ why))
  on_output (w, ok out) = if is_zero out.code then (w, done) else (
    w,
    ctl_error (
        ((codes "wlchroma-ctl exited " ++ world.code_text out.code) ++ codes ": ")
        ++ take max_diag (trim out.stderr)),
  )

  unfoldable pub run : Ctl → List Str → W → W × CtlResult
  run ctl args w = on_output (world.run (ctl.program ∷ args) ctl_timeout w)

  abbrev pub fade_args : ℕ → List Str
  fade_args ms = if ltb 0 ms then decimal ms ∷ [] else []

  unfoldable pub apply : Ctl → Colors → W → W × CtlResult
  apply ctl (a, b, c) w =
      if not (all valid_hex (a ∷ b ∷ c ∷ []))
      then (
        w,
        ctl_error (codes "refusing to apply malformed palette: " ++ world.palette_text (a, b, c)),
      )
      else run ctl (codes "set-colors" ∷ a ∷ b ∷ c ∷ fade_args ctl.fade_ms) w

  abbrev pub revert_to : Ctl → Option Colors → W → W × CtlResult
  revert_to ctl (some colors) w = apply ctl colors w
  revert_to ctl none w = run ctl (codes "set-palette" ∷ fallback_palette ∷ []) w

  unfoldable pub revert : Ctl → W → W × CtlResult
  revert ctl w = revert_to ctl (config_palette ctl.config_path w) w
