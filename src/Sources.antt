-- ===== src/Sources.antt =====
-- src/sources: what the portal's colour-scheme values mean, and the command that follows the players.
pub mod Reader
mod Tests
use mpris_chroma.Prelude.{
  ℕ, suc, ◌<◌, ◌^◌, ◌≡◌, ◌≢◌, ◌↔◌, ◌⊎◌, inl, inr, refl, Bool, true, false, not, ◌||◌, ltb, ltb→lt,
  Option, none, some, List, [], ◌∷◌, ◌++◌, arith, if◌then◌else◌, if_cases,
}
use mpris_chroma.Prelude.Text.{Str, FilePath, codes, str_eq}
use mpris_chroma.Prelude.Int.{ℤ, pos, negsuc}
use mpris_chroma.State.{Mode, dark, light}
use mpris_chroma.Coordinator.{mode_from_color_scheme}
use mpris_chroma.Runtime.{Event}

-- A `zvariant::Value`, as far as the source looks: a nested value, an integer of any width, or
-- something else with its text.
pub data Value : Type 0 where
  value : Value → Value
  integer : ℤ → Value
  other : Str → Value

-- `u32::try_from(wide).unwrap_or(0)`.
abbrev pub to_u32 : ℤ → ℕ
to_u32 (pos n) = if ltb n (2 ^ 32) then n else 0
to_u32 (negsuc n) = 0

unfoldable pub scheme_value : Value → Option ℕ
scheme_value (value inner) = scheme_value inner
scheme_value (integer wide) = some (to_u32 wide)
scheme_value (other text) = none

abbrev pub appearance_ns : Str
appearance_ns = codes "org.freedesktop.appearance"

abbrev pub scheme_key : Str
scheme_key = codes "color-scheme"

abbrev pub event_of : Str → Option ℕ → Event
event_of text (some v) = Event.scheme v
event_of text none = Event.scheme_malformed (codes "non-integer color-scheme value: " ++ text)

-- `text` is how the value is shown.
unfoldable pub scheme_event : Str → Str → Str → Value → Option Event
scheme_event namespace key text v =
    if not (str_eq namespace appearance_ns) || not (str_eq key scheme_key)
    then none
    else some (event_of text (scheme_value v))

unfoldable pub follow_cmd : FilePath → Str → List Str
follow_cmd playerctl players =
    playerctl
    ∷ (codes "--player=" ++ players)
    ∷ codes "-a"
    ∷ codes "--follow"
    ∷ codes "metadata"
    ∷ codes "--format"
    ∷ codes "{{playerName}}\t{{status}}\t{{mpris:artUrl}}"
    ∷ []

-- A value nested any number of times.
abbrev pub nested : ℕ → ℤ → Value
nested ℕ.zero wide = integer wide
nested (suc n) wide = value (nested n wide)

-- However deep a portal nests its integer, and however wide it is: the scheme is a `u32`, and the
-- mode it selects is light exactly if the integer is 2, out-of-range values included.
pub scheme_value-nested :
    (depth : ℕ) (wide : ℤ)
    → (n : ℕ) × (scheme_value (nested depth wide) ≡ some n)
      × (n < 2 ^ 32)
      × ((mode_from_color_scheme n ≡ light) ↔ (wide ≡ pos 2))
unfolding scheme_value mode_from_color_scheme
scheme_value-nested (suc depth) wide = scheme_value-nested depth wide
scheme_value-nested ℕ.zero (negsuc k) = (0, refl, omega arith, ground arith)
scheme_value-nested ℕ.zero (pos k) = (to_u32 (pos k), refl, ground arith, ground arith)
