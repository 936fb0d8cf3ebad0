-- ===== src/State.antt =====
-- src/state.rs: the theme mode, the playback status and the record of one player.
-- `seq` is a u64 that grows by one with each accepted line; its end is out of reach, so it is an
-- unbounded number here.
use mpris_chroma.Prelude.{ℕ, ◌≡◌, Bool, true, false, Option, none, some, if◌then◌else◌, arith, ◌↔◌}
use mpris_chroma.Prelude.Text.{Str, codes, str_eq}

pub data Mode : Type 0 where
  dark light : Mode

-- `#[derive(PartialEq)]`.
abbrev pub mode_eq : Mode → Mode → Bool
mode_eq dark dark = true
mode_eq light light = true
mode_eq _ _ = false

pub mode_eq_iff : (a b : Mode) → (mode_eq a b ≡ true) ↔ (a ≡ b)
mode_eq_iff a b = ground arith

-- `Mode::as_str`, which `Display` writes.
unfoldable pub as_str : Mode → Str
as_str dark = codes "dark"
as_str light = codes "light"

-- `Mode::from_str`; the error, a message about the text, is `none`.
unfoldable pub parse_mode : Str → Option Mode
unfolding str_eq
parse_mode s =
    if str_eq s (codes "dark")
    then some dark
    else if str_eq s (codes "light")
    then some light
    else none

pub data PlaybackStatus : Type 0 where
  playing paused stopped : PlaybackStatus

abbrev pub is_playing : PlaybackStatus → Bool
is_playing playing = true
is_playing _ = false

-- `PlaybackStatus::from_str`.
unfoldable pub parse_status : Str → Option PlaybackStatus
unfolding str_eq
parse_status s =
    if str_eq s (codes "Playing")
    then some playing
    else if str_eq s (codes "Paused")
    then some paused
    else if str_eq s (codes "Stopped")
    then some stopped
    else none

pub record PlayerState : Type 0 where
  pub status : PlaybackStatus
  pub art_url : Str
  pub seq : ℕ
