-- ===== src/Coordinator.antt =====
-- src/coordinator.rs: the state, the interface to the outside world, and the pure helpers.
-- The children hold the retry and submit logic (Submit), the event handlers (Handlers) and proofs.
-- `generation`, `seq` (u64) and `retry_attempt` (u32) grow by one per event; their ends are out of
-- reach, so they are unbounded here. Times are nanoseconds. An `f64` is its bit pattern.
pub mod Submit
pub mod Handlers
pub mod Run
pub mod RetryState
pub mod Cases
pub mod Fake
pub mod Generations
pub mod Adoption
pub mod Shutdown
pub mod Form
pub mod Boundary
pub mod Backoff
mod Tests
use mpris_chroma.Prelude.{
  ℕ, suc, ◌+◌, ◌-◌, ◌*◌, ◌^◌, ◌≡◌, refl, Bool, true, false, ◌&&◌, ◌||◌, Option, none, some, List,
  [], ◌∷◌, ◌++◌, map, min, ltb, leb, ◌==◌, if◌then◌else◌, arith, ◌↔◌, any, keep, is_some, not,
}
use mpris_chroma.Prelude.Text.{
  Str, FilePath, codes, str_eq, str_eq_iff, is_empty, strip_prefix, starts_with, split, trim,
}
use mpris_chroma.Prelude.Dict.{Dict}
use mpris_chroma.State.{Mode, dark, light, PlayerState}
use mpris_chroma.Job.{CoverTarget, Desired}

abbrev pub mpris_prefix : Str
mpris_prefix = codes "org.mpris.MediaPlayer2."

abbrev pub drop_log_interval : ℕ
drop_log_interval = 60 * 1_000_000_000

abbrev pub retry_base_ms : ℕ
retry_base_ms = 1000

abbrev pub retry_cap_ms : ℕ
retry_cap_ms = 30_000

abbrev pub retry_max_attempts : ℕ
retry_max_attempts = 3

abbrev pub u64_max : ℕ
u64_max = 2 ^ 64 - 1

-- `1u64.checked_shl(attempt.saturating_sub(1)).unwrap_or(u64::MAX)`.
unfoldable pub backoff_factor : ℕ → ℕ
backoff_factor attempt = if ltb (attempt - 1) 64 then 2 ^ (attempt - 1) else u64_max

-- `RETRY_BASE_MS.saturating_mul(factor).min(RETRY_CAP_MS)`.
unfoldable pub capped_delay_ms : ℕ → ℕ
unfolding backoff_factor
capped_delay_ms attempt = min (min (retry_base_ms * backoff_factor attempt) u64_max) retry_cap_ms

unfoldable pub mode_from_color_scheme : ℕ → Mode
mode_from_color_scheme value = if value == 2 then light else dark

unfoldable pub player_name_from_bus : Str → Option Str
player_name_from_bus bus_name = strip_prefix mpris_prefix bus_name

pub data CoverStatus : Type 0 where
  pending ready retrying exhausted rejected : CoverStatus

abbrev pub eligible : CoverStatus → Bool
eligible pending = true
eligible ready = true
eligible retrying = true
eligible _ = false

abbrev pub is_exhausted : CoverStatus → Bool
is_exhausted exhausted = true
is_exhausted _ = false

abbrev pub is_retrying : CoverStatus → Bool
is_retrying retrying = true
is_retrying _ = false

pub data CoverIdentity : Type 0 where
  url : Str → CoverIdentity
  dir : FilePath → CoverIdentity

unfoldable pub identity_eq : CoverIdentity → CoverIdentity → Bool
identity_eq (url a) (url b) = str_eq a b
identity_eq (dir a) (dir b) = str_eq a b
identity_eq _ _ = false

pub identity_eq_iff : (a b : CoverIdentity) → (identity_eq a b ≡ true) ↔ (a ≡ b)
unfolding identity_eq
identity_eq_iff (url a) (url b) = ground (arith, str_eq_iff a b)
identity_eq_iff (url a) (dir b) = ground arith
identity_eq_iff (dir a) (url b) = ground arith
identity_eq_iff (dir a) (dir b) = ground (arith, str_eq_iff a b)

pub record CoverState : Type 0 where
  pub identity : CoverIdentity
  pub status : CoverStatus

-- What is logged: a dropped input (its category and detail), or a retry chain given up.
pub data Warning : Type 0 where
  dropped : Str → Str → Warning
  giving_up : Option Desired → Warning

-- The trait `Host`. `delay_of` is no method of it: it stands for the float product
-- `(capped as f64 * jitter) as u64` of `backoff_delay_ms`.
pub record Host (H : Type 0) : Type 0 where
  pub submit : ℕ → Desired → H → H
  pub schedule_retry : ℕ → H → H × ℕ
  pub cancel_timer : ℕ → H → H
  pub jitter : H → H × ℕ
  pub now : H → ℕ
  pub warn : Warning → H → H
  pub delay_of : ℕ → ℕ → ℕ

pub record Coordinator (H : Type 0) : Type 0 where
  pub players : Dict PlayerState
  pub covers : Dict CoverState
  pub seq : ℕ
  pub generation : ℕ
  pub mode : Mode
  pub applied : Option Str
  pub applied_target : Option CoverTarget
  pub last_desired : Option Desired
  pub last_submitted : Option Desired
  pub stopping : Bool
  pub host : H
  pub covers_dir_for : Str → Option FilePath
  pub submitted_player : Option Str
  pub retry_timer : Option ℕ
  pub retry_desire : Option Desired
  pub retry_player : Option Str
  pub retry_attempt : ℕ
  pub allowed_bases : List Str
  pub last_drop_log : Dict ℕ

-- `allowed_players.split(',').map(str::trim).filter(..)`.
unfoldable pub bases_of : Str → List Str
bases_of allowed_players = keep (λ p. not (is_empty p)) (map trim (split b',' allowed_players))

unfoldable pub new : {H : Type 0} → H → (Str → Option FilePath) → Mode → Str → Coordinator H
unfolding bases_of
new host covers_dir_for mode allowed_players = record {
  players = [];
  covers = [];
  seq = 0;
  generation = 0;
  mode = mode;
  applied = none;
  applied_target = none;
  last_desired = none;
  last_submitted = none;
  stopping = false;
  host = host;
  covers_dir_for = covers_dir_for;
  submitted_player = none;
  retry_timer = none;
  retry_desire = none;
  retry_player = none;
  retry_attempt = 0;
  allowed_bases = bases_of allowed_players;
  last_drop_log = [];
}

abbrev pub starts_with_dot : Option Str → Bool
starts_with_dot none = false
starts_with_dot (some rest) = starts_with (codes ".") rest

-- `name == base`, or `name` is `base` followed by a dot and anything.
unfoldable pub matches_base : Str → Str → Bool
unfolding starts_with
matches_base name base = str_eq name base || starts_with_dot (strip_prefix base name)

unfoldable pub allowed_name : {H : Type 0} → Coordinator H → Str → Bool
unfolding matches_base
allowed_name c name = any (matches_base name) c.allowed_bases

abbrev pub dir_identity : Option FilePath → Option CoverIdentity
dir_identity none = none
dir_identity (some d) = some (dir d)

-- The URL if there is one, else the player's covers directory.
unfoldable pub art_identity : {H : Type 0} → Coordinator H → Str → Str → Option CoverIdentity
art_identity c name art_url =
    if is_empty art_url then dir_identity (c.covers_dir_for name) else some (url art_url)
