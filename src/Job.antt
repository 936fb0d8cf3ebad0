-- ===== src/Job.antt =====
-- src/worker.rs, the data that the coordinator and the worker exchange.
use mpris_chroma.Prelude.{ℕ, ◌≡◌, Bool, true, false, ◌&&◌, Option, none, some, arith, ◌↔◌}
use mpris_chroma.Prelude.Text.{Str, FilePath, str_eq, str_eq_iff}
use mpris_chroma.State.{Mode, mode_eq}

pub record CoverTarget : Type 0 where
  pub art_url : Str
  pub covers_dir : Option FilePath

pub record Desired : Type 0 where
  pub target : Option CoverTarget
  pub mode : Mode

pub data Outcome : Type 0 where
  committed skipped_duplicate failed_retryable rejected : Outcome

pub record JobResult : Type 0 where
  pub generation : ℕ
  pub outcome : Outcome
  pub cover_id : Option Str

pub record Job : Type 0 where
  pub generation : ℕ
  pub desired : Desired

-- `#[derive(PartialEq)]` of the three.
unfoldable pub dir_eq : Option FilePath → Option FilePath → Bool
dir_eq none none = true
dir_eq (some a) (some b) = str_eq a b
dir_eq _ _ = false

pub dir_eq_iff : (a b : Option FilePath) → (dir_eq a b ≡ true) ↔ (a ≡ b)
unfolding dir_eq
dir_eq_iff none none = ground arith
dir_eq_iff none (some b) = ground arith
dir_eq_iff (some a) none = ground arith
dir_eq_iff (some a) (some b) = ground (arith, str_eq_iff a b)

unfoldable pub target_eq : CoverTarget → CoverTarget → Bool
target_eq a b = str_eq a.art_url b.art_url && dir_eq a.covers_dir b.covers_dir

pub target_eq_iff : (a b : CoverTarget) → (target_eq a b ≡ true) ↔ (a ≡ b)
unfolding target_eq
target_eq_iff a b =
    ground (arith, str_eq_iff a.art_url b.art_url, dir_eq_iff a.covers_dir b.covers_dir)

unfoldable pub opt_target_eq : Option CoverTarget → Option CoverTarget → Bool
opt_target_eq none none = true
opt_target_eq (some a) (some b) = target_eq a b
opt_target_eq _ _ = false

pub opt_target_eq_iff : (a b : Option CoverTarget) → (opt_target_eq a b ≡ true) ↔ (a ≡ b)
unfolding opt_target_eq
opt_target_eq_iff none none = ground arith
opt_target_eq_iff none (some b) = ground arith
opt_target_eq_iff (some a) none = ground arith
opt_target_eq_iff (some a) (some b) = ground (arith, target_eq_iff a b)

unfoldable pub desired_eq : Desired → Desired → Bool
desired_eq a b = opt_target_eq a.target b.target && mode_eq a.mode b.mode

pub desired_eq_iff : (a b : Desired) → (desired_eq a b ≡ true) ↔ (a ≡ b)
unfolding desired_eq
desired_eq_iff a b = ground (arith, opt_target_eq_iff a.target b.target)

unfoldable pub opt_desired_eq : Option Desired → Option Desired → Bool
opt_desired_eq none none = true
opt_desired_eq (some a) (some b) = desired_eq a b
opt_desired_eq _ _ = false

pub opt_desired_eq_iff : (a b : Option Desired) → (opt_desired_eq a b ≡ true) ↔ (a ≡ b)
unfolding opt_desired_eq
opt_desired_eq_iff none none = ground arith
opt_desired_eq_iff none (some b) = ground arith
opt_desired_eq_iff (some a) none = ground arith
opt_desired_eq_iff (some a) (some b) = ground (arith, desired_eq_iff a b)
