-- ===== src/Worker.antt =====
-- src/worker.rs: the mailbox and the worker that runs one job at a time.
-- The world `W` holds the stages' own state and the mailbox, which the coordinator's thread changes
-- at any time: whatever it does while a stage runs is part of that stage's step, whatever it does
-- before the mailbox's lock is taken is `interlude`, and whatever it does between the release of the
-- lock and the next stage is `released`. A stage that panics has no result.
pub mod Mailbox
pub mod Counting
pub mod Dedup
pub mod Looks
pub mod Pump
mod Tests
use mpris_chroma.Prelude.{
  ℕ, ◌≡◌, ◌↔◌, Bool, true, false, ◌&&◌, Option, none, some, ltb, if◌then◌else◌, arith,
}
use mpris_chroma.Prelude.Text.{Str, FilePath}
use mpris_chroma.State.{Mode, mode_eq}
use mpris_chroma.Job.{
  CoverTarget, Desired, Outcome, committed, skipped_duplicate, failed_retryable, rejected,
  JobResult, Job,
}
use mpris_chroma.Cover.{ContentId, content_eq, content_eq_iff, Resolution, ready, retryable}
use mpris_chroma.Cover
use Mailbox.{superseded}

-- The three `#rrggbb` texts.
abbrev pub Colors : Type 0
Colors = Str × Str × Str

-- `Result<(), CtlError>`.
pub data CtlResult : Type 0 where
  done : CtlResult
  ctl_error : Str → CtlResult

pub data Committed : Type 0 where
  preset : Mode → Committed
  cover : ContentId → Mode → Committed

unfoldable pub committed_eq : Committed → Committed → Bool
committed_eq (preset m) (preset n) = mode_eq m n
committed_eq (cover i m) (cover j n) = content_eq i j && mode_eq m n
committed_eq _ _ = false

pub committed_eq_iff : (a b : Committed) → (committed_eq a b ≡ true) ↔ (a ≡ b)
unfolding committed_eq
committed_eq_iff (preset m) (preset n) = ground arith
committed_eq_iff (preset m) (cover j n) = ground arith
committed_eq_iff (cover i m) (preset n) = ground arith
committed_eq_iff (cover i m) (cover j n) = ground (arith, content_eq_iff i j)

-- `self.last_committed == Some(key)`.
abbrev pub already : Committed → Option Committed → Bool
already key none = false
already key (some k) = committed_eq k key

-- The trait `Stages`, and the mailbox as the worker finds it.
pub record Stages (W : Type 0) : Type 0 where
  pub resolve : Str → Option FilePath → W → W × Option Resolution
  pub extract : FilePath → Mode → ContentId → W → W × Option Colors
  pub apply : Colors → W → W × Option CtlResult
  pub revert : W → W × Option CtlResult
  pub interlude : W → W
  pub released : W → W
  pub slot : W → Option Job

pub record Worker (W : Type 0) : Type 0 where
  pub world : W
  pub last_committed : Option Committed

-- How `run_once` ends: by a panic, or with the result to report, if any.
pub data Ending : Type 0 where
  panicked : Ending
  finished : Option JobResult → Ending

abbrev pub report : ℕ → Outcome → Option Str → Ending
report g outcome cover_id =
    finished (some (record { generation = g; outcome = outcome; cover_id = cover_id }))

module _ {W : Type 0} (s : Stages W) where
  -- What follows a ctl call: the key is kept on success only.
  abbrev pub after_ctl :
      ℕ → Committed → Option Str → Worker W → W × Option CtlResult → Worker W × Ending
  after_ctl g key cover_id w (u, none) = (record w { world = u }, panicked)
  after_ctl g key cover_id w (u, some (ctl_error e)) =
      (record w { world = u }, report g failed_retryable none)
  after_ctl g key cover_id w (u, some done) =
      (record { world = u; last_committed = some key }, report g committed cover_id)

  -- `self.mailbox.superseded(generation)`: the slot is read under the lock, and the job is dropped if a
  -- newer one lies there. The lock is released before the job goes on.
  abbrev pub unless_superseded : ℕ → Worker W → (Worker W → Worker W × Ending) → Worker W × Ending
  unless_superseded g w go =
      let locked = record w { world = s.interlude w.world } in
      if superseded g (s.slot locked.world)
      then (locked, finished none)
      else go (record w { world = s.released locked.world })

  unfoldable pub run_revert : ℕ → Mode → Worker W → Worker W × Ending
  run_revert g mode w =
      if already (preset mode) w.last_committed
      then (w, report g skipped_duplicate none)
      else unless_superseded g w λ w1. after_ctl g (preset mode) none w1 (s.revert w1.world)

  abbrev pub apply_colors :
      ℕ → FilePath → Committed → Worker W → W × Option Colors → Worker W × Ending
  apply_colors g path key w (u, none) = (record w { world = u }, panicked)
  apply_colors g path key w (u, some colors) =
      unless_superseded g (record w { world = u })
        λ w1. after_ctl g key (some path) w1 (s.apply colors w1.world)

  -- A resolved cover.
  unfoldable pub run_ready : ℕ → Mode → FilePath → ContentId → Worker W → Worker W × Ending
  run_ready g mode path id w =
      let key = cover id mode in
      if already key w.last_committed
      then (w, report g skipped_duplicate (some path))
      else unless_superseded g w λ w1. apply_colors g path key w1 (s.extract path mode id w1.world)

  abbrev pub run_resolved : ℕ → Mode → Worker W → W × Option Resolution → Worker W × Ending
  run_resolved g mode w (u, none) = (record w { world = u }, panicked)
  run_resolved g mode w (u, some (retryable why)) =
      (record w { world = u }, report g failed_retryable none)
  run_resolved g mode w (u, some (Resolution.rejected why)) =
      (record w { world = u }, report g rejected none)
  run_resolved g mode w (u, some (ready path id)) =
      run_ready g mode path id (record w { world = u })

  abbrev pub run_target : ℕ → Option CoverTarget → Mode → Worker W → Worker W × Ending
  run_target g none mode w = run_revert g mode w
  run_target g (some t) mode w = run_resolved g mode w (s.resolve t.art_url t.covers_dir w.world)

  unfoldable pub run_once : Job → Worker W → Worker W × Ending
  run_once job w = run_target job.generation job.desired.target job.desired.mode w

  -- A panic is reported as a retryable failure; a superseded job is not reported.
  abbrev pub reported : ℕ → Ending → Option JobResult
  reported g panicked =
      some (record { generation = g; outcome = failed_retryable; cover_id = none })
  reported g (finished result) = result

  unfoldable pub serve : Job → Worker W → Worker W × Option JobResult
  serve job w = let (w1, ending) = run_once job w in (w1, reported job.generation ending)
