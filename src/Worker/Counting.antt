-- ===== src/Worker/Counting.antt =====
-- src/worker.rs, `run_once`: how often it calls wlchroma-ctl, and what it remembers, by outcome.
use mpris_chroma.Prelude.{
  ℕ, suc, ◌≤◌, ◌≡◌, refl, ◌⊎◌, inl, inr, Option, none, some, arith, ap, ◌∙◌, if_cases,
}
use mpris_chroma.Prelude.Text.{Str, FilePath}
use mpris_chroma.State.{Mode}
use mpris_chroma.Job.{CoverTarget, Outcome, committed, skipped_duplicate, failed_retryable, Job}
use mpris_chroma.Cover.{ContentId, Resolution, ready, retryable}
use mpris_chroma.Worker.Mailbox.{superseded}
use mpris_chroma.Worker.{
  Colors, CtlResult, done, ctl_error, Committed, preset, cover, already, Stages, Worker, Ending,
  panicked, finished, after_ctl, unless_superseded, run_revert, apply_colors, run_ready,
  run_resolved, run_target, run_once,
}

-- A counter of ctl calls in the world: `apply` and `revert` are one call each, and nothing else is.
pub record CountsCtl {W : Type 0} (s : Stages W) (calls : W → ℕ) : Type 0 where
  pub by_apply : (c : Colors) (w : W) → calls (s.apply c w).0 ≡ suc (calls w)
  pub by_revert : (w : W) → calls (s.revert w).0 ≡ suc (calls w)
  pub by_resolve : (u : Str) (d : Option FilePath) (w : W) → calls (s.resolve u d w).0 ≡ calls w
  pub by_extract :
      (p : FilePath) (m : Mode) (i : ContentId) (w : W) → calls (s.extract p m i w).0 ≡ calls w
  pub by_interlude : (w : W) → calls (s.interlude w) ≡ calls w
  pub by_released : (w : W) → calls (s.released w) ≡ calls w

-- What an outcome says of the number of calls and of `last_committed`, before and after.
abbrev pub Balance : Outcome → Mode → ℕ → Option Committed → ℕ → Option Committed → Type 0
Balance committed mode n before n' after =
    (n' ≡ suc n)
    × ((after ≡ some (preset mode)) ⊎ ((i : ContentId) × (after ≡ some (cover i mode))))
Balance failed_retryable mode n before n' after = (n' ≤ suc n) × (after ≡ before)
Balance _ mode n before n' after = (n' ≡ n) × (after ≡ before)

module _ {W : Type 0} (s : Stages W) (calls : W → ℕ) where
  -- The same of the way a job ended.
  abbrev pub Accounts : ℕ → Mode → ℕ → Option Committed → Worker W × Ending → Type 0
  Accounts g mode n before (w', panicked) =
      Balance failed_retryable mode n before (calls w'.world) w'.last_committed
  Accounts g mode n before (w', finished none) =
      Balance skipped_duplicate mode n before (calls w'.world) w'.last_committed
  Accounts g mode n before (w', finished (some r)) =
      (r.generation ≡ g) × Balance r.outcome mode n before (calls w'.world) w'.last_committed

  module _ (law : CountsCtl s calls) (g : ℕ) (mode : Mode) (n : ℕ) (before : Option Committed) where
    after_ctl-Accounts :
        (key : Committed) (id : Option Str) (w : Worker W) (u : W) (r : Option CtlResult)
        → (some key ≡ some (preset mode)) ⊎ ((i : ContentId) × (some key ≡ some (cover i mode)))
        → calls u ≡ suc n
        → w.last_committed ≡ before
        → Accounts g mode n before (after_ctl s g key id w (u, r))
    after_ctl-Accounts key id w u none k c e = (omega arith, e)
    after_ctl-Accounts key id w u (some (ctl_error x)) k c e = (refl, (omega arith, e))
    after_ctl-Accounts key id w u (some done) k c e = (refl, (c, k))

    unless_superseded-Accounts :
        (w : Worker W) (go : Worker W → Worker W × Ending)
        → calls w.world ≡ n
        → w.last_committed ≡ before
        → ((u : W) → calls u ≡ n → Accounts g mode n before (go (record w { world = u })))
        → Accounts g mode n before (unless_superseded s g w go)
    unless_superseded-Accounts w go c e k =
        let c' : calls (s.interlude w.world) ≡ n = law.by_interlude w.world ∙ c in
        if_cases (Accounts g mode n before) (superseded g (s.slot (s.interlude w.world))) _ _
          (λ _. (c', e))
          (λ _. k (s.released (s.interlude w.world)) (law.by_released (s.interlude w.world) ∙ c'))

    run_revert-Accounts :
        (w : Worker W)
        → calls w.world ≡ n
        → w.last_committed ≡ before
        → Accounts g mode n before (run_revert s g mode w)
    unfolding run_revert
    run_revert-Accounts w c e =
        if_cases (Accounts g mode n before) (already (preset mode) w.last_committed) _ _
          (λ _. (refl, (c, e)))
          (λ _.
            unless_superseded-Accounts w
              (λ w1. after_ctl s g (preset mode) none w1 (s.revert w1.world)) c e
              λ u cu.
                after_ctl-Accounts (preset mode) none (record w { world = u }) (s.revert u).0
                  (s.revert u).1 (inl refl) (law.by_revert u ∙ ap suc cu) e)

    apply_colors-Accounts :
        (path : FilePath) (i : ContentId) (w : Worker W) (u : W) (o : Option Colors)
        → calls u ≡ n
        → w.last_committed ≡ before
        → Accounts g mode n before (apply_colors s g path (cover i mode) w (u, o))
    apply_colors-Accounts path i w u none c e = (omega arith, e)
    apply_colors-Accounts path i w u (some colors) c e =
        unless_superseded-Accounts (record w { world = u })
          (λ w1. after_ctl s g (cover i mode) (some path) w1 (s.apply colors w1.world)) c e
          λ v cv.
            after_ctl-Accounts (cover i mode) (some path) (record w { world = v })
              (s.apply colors v).0 (s.apply colors v).1 (inr (i, refl))
              (law.by_apply colors v ∙ ap suc cv) e

    run_ready-Accounts :
        (path : FilePath) (i : ContentId) (w : Worker W)
        → calls w.world ≡ n
        → w.last_committed ≡ before
        → Accounts g mode n before (run_ready s g mode path i w)
    unfolding run_ready
    run_ready-Accounts path i w c e =
        if_cases (Accounts g mode n before) (already (cover i mode) w.last_committed) _ _
          (λ _. (refl, (c, e)))
          (λ _.
            unless_superseded-Accounts w
              (λ w1. apply_colors s g path (cover i mode) w1 (s.extract path mode i w1.world)) c e
              λ u cu.
                apply_colors-Accounts path i (record w { world = u }) (s.extract path mode i u).0
                  (s.extract path mode i u).1 (law.by_extract path mode i u ∙ cu) e)

    run_resolved-Accounts :
        (w : Worker W) (u : W) (o : Option Resolution)
        → calls u ≡ n
        → w.last_committed ≡ before
        → Accounts g mode n before (run_resolved s g mode w (u, o))
    run_resolved-Accounts w u none c e = (omega arith, e)
    run_resolved-Accounts w u (some (retryable why)) c e = (refl, (omega arith, e))
    run_resolved-Accounts w u (some (Resolution.rejected why)) c e = (refl, (c, e))
    run_resolved-Accounts w u (some (ready path i)) c e =
        run_ready-Accounts path i (record w { world = u }) c e

    run_target-Accounts :
        (t : Option CoverTarget) (w : Worker W)
        → calls w.world ≡ n
        → w.last_committed ≡ before
        → Accounts g mode n before (run_target s g t mode w)
    run_target-Accounts none w c e = run_revert-Accounts w c e
    run_target-Accounts (some t) w c e =
        run_resolved-Accounts w (s.resolve t.art_url t.covers_dir w.world).0
          (s.resolve t.art_url t.covers_dir w.world).1 (law.by_resolve _ _ w.world ∙ c) e

-- Whatever the other threads do meanwhile: a job that ends as committed called wlchroma-ctl exactly
-- once, and the worker now remembers the preset or one cover in the job's mode; a superseded, a
-- skipped and a rejected job called it never, a failed or panicked one at most once, and all of
-- those leave the memory as it was. A result always carries the job's own generation.
pub run_once-Accounts :
    {W : Type 0} (s : Stages W) (calls : W → ℕ) (job : Job) (w : Worker W)
    → CountsCtl s calls
    → Accounts s calls job.generation job.desired.mode
        (calls w.world)
        w.last_committed
        (run_once s job w)
unfolding run_once
run_once-Accounts s calls job w law =
    run_target-Accounts s calls law job.generation job.desired.mode (calls w.world) w.last_committed
      job.desired.target w refl refl
