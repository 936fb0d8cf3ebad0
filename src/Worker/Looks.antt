-- ===== src/Worker/Looks.antt =====
-- src/worker.rs: the last look at the mailbox before each call of wlchroma-ctl.
use mpris_chroma.Prelude.{
  ℕ, ◌≡◌, refl, inl, inr, Bool, true, false, not, Option, none, some, if◌then◌else◌, Bool-cases,
}
use mpris_chroma.Prelude.Text.{Str, FilePath}
use mpris_chroma.State.{Mode}
use mpris_chroma.Job.{CoverTarget, Job}
use mpris_chroma.Cover.{ContentId, Resolution, ready}
use mpris_chroma.Worker.Mailbox.{superseded}
use mpris_chroma.Worker.{
  Colors, CtlResult, done, ctl_error, Committed, preset, cover, already, Stages, Worker, Ending,
  after_ctl, unless_superseded, run_revert, apply_colors, run_ready, run_resolved, run_target,
  run_once,
}

-- The stages, with a flag in the world that tells whether the last thing the worker did was to look at
-- the mailbox and find no job newer than `g`. What other threads do after the look leaves it as it
-- is. A ctl call without the flag is refused.
abbrev pub watched : {W : Type 0} → ℕ → Stages W → Stages (W × Bool)
watched g s = record {
  resolve = λ url dir w. let (u, r) = s.resolve url dir w.0 in ((u, false), r);
  extract = λ path mode id w. let (u, r) = s.extract path mode id w.0 in ((u, false), r);
  apply = λ colors w.
      if w.1 then (let (u, r) = s.apply colors w.0 in ((u, false), r)) else ((w.0, false), none);
  revert =
      λ w. if w.1 then (let (u, r) = s.revert w.0 in ((u, false), r)) else ((w.0, false), none);
  interlude = λ w. let u = s.interlude w.0 in (u, not (superseded g (s.slot u)));
  released = λ w. (s.released w.0, w.1);
  slot = λ w. s.slot w.0;
}

-- The worker without the flag, and what a job ends with.
abbrev pub forget : {W : Type 0} → Worker (W × Bool) → Worker W
forget w = record { world = w.world.0; last_committed = w.last_committed }

abbrev pub forgotten : {W : Type 0} → Worker (W × Bool) × Ending → Worker W × Ending
forgotten (w, e) = (forget w, e)

module _ {W : Type 0} (s : Stages W) (g : ℕ) where
  unless_superseded-watched :
      (w : Worker (W × Bool)) (go' : Worker (W × Bool) → Worker (W × Bool) × Ending)
      (go : Worker W → Worker W × Ending)
      → ((u : W)
          → forgotten (go' (record w { world = (u, true) }))
            ≡ go (record { world = u; last_committed = w.last_committed }))
      → forgotten (unless_superseded (watched g s) g w go') ≡ unless_superseded s g (forget w) go
  unless_superseded-watched w go' go h =
      elim (Bool-cases (superseded g (s.slot (s.interlude w.world.0)))) [
        | inl t ↦ rw t refl
        | inr f ↦ rw f (h (s.released (s.interlude w.world.0)))
      ]

  after_ctl-forgotten :
      (key : Committed) (id : Option Str) (w : Worker (W × Bool)) (u : W) (b : Bool)
      (r : Option CtlResult)
      → forgotten (after_ctl (watched g s) g key id w ((u, b), r))
        ≡ after_ctl s g key id (forget w) (u, r)
  after_ctl-forgotten key id w u b none = refl
  after_ctl-forgotten key id w u b (some (ctl_error e)) = refl
  after_ctl-forgotten key id w u b (some done) = refl

  run_revert-watched :
      (mode : Mode) (w : Worker (W × Bool))
      → forgotten (run_revert (watched g s) g mode w) ≡ run_revert s g mode (forget w)
  unfolding run_revert
  run_revert-watched mode w = elim (Bool-cases (already (preset mode) w.last_committed)) [
    | inl t ↦ rw t refl
    | inr f ↦ rw f (
        unless_superseded-watched w
          (λ v. after_ctl (watched g s) g (preset mode) none v ((watched g s).revert v.world))
          (λ v. after_ctl s g (preset mode) none v (s.revert v.world))
          (λ u.
            after_ctl-forgotten (preset mode) none (record w { world = (u, true) }) (s.revert u).0
              false (s.revert u).1))
  ]

  apply_colors-watched :
      (path : FilePath) (key : Committed) (w : Worker (W × Bool)) (u : W) (b : Bool)
      (o : Option Colors)
      → forgotten (apply_colors (watched g s) g path key w ((u, b), o))
        ≡ apply_colors s g path key (forget w) (u, o)
  apply_colors-watched path key w u b none = refl
  apply_colors-watched path key w u b (some colors) =
      unless_superseded-watched (record w { world = (u, b) })
        (λ v. after_ctl (watched g s) g key (some path) v ((watched g s).apply colors v.world))
        (λ v. after_ctl s g key (some path) v (s.apply colors v.world))
        (λ v.
          after_ctl-forgotten key (some path) (record w { world = (v, true) }) (s.apply colors v).0
            false (s.apply colors v).1)

  run_ready-watched :
      (mode : Mode) (path : FilePath) (id : ContentId) (w : Worker (W × Bool))
      → forgotten (run_ready (watched g s) g mode path id w) ≡ run_ready s g mode path id (forget w)
  unfolding run_ready
  run_ready-watched mode path id w = elim (Bool-cases (already (cover id mode) w.last_committed)) [
    | inl t ↦ rw t refl
    | inr f ↦ rw f (
        unless_superseded-watched w
          (λ v.
            apply_colors (watched g s) g path (cover id mode) v
              ((watched g s).extract path mode id v.world))
          (λ v. apply_colors s g path (cover id mode) v (s.extract path mode id v.world))
          (λ u.
            apply_colors-watched path (cover id mode) (record w { world = (u, true) })
              (s.extract path mode id u).0 false (s.extract path mode id u).1))
  ]

  run_resolved-watched :
      (mode : Mode) (w : Worker (W × Bool)) (u : W) (b : Bool) (o : Option Resolution)
      → forgotten (run_resolved (watched g s) g mode w ((u, b), o))
        ≡ run_resolved s g mode (forget w) (u, o)
  run_resolved-watched mode w u b none = refl
  run_resolved-watched mode w u b (some (ready path id)) =
      run_ready-watched mode path id (record w { world = (u, b) })
  run_resolved-watched mode w u b (some (Resolution.retryable why)) = refl
  run_resolved-watched mode w u b (some (Resolution.rejected why)) = refl

  run_target-watched :
      (t : Option CoverTarget) (mode : Mode) (w : Worker (W × Bool))
      → forgotten (run_target (watched g s) g t mode w) ≡ run_target s g t mode (forget w)
  run_target-watched none mode w = run_revert-watched mode w
  run_target-watched (some t) mode w =
      run_resolved-watched mode w (s.resolve t.art_url t.covers_dir w.world.0).0 false
        (s.resolve t.art_url t.covers_dir w.world.0).1

-- Guarantee (b), up to the release of the lock: each time the worker calls wlchroma-ctl for a job, the
-- last thing it did was to look at the mailbox under the lock, after all its other stages, and it
-- found no strictly newer job there. Refusing every call of which this does not hold changes
-- nothing in any run, whatever the other threads do before the look and after it. A job that is
-- put after the look does not stop the call.
pub run_once-watched :
    {W : Type 0} (s : Stages W) (job : Job) (w : Worker (W × Bool))
    → forgotten (run_once (watched job.generation s) job w) ≡ run_once s job (forget w)
unfolding run_once
run_once-watched s job w = run_target-watched s job.generation job.desired.target job.desired.mode w
