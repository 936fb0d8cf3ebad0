-- ===== src/Worker/Dedup.antt =====
-- src/worker.rs: the second layer of dedup, by content.
use mpris_chroma.Prelude.{ℕ, ◌≡◌, refl, true, Option, none, some, arith, ap, ◌∙◌, sym, if_cases}
use mpris_chroma.Prelude.Text.{Str, FilePath}
use mpris_chroma.State.{Mode}
use mpris_chroma.Job.{CoverTarget, committed, skipped_duplicate, Job}
use mpris_chroma.Cover.{ContentId, ready}
use mpris_chroma.Worker.Mailbox.{superseded}
use mpris_chroma.Worker.{
  Colors, CtlResult, done, ctl_error, Committed, cover, committed_eq_iff, already, Stages, Worker,
  Ending, report, after_ctl, apply_colors, run_ready, run_target, run_once,
}

already-some : (key : Committed) → already key (some key) ≡ true
already-some key = (committed_eq_iff key key).1 refl

module _ {W : Type 0} (s : Stages W) where
  skips_cover :
      (job : Job) (t : CoverTarget) (id : ContentId) (path : FilePath) (u : W) (w : Worker W)
      → job.desired.target ≡ some t
      → w.last_committed ≡ some (cover id job.desired.mode)
      → s.resolve t.art_url t.covers_dir w.world ≡ (u, some (ready path id))
      → run_once s job w
        ≡ (record w { world = u }, report job.generation skipped_duplicate (some path))
  unfolding run_once run_ready
  skips_cover job t id path u w e k r =
      rw (e, run_target, r, k, already-some (cover id job.desired.mode))

  -- The ending `out`, if it is a commit, leaves `key` in the memory.
  abbrev Remembers : ℕ → Committed → Worker W × Ending → Type 0
  Remembers g key out =
      (c : Option Str) → out.1 ≡ report g committed c → out.0.last_committed ≡ some key

  after_ctl-Remembers :
      (g : ℕ) (key : Committed) (c : Option Str) (w : Worker W) (out : W × Option CtlResult)
      → Remembers g key (after_ctl s g key c w out)
  after_ctl-Remembers g key c w (u, none) d e = ground arith
  after_ctl-Remembers g key c w (u, some (ctl_error m)) d e = ground arith
  after_ctl-Remembers g key c w (u, some done) d e = refl

  apply_colors-Remembers :
      (g : ℕ) (path : FilePath) (key : Committed) (w : Worker W) (out : W × Option Colors)
      → Remembers g key (apply_colors s g path key w out)
  apply_colors-Remembers g path key w (u, none) = λ d e. ground arith
  apply_colors-Remembers g path key w (u, some colors) =
      if_cases (Remembers g key) (superseded g (s.slot (s.interlude u))) _ _ (λ _ d e. ground arith)
        (λ _.
          after_ctl-Remembers g key (some path) (record w { world = s.released (s.interlude u) })
            (s.apply colors (s.released (s.interlude u))))

  run_ready-Remembers :
      (g : ℕ) (mode : Mode) (path : FilePath) (id : ContentId) (w : Worker W)
      → Remembers g (cover id mode) (run_ready s g mode path id w)
  unfolding run_ready
  run_ready-Remembers g mode path id w =
      if_cases (Remembers g (cover id mode)) (already (cover id mode) w.last_committed) _ _
        (λ _ d e. ground arith)
        (λ _.
          if_cases (Remembers g (cover id mode)) (superseded g (s.slot (s.interlude w.world))) _ _
            (λ _ d e. ground arith)
            (λ _.
              apply_colors-Remembers g path (cover id mode)
                (record w { world = s.released (s.interlude w.world) })
                (s.extract path mode id (s.released (s.interlude w.world)))))

  run_once-Remembers :
      (job : Job) (t : CoverTarget) (id : ContentId) (path : FilePath) (u : W) (w : Worker W)
      → job.desired.target ≡ some t
      → s.resolve t.art_url t.covers_dir w.world ≡ (u, some (ready path id))
      → Remembers job.generation (cover id job.desired.mode) (run_once s job w)
  unfolding run_once
  run_once-Remembers job t id path u w e r =
      rw (e, run_target, r)
        (run_ready-Remembers job.generation job.desired.mode path id (record w { world = u }))

  -- Dedup by content: once a job has committed a cover, the next job in the same mode whose target
  -- resolves to the same content, under whatever URL, path and generation, is skipped with the
  -- resolved path reported: nothing but its resolution touches the world, and the memory stays.
  pub same_cover_skipped :
      (first second : Job) (t1 t2 : CoverTarget) (id : ContentId) (p1 p2 : FilePath) (u1 u2 : W)
      (w w1 : Worker W) (c : Option Str)
      → first.desired.target ≡ some t1
      → second.desired.target ≡ some t2
      → second.desired.mode ≡ first.desired.mode
      → s.resolve t1.art_url t1.covers_dir w.world ≡ (u1, some (ready p1 id))
      → run_once s first w ≡ (w1, report first.generation committed c)
      → s.resolve t2.art_url t2.covers_dir w1.world ≡ (u2, some (ready p2 id))
      → run_once s second w1
        ≡ (record w1 { world = u2 }, report second.generation skipped_duplicate (some p2))
  same_cover_skipped first second t1 t2 id p1 p2 u1 u2 w w1 c e1 e2 m r1 ran r2 =
      let kept = run_once-Remembers first t1 id p1 u1 w e1 r1 c (ap (λ x. x.1) ran) in
      skips_cover second t2 id p2 u2 w1 e2
        (sym (ap (λ x. x.0.last_committed) ran) ∙ kept ∙ ap (λ n. some (cover id n)) (sym m)) r2
