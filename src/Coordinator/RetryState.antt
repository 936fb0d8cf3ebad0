-- ===== src/Coordinator/RetryState.antt =====
-- The retry and dedup keys of src/coordinator.rs: the desire being retried and the one last
-- submitted never differ from the one last decided.
use mpris_chroma.Prelude.{◌+◌, ◌≡◌, refl, Bool, false, ◌⊎◌, inl, Option, none, some, List, arith}
use mpris_chroma.Prelude.Text.{Str, FilePath}
use mpris_chroma.State.{Mode, PlaybackStatus}
use mpris_chroma.Job.{
  Desired, Outcome, committed, skipped_duplicate, failed_retryable, rejected, opt_desired_eq_iff,
}
use mpris_chroma.Coordinator.{Host, Coordinator, new}
use mpris_chroma.Coordinator.Submit.{
  set_cover_status, cancel_retry, submit_job, submit_new, maybe_submit, arm_retry,
}
use mpris_chroma.Coordinator.Handlers.{
  note_player, maintain_cover, log_drop, begin_shutdown, fire_retry, transition,
}
use mpris_chroma.Coordinator.Run.{Input, run, Keeps, keeps-run}

module _ {H : Type 0} where
  pub record KeysAgree (c : Coordinator H) : Type 0 where
    pub submitted : (c.last_submitted ≡ none) ⊎ (c.last_submitted ≡ c.last_desired)
    pub retried : (c.retry_desire ≡ none) ⊎ (c.retry_desire ≡ c.last_desired)

module _ {H : Type 0} ⦃h : Host H⦄ where
  submit_new-KeysAgree :
      (d : Desired) (p : Option Str) (c : Coordinator H)
      → c.last_desired ≡ some d
      → KeysAgree (submit_new d p c)
  unfolding submit_new cancel_retry submit_job
  submit_new-KeysAgree d p c e = ground arith

  maybe_submit-KeysAgree :
      (d : Desired) (p : Option Str) (b : Bool) (c : Coordinator H)
      → KeysAgree c
      → KeysAgree (maybe_submit d p b c)
  unfolding maybe_submit submit_job
  maybe_submit-KeysAgree d p b c k = ground (
    arith,
    opt_desired_eq_iff c.last_submitted (some d),
    submit_new-KeysAgree d p (record c { last_desired = some d }),
  )

  log_drop-KeysAgree :
      (cat detail : Str) (c : Coordinator H) → KeysAgree c → KeysAgree (log_drop cat detail c)
  unfolding log_drop
  log_drop-KeysAgree cat detail c k = ground arith

  noted-KeysAgree :
      (n : Str) (s : PlaybackStatus) (a : Str) (c : Coordinator H)
      → KeysAgree c
      → KeysAgree (maintain_cover n a (note_player n s a c))
  unfolding maintain_cover note_player
  noted-KeysAgree n s a c k = ground arith

  transition-KeysAgree :
      (o : Outcome) (id : Option Str) (c : Coordinator H)
      → KeysAgree c
      → KeysAgree (transition o id c)
  unfolding arm_retry set_cover_status
  transition-KeysAgree committed id c k = ground arith
  transition-KeysAgree skipped_duplicate id c k = ground arith
  transition-KeysAgree failed_retryable id c k = ground arith
  transition-KeysAgree rejected id c k = ground arith

  begin_shutdown-KeysAgree : (c : Coordinator H) → KeysAgree c → KeysAgree (begin_shutdown c)
  unfolding begin_shutdown cancel_retry
  begin_shutdown-KeysAgree c k = ground arith

  fire_retry-KeysAgree : (c : Coordinator H) → KeysAgree c → KeysAgree (fire_retry c)
  unfolding fire_retry submit_job
  fire_retry-KeysAgree c k = ground arith

  pub keeps-KeysAgree : Keeps {H = H} KeysAgree
  keeps-KeysAgree = record {
    events = record {
      logged = log_drop-KeysAgree;
      noted = noted-KeysAgree;
      vanished = λ n c k. record { submitted = k.submitted; retried = k.retried };
      schemed = λ m c k. record { submitted = k.submitted; retried = k.retried };
      submitted = maybe_submit-KeysAgree;
      transitioned = λ o id c _ k. transition-KeysAgree o id c k;
      stopped = begin_shutdown-KeysAgree;
    };
    fired = fire_retry-KeysAgree;
  }

  pub new-KeysAgree :
      (host : H) (dirs : Str → Option FilePath) (mode : Mode) (bases : Str)
      → KeysAgree (new host dirs mode bases)
  unfolding new
  new-KeysAgree host dirs mode bases = record { submitted = inl refl; retried = inl refl }

  pub run-new-KeysAgree :
      (host : H) (dirs : Str → Option FilePath) (mode : Mode) (bases : Str) (is : List Input)
      → KeysAgree (run is (new host dirs mode bases))
  run-new-KeysAgree host dirs mode bases is =
      keeps-run (KeysAgree {H = H}) keeps-KeysAgree is _ (new-KeysAgree host dirs mode bases)

  pub KeysAgree-fire_retry :
      (c : Coordinator H) (d : Desired)
      → KeysAgree c
      → c.stopping ≡ false
      → c.retry_desire ≡ some d
      → fire_retry c
        ≡ submit_job d (record c {
          retry_timer = none;
          generation = c.generation + 1;
          submitted_player = c.retry_player;
        })
  unfolding fire_retry
  KeysAgree-fire_retry c d k running e =
      let same : c.last_desired ≡ some d = ground arith in
      rw (running, e, (opt_desired_eq_iff c.last_desired (some d)).1 same)

  -- The second guard of `fire_retry` never turns a retry away: in every state that any sequence of
  -- inputs reaches from `new`, if the coordinator is not stopping and a desire is being retried,
  -- the timer resubmits that desire for the retried player under the next generation.
  pub fire_retry_resubmits :
      (host : H) (dirs : Str → Option FilePath) (mode : Mode) (bases : Str) (is : List Input)
      (d : Desired)
      → let c = run is (new host dirs mode bases) in
        c.stopping ≡ false
        → c.retry_desire ≡ some d
        → fire_retry c
          ≡ submit_job d (record c {
            retry_timer = none;
            generation = c.generation + 1;
            submitted_player = c.retry_player;
          })
  fire_retry_resubmits host dirs mode bases is d running e =
      KeysAgree-fire_retry _ d (run-new-KeysAgree host dirs mode bases is) running e
