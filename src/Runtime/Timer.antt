-- ===== src/Runtime/Timer.antt =====
-- src/runtime.rs: the coordinator and its host agree on the retry timer, over any run of the loop.
use mpris_chroma.Prelude.{ℕ, ◌≡◌, refl, Bool, Option, none, some, List, arith}
use mpris_chroma.Prelude.Text.{Str, FilePath}
use mpris_chroma.State.{Mode, PlaybackStatus}
use mpris_chroma.Job.{Desired, Outcome, committed, skipped_duplicate, failed_retryable, rejected}
use mpris_chroma.Coordinator.{Coordinator, new}
use mpris_chroma.Coordinator.Submit.{
  submit_job, submit_new, cancel_retry, maybe_submit, arm_retry, set_cover_status,
}
use mpris_chroma.Coordinator.Handlers.{
  note_player, maintain_cover, log_drop, transition, begin_shutdown, fire_retry,
}
use mpris_chroma.Runtime.{
  Floats, RuntimeHost, runtime_host, new_host, timer_id, Turn, fire_due, fire_due_timer, run_loop,
}
use mpris_chroma.Runtime.Turns.{KeepsTurns, keeps-run_loop}

-- The timer of the host is the one the coordinator believes to be armed.
abbrev IsTimed : Coordinator RuntimeHost → Type 0
IsTimed c = timer_id c.host.timer ≡ c.retry_timer

module _ ⦃f : Floats⦄ where
  log_drop-IsTimed :
      (cat detail : Str) (c : Coordinator RuntimeHost) → IsTimed c → IsTimed (log_drop cat detail c)
  unfolding log_drop
  log_drop-IsTimed cat detail c k = ground arith

  noted-IsTimed :
      (n : Str) (s : PlaybackStatus) (a : Str) (c : Coordinator RuntimeHost)
      → IsTimed c
      → IsTimed (maintain_cover n a (note_player n s a c))
  unfolding maintain_cover note_player
  noted-IsTimed n s a c k = ground arith

  cancel_retry-IsTimed : (c : Coordinator RuntimeHost) → IsTimed c → IsTimed (cancel_retry c)
  unfolding cancel_retry
  cancel_retry-IsTimed c k = ground arith

  maybe_submit-IsTimed :
      (d : Desired) (p : Option Str) (b : Bool) (c : Coordinator RuntimeHost)
      → IsTimed c
      → IsTimed (maybe_submit d p b c)
  unfolding maybe_submit submit_job submit_new cancel_retry
  maybe_submit-IsTimed d p b c k = ground arith

  transition-IsTimed :
      (o : Outcome) (id : Option Str) (c : Coordinator RuntimeHost)
      → IsTimed c
      → IsTimed (transition o id c)
  unfolding arm_retry set_cover_status
  transition-IsTimed committed id c k = ground arith
  transition-IsTimed skipped_duplicate id c k = ground arith
  transition-IsTimed failed_retryable id c k = ground arith
  transition-IsTimed rejected id c k = ground arith

  begin_shutdown-IsTimed : (c : Coordinator RuntimeHost) → IsTimed c → IsTimed (begin_shutdown c)
  unfolding begin_shutdown cancel_retry
  begin_shutdown-IsTimed c k = ground arith

  fire_due-IsTimed :
      (o : Option (ℕ × ℕ)) (c : Coordinator RuntimeHost) → IsTimed c → IsTimed (fire_due o c)
  unfolding fire_retry submit_job
  fire_due-IsTimed none c k = k
  fire_due-IsTimed (some (id, due)) c k = ground arith

  keeps-IsTimed : KeepsTurns IsTimed
  unfolding fire_due_timer
  keeps-IsTimed = record {
    events = record {
      logged = log_drop-IsTimed;
      noted = noted-IsTimed;
      vanished = λ n c k. k;
      schemed = λ m c k. k;
      submitted = maybe_submit-IsTimed;
      transitioned = λ o id c _ k. transition-IsTimed o id c k;
      stopped = begin_shutdown-IsTimed;
    };
    fires = λ c k. fire_due-IsTimed c.host.timer c k;
    waits = λ t c k. k;
    elapses = λ ns c k. k;
  }

  start-IsTimed :
      (seed : ℕ) (dirs : Str → Option FilePath) (mode : Mode) (bases : Str)
      → IsTimed (new (new_host seed) dirs mode bases)
  unfolding new new_host
  start-IsTimed seed dirs mode bases = refl

  -- In every state that the loop reaches from a new daemon, the timer armed in the host is exactly
  -- the one the coordinator remembers: none of them outlives or misses the other.
  pub timer_agrees :
      (seed : ℕ) (dirs : Str → Option FilePath) (mode : Mode) (bases : Str) (ts : List Turn)
      → let c = (run_loop ts (new (new_host seed) dirs mode bases)).0 in
        timer_id c.host.timer ≡ c.retry_timer
  timer_agrees seed dirs mode bases ts =
      keeps-run_loop IsTimed keeps-IsTimed ts _ (start-IsTimed seed dirs mode bases)
