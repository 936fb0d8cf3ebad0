-- ===== src/Coordinator/Shutdown.antt =====
-- Shutdown in src/coordinator.rs: after `begin_shutdown` the coordinator hands out nothing more.
use mpris_chroma.Prelude.{ℕ, ◌≡◌, Bool, true, Option, none, List, arith}
use mpris_chroma.Prelude.Text.{Str}
use mpris_chroma.State.{PlaybackStatus}
use mpris_chroma.Job.{Desired, Job}
use mpris_chroma.Coordinator.{Coordinator}
use mpris_chroma.Coordinator.Submit.{cancel_retry, maybe_submit}
use mpris_chroma.Coordinator.Handlers.{
  note_player, maintain_cover, log_drop, begin_shutdown, fire_retry,
}
use mpris_chroma.Coordinator.Run.{Input, run, Keeps, keeps-run}
use mpris_chroma.Coordinator.Fake.{FakeHost, fake_host}

record IsStopped (js : List Job) (delays : List ℕ) (c : Coordinator FakeHost) : Type 0 where
  stopping : c.stopping ≡ true
  disarmed : c.retry_timer ≡ none
  submitted : c.host.submitted ≡ js
  scheduled : c.host.scheduled ≡ delays

module _ (js : List Job) (delays : List ℕ) where
  log_drop-IsStopped :
      (cat detail : Str) (c : Coordinator FakeHost)
      → IsStopped js delays c
      → IsStopped js delays (log_drop cat detail c)
  unfolding log_drop
  log_drop-IsStopped cat detail c s = ground arith

  noted-IsStopped :
      (n : Str) (st : PlaybackStatus) (a : Str) (c : Coordinator FakeHost)
      → IsStopped js delays c
      → IsStopped js delays (maintain_cover n a (note_player n st a c))
  unfolding maintain_cover note_player
  noted-IsStopped n st a c s = ground arith

  maybe_submit-IsStopped :
      (d : Desired) (p : Option Str) (b : Bool) (c : Coordinator FakeHost)
      → IsStopped js delays c
      → IsStopped js delays (maybe_submit d p b c)
  unfolding maybe_submit
  maybe_submit-IsStopped d p b c s = ground arith

  stop-IsStopped :
      (c : Coordinator FakeHost) → IsStopped js delays c → IsStopped js delays (begin_shutdown c)
  unfolding begin_shutdown cancel_retry
  stop-IsStopped c s = ground arith

  fire_retry-IsStopped :
      (c : Coordinator FakeHost) → IsStopped js delays c → IsStopped js delays (fire_retry c)
  unfolding fire_retry
  fire_retry-IsStopped c s = ground arith

  keeps-IsStopped : Keeps (IsStopped js delays)
  keeps-IsStopped = record {
    events = record {
      logged = log_drop-IsStopped;
      noted = noted-IsStopped;
      vanished = λ n c s. record {
        stopping = s.stopping;
        disarmed = s.disarmed;
        submitted = s.submitted;
        scheduled = s.scheduled;
      };
      schemed = λ m c s. record {
        stopping = s.stopping;
        disarmed = s.disarmed;
        submitted = s.submitted;
        scheduled = s.scheduled;
      };
      submitted = maybe_submit-IsStopped;
      transitioned = λ o id c running s. absurd (cc (running, s.stopping));
      stopped = stop-IsStopped;
    };
    fired = fire_retry-IsStopped;
  }

begin_shutdown-IsStopped :
    (c : Coordinator FakeHost) → IsStopped c.host.submitted c.host.scheduled (begin_shutdown c)
unfolding begin_shutdown cancel_retry
begin_shutdown-IsStopped c = ground arith

-- Whatever arrives after `begin_shutdown`, from whatever state, no job is submitted, no retry is
-- scheduled, and no timer is armed.
pub shutdown_is_final :
    (c : Coordinator FakeHost) (is : List Input)
    → let after = run is (begin_shutdown c) in
      (after.host.submitted ≡ c.host.submitted)
      × (after.host.scheduled ≡ c.host.scheduled)
      × (after.retry_timer ≡ none)
shutdown_is_final c is =
    let s =
      keeps-run _ (keeps-IsStopped c.host.submitted c.host.scheduled) is _
        (begin_shutdown-IsStopped c) in
    (s.submitted, s.scheduled, s.disarmed)
