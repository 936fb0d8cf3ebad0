-- ===== src/Runtime.antt =====
-- src/runtime.rs: the host the coordinator has in the daemon, and the loop that feeds it events.
-- The loop runs over a script of turns: what waiting for an event produced, and what the clock and
-- the worker's thread did meanwhile. The script ends where the loop would wait on.
pub mod Turns
pub mod Timer
pub mod Settling
pub mod Retry
mod Tests
use mpris_chroma.Prelude.{
  ℕ, ◌+◌, ◌*◌, ◌^◌, ◌/◌, ◌%◌, Bool, true, false, not, Option, none, some, List, [], ◌∷◌, ltb, leb,
  ◌==◌, if◌then◌else◌, bit_xor,
}
use mpris_chroma.Prelude.Text.{Str, codes}
use mpris_chroma.Job.{Job, JobResult}
use mpris_chroma.Worker.Mailbox.{Slot, put}
use mpris_chroma.Coordinator.{Host, Coordinator}
use mpris_chroma.Coordinator.Handlers.{on_line, log_drop, on_vanish, on_scheme, adopt, fire_retry}

pub data Event : Type 0 where
  line : Str → Event
  oversize : Str → Event
  hangup : Event
  vanish : Str → Event
  scheme : ℕ → Event
  scheme_malformed : Str → Event
  worker : JobResult → Event
  shutdown : Event

pub data LoopExit : Type 0 where
  shutdown : LoopExit
  hangup : LoopExit
  worker_died : LoopExit
  disconnected : LoopExit

pub data Next : Type 0 where
  event : Event → Next
  timeout : Next
  disconnected : Next

-- The floating-point products: `1.0 - RETRY_JITTER + 2.0 * RETRY_JITTER * unit` of the numerator of
-- `unit`, and `(capped as f64 * jitter) as u64`. A jitter is the bits of its `f64`.
pub record Floats : Type 0 where
  pub jitter_of : ℕ → ℕ
  pub delay_of : ℕ → ℕ → ℕ

-- The turn of `default_jitter`'s generator.
unfoldable pub xorshift : ℕ → ℕ
xorshift state =
    let a = bit_xor state (state * 2 ^ 13 % 2 ^ 64) in
    let b = bit_xor a (a / 2 ^ 7) in bit_xor b (b * 2 ^ 17 % 2 ^ 64)

-- `timer` is the armed timer with the nanosecond it is due; `clock` is `Instant::now() - start`.
pub record RuntimeHost : Type 0 where
  pub mailbox : Slot
  pub worker_alive : Bool
  pub timer : Option (ℕ × ℕ)
  pub next_timer : ℕ
  pub clock : ℕ
  pub jitter : ℕ
  pub worker_dead : Bool

abbrev pub timer_id : Option (ℕ × ℕ) → Option ℕ
timer_id none = none
timer_id (some (id, due)) = some id

-- A cancelled timer stays armed unless it is the one named.
abbrev pub cancelled : ℕ → Option (ℕ × ℕ) → Option (ℕ × ℕ)
cancelled timer none = none
cancelled timer (some (id, due)) = if id == timer then none else some (id, due)

abbrev pub ns_per_ms : ℕ
ns_per_ms = 1000000

instance abbrev pub runtime_host : ⦃f : Floats⦄ → Host RuntimeHost
runtime_host ⦃f⦄ = record {
  submit = λ g d host.
      if host.worker_alive
      then record host { mailbox = put (record { generation = g; desired = d }) host.mailbox }
      else record host { worker_dead = true };
  schedule_retry = λ delay_ms host. (
    record host {
      next_timer = host.next_timer + 1;
      timer = some (host.next_timer + 1, host.clock + delay_ms * ns_per_ms);
    },
    host.next_timer + 1,
  );
  cancel_timer = λ timer host. record host { timer = cancelled timer host.timer };
  jitter = λ host.
      (record host { jitter = xorshift host.jitter }, f.jitter_of (xorshift host.jitter / 2 ^ 11));
  now = λ host. host.clock;
  warn = λ w host. host;
  delay_of = f.delay_of;
}

-- `RuntimeHost::new`, with the generator's seed.
unfoldable pub new_host : ℕ → RuntimeHost
new_host seed = record {
  mailbox = none;
  worker_alive = true;
  timer = none;
  next_timer = 0;
  clock = 0;
  jitter = seed;
  worker_dead = false;
}

-- While the loop waits: the time that passes, and whether the worker takes the pending job or dies.
-- `busy` is the time from the event to the look at the timer.
pub record Turn : Type 0 where
  pub waited : ℕ
  pub takes : Bool
  pub dies : Bool
  pub next : Next
  pub busy : ℕ

abbrev pub meanwhile : Turn → RuntimeHost → RuntimeHost
meanwhile t host = record host {
  clock = host.clock + t.waited;
  mailbox = if t.takes then none else host.mailbox;
  worker_alive = if t.dies then false else host.worker_alive;
}

abbrev pub elapse : ℕ → RuntimeHost → RuntimeHost
elapse ns host = record host { clock = host.clock + ns }

module _ ⦃f : Floats⦄ where
  abbrev pub fire_due : Option (ℕ × ℕ) → Coordinator RuntimeHost → Coordinator RuntimeHost
  fire_due none c = c
  fire_due (some (id, due)) c =
      if leb due c.host.clock
      then fire_retry (record c { host = record c.host { timer = none } })
      else c

  unfoldable pub fire_due_timer : Coordinator RuntimeHost → Coordinator RuntimeHost
  fire_due_timer c = fire_due c.host.timer c

  -- The `match` of the loop: the coordinator that goes on, or why the loop returns.
  unfoldable pub dispatch :
      Next → Coordinator RuntimeHost → Coordinator RuntimeHost × Option LoopExit
  dispatch timeout c = (c, none)
  dispatch disconnected c = (c, some disconnected)
  dispatch (event (line text)) c = (on_line text c, none)
  dispatch (event (oversize detail)) c = (log_drop (codes "oversize") detail c, none)
  dispatch (event (vanish name)) c = (on_vanish name c, none)
  dispatch (event (scheme value)) c = (on_scheme value c, none)
  dispatch (event (scheme_malformed detail)) c = (log_drop (codes "scheme") detail c, none)
  dispatch (event (worker result)) c = (adopt result c, none)
  dispatch (event hangup) c = (c, some hangup)
  dispatch (event shutdown) c = (c, some shutdown)

  -- What follows the `match`.
  abbrev pub after_event :
      ℕ → Coordinator RuntimeHost × Option LoopExit → Coordinator RuntimeHost × Option LoopExit
  after_event busy (c, some why) = (c, some why)
  after_event busy (c, none) =
      let c1 = fire_due_timer (record c { host = elapse busy c.host }) in
      if c1.host.worker_dead then (c1, some worker_died) else (c1, none)

  unfoldable pub turn : Turn → Coordinator RuntimeHost → Coordinator RuntimeHost × Option LoopExit
  turn t c = after_event t.busy (dispatch t.next (record c { host = meanwhile t c.host }))

  -- The rest of the script is not run once the loop has returned.
  abbrev pub go_on :
      (Coordinator RuntimeHost → Coordinator RuntimeHost × Option LoopExit)
      → Coordinator RuntimeHost × Option LoopExit
      → Coordinator RuntimeHost × Option LoopExit
  go_on rest (c, some why) = (c, some why)
  go_on rest (c, none) = rest c

  unfoldable pub run_loop :
      List Turn → Coordinator RuntimeHost → Coordinator RuntimeHost × Option LoopExit
  run_loop [] c = (c, none)
  run_loop (t ∷ ts) c = go_on (run_loop ts) (turn t c)
