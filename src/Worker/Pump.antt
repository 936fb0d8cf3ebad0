-- ===== src/Worker/Pump.antt =====
-- src/worker.rs, `Worker::run` and the handle of its thread. A look is what the thread finds when it
-- gets the mailbox's lock, first or after a wait: what the other threads have done before, and
-- whether a stop was asked for. The loop runs over a script of looks; where that ends, it waits.
use mpris_chroma.Prelude.{
  ◌≡◌, refl, ap, Bool, true, false, Option, none, some, List, [], ◌∷◌, ◌++◌, if◌then◌else◌, All,
}
use mpris_chroma.Job.{JobResult}
use mpris_chroma.Worker.{Committed, Stages, Worker, serve}
use mpris_chroma.Worker.Mailbox.{Slot, Poll, blocked, returned, poll}

pub record Look (W : Type 0) : Type 0 where
  pub before : W → W
  pub stop : Bool

-- The worker, what it has reported, and whether its thread is still running.
pub record Pumped (W : Type 0) : Type 0 where
  pub worker : Worker W
  pub reports : List JobResult
  pub alive : Bool

abbrev pub reported_first : {W : Type 0} → Option JobResult → Pumped W → Pumped W
reported_first none p = p
reported_first (some result) p = record p { reports = result ∷ p.reports }

-- `WorkerHandle`: the flags that the two threads share, and whether the thread was joined.
pub record WorkerHandle : Type 0 where
  pub stop : Bool
  pub alive : Bool
  pub joined : Bool

-- `start`, where the thread can be spawned.
abbrev pub start : WorkerHandle
start = record { stop = false; alive = true; joined = false }

-- `ExitSignal::drop`, however the thread ends.
abbrev pub on_exit : WorkerHandle → WorkerHandle
on_exit h = record h { alive = false }

-- What `finished.recv_timeout` gives.
pub data Receipt : Type 0 where
  signalled : Receipt
  disconnected : Receipt
  timed_out : Receipt

abbrev pub is_done : Receipt → Bool
is_done signalled = true
is_done disconnected = true
is_done timed_out = false

-- `stop_and_join`, and what it returns.
unfoldable pub stop_and_join : Receipt → WorkerHandle → WorkerHandle × Bool
stop_and_join receipt h =
    if h.joined
    then (record h { stop = true }, true)
    else (record h { stop = true; joined = is_done receipt }, is_done receipt)

-- `store` writes the mailbox's slot.
module _ {W : Type 0} (s : Stages W) (store : Slot → W → W) where
  -- `Worker::new`.
  abbrev pub new_worker : Option Committed → W → Worker W
  new_worker initial_committed w = record { world = w; last_committed = initial_committed }

  -- What one look at the slot leads to.
  unfoldable pub after_look : (Worker W → Pumped W) → Worker W → Poll × Slot → Pumped W
  unfolding serve
  after_look onward w (blocked, slot) = onward w
  after_look onward w (returned none, slot) = record {
    worker = record w { world = store slot w.world };
    reports = [];
    alive = false;
  }
  after_look onward w (returned (some job), slot) =
      let (w1, result) = serve s job (record w { world = store slot w.world }) in
      reported_first result (onward w1)

  -- `run`.
  unfoldable pub run : List (Look W) → Worker W → Pumped W
  unfolding after_look poll
  run [] w = record { worker = w; reports = []; alive = true }
  run (look ∷ looks) w =
      let w1 = record w { world = look.before w.world } in
      after_look (λ v. run looks v) w1 (poll look.stop (s.slot w1.world))

  -- The slot that is written is the slot that is read.
  module _ (law : (slot : Slot) (w : W) → s.slot (store slot w) ≡ slot) where
    Halts : Pumped W → Pumped W → Type 0
    Halts before after =
        (before.alive ≡ true)
        × (after.alive ≡ false)
        × (after.reports ≡ before.reports)
        × (s.slot after.worker.world ≡ none)

    reported_first-Halts :
        (result : Option JobResult) (p q : Pumped W)
        → Halts p q
        → Halts (reported_first result p) (reported_first result q)
    unfolding Halts
    reported_first-Halts none p q h = h
    reported_first-Halts (some r) p q (a, b, c, d) = (a, b, ap (◌∷◌ r) c, d)

    after_look-Halts :
        (f g : Worker W → Pumped W)
        → ((v : Worker W) → Halts (f v) (g v))
        → (w : Worker W) (slot : Slot)
        → Halts (after_look f w (poll false slot)) (after_look g w (poll false slot))
    unfolding after_look poll
    after_look-Halts f g h w none = h w
    after_look-Halts f g h w (some job) =
        let (w1, result) = serve s job (record w { world = store none w.world }) in
        reported_first-Halts result (f w1) (g w1) (h w1)

    -- As long as no look finds a stop, the thread runs on, whatever jobs fail or panic. The first
    -- look that finds one ends it: it reports nothing more, whatever would come after, and the
    -- mailbox is empty, also where a job was pending.
    pub run-Halts :
        (looks rest : List (Look W)) (last : Look W) (w : Worker W)
        → All (λ (look : Look W). look.stop ≡ false) looks
        → last.stop ≡ true
        → ((run looks w).alive ≡ true)
          × ((run (looks ++ last ∷ rest) w).alive ≡ false)
          × ((run (looks ++ last ∷ rest) w).reports ≡ (run looks w).reports)
          × (s.slot (run (looks ++ last ∷ rest) w).worker.world ≡ none)
    unfolding run Halts poll after_look
    run-Halts [] rest last w a stopped = rw stopped (refl, refl, refl, law none _)
    run-Halts (look ∷ looks) rest last w (f, a) stopped = rw f (
        after_look-Halts (λ v. run looks v) (λ v. run (looks ++ last ∷ rest) v)
          (λ v. run-Halts looks rest last v a stopped) (record w { world = look.before w.world })
          (s.slot (look.before w.world)))
