-- ===== src/Runtime/Settling.antt =====
-- src/runtime.rs: how the loop stands whenever it waits again or returns.
use mpris_chroma.Prelude.{
  ℕ, ◌<◌, ◌≡◌, ◌↔◌, refl, true, false, Option, none, some, List, arith, if_cases,
}
use mpris_chroma.Prelude.Text.{Str, FilePath}
use mpris_chroma.State.{Mode}
use mpris_chroma.Coordinator.{Coordinator, new}
use mpris_chroma.Coordinator.Submit.{submit_job}
use mpris_chroma.Coordinator.Handlers.{fire_retry}
use mpris_chroma.Runtime.{
  Event, LoopExit, worker_died, Next, Floats, RuntimeHost, runtime_host, new_host, Turn, elapse,
  fire_due, fire_due_timer, dispatch, after_event, turn, run_loop,
}
use mpris_chroma.Runtime.Turns.{run_loop_induction}

module _ ⦃f : Floats⦄ where
  -- The timer lies in the future.
  abbrev pub IsAhead : Option (ℕ × ℕ) → ℕ → Type 0
  IsAhead o clock = (id due : ℕ) → o ≡ some (id, due) → clock < due

  -- What holds where the loop goes on or returns.
  pub record Settled (out : Coordinator RuntimeHost × Option LoopExit) : Type 0 where
    pub alive : out.1 ≡ none → out.0.host.worker_dead ≡ false
    pub died : (out.1 ≡ some worker_died) ↔ (out.0.host.worker_dead ≡ true)
    pub ahead : out.1 ≡ none → IsAhead out.0.host.timer out.0.host.clock

  fire_due-IsAhead :
      (o : Option (ℕ × ℕ)) (c : Coordinator RuntimeHost)
      → c.host.timer ≡ o
      → IsAhead (fire_due o c).host.timer (fire_due o c).host.clock
  unfolding fire_retry submit_job
  fire_due-IsAhead none c e = λ id due q. ground arith
  fire_due-IsAhead (some (i, d)) c e = ground arith

  goes_on-Settled : (c : Coordinator RuntimeHost) (busy : ℕ) → Settled (after_event busy (c, none))
  unfolding fire_due_timer
  goes_on-Settled c busy =
      let c1 = record c { host = elapse busy c.host } in
      let a = fire_due-IsAhead c1.host.timer c1 refl in
      if_cases Settled (fire_due_timer c1).host.worker_dead _ _
        (λ t. record {
          alive = λ e. ground arith;
          died = (λ _. t, λ _. refl);
          ahead = λ e. ground arith;
        })
        (λ q. record {
          alive = λ _. q;
          died = (λ e. ground arith, λ e. ground arith);
          ahead = λ _. a;
        })

  dispatch-Settled :
      (n : Next) (busy : ℕ) (c : Coordinator RuntimeHost)
      → c.host.worker_dead ≡ false
      → Settled (after_event busy (dispatch n c))
  unfolding dispatch
  dispatch-Settled Next.timeout busy c e = goes_on-Settled _ busy
  dispatch-Settled Next.disconnected busy c e = ground arith
  dispatch-Settled (Next.event (Event.line text)) busy c e = goes_on-Settled _ busy
  dispatch-Settled (Next.event (Event.oversize detail)) busy c e = goes_on-Settled _ busy
  dispatch-Settled (Next.event (Event.vanish name)) busy c e = goes_on-Settled _ busy
  dispatch-Settled (Next.event (Event.scheme value)) busy c e = goes_on-Settled _ busy
  dispatch-Settled (Next.event (Event.scheme_malformed detail)) busy c e = goes_on-Settled _ busy
  dispatch-Settled (Next.event (Event.worker result)) busy c e = goes_on-Settled _ busy
  dispatch-Settled (Next.event Event.hangup) busy c e = ground arith
  dispatch-Settled (Next.event Event.shutdown) busy c e = ground arith

  turn-Settled : (t : Turn) (c : Coordinator RuntimeHost) → Settled (c, none) → Settled (turn t c)
  unfolding turn
  turn-Settled t c s = dispatch-Settled t.next t.busy _ (s.alive refl)

  start-Settled :
      (seed : ℕ) (dirs : Str → Option FilePath) (mode : Mode) (bases : Str)
      → Settled (new (new_host seed) dirs mode bases, none)
  unfolding new new_host
  start-Settled seed dirs mode bases = record {
    alive = λ _. refl;
    died = (λ e. ground arith, λ e. ground arith);
    ahead = λ _ id due e. ground arith;
  }

  pub run_loop-Settled :
      (seed : ℕ) (dirs : Str → Option FilePath) (mode : Mode) (bases : Str) (ts : List Turn)
      → Settled (run_loop ts (new (new_host seed) dirs mode bases))
  run_loop-Settled seed dirs mode bases ts =
      run_loop_induction Settled turn-Settled ts _ (start-Settled seed dirs mode bases)
