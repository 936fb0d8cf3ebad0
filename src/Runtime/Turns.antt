-- ===== src/Runtime/Turns.antt =====
-- src/runtime.rs: what has to be checked for a property to hold however long the loop runs.
use mpris_chroma.Prelude.{ℕ, Option, none, some, List, [], ◌∷◌, if_cases}
use mpris_chroma.Coordinator.{Coordinator}
use mpris_chroma.Coordinator.Run.{
  KeepsEvents, keeps-on_line, keeps-on_vanish, keeps-on_scheme, keeps-adopt,
}
use mpris_chroma.Runtime.{
  Event, LoopExit, Next, Floats, RuntimeHost, runtime_host, Turn, meanwhile, elapse, fire_due_timer,
  dispatch, after_event, turn, go_on, run_loop,
}

-- What holds of the state a run goes on from, and is made to hold by every turn from there, holds of
-- every run's end.
module _ ⦃f : Floats⦄ (Q : Coordinator RuntimeHost × Option LoopExit → Type 0) where
  go_on_lem :
      (rest : Coordinator RuntimeHost → Coordinator RuntimeHost × Option LoopExit)
      (out : Coordinator RuntimeHost × Option LoopExit)
      → ((c : Coordinator RuntimeHost) → Q (c, none) → Q (rest c))
      → Q out
      → Q (go_on rest out)
  go_on_lem rest (c, some why) k q = q
  go_on_lem rest (c, none) k q = k c q

  pub run_loop_induction :
      ((t : Turn) (c : Coordinator RuntimeHost) → Q (c, none) → Q (turn t c))
      → (ts : List Turn) (c : Coordinator RuntimeHost) → Q (c, none)
      → Q (run_loop ts c)
  unfolding run_loop
  run_loop_induction each [] c q = q
  run_loop_induction each (t ∷ ts) c q =
      go_on_lem (run_loop ts) (turn t c) (run_loop_induction each ts) (each t c q)

-- The coordinator is kept by the daemon's handlers, by the timer, and by time and the worker.
pub record KeepsTurns ⦃f : Floats⦄ (P : Coordinator RuntimeHost → Type 0) : Type 0 where
  pub events : KeepsEvents P
  pub fires : (c : Coordinator RuntimeHost) → P c → P (fire_due_timer c)
  pub waits :
      (t : Turn) (c : Coordinator RuntimeHost) → P c → P (record c { host = meanwhile t c.host })
  pub elapses :
      (ns : ℕ) (c : Coordinator RuntimeHost) → P c → P (record c { host = elapse ns c.host })

module _ ⦃f : Floats⦄ (P : Coordinator RuntimeHost → Type 0) (k : KeepsTurns P) where
  keeps-dispatch : (n : Next) (c : Coordinator RuntimeHost) → P c → P (dispatch n c).0
  unfolding dispatch
  keeps-dispatch Next.timeout c p = p
  keeps-dispatch Next.disconnected c p = p
  keeps-dispatch (Next.event (Event.line text)) c p = keeps-on_line P k.events text c p
  keeps-dispatch (Next.event (Event.oversize detail)) c p = k.events.logged _ detail c p
  keeps-dispatch (Next.event (Event.vanish name)) c p = keeps-on_vanish P k.events name c p
  keeps-dispatch (Next.event (Event.scheme value)) c p = keeps-on_scheme P k.events value c p
  keeps-dispatch (Next.event (Event.scheme_malformed detail)) c p = k.events.logged _ detail c p
  keeps-dispatch (Next.event (Event.worker result)) c p = keeps-adopt P k.events result c p
  keeps-dispatch (Next.event Event.hangup) c p = p
  keeps-dispatch (Next.event Event.shutdown) c p = p

  keeps-after_event :
      (busy : ℕ) (out : Coordinator RuntimeHost × Option LoopExit)
      → P out.0
      → P (after_event busy out).0
  keeps-after_event busy (c, some why) p = p
  keeps-after_event busy (c, none) p =
      let q = k.fires _ (k.elapses busy c p) in
      if_cases {A = Coordinator RuntimeHost × Option LoopExit} (λ o. P o.0)
        (fire_due_timer (record c { host = elapse busy c.host })).host.worker_dead _ _ (λ _. q)
        (λ _. q)

  pub keeps-turn : (t : Turn) (c : Coordinator RuntimeHost) → P c → P (turn t c).0
  unfolding turn
  keeps-turn t c p =
      keeps-after_event t.busy (dispatch t.next (record c { host = meanwhile t c.host }))
        (keeps-dispatch t.next _ (k.waits t c p))

  pub keeps-run_loop : (ts : List Turn) (c : Coordinator RuntimeHost) → P c → P (run_loop ts c).0
  keeps-run_loop = run_loop_induction (λ out. P out.0) keeps-turn
