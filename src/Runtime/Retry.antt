-- ===== src/Runtime/Retry.antt =====
-- src/runtime.rs: a retry that is due reaches the mailbox.
use mpris_chroma.Prelude.{
  ℕ, ◌+◌, ◌≤◌, ◌≡◌, Bool, true, false, Option, none, some, List, arith, leb, if_cases,
}
use mpris_chroma.Prelude.Text.{Str, FilePath}
use mpris_chroma.State.{Mode}
use mpris_chroma.Job.{Desired}
use mpris_chroma.Coordinator.{Coordinator, new}
use mpris_chroma.Coordinator.Submit.{submit_job}
use mpris_chroma.Coordinator.RetryState.{
  KeysAgree, keeps-KeysAgree, new-KeysAgree, KeysAgree-fire_retry,
}
use mpris_chroma.Worker.Mailbox.{put}
use mpris_chroma.Runtime.{
  timeout, Floats, RuntimeHost, runtime_host, new_host, Turn, meanwhile, elapse, fire_due,
  fire_due_timer, dispatch, turn, run_loop,
}
use mpris_chroma.Runtime.Turns.{KeepsTurns, keeps-run_loop}
use mpris_chroma.Runtime.Settling.{run_loop-Settled}

module _ ⦃f : Floats⦄ where
  keeps-KeysAgree_turns : KeepsTurns KeysAgree
  unfolding fire_due_timer
  keeps-KeysAgree_turns = record {
    events = keeps-KeysAgree.events;
    fires = λ c k. by_timer c.host.timer c k;
    waits = λ t c k. record { submitted = k.submitted; retried = k.retried };
    elapses = λ ns c k. record { submitted = k.submitted; retried = k.retried };
  }
    where
      by_timer :
          (o : Option (ℕ × ℕ)) (c : Coordinator RuntimeHost)
          → KeysAgree c
          → KeysAgree (fire_due o c)
      by_timer none c k = k
      by_timer (some (id, due)) c k =
          if_cases KeysAgree (leb due c.host.clock) _ _
            (λ _. keeps-KeysAgree.fired _ (record { submitted = k.submitted; retried = k.retried }))
            (λ _. k)

  -- A retry whose time has come is made: wherever the loop waits with a desire being retried, its
  -- timer armed, the coordinator not stopping and the worker alive, a timeout not before the timer
  -- is due leaves that desire in the mailbox under the next generation, and the loop goes on with
  -- no timer armed.
  pub due_retry_is_mailed :
      (seed : ℕ) (dirs : Str → Option FilePath) (mode : Mode) (bases : Str) (ts : List Turn)
      (d : Desired) (id due waited busy : ℕ) (takes : Bool)
      → let c = (run_loop ts (new (new_host seed) dirs mode bases)).0 in
        let t : Turn = record {
          waited = waited;
          takes = takes;
          dies = false;
          next = timeout;
          busy = busy;
        } in
        (run_loop ts (new (new_host seed) dirs mode bases)).1 ≡ none
        → c.stopping ≡ false
        → c.retry_desire ≡ some d
        → c.host.timer ≡ some (id, due)
        → c.host.worker_alive ≡ true
        → due ≤ c.host.clock + waited + busy
        → ((turn t c).1 ≡ none)
          × ((turn t c).0.host.mailbox
              ≡ some (record { generation = c.generation + 1; desired = d }))
          × ((turn t c).0.host.timer ≡ none)
  unfolding turn dispatch fire_due_timer put submit_job
  due_retry_is_mailed seed dirs mode bases ts d id due waited busy takes going running r armed alive
        h =
      let c = (run_loop ts (new (new_host seed) dirs mode bases)).0 in
      let k =
        keeps-run_loop KeysAgree keeps-KeysAgree_turns ts _ (new-KeysAgree _ dirs mode bases) in
      let s = run_loop-Settled seed dirs mode bases ts in
      let t : Turn = record {
        waited = waited;
        takes = takes;
        dies = false;
        next = timeout;
        busy = busy;
      } in
      let c1 : Coordinator RuntimeHost = record c {
        host = record (elapse busy (meanwhile t c.host)) { timer = none };
      } in
      let fired =
        KeysAgree-fire_retry c1 d (record { submitted = k.submitted; retried = k.retried }) running
          r in
      ground (arith, fired, s.alive going)
