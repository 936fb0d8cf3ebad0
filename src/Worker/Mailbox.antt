-- ===== src/Worker/Mailbox.antt =====
-- src/worker.rs, `Mailbox`: one slot, replaced by each put. `get` blocks while the slot is empty
-- and no stop was asked for; one look at the slot under the lock is a `poll`.
use mpris_chroma.Prelude.{
  ℕ, ◌<◌, ◌≡◌, ◌↔◌, Bool, true, false, Option, none, some, List, [], ◌∷◌, ◌++◌, ltb, arith,
}
use mpris_chroma.Job.{Job}

abbrev pub Slot : Type 0
Slot = Option Job

unfoldable pub put : Job → Slot → Slot
put job slot = some job

pub data Poll : Type 0 where
  blocked : Poll
  returned : Option Job → Poll

unfoldable pub poll : Bool → Slot → Poll × Slot
poll true slot = (returned none, none)
poll false none = (blocked, none)
poll false (some job) = (returned (some job), none)

unfoldable pub clear : Slot → Slot
clear slot = none

unfoldable pub superseded : ℕ → Slot → Bool
superseded generation none = false
superseded generation (some job) = ltb generation job.generation

pub put_all : List Job → Slot → Slot
put_all [] slot = slot
put_all (job ∷ jobs) slot = put_all jobs (put job slot)

-- Coalescing: after any puts in a row the consumer receives the last job and nothing else, and the
-- slot is empty then; a job in hand is superseded exactly when that last job is strictly newer, so
-- a resubmit under the same generation does not preempt it.
pub put_all-poll :
    (jobs : List Job) (job : Job) (slot : Slot) (generation : ℕ)
    → (poll false (put_all (jobs ++ job ∷ []) slot) ≡ (returned (some job), none))
      × ((superseded generation (put_all (jobs ++ job ∷ []) slot) ≡ true)
          ↔ (generation < job.generation))
unfolding put_all put poll superseded
put_all-poll [] job slot g = ground arith
put_all-poll (j ∷ jobs) job slot g = put_all-poll jobs job (some j) g
