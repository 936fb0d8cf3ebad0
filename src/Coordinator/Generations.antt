-- ===== src/Coordinator/Generations.antt =====
-- The generations of src/coordinator.rs: what the jobs handed to a recording host carry.
use mpris_chroma.Prelude.{
  ℕ, ◌+◌, ◌≤◌, ◌<◌, ◌≡◌, refl, Bool, ◌⊎◌, inl, inr, Option, none, some, List, [], ◌∷◌, arith, All,
  All-mono, Option-cases, subst, sym,
}
use mpris_chroma.Prelude.Text.{Str, FilePath}
use mpris_chroma.State.{Mode, PlaybackStatus}
use mpris_chroma.Job.{
  Desired, Job, Outcome, committed, skipped_duplicate, failed_retryable, rejected,
}
use mpris_chroma.Coordinator.{Coordinator, new}
use mpris_chroma.Coordinator.Submit.{
  set_cover_status, cancel_retry, submit_job, submit_new, maybe_submit, arm_retry, disarm,
}
use mpris_chroma.Coordinator.Handlers.{
  note_player, maintain_cover, log_drop, begin_shutdown, fire_retry, transition,
}
use mpris_chroma.Coordinator.Cases.{maybe_submit_cases, fire_retry_cases}
use mpris_chroma.Coordinator.Run.{Input, run, Keeps, keeps-run}
use mpris_chroma.Coordinator.RetryState.{KeysAgree, keeps-KeysAgree, new-KeysAgree}
use mpris_chroma.Coordinator.Fake.{FakeHost, fake_host, idle_host, start}

-- Newest first: generations never rise, and jobs of one generation ask for one value.
abbrev pub IsOrdered : List Job → Type 0
IsOrdered [] = Unit {0}
IsOrdered (j ∷ js) =
    All
      (λ k.
        (k.generation < j.generation) ⊎ ((k.generation ≡ j.generation) × (k.desired ≡ j.desired)))
      js
    × IsOrdered js

pub record JobsOk (js : List Job) (g : ℕ) (last : Option Desired) : Type 0 where
  pub bounded : All (λ j. j.generation ≤ g) js
  pub current : All (λ j. j.generation ≡ g → (last ≡ none) ⊎ (last ≡ some j.desired)) js
  pub ordered : IsOrdered js

abbrev job : ℕ → Desired → Job
job g d = record { generation = g; desired = d }

-- Facts about one job, for the passage from one bound to another.
JobsOk-reset : (js : List Job) (g : ℕ) (last : Option Desired) → JobsOk js g last → JobsOk js g none
JobsOk-reset js g last k = record {
  bounded = k.bounded;
  current = All-mono _ _ js (λ j h e. inl refl) k.current;
  ordered = k.ordered;
}

JobsOk-bump :
    (js : List Job) (g : ℕ) (last last' : Option Desired)
    → JobsOk js g last
    → JobsOk js (g + 1) last'
JobsOk-bump js g last last' k = record {
  bounded = All-mono _ _ js (λ j h. omega arith) k.bounded;
  current = All-mono _ _ js (λ j h e. absurd (omega arith)) k.bounded;
  ordered = k.ordered;
}

JobsOk-same :
    (js : List Job) (g : ℕ) (d : Desired) → JobsOk js g (some d) → JobsOk (job g d ∷ js) g (some d)
JobsOk-same js g d k = record {
  bounded = (omega arith, k.bounded);
  current = ((λ e. inr refl), k.current);
  ordered = (older js k.bounded k.current, k.ordered);
}
  where
    older :
        (ks : List Job)
        → All (λ j. j.generation ≤ g) ks
        → All (λ j. j.generation ≡ g → (some d ≡ none) ⊎ (some d ≡ some j.desired)) ks
        → All (λ j. (j.generation < g) ⊎ ((j.generation ≡ g) × (j.desired ≡ d))) ks
    older [] b c = tt
    older (j ∷ ks) b c = (ground (arith, c.0), older ks b.1 c.1)

JobsOk-next :
    (js : List Job) (g : ℕ) (last last' : Option Desired) (d : Desired)
    → (last' ≡ none) ⊎ (last' ≡ some d)
    → JobsOk js g last
    → JobsOk (job (g + 1) d ∷ js) (g + 1) last'
JobsOk-next js g last last' d ok k =
    let b = JobsOk-bump js g last last' k in
    record {
      bounded = (omega arith, b.bounded);
      current = ((λ e. ok), b.current);
      ordered = (All-mono _ _ js (λ j h. inl (omega arith)) k.bounded, k.ordered);
    }

pub record InStep (c : Coordinator FakeHost) : Type 0 where
  pub agree : KeysAgree c
  pub jobs : JobsOk c.host.submitted c.generation c.last_submitted

abbrev JobsOf : Coordinator FakeHost → Type 0
JobsOf c = JobsOk c.host.submitted c.generation c.last_submitted

submit_new-JobsOf :
    (d : Desired) (p : Option Str) (c : Coordinator FakeHost) → JobsOf c → JobsOf (submit_new d p c)
unfolding submit_new cancel_retry submit_job
submit_new-JobsOf d p c k = elim (Option-cases c.retry_timer) [
  | inl e ↦ rw (e, disarm) (JobsOk-next _ _ c.last_submitted _ d (inr refl) k)
  | inr (t, e) ↦ rw (e, disarm) (JobsOk-next _ _ c.last_submitted _ d (inr refl) k)
]

maybe_submit-JobsOf :
    (d : Desired) (p : Option Str) (b : Bool) (c : Coordinator FakeHost)
    → JobsOf c
    → JobsOf (maybe_submit d p b c)
unfolding submit_job
maybe_submit-JobsOf d p b c k =
    maybe_submit_cases JobsOf d p b c (λ _. k) (λ _ _. k)
      (λ _ e _ _.
        subst (λ l. JobsOk (job c.generation d ∷ c.host.submitted) c.generation l) (sym e)
          (JobsOk-same _ _ d (subst (JobsOk c.host.submitted c.generation) e k)))
      (λ _ _. submit_new-JobsOf d p (record c { last_desired = some d }) k)

log_drop-JobsOf :
    (cat detail : Str) (c : Coordinator FakeHost) → JobsOf c → JobsOf (log_drop cat detail c)
unfolding log_drop
log_drop-JobsOf cat detail c k = ground arith

noted-JobsOf :
    (n : Str) (s : PlaybackStatus) (a : Str) (c : Coordinator FakeHost)
    → JobsOf c
    → JobsOf (maintain_cover n a (note_player n s a c))
unfolding maintain_cover note_player
noted-JobsOf n s a c k = ground (arith, k, JobsOk-reset _ _ _ k)

transition-JobsOf :
    (o : Outcome) (id : Option Str) (c : Coordinator FakeHost)
    → JobsOf c
    → JobsOf (transition o id c)
unfolding set_cover_status arm_retry
transition-JobsOf committed id c k = k
transition-JobsOf skipped_duplicate id c k = k
transition-JobsOf failed_retryable id c k = ground (arith, k)
transition-JobsOf rejected id c k = k

begin_shutdown-JobsOf : (c : Coordinator FakeHost) → JobsOf c → JobsOf (begin_shutdown c)
unfolding begin_shutdown cancel_retry
begin_shutdown-JobsOf c k = ground (arith, JobsOk-bump _ _ _ c.last_submitted k)

fire_retry-JobsOf : (c : Coordinator FakeHost) → KeysAgree c → JobsOf c → JobsOf (fire_retry c)
unfolding submit_job
fire_retry-JobsOf c a k =
    fire_retry_cases JobsOf c k
      λ d _ _ e. JobsOk-next _ _ c.last_submitted _ d (ground (arith, a.submitted, e)) k

keeps-InStep : Keeps InStep
keeps-InStep = record {
  events = record {
    logged = λ cat detail c i. record {
      agree = keeps-KeysAgree.events.logged cat detail c i.agree;
      jobs = log_drop-JobsOf cat detail c i.jobs;
    };
    noted = λ n s a c i. record {
      agree = keeps-KeysAgree.events.noted n s a c i.agree;
      jobs = noted-JobsOf n s a c i.jobs;
    };
    vanished =
        λ n c i. record { agree = keeps-KeysAgree.events.vanished n c i.agree; jobs = i.jobs };
    schemed = λ m c i. record { agree = keeps-KeysAgree.events.schemed m c i.agree; jobs = i.jobs };
    submitted = λ d p b c i. record {
      agree = keeps-KeysAgree.events.submitted d p b c i.agree;
      jobs = maybe_submit-JobsOf d p b c i.jobs;
    };
    transitioned = λ o id c running i. record {
      agree = keeps-KeysAgree.events.transitioned o id c running i.agree;
      jobs = transition-JobsOf o id c i.jobs;
    };
    stopped = λ c i. record {
      agree = keeps-KeysAgree.events.stopped c i.agree;
      jobs = begin_shutdown-JobsOf c i.jobs;
    };
  };
  fired = λ c i. record {
    agree = keeps-KeysAgree.fired c i.agree;
    jobs = fire_retry-JobsOf c i.agree i.jobs;
  };
}

start-InStep :
    (dirs : Str → Option FilePath) (mode : Mode) (bases : Str) → InStep (start dirs mode bases)
unfolding new
start-InStep dirs mode bases = record {
  agree = new-KeysAgree idle_host dirs mode bases;
  jobs = record { bounded = tt; current = tt; ordered = tt };
}

pub run-InStep :
    (dirs : Str → Option FilePath) (mode : Mode) (bases : Str) (is : List Input)
    → InStep (run is (start dirs mode bases))
run-InStep dirs mode bases is = keeps-run InStep keeps-InStep is _ (start-InStep dirs mode bases)

-- Over any run from `new`, the jobs handed to the host carry generations that never fall and never
-- pass the coordinator's own, and two jobs of one generation always ask for the same end-state.
pub submitted-IsOrdered :
    (dirs : Str → Option FilePath) (mode : Mode) (bases : Str) (is : List Input)
    → let c = run is (start dirs mode bases) in
      All (λ j. j.generation ≤ c.generation) c.host.submitted × IsOrdered c.host.submitted
submitted-IsOrdered dirs mode bases is =
    let i = run-InStep dirs mode bases is in (i.jobs.bounded, i.jobs.ordered)
