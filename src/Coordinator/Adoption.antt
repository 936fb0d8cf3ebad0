-- ===== src/Coordinator/Adoption.antt =====
-- Stale results in src/coordinator.rs: what `adopt` does with the result of any job handed out.
use mpris_chroma.Prelude.{
  ◌<◌, ◌≡◌, refl, Bool, false, ◌⊎◌, inl, inr, Option, none, some, List, [], ◌∷◌, arith, All, Any,
  subst,
}
use mpris_chroma.Prelude.Text.{Str, FilePath}
use mpris_chroma.State.{Mode}
use mpris_chroma.Job.{
  Desired, Job, Outcome, committed, skipped_duplicate, failed_retryable, rejected, JobResult,
}
use mpris_chroma.Coordinator.{Coordinator}
use mpris_chroma.Coordinator.Submit.{
  set_cover_status, cancel_retry, submit_job, submit_new, arm_retry, decide_and_submit,
}
use mpris_chroma.Coordinator.Handlers.{adopt, transition, target_of}
use mpris_chroma.Coordinator.Cases.{maybe_submit_cases, decide_and_submit_cases}
use mpris_chroma.Coordinator.Run.{Input, run}
use mpris_chroma.Coordinator.Fake.{FakeHost, fake_host, start}
use mpris_chroma.Coordinator.Generations.{run-InStep}

pub All-Any : (P : Job → Type 0) (j : Job) (js : List Job) → All P js → Any (λ k. k ≡ j) js → P j
All-Any P j [] a m = elim m [ ]
All-Any P j (k ∷ js) a (inl e) = subst P e a.0
All-Any P j (k ∷ js) a (inr m) = All-Any P j js a.1 m

submit_new-applied_target :
    (d : Desired) (p : Option Str) (c : Coordinator FakeHost)
    → (submit_new d p c).applied_target ≡ c.applied_target
unfolding submit_new cancel_retry submit_job
submit_new-applied_target d p c = ground arith

decide_and_submit-applied_target :
    (b : Bool) (c : Coordinator FakeHost)
    → (decide_and_submit b c).applied_target ≡ c.applied_target
unfolding submit_job
decide_and_submit-applied_target b c =
    decide_and_submit_cases (λ x. x.applied_target ≡ c.applied_target) b c refl
      λ d p.
        maybe_submit_cases (λ x. x.applied_target ≡ c.applied_target) d p b c (λ _. refl)
          (λ _ _. refl) (λ _ _ _ _. refl)
          (λ _ _. submit_new-applied_target d p (record c { last_desired = some d }))

transition-applied_target :
    (o : Outcome) (id : Option Str) (c : Coordinator FakeHost)
    → ((transition o id c).applied_target ≡ c.applied_target)
      ⊎ ((transition o id c).applied_target ≡ target_of c.last_submitted)
unfolding set_cover_status arm_retry
transition-applied_target committed id c = inr refl
transition-applied_target skipped_duplicate id c = inr refl
transition-applied_target failed_retryable id c = inl (ground arith)
transition-applied_target rejected id c = inl refl

-- Guarantee (a): in every state that a run from `new` reaches, take any job handed to the worker
-- and any result that carries its generation. If a newer generation has begun, adopting the result
-- changes nothing. Otherwise the cover recorded as shown stays as it was, becomes that very job's
-- target, or is forgotten because the dedup key was reset; it is never another job's target.
pub adopt_only_current :
    (dirs : Str → Option FilePath) (mode : Mode) (bases : Str) (is : List Input) (r : JobResult)
    (j : Job)
    → let c = run is (start dirs mode bases) in
      Any (λ k. k ≡ j) c.host.submitted
      → r.generation ≡ j.generation
      → (j.generation < c.generation → adopt r c ≡ c)
        × (((adopt r c).applied_target ≡ c.applied_target)
            ⊎ ((adopt r c).applied_target ≡ j.desired.target)
            ⊎ (((adopt r c).applied_target ≡ none) × (c.last_submitted ≡ none)))
unfolding adopt
adopt_only_current dirs mode bases is r j m e =
    let c = run is (start dirs mode bases) in
    let i = run-InStep dirs mode bases is in
    let current = All-Any _ j c.host.submitted i.jobs.current m in
    let t = transition-applied_target r.outcome r.cover_id c in
    let d = decide_and_submit-applied_target false (transition r.outcome r.cover_id c) in
    ((λ old. ground arith), ground (arith, current, t, d))
