-- ===== src/Coordinator/Cases.antt =====
-- The branches of `maybe_submit` and `fire_retry` of src/coordinator.rs, with what holds on each.
use mpris_chroma.Prelude.{
  ◌+◌, ◌≡◌, ◌≢◌, refl, Bool, true, false, not, ◌||◌, Option, none, some, arith, if_cases,
}
use mpris_chroma.Prelude.Text.{Str}
use mpris_chroma.Job.{Desired, opt_desired_eq, opt_desired_eq_iff}
use mpris_chroma.Coordinator.{Host, Coordinator}
use mpris_chroma.Select.{Selection, apply, revert, hold}
use mpris_chroma.Coordinator.Submit.{
  submit_job, submit_new, maybe_submit, is_stable, decide, decide_and_submit, submit_selection,
}
use mpris_chroma.Coordinator.Handlers.{fire_retry, resubmit}

module _ {H : Type 0} ⦃h : Host H⦄ (P : Coordinator H → Type 0) where
  pub maybe_submit_cases :
      (d : Desired) (p : Option Str) (b : Bool) (c : Coordinator H)
      → (c.stopping ≡ true → P c)
      → (c.stopping ≡ false → c.last_submitted ≡ some d → P (record c { last_desired = some d }))
      → (c.stopping ≡ false
          → c.last_submitted ≡ some d
          → b ≡ true
          → is_stable d.target ≡ false
          → P (submit_job d (record c { last_desired = some d; submitted_player = p })))
      → (c.stopping ≡ false
          → c.last_submitted ≢ some d
          → P (submit_new d p (record c { last_desired = some d })))
      → P (maybe_submit d p b c)
  unfolding maybe_submit
  maybe_submit_cases d p b c off dup again fresh = if_cases P c.stopping _ _ off λ f.
      if_cases P (opt_desired_eq c.last_submitted (some d)) _ _
        (λ s.
          let e = (opt_desired_eq_iff c.last_submitted (some d)).0 s in
          if_cases P (not b || is_stable d.target) _ _ (λ q. dup f e)
            (λ q. again f e (ground arith) (ground arith)))
        (λ n. fresh f (λ e. cc ((opt_desired_eq_iff c.last_submitted (some d)).1 e, n)))

  pub fire_retry_cases :
      (c : Coordinator H)
      → P (record c { retry_timer = none })
      → ((d : Desired)
          → c.stopping ≡ false
          → c.retry_desire ≡ some d
          → c.last_desired ≡ some d
          → P (
              submit_job d (record c {
                retry_timer = none;
                generation = c.generation + 1;
                submitted_player = c.retry_player;
              })))
      → P (fire_retry c)
  unfolding fire_retry
  fire_retry_cases c idle fire =
      if_cases P c.stopping _ _ (λ t. idle) (λ f. by_desire f c.retry_desire refl)
    where
      by_desire :
          c.stopping ≡ false
          → (o : Option Desired) → c.retry_desire ≡ o
          → P (resubmit o (record c { retry_timer = none }))
      by_desire f none e = idle
      by_desire f (some d) e =
          if_cases P (not (opt_desired_eq c.last_desired (some d))) _ _ (λ n. idle)
            (λ s. fire d f e ((opt_desired_eq_iff c.last_desired (some d)).0 (ground arith)))

  pub decide_and_submit_cases :
      (b : Bool) (c : Coordinator H)
      → P c
      → ((d : Desired) (p : Option Str) → P (maybe_submit d p b c))
      → P (decide_and_submit b c)
  unfolding decide_and_submit
  decide_and_submit_cases b c same submit = by_selection (decide c)
    where
      by_selection : (sel : Selection) → P (submit_selection sel b c)
      by_selection hold = same
      by_selection (apply d w) = submit d (some w)
      by_selection (revert d) = submit d none
