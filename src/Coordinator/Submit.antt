-- ===== src/Coordinator/Submit.antt =====
-- src/coordinator.rs, the internals: choosing, submitting with value-dedup, and the retry timer.
use mpris_chroma.Prelude.{
  ℕ, ◌+◌, Bool, true, false, ◌||◌, Option, none, some, ltb, ◌==◌, if◌then◌else◌, not,
}
use mpris_chroma.Prelude.Text.{Str, is_empty}
use mpris_chroma.Prelude.Dict
use mpris_chroma.Prelude.Dict.{Dict}
use mpris_chroma.Job.{CoverTarget, Desired, opt_desired_eq}
use mpris_chroma.Select
use mpris_chroma.Select.{Selection, apply, revert, hold}
use mpris_chroma.Coordinator.{
  CoverStatus, pending, CoverState, eligible, is_retrying, giving_up, Host, Coordinator,
  capped_delay_ms, retry_max_attempts,
}

-- No state yet means never attempted: eligible.
abbrev pub eligible_state : Option CoverState → Bool
eligible_state none = true
eligible_state (some st) = eligible st.status

unfoldable pub decide : {H : Type 0} → Coordinator H → Selection
decide c =
    Select.decide c.mode c.covers_dir_for (λ n. eligible_state (Dict.get n c.covers)) c.players

abbrev pub set_status_of : Option Str → CoverStatus → Dict CoverState → Dict CoverState
set_status_of none status covers = covers
set_status_of (some player) status covers =
    Dict.update player (λ st. record st { status = status }) covers

-- Transition the cover state of the player whose job just reported.
unfoldable pub set_cover_status : {H : Type 0} → CoverStatus → Coordinator H → Coordinator H
set_cover_status status c = record c { covers = set_status_of c.submitted_player status c.covers }

-- The demotion of a player that loses its retry chain.
abbrev pub demote : CoverState → CoverState
demote st = if is_retrying st.status then record st { status = pending } else st

abbrev pub demote_player : Option Str → Dict CoverState → Dict CoverState
demote_player none covers = covers
demote_player (some p) covers = Dict.update p demote covers

-- A stable identity (revert, or a URL) makes an equal value a true duplicate.
abbrev pub is_stable : Option CoverTarget → Bool
is_stable none = true
is_stable (some t) = not (is_empty t.art_url)

unfoldable pub backoff_delay_ms : {H : Type 0} → Host H → ℕ → ℕ → ℕ
backoff_delay_ms h attempt jitter = h.delay_of (capped_delay_ms attempt) jitter

module _ {H : Type 0} ⦃h : Host H⦄ where
  abbrev pub disarm : Option ℕ → Coordinator H → Coordinator H
  disarm none c = c
  disarm (some timer) c = record c {
    retry_timer = none;
    host = h.cancel_timer timer c.host;
    covers = demote_player c.retry_player c.covers;
  }

  unfoldable pub cancel_retry : Coordinator H → Coordinator H
  cancel_retry c = record (disarm c.retry_timer c) {
    retry_desire = none;
    retry_player = none;
    retry_attempt = 0;
  }

  unfoldable pub submit_job : Desired → Coordinator H → Coordinator H
  submit_job desired c = record c { host = h.submit c.generation desired c.host }

  -- A new value: a fresh generation, which supersedes any armed retry.
  unfoldable pub submit_new : Desired → Option Str → Coordinator H → Coordinator H
  submit_new desired player c =
      let c1 = cancel_retry (record c { generation = c.generation + 1 }) in
      submit_job desired (record c1 { last_submitted = some desired; submitted_player = player })

  unfoldable pub maybe_submit : Desired → Option Str → Bool → Coordinator H → Coordinator H
  maybe_submit desired player dir_resubmit c =
      if c.stopping
      then c
      else let c1 = record c { last_desired = some desired } in
        if opt_desired_eq c1.last_submitted (some desired)
        then (if not dir_resubmit || is_stable desired.target
            then c1
            else submit_job desired (record c1 { submitted_player = player }))
        else submit_new desired player c1

  abbrev pub submit_selection : Selection → Bool → Coordinator H → Coordinator H
  submit_selection hold dir_resubmit c = c
  submit_selection (apply desired winner) dir_resubmit c =
      maybe_submit desired (some winner) dir_resubmit c
  submit_selection (revert desired) dir_resubmit c = maybe_submit desired none dir_resubmit c

  unfoldable pub decide_and_submit : Bool → Coordinator H → Coordinator H
  decide_and_submit dir_resubmit c = submit_selection (decide c) dir_resubmit c

  abbrev pub replace_timer : Option ℕ → H → H
  replace_timer none host = host
  replace_timer (some timer) host = h.cancel_timer timer host

  -- The end of `arm_retry`, within the cap.
  abbrev pub schedule : Coordinator H → Coordinator H
  schedule c =
      let (host1, jitter) = h.jitter (replace_timer c.retry_timer c.host) in
      let (host2, timer) = h.schedule_retry (backoff_delay_ms h c.retry_attempt jitter) host1 in
      record c { host = host2; retry_timer = some timer; retry_player = c.submitted_player }

  -- The transition past the cap is logged once.
  abbrev pub give_up : Coordinator H → Coordinator H
  give_up c =
      if c.retry_attempt == retry_max_attempts + 1
      then record c { host = h.warn (giving_up c.retry_desire) c.host }
      else c

  abbrev pub count_attempt : Coordinator H → Coordinator H
  count_attempt c =
      let same = opt_desired_eq c.last_submitted c.retry_desire in
      record c {
        retry_desire = if same then c.retry_desire else c.last_submitted;
        retry_attempt = (if same then c.retry_attempt else 0) + 1;
      }

  unfoldable pub arm_retry : Coordinator H → Coordinator H × Bool
  arm_retry c =
      let c1 = count_attempt c in
      if ltb retry_max_attempts c1.retry_attempt then (give_up c1, true) else (schedule c1, false)
