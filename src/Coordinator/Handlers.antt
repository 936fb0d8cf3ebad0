-- ===== src/Coordinator/Handlers.antt =====
-- src/coordinator.rs, the event handlers: lines, vanished names, the color scheme, worker results,
-- the retry timer, and shutdown.
use mpris_chroma.Prelude.{
  ℕ, ◌+◌, ◌-◌, Bool, true, false, ◌||◌, ◌&&◌, is_some, ◌++◌, Option, none, some, List, [], ◌∷◌, leb,
  ◌==◌, if◌then◌else◌, not, length,
}
use mpris_chroma.Prelude.Text.{Str, codes, split, trim_end_matches, decimal}
use mpris_chroma.Prelude.Dict
use mpris_chroma.Prelude.Dict.{Dict}
use mpris_chroma.State.{mode_eq, PlaybackStatus, PlayerState, parse_status}
use mpris_chroma.Job.{
  CoverTarget, Desired, Outcome, committed, skipped_duplicate, failed_retryable, rejected,
  JobResult, opt_desired_eq, opt_target_eq,
}
use mpris_chroma.Select.{Selection, apply, revert, hold}
use mpris_chroma.Coordinator.{
  CoverStatus, pending, ready, retrying, exhausted, CoverIdentity, identity_eq, CoverState,
  is_exhausted, dropped, Host, Coordinator, drop_log_interval, mode_from_color_scheme,
  player_name_from_bus, allowed_name, art_identity,
}
use mpris_chroma.Coordinator.Submit.{
  decide, set_cover_status, cancel_retry, submit_job, maybe_submit, decide_and_submit, arm_retry,
}

-- `is_none_or(|&last| t.saturating_sub(last) >= interval)`.
abbrev pub is_due : ℕ → ℕ → Option ℕ → Bool
is_due interval t none = true
is_due interval t (some last) = leb interval (t - last)

abbrev pub target_of : Option Desired → Option CoverTarget
target_of none = none
target_of (some d) = d.target

-- The desired value and the player that a selection names.
abbrev pub selected : Selection → Option Desired × Option Str
selected (apply desired winner) = (some desired, some winner)
selected (revert desired) = (some desired, none)
selected hold = (none, none)

module _ {H : Type 0} where
  -- A known identity is kept; only an exhausted one starts over, and forces a resubmit.
  abbrev pub same_identity : Str → CoverState → Coordinator H → Coordinator H
  same_identity name st c =
      if is_exhausted st.status
      then record c {
        covers = Dict.update name (λ s. record s { status = pending }) c.covers;
        last_submitted = none;
      }
      else c

  abbrev pub fresh_identity : Str → CoverIdentity → Coordinator H → Coordinator H
  fresh_identity name ident c = record c {
    covers = Dict.insert name (record { identity = ident; status = pending }) c.covers;
  }

  abbrev pub with_identity : Str → CoverIdentity → Option CoverState → Coordinator H → Coordinator H
  with_identity name ident none c = fresh_identity name ident c
  with_identity name ident (some st) c =
      if identity_eq st.identity ident then same_identity name st c else fresh_identity name ident c

  abbrev pub maintain_with : Str → Option CoverIdentity → Coordinator H → Coordinator H
  maintain_with name none c = record c { covers = Dict.remove name c.covers }
  maintain_with name (some ident) c = with_identity name ident (Dict.get name c.covers) c

  -- The cover-state maintenance of `on_line`.
  unfoldable pub maintain_cover : Str → Str → Coordinator H → Coordinator H
  maintain_cover name art_url c = maintain_with name (art_identity c name art_url) c

  -- The new player record of an accepted line.
  unfoldable pub note_player : Str → PlaybackStatus → Str → Coordinator H → Coordinator H
  note_player name status art_url c =
      let seq' = c.seq + 1 in
      record c {
        seq = seq';
        players =
            Dict.insert name (record { status = status; art_url = art_url; seq = seq' }) c.players;
      }

module _ {H : Type 0} ⦃h : Host H⦄ where
  unfoldable pub log_drop : Str → Str → Coordinator H → Coordinator H
  log_drop category detail c =
      let t = h.now c.host in
      if is_due drop_log_interval t (Dict.get category c.last_drop_log)
      then record c {
        last_drop_log = Dict.insert category t c.last_drop_log;
        host = h.warn (dropped category detail) c.host;
      }
      else c

  -- A confirmed palette, fresh or already shown.
  abbrev pub succeed : Option Str → Coordinator H → Coordinator H
  succeed cover_id c = set_cover_status ready (record c {
    applied = cover_id;
    applied_target = target_of c.last_submitted;
    retry_desire = none;
    retry_attempt = 0;
  })

  unfoldable pub accept_line : Str → PlaybackStatus → Str → Coordinator H → Coordinator H
  accept_line name status art_url c =
      decide_and_submit true (maintain_cover name art_url (note_player name status art_url c))

  abbrev pub with_status : Str → Option PlaybackStatus → Str → Coordinator H → Coordinator H
  with_status name none art_url c =
      log_drop (codes "status") (codes "unrecognized playback status") c
  with_status name (some status) art_url c = accept_line name status art_url c

  unfoldable pub on_fields : List Str → Coordinator H → Coordinator H
  on_fields (name ∷ status ∷ art_url ∷ []) c =
      if not (allowed_name c name)
      then log_drop (codes "name") (codes "line named a player we do not follow") c
      else with_status name (parse_status status) art_url c
  on_fields parts c =
      log_drop (codes "fields") (codes "expected 3 fields, got " ++ decimal (length parts)) c

  unfoldable pub on_line : Str → Coordinator H → Coordinator H
  on_line line c = on_fields (split b'\t' (trim_end_matches b'\n' line)) c

  abbrev pub vanish : Str → Option PlayerState → Coordinator H → Coordinator H
  vanish name none c = c
  vanish name (some p) c =
      decide_and_submit false
        (record c { players = Dict.remove name c.players; covers = Dict.remove name c.covers })

  abbrev pub vanish_named : Option Str → Coordinator H → Coordinator H
  vanish_named none c = c
  vanish_named (some name) c = vanish name (Dict.get name c.players) c

  unfoldable pub on_vanish : Str → Coordinator H → Coordinator H
  on_vanish bus_name c = vanish_named (player_name_from_bus bus_name) c

  abbrev pub rerun : Option Desired → Option Str → Coordinator H → Coordinator H
  rerun none name c = c
  rerun (some desired) name c =
      if is_some desired.target then maybe_submit desired name true c else c

  abbrev pub rescheme :
      Option CoverTarget → Option Desired → Option Str → Coordinator H → Coordinator H
  rescheme none winner name c = rerun winner name c
  rescheme (some shown) winner name c =
      if is_some winner && opt_target_eq (target_of winner) (some shown)
      then rerun winner name c
      else maybe_submit (record { target = some shown; mode = c.mode }) none true c

  unfoldable pub on_scheme : ℕ → Coordinator H → Coordinator H
  on_scheme value c =
      let new_mode = mode_from_color_scheme value in
      if mode_eq new_mode c.mode
      then c
      else (let c1 = record c { mode = new_mode } in
          let (winner, name) = selected (decide c1) in rescheme c1.applied_target winner name c1)

  -- What a result does before the coordinator selects again.
  abbrev pub transition : Outcome → Option Str → Coordinator H → Coordinator H
  transition committed cover_id c = succeed cover_id c
  transition skipped_duplicate cover_id c = succeed cover_id c
  transition failed_retryable cover_id c =
      let (c1, gave_up) = arm_retry c in
      set_cover_status (if gave_up then exhausted else retrying) c1
  transition rejected cover_id c = set_cover_status CoverStatus.rejected c

  unfoldable pub adopt : JobResult → Coordinator H → Coordinator H
  adopt result c =
      if c.stopping || not (result.generation == c.generation)
      then c
      else decide_and_submit false (transition result.outcome result.cover_id c)

  unfoldable pub begin_shutdown : Coordinator H → Coordinator H
  begin_shutdown c = cancel_retry (record c { stopping = true; generation = c.generation + 1 })

  abbrev pub resubmit : Option Desired → Coordinator H → Coordinator H
  resubmit none c = c
  resubmit (some desire) c =
      if not (opt_desired_eq c.last_desired (some desire))
      then c
      else submit_job desire
          (record c { generation = c.generation + 1; submitted_player = c.retry_player })

  unfoldable pub fire_retry : Coordinator H → Coordinator H
  fire_retry c =
      let c1 = record c { retry_timer = none } in
      if c1.stopping then c1 else resubmit c1.retry_desire c1
