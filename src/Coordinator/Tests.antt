-- ===== src/Coordinator/Tests.antt =====
-- Runs of the coordinator on concrete input, and the theorems about it at such input.
use mpris_chroma.Prelude.{
  ◌+◌, ◌≤◌, ◌<◌, ◌≡◌, refl, true, false, ◌⊎◌, inl, Option, none, some, List, [], ◌∷◌, All, Any,
  length, subst, sym,
}
use mpris_chroma.Prelude.Text.{
  Str, FilePath, codes, str_eq, strip_prefix, starts_with, split, trim, trim_start, is_whitespace,
  trim_end_matches,
}
use mpris_chroma.Prelude.Dict
use mpris_chroma.State.{dark, PlayerState, playing, parse_status}
use mpris_chroma.Job.{
  Desired, Job, JobResult, failed_retryable, desired_eq, opt_desired_eq, target_eq, opt_target_eq,
  dir_eq,
}
use mpris_chroma.Select
use mpris_chroma.Select.{
  Entry, Selection, apply, str_leb, ranks, insert_ranked, sort_ranked, actionable, first_actionable,
}
use mpris_chroma.Select.Winner.{Decides, decide-Decides}
use mpris_chroma.Coordinator.{
  Coordinator, dir, exhausted, identity_eq, bases_of, new, matches_base, allowed_name, art_identity,
  capped_delay_ms,
}
use mpris_chroma.Coordinator.Submit.{
  decide, set_cover_status, cancel_retry, submit_job, submit_new, maybe_submit, decide_and_submit,
  arm_retry,
}
use mpris_chroma.Coordinator.Handlers.{
  maintain_cover, note_player, accept_line, on_fields, on_line, adopt, begin_shutdown, fire_retry,
}
use mpris_chroma.Coordinator.Run.{Input, line, result, handle, run}
use mpris_chroma.Coordinator.Fake.{FakeHost, fake_host, start}
use mpris_chroma.Coordinator.RetryState.{fire_retry_resubmits}
use mpris_chroma.Coordinator.Generations.{IsOrdered, submitted-IsOrdered}
use mpris_chroma.Coordinator.Adoption.{adopt_only_current}
use mpris_chroma.Coordinator.Shutdown.{shutdown_is_final}
use mpris_chroma.Coordinator.Boundary.{IsAccepted, IsMalformed, IsDropped, on_line_boundary}
use mpris_chroma.Coordinator.Backoff.{capped_delay_ms-exact}

abbrev no_dirs : Str → Option FilePath
no_dirs name = none

abbrev followed : Str
followed = codes "jellyfin-tui, spotify"

abbrev fresh : Coordinator FakeHost
fresh = start no_dirs dark followed

abbrev play_a : Str
play_a = codes "spotify\tPlaying\thttps://x/a\n"

abbrev cover_a : Desired
cover_a = record {
  target = some (record { art_url = codes "https://x/a"; covers_dir = none });
  mode = dark;
}

abbrev job_a : Job
job_a = record { generation = 1; desired = cover_a }

abbrev failed : JobResult
failed = record { generation = 1; outcome = failed_retryable; cover_id = none }

abbrev play_then_fail : List Input
play_then_fail = line play_a ∷ result failed ∷ []

-- A playing line with a URL submits one job.
play_submits : (run (line play_a ∷ []) fresh).host.submitted ≡ job_a ∷ []
unfolding run handle on_line on_fields split trim_end_matches allowed_name matches_base str_eq
    strip_prefix starts_with parse_status accept_line note_player maintain_cover art_identity
    decide_and_submit decide Select.decide first_actionable actionable sort_ranked insert_ranked
    maybe_submit opt_desired_eq submit_new cancel_retry submit_job new bases_of trim trim_start
    is_whitespace Dict.insert Dict.get
play_submits = refl

retrying_a : (run play_then_fail fresh).retry_desire ≡ some cover_a
unfolding run handle on_line on_fields split trim_end_matches allowed_name matches_base str_eq
    strip_prefix starts_with parse_status accept_line note_player maintain_cover art_identity
    decide_and_submit decide Select.decide first_actionable actionable sort_ranked insert_ranked
    maybe_submit opt_desired_eq desired_eq opt_target_eq target_eq dir_eq submit_new cancel_retry
    submit_job new bases_of trim trim_start is_whitespace Dict.insert Dict.get adopt arm_retry
    set_cover_status Dict.update
retrying_a = refl

running_a : (run play_then_fail fresh).stopping ≡ false
unfolding run handle on_line on_fields split trim_end_matches allowed_name matches_base str_eq
    strip_prefix starts_with parse_status accept_line note_player maintain_cover art_identity
    decide_and_submit decide Select.decide first_actionable actionable sort_ranked insert_ranked
    maybe_submit opt_desired_eq desired_eq opt_target_eq target_eq dir_eq submit_new cancel_retry
    submit_job new bases_of trim trim_start is_whitespace Dict.insert Dict.get adopt arm_retry
    set_cover_status Dict.update
running_a = refl

fire_retry_resubmits_example :
    let c = run play_then_fail fresh in
    fire_retry c
    ≡ submit_job cover_a (record c {
      retry_timer = none;
      generation = c.generation + 1;
      submitted_player = c.retry_player;
    })
fire_retry_resubmits_example =
    fire_retry_resubmits _ no_dirs dark followed play_then_fail cover_a running_a retrying_a

submitted-IsOrdered_example :
    let c = run play_then_fail fresh in
    All (λ j. j.generation ≤ c.generation) c.host.submitted × IsOrdered c.host.submitted
submitted-IsOrdered_example = submitted-IsOrdered no_dirs dark followed play_then_fail

adopt_only_current_example :
    let c = run (line play_a ∷ []) fresh in
    (1 < c.generation → adopt failed c ≡ c)
    × (((adopt failed c).applied_target ≡ c.applied_target)
        ⊎ ((adopt failed c).applied_target ≡ cover_a.target)
        ⊎ (((adopt failed c).applied_target ≡ none) × (c.last_submitted ≡ none)))
adopt_only_current_example =
    adopt_only_current no_dirs dark followed (line play_a ∷ []) failed job_a
      (subst (Any (λ k. k ≡ job_a)) (sym play_submits) (inl refl)) refl

shutdown_is_final_example :
    let after = run play_then_fail (begin_shutdown fresh) in
    (after.host.submitted ≡ []) × (after.host.scheduled ≡ []) × (after.retry_timer ≡ none)
unfolding new
shutdown_is_final_example = shutdown_is_final fresh play_then_fail

on_line_boundary_example :
    IsAccepted fresh play_a ⊎ (IsMalformed fresh play_a × IsDropped fresh (on_line play_a fresh))
on_line_boundary_example = on_line_boundary play_a fresh

capped_delay_ms-exact_example : (capped_delay_ms 3 ≡ 4000) × (capped_delay_ms 3 ≤ 30_000)
capped_delay_ms-exact_example = capped_delay_ms-exact 3

abbrev two_players : Dict.Dict PlayerState
two_players =
    (codes "a", record { status = playing; art_url = []; seq = 7 })
    ∷ (codes "b", record { status = playing; art_url = codes "u"; seq = 3 })
    ∷ []

-- The newer player has no art source, so the older one is chosen.
decide-Decides_example :
    Decides dark no_dirs
      (λ n. true)
      two_players
      (Select.decide dark no_dirs (λ n. true) two_players)
decide-Decides_example = decide-Decides dark no_dirs (λ n. true) two_players

-- Each line of a player without a URL makes its directory be scanned again, under the same
-- generation. A failure counted while the last timer is armed exhausts the player and leaves that
-- timer armed: it still fires and submits once more.
abbrev dirs : Str → Option FilePath
dirs name = some (codes "/covers")

abbrev play_dir : Str
play_dir = codes "spotify\tPlaying\t"

abbrev four_failures : List Input
four_failures =
    line play_dir
    ∷ result failed
    ∷ line play_dir
    ∷ result failed
    ∷ line play_dir
    ∷ result failed
    ∷ line play_dir
    ∷ result failed
    ∷ []

exhausted_still_armed :
    let c = run four_failures (start dirs dark followed) in
    (c.covers
      ≡ (codes "spotify", record { identity = dir (codes "/covers"); status = exhausted }) ∷ [])
    × (c.retry_timer ≡ some 3)
    × (length c.host.submitted ≡ 4)
    × (length (fire_retry c).host.submitted ≡ 5)
unfolding run handle on_line on_fields split trim_end_matches allowed_name matches_base str_eq
    strip_prefix starts_with parse_status accept_line note_player maintain_cover art_identity
    decide_and_submit decide Select.decide first_actionable actionable sort_ranked insert_ranked
    maybe_submit opt_desired_eq desired_eq opt_target_eq target_eq dir_eq submit_new cancel_retry
    submit_job new bases_of trim trim_start is_whitespace Dict.insert Dict.get adopt arm_retry
    set_cover_status Dict.update fire_retry identity_eq
exhausted_still_armed = (refl, refl, refl, refl)
