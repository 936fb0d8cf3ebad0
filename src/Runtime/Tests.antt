-- ===== src/Runtime/Tests.antt =====
-- The loop over a scripted feed: a cover that fails once is retried when its timer is due.
use mpris_chroma.Prelude.{◌+◌, ◌≡◌, refl, true, false, Option, none, some, List, [], ◌∷◌, arith}
use mpris_chroma.Prelude.Text.{
  Str, FilePath, codes, str_eq, strip_prefix, starts_with, split, trim, trim_start, is_whitespace,
  trim_end_matches,
}
use mpris_chroma.Prelude.Dict
use mpris_chroma.State.{dark, parse_status}
use mpris_chroma.Job.{
  Desired, JobResult, failed_retryable, desired_eq, opt_desired_eq, target_eq, opt_target_eq,
  dir_eq,
}
use mpris_chroma.Select
use mpris_chroma.Select.{first_actionable, actionable, sort_ranked, insert_ranked}
use mpris_chroma.Coordinator.{
  Coordinator, bases_of, new, matches_base, allowed_name, art_identity, capped_delay_ms,
  backoff_factor,
}
use mpris_chroma.Coordinator.Submit.{
  decide, set_cover_status, cancel_retry, submit_job, submit_new, maybe_submit, decide_and_submit,
  arm_retry, backoff_delay_ms,
}
use mpris_chroma.Coordinator.Handlers.{
  maintain_cover, note_player, accept_line, on_fields, on_line, adopt,
}
use mpris_chroma.Worker.Mailbox.{put}
use mpris_chroma.Runtime.{
  Event, Next, Floats, RuntimeHost, runtime_host, new_host, timer_id, Turn, fire_due_timer,
  dispatch, turn, run_loop,
}
use mpris_chroma.Runtime.Timer.{timer_agrees}
use mpris_chroma.Runtime.Retry.{due_retry_is_mailed}

-- A jitter of 1.0 leaves the delay as it is.
instance abbrev plain_floats : Floats
plain_floats = record {
  jitter_of = λ numerator. 0x3ff0_0000_0000_0000;
  delay_of = λ capped jitter. capped;
}

abbrev no_dirs : Str → Option FilePath
no_dirs name = none

abbrev started : Coordinator RuntimeHost
started = new (new_host 1) no_dirs dark (codes "spotify")

abbrev cover_a : Desired
cover_a = record {
  target = some (record { art_url = codes "https://x/a"; covers_dir = none });
  mode = dark;
}

abbrev failed : JobResult
failed = record { generation = 1; outcome = failed_retryable; cover_id = none }

-- The worker takes the job while the loop waits for its result.
abbrev play_then_fail : List Turn
play_then_fail =
    record {
      waited = 5;
      takes = false;
      dies = false;
      next = Next.event (Event.line (codes "spotify\tPlaying\thttps://x/a"));
      busy = 1;
    }
    ∷ record {
      waited = 10;
      takes = true;
      dies = false;
      next = Next.event (Event.worker failed);
      busy = 1;
    }
    ∷ []

waiting :
    let out = run_loop play_then_fail started in
    (out.1 ≡ none)
    × (out.0.stopping ≡ false)
    × (out.0.retry_desire ≡ some cover_a)
    × (out.0.host.timer ≡ some (1, 1_000_000_016))
    × (out.0.host.worker_alive ≡ true)
    × (out.0.host.clock ≡ 17)
    × (out.0.host.mailbox ≡ none)
    × (out.0.generation ≡ 1)
unfolding run_loop turn dispatch fire_due_timer put new_host on_line on_fields split
    trim_end_matches allowed_name matches_base str_eq strip_prefix starts_with parse_status
    accept_line note_player maintain_cover art_identity decide_and_submit decide Select.decide
    first_actionable actionable sort_ranked insert_ranked maybe_submit opt_desired_eq desired_eq
    opt_target_eq target_eq dir_eq submit_new cancel_retry submit_job new bases_of trim trim_start
    is_whitespace Dict.insert Dict.get adopt arm_retry set_cover_status Dict.update backoff_delay_ms
    capped_delay_ms backoff_factor
waiting = (refl, refl, refl, refl, refl, refl, refl, refl)

timer_agrees_example :
    let c = (run_loop play_then_fail started).0 in timer_id c.host.timer ≡ c.retry_timer
timer_agrees_example = timer_agrees 1 no_dirs dark (codes "spotify") play_then_fail

abbrev due_turn : Turn
due_turn = record {
  waited = 1_000_000_000;
  takes = false;
  dies = false;
  next = Next.timeout;
  busy = 1;
}

due_retry_is_mailed_example :
    let c = (run_loop play_then_fail started).0 in
    ((turn due_turn c).1 ≡ none)
    × ((turn due_turn c).0.host.mailbox
        ≡ some (record { generation = c.generation + 1; desired = cover_a }))
    × ((turn due_turn c).0.host.timer ≡ none)
due_retry_is_mailed_example =
    due_retry_is_mailed 1 no_dirs dark (codes "spotify") play_then_fail cover_a 1 1_000_000_016
      1_000_000_000 1 false waiting.0 waiting.1 waiting.2 waiting.3 waiting.4
      (omega (arith, waiting.5))
