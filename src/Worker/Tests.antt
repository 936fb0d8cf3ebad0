-- ===== src/Worker/Tests.antt =====
-- The worker over a scripted world, and the theorems about it there.
use mpris_chroma.Prelude.{
  ℕ, suc, ◌<◌, ◌≡◌, ◌↔◌, refl, Bool, false, true, Option, none, some, [], ◌∷◌,
}
use mpris_chroma.Prelude.Text.{FilePath, codes}
use mpris_chroma.Prelude.Int.{pos}
use mpris_chroma.State.{dark}
use mpris_chroma.Job.{CoverTarget, Job, committed, skipped_duplicate}
use mpris_chroma.Cover.{ContentId, ready}
use mpris_chroma.Worker.Pump.{Look, run, run-Halts}
use mpris_chroma.Worker.Mailbox.{Slot, put_all, poll, returned, superseded, put_all-poll}
use mpris_chroma.Worker.{
  done, cover, preset, run_revert, Stages, Worker, report, run_ready, run_once, finished,
}
use mpris_chroma.Worker.Counting.{CountsCtl, Accounts, run_once-Accounts}
use mpris_chroma.Worker.Dedup.{same_cover_skipped}
use mpris_chroma.Worker.Looks.{watched, forgotten, run_once-watched}

-- The number of ctl calls, and the mailbox.
abbrev Bench : Type 0
Bench = ℕ × Option Job

abbrev one_id : ContentId
one_id = record { size = 10; mtime_ns = pos 5 }

abbrev some_path : FilePath
some_path = codes "/c/a.img"

abbrev bench : Stages Bench
bench = record {
  resolve = λ url dir w. (w, some (ready some_path one_id));
  extract = λ path mode id w. (w, some (codes "#000000", codes "#111111", codes "#222222"));
  apply = λ colors w. ((suc w.0, w.1), some done);
  revert = λ w. ((suc w.0, w.1), some done);
  interlude = λ w. w;
  released = λ w. w;
  slot = λ w. w.1;
}

bench-CountsCtl : CountsCtl bench (λ w. w.0)
bench-CountsCtl = record {
  by_apply = λ c w. refl;
  by_revert = λ w. refl;
  by_resolve = λ u d w. refl;
  by_extract = λ p m i w. refl;
  by_interlude = λ w. refl;
  by_released = λ w. refl;
}

abbrev one_target : CoverTarget
one_target = record { art_url = codes "https://x/a"; covers_dir = none }

abbrev a_job : Job
a_job = record { generation = 4; desired = record { target = some one_target; mode = dark } }

abbrev idle : Worker Bench
idle = record { world = (0, none); last_committed = none }

abbrev shown : Worker Bench
shown = record { world = (1, none); last_committed = some (cover one_id dark) }

idle_commits : run_once bench a_job idle ≡ (shown, report 4 committed (some some_path))
unfolding run_once run_ready superseded
idle_commits = refl

run_once-Accounts_example : Accounts bench (λ w. w.0) 4 dark 0 none (run_once bench a_job idle)
run_once-Accounts_example = run_once-Accounts bench (λ w. w.0) a_job idle bench-CountsCtl

-- The same picture under another URL.
abbrev other_target : CoverTarget
other_target = record { art_url = codes "https://y/b"; covers_dir = none }

abbrev later_job : Job
later_job = record { generation = 6; desired = record { target = some other_target; mode = dark } }

same_cover_skipped_example :
    run_once bench later_job shown ≡ (shown, report 6 skipped_duplicate (some some_path))
same_cover_skipped_example =
    same_cover_skipped bench a_job later_job one_target other_target one_id some_path some_path
      (0, none) (1, none) idle shown (some some_path) refl refl refl refl idle_commits refl

abbrev a_revert : Job
a_revert = record { generation = 5; desired = record { target = none; mode = dark } }

-- A newer job waits in the mailbox: the older one ends with no ctl call and no report.
abbrev overtaken : Worker Bench
overtaken = record { world = (0, some a_revert); last_committed = none }

overtaken_stops : run_once bench a_job overtaken ≡ (overtaken, finished none)
unfolding run_once run_ready superseded
overtaken_stops = refl

-- A newer job is put after the look: the ctl call is made all the same.
abbrev late_bench : Stages Bench
late_bench = record bench { released = λ w. (w.0, some later_job) }

late_put_applies : run_once late_bench a_revert idle ≡ (
  record { world = (1, some later_job); last_committed = some (preset dark) },
  report 5 committed none,
)
unfolding run_once run_revert superseded
late_put_applies = refl

abbrev watched_idle : Worker (Bench × Bool)
watched_idle = record { world = ((0, none), false); last_committed = none }

run_once-watched_example :
    forgotten (run_once (watched 4 bench) a_job watched_idle) ≡ run_once bench a_job idle
run_once-watched_example = run_once-watched bench a_job watched_idle

put_all-poll_example :
    (poll false (put_all (a_job ∷ a_job ∷ []) none) ≡ (returned (some a_job), none))
    × ((superseded 3 (put_all (a_job ∷ a_job ∷ []) none) ≡ true) ↔ (3 < 4))
put_all-poll_example = put_all-poll (a_job ∷ []) a_job none 3

abbrev bench_store : Slot → Bench → Bench
bench_store slot w = (w.0, slot)

-- A job is put, then a revert with a stop.
abbrev put_a_job : Look Bench
put_a_job = record { before = bench_store (some a_job); stop = false }

abbrev put_and_stop : Look Bench
put_and_stop = record { before = bench_store (some a_revert); stop = true }

one_report :
    (run bench bench_store (put_a_job ∷ put_and_stop ∷ []) idle).reports
    ≡ record { generation = 4; outcome = committed; cover_id = some some_path } ∷ []
unfolding run run_once run_ready superseded poll
one_report = refl

run-Halts_example :
    ((run bench bench_store (put_a_job ∷ []) idle).alive ≡ true)
    × ((run bench bench_store (put_a_job ∷ put_and_stop ∷ []) idle).alive ≡ false)
    × ((run bench bench_store (put_a_job ∷ put_and_stop ∷ []) idle).reports
        ≡ (run bench bench_store (put_a_job ∷ []) idle).reports)
    × (bench.slot (run bench bench_store (put_a_job ∷ put_and_stop ∷ []) idle).worker.world ≡ none)
run-Halts_example =
    run-Halts bench bench_store (λ slot w. refl) (put_a_job ∷ []) [] put_and_stop idle (refl, tt)
      refl
