-- ===== src/Coordinator/Fake.antt =====
-- src/coordinator.rs, the tests' `FakeHost`: a host that records what it is asked. Its lists hold
-- the newest entry first.
use mpris_chroma.Prelude.{ℕ, ◌+◌, List, ◌∷◌, [], Option}
use mpris_chroma.Prelude.Text.{Str, FilePath}
use mpris_chroma.State.{Mode}
use mpris_chroma.Job.{Job}
use mpris_chroma.Coordinator.{Warning, Host, Coordinator, new}

pub record FakeHost : Type 0 where
  pub submitted : List Job
  pub scheduled : List ℕ
  pub cancelled : List ℕ
  pub next_handle : ℕ
  pub clock : ℕ
  pub warnings : List Warning

abbrev pub idle_host : FakeHost
idle_host = record {
  submitted = [];
  scheduled = [];
  cancelled = [];
  next_handle = 0;
  clock = 0;
  warnings = [];
}

-- The bits of the `f64` 1.0, the jitter of the tests; a product with it changes nothing.
abbrev pub one_f64 : ℕ
one_f64 = 0x3ff0_0000_0000_0000

instance abbrev pub fake_host : Host FakeHost
fake_host = record {
  submit = λ g d host. record host {
    submitted = record { generation = g; desired = d } ∷ host.submitted;
  };
  schedule_retry = λ delay host. (
    record host { next_handle = host.next_handle + 1; scheduled = delay ∷ host.scheduled },
    host.next_handle + 1,
  );
  cancel_timer = λ timer host. record host { cancelled = timer ∷ host.cancelled };
  jitter = λ host. (host, one_f64);
  now = λ host. host.clock;
  warn = λ w host. record host { warnings = w ∷ host.warnings };
  delay_of = λ capped jitter. capped;
}

-- `harness_with`, for any covers directories.
abbrev pub start : (Str → Option FilePath) → Mode → Str → Coordinator FakeHost
start dirs mode bases = new idle_host dirs mode bases
