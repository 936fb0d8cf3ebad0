-- ===== src/Cover.antt =====
-- src/cover/mod.rs, the data: content identities, resolutions and contained errors. The children
-- hold the resolver and the modules of src/cover.
pub mod Policy
pub mod Fetch
pub mod Disk
pub mod Cache
pub mod Local
pub mod Resolver
mod Tests
use mpris_chroma.Prelude.{ℕ, ◌≡◌, ◌↔◌, Bool, true, ◌&&◌, ◌==◌, arith}
use mpris_chroma.Prelude.Text.{Str, FilePath, codes}
use mpris_chroma.Prelude.Int.{ℤ, int_eq, int_eq_iff}

-- `(size, mtime_ns)`.
pub record ContentId : Type 0 where
  pub size : ℕ
  pub mtime_ns : ℤ

unfoldable pub content_eq : ContentId → ContentId → Bool
content_eq a b = a.size == b.size && int_eq a.mtime_ns b.mtime_ns

pub content_eq_iff : (a b : ContentId) → (content_eq a b ≡ true) ↔ (a ≡ b)
unfolding content_eq
content_eq_iff a b = ground (arith, int_eq_iff a.mtime_ns b.mtime_ns)

pub data Resolution : Type 0 where
  ready : FilePath → ContentId → Resolution
  retryable : Str → Resolution
  rejected : Str → Resolution

pub data CoverError : Type 0 where
  refused : Str → CoverError
  too_large : CoverError
  timeout : CoverError
  aborted : CoverError
  io : Str → CoverError

-- The kinds of `io::Error` that the source tells apart.
pub data IoKind : Type 0 where
  timed_out : IoKind
  interrupted : IoKind
  other : IoKind

pub record IoError : Type 0 where
  pub kind : IoKind
  pub text : Str

-- `impl From<io::Error> for CoverError`.
abbrev pub of_kind : IoKind → Str → CoverError
of_kind timed_out text = timeout
of_kind interrupted text = io text
of_kind other text = io text

abbrev pub from_io : IoError → CoverError
from_io e = of_kind e.kind e.text

-- `CoverError::name`.
unfoldable pub name : CoverError → Str
name (refused why) = codes "CoverRejected"
name too_large = codes "CoverTooLarge"
name timeout = codes "CoverTimeout"
name aborted = codes "CoverAborted"
name (io why) = codes "OSError"

unfoldable pub classify : CoverError → Resolution
classify (refused why) = rejected (name (refused why))
classify too_large = rejected (name too_large)
classify timeout = retryable (name timeout)
classify aborted = retryable (name aborted)
classify (io why) = retryable (name (io why))
