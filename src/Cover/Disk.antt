-- ===== src/Cover/Disk.antt =====
-- What the modules of src/cover ask of the file system, with the world `W` that answers. Times are
-- nanoseconds since the epoch. A listing holds the entries that could be read.
use mpris_chroma.Prelude.{ℕ, Bool, List}
use mpris_chroma.Prelude.Text.{Str, FilePath}
use mpris_chroma.Prelude.Int.{ℤ}
use mpris_chroma.Prelude.Result.{Result, ok, and_then}
use mpris_chroma.Cover.{ContentId, IoError}

pub record Meta : Type 0 where
  pub is_file : Bool
  pub is_symlink : Bool
  pub len : ℕ
  pub modified : Result IoError ℤ

-- A directory's entry: what its `metadata` gives does not follow a link, `header` is what opening the
-- file and reading up to twelve bytes gives.
pub record DirEntry : Type 0 where
  pub file_name : Str
  pub path : FilePath
  pub metadata : Result IoError Meta
  pub header : Result IoError (List ℕ)

-- `create_temp` opens a new private file under a fresh name in a directory.
pub record Disk (W : Type 0) : Type 0 where
  pub metadata : FilePath → W → Result IoError Meta
  pub symlink_metadata : FilePath → W → Result IoError Meta
  pub canonicalize : FilePath → W → Result IoError FilePath
  pub read_dir : FilePath → W → Result IoError (List DirEntry)
  pub remove_file : FilePath → W → W
  pub create_dirs : FilePath → W → W × Result IoError (Unit {0})
  pub create_temp : FilePath → W → W × Result IoError FilePath
  pub write_all : FilePath → List ℕ → W → W × Result IoError (Unit {0})
  pub sync_all : FilePath → W → W × Result IoError (Unit {0})
  pub rename : FilePath → FilePath → W → W × Result IoError (Unit {0})
  pub now : W → W × ℕ
  pub system_now : W → ℤ

-- `content_id`: a modification before the epoch is a negative number.
unfoldable pub content_id : {W : Type 0} → Disk W → FilePath → W → Result IoError ContentId
content_id disk path w =
    and_then (disk.metadata path w)
      (λ meta. and_then meta.modified (λ mtime. ok (record { size = meta.len; mtime_ns = mtime })))
