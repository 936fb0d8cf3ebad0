-- ===== src/Cover/Local.antt =====
-- src/cover/local.rs: `file://` covers confined beneath a root, and the memoized directory scan.
pub mod Confined
pub mod Scanning
use mpris_chroma.Prelude.{
  ℕ, suc, ◌+◌, Bool, true, false, not, ◌&&◌, ◌||◌, Option, none, some, List, [], ◌∷◌, keep,
  if◌then◌else◌,
}
use mpris_chroma.Prelude.Text.{Str, FilePath, codes, str_eq, is_empty, split}
use mpris_chroma.Prelude.Int.{ℤ, int_eq, int_leb}
use mpris_chroma.Prelude.Result.{Result, ok, err, and_then}
use mpris_chroma.Prelude.Dict
use mpris_chroma.Cover.{ContentId, Resolution, ready, retryable, rejected, IoError}
use mpris_chroma.Cover.Policy.{UrlCrate}
use mpris_chroma.Cover.Disk.{Meta, DirEntry, Disk, content_id}
use mpris_chroma.Cover.Cache.{looks_like_image, is_file}

-- `ready` of the source.
abbrev pub ready_with : FilePath → Result IoError ContentId → Resolution
ready_with path (ok id) = ready path id
ready_with path (err e) = retryable (codes "cover vanished")

-- `Path::starts_with` goes by whole components; the paths compared are absolute and canonical.
abbrev pub components : FilePath → List Str
components path = keep (λ c. not (is_empty c)) (split b'/' path)

unfoldable pub is_prefix : List Str → List Str → Bool
is_prefix [] cs = true
is_prefix (r ∷ rs) [] = false
is_prefix (r ∷ rs) (c ∷ cs) = str_eq r c && is_prefix rs cs

unfoldable pub path_starts_with : FilePath → FilePath → Bool
path_starts_with target root = is_prefix (components root) (components target)

abbrev pub foreign_host : Option Str → Bool
foreign_host none = false
foreign_host (some h) = not (is_empty h) && not (str_eq h (codes "localhost"))

module _ {W : Type 0} (disk : Disk W) where
  abbrev pub on_target : FilePath → Result IoError FilePath → W → Resolution
  on_target real_root (err e) w = retryable (codes "local cover file missing")
  on_target real_root (ok target) w =
      if not (is_file (disk.metadata target w))
      then retryable (codes "not a regular file")
      else if not (path_starts_with target real_root)
      then rejected (codes "path outside cover root")
      else ready_with target (content_id disk target w)

  abbrev pub on_path : FilePath → Option FilePath → W → Resolution
  on_path real_root none w = rejected (codes "not a local file path")
  on_path real_root (some path) w = on_target real_root (disk.canonicalize path w) w

  abbrev pub on_real_root : Result IoError FilePath → Option FilePath → W → Resolution
  on_real_root (err e) path w = retryable (codes "cover root missing")
  on_real_root (ok real_root) path w = on_path real_root path w

  abbrev pub on_root : Option FilePath → Option FilePath → W → Resolution
  on_root none path w = rejected (codes "no cover root for file://")
  on_root (some root) path w = on_real_root (disk.canonicalize root w) path w

  abbrev pub on_file_url :
      {Url : Type 0} → UrlCrate Url → Result Str Url → Option FilePath → W → Resolution
  on_file_url u (err why) root w = rejected (codes "unparseable file url")
  on_file_url u (ok url) root w =
      if foreign_host (u.host_str url)
      then rejected (codes "file authority not permitted")
      else on_root root (u.to_file_path url) w

  unfoldable pub resolve_file :
      {Url : Type 0} → UrlCrate Url → Str → Option FilePath → W → Resolution
  resolve_file u art_url root w = on_file_url u (u.parse art_url) root w

-- A candidate's modification time and path.
abbrev pub Candidate : Type 0
Candidate = ℤ × FilePath

abbrev pub with_header : ℤ → FilePath → Result IoError (List ℕ) → Option Candidate
with_header mtime path (err e) = none
with_header mtime path (ok header) = if looks_like_image header then some (mtime, path) else none

abbrev pub with_mtime : DirEntry → Result IoError ℤ → Option Candidate
with_mtime entry (err e) = none
with_mtime entry (ok mtime) = with_header mtime entry.path entry.header

abbrev pub with_meta : DirEntry → Result IoError Meta → Option Candidate
with_meta entry (err e) = none
with_meta entry (ok m) = if m.is_file then with_mtime entry m.modified else none

unfoldable pub candidate : DirEntry → Option Candidate
candidate entry = with_meta entry entry.metadata

-- Strictly newer wins.
abbrev pub better : Option Candidate → Option Candidate → Option Candidate
better best none = best
better none (some c) = some c
better (some b) (some c) = if not (int_leb c.0 b.0) then some c else some b

unfoldable pub newest : Option Candidate → List DirEntry → Option Candidate
newest best [] = best
newest best (entry ∷ entries) = newest (better best (candidate entry)) entries

pub record DirScanner : Type 0 where
  pub memo : Dict.Dict Candidate
  pub scans : ℕ

module _ {W : Type 0} (disk : Disk W) where
  abbrev pub forget : FilePath → DirScanner → DirScanner
  forget dir s = record s { memo = Dict.remove dir s.memo }

  abbrev pub on_best : FilePath → ℤ → Option Candidate → W → DirScanner → DirScanner × Resolution
  on_best dir dir_mtime none w s = (forget dir s, retryable (codes "no cover in dir yet"))
  on_best dir dir_mtime (some (mtime, path)) w s = (
    record s { memo = Dict.insert dir (dir_mtime, path) s.memo },
    ready_with path (content_id disk path w),
  )

  abbrev pub on_entries :
      FilePath → ℤ → Result IoError (List DirEntry) → W → DirScanner → DirScanner × Resolution
  on_entries dir dir_mtime (err e) w s = (forget dir s, retryable (codes "covers dir unreadable"))
  on_entries dir dir_mtime (ok entries) w s = on_best dir dir_mtime (newest none entries) w s

  abbrev pub full_scan : FilePath → ℤ → W → DirScanner → DirScanner × Resolution
  full_scan dir dir_mtime w s =
      on_entries dir dir_mtime (disk.read_dir dir w) w (record s { scans = s.scans + 1 })

  abbrev pub on_cached :
      FilePath → ℤ → FilePath → Result IoError ContentId → W → DirScanner → DirScanner × Resolution
  on_cached dir dir_mtime path (ok id) w s = (s, ready path id)
  on_cached dir dir_mtime path (err e) w s = full_scan dir dir_mtime w (forget dir s)

  abbrev pub on_memo : FilePath → ℤ → Option Candidate → W → DirScanner → DirScanner × Resolution
  on_memo dir dir_mtime none w s = full_scan dir dir_mtime w s
  on_memo dir dir_mtime (some (mtime, path)) w s =
      if int_eq mtime dir_mtime
      then on_cached dir dir_mtime path (content_id disk path w) w s
      else full_scan dir dir_mtime w s

  abbrev pub on_dir : FilePath → Result IoError ℤ → W → DirScanner → DirScanner × Resolution
  on_dir dir (err e) w s = (forget dir s, retryable (codes "covers dir missing"))
  on_dir dir (ok dir_mtime) w s = on_memo dir dir_mtime (Dict.get dir s.memo) w s

  unfoldable pub scan : FilePath → W → DirScanner → DirScanner × Resolution
  scan dir w s = on_dir dir (and_then (disk.metadata dir w) (λ m. m.modified)) w s
