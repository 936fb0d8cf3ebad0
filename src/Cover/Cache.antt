-- ===== src/Cover/Cache.antt =====
-- src/cover/cache.rs: the signature sniff and the eviction. A directory's listing is read at once;
-- what the removals do to it shows at the next listing.
pub mod Eviction
pub mod Spared
use mpris_chroma.Prelude.{
  ℕ, zero, suc, ◌+◌, ◌-◌, ◌*◌, Bool, true, false, ◌&&◌, ◌||◌, ◌==◌, ltb, leb, Option, none, some,
  List, [], ◌∷◌, ◌++◌, length, take, drop, map, if◌then◌else◌,
}
use mpris_chroma.Prelude.Text.{Str, FilePath, codes, str_eq, starts_with}
use mpris_chroma.Prelude.Int.{ℤ, pos, negsuc, int_eq, int_leb}
use mpris_chroma.Prelude.Result.{Result, ok, err}
use mpris_chroma.Select.{str_leb}
use mpris_chroma.Cover.{IoError}
use mpris_chroma.Cover.Disk.{Meta, DirEntry, Disk}

pub record CacheLimits : Type 0 where
  pub max_bytes : ℕ
  pub max_entries : ℕ
  pub max_age : ℕ

abbrev pub cache_limits : CacheLimits
cache_limits = record {
  max_bytes = 128 * 1024 * 1024;
  max_entries = 512;
  max_age = 30 * 24 * 60 * 60 * 1_000_000_000;
}

unfoldable pub looks_like_image : List ℕ → Bool
looks_like_image data' =
    starts_with (0xff ∷ 0xd8 ∷ 0xff ∷ []) data'
    || (starts_with (0x89 ∷ codes "PNG\r\n\u{1a}\n") data'
        || (leb 12 (length data')
            && (str_eq (take 4 data') (codes "RIFF")
                && str_eq (take 4 (drop 8 data')) (codes "WEBP"))))

abbrev pub is_file : Result IoError Meta → Bool
is_file (err e) = false
is_file (ok m) = m.is_file

unfoldable pub is_real_file : {W : Type 0} → Disk W → FilePath → W → Bool
is_real_file disk path w = is_file (disk.symlink_metadata path w)

module _ {W : Type 0} where
  -- The steps of `publish` after the temporary file: the next one is made only if this one succeeded.
  abbrev pub then_try :
      W × Result IoError (Unit {0})
      → (W → W × Result IoError (Unit {0}))
      → W × Result IoError (Unit {0})
  then_try (w, ok done) next = next w
  then_try (w, err e) next = (w, err e)

module _ {W : Type 0} (disk : Disk W) where
  -- A success ends with a sync of the directory, whose result is ignored; a failure with the removal
  -- of the temporary file.
  abbrev pub settle_publish :
      FilePath → FilePath → W × Result IoError (Unit {0}) → W × Result IoError (Unit {0})
  settle_publish dir tmp (w, ok done) = ((disk.sync_all dir w).0, ok done)
  settle_publish dir tmp (w, err e) = (disk.remove_file tmp w, err e)

  abbrev pub publish_temp :
      FilePath → FilePath → List ℕ → W × Result IoError FilePath → W × Result IoError (Unit {0})
  publish_temp dir dest data' (w, err e) = (w, err e)
  publish_temp dir dest data' (w, ok tmp) =
      settle_publish dir tmp (
        then_try (then_try (disk.write_all tmp data' w) (disk.sync_all tmp)) (disk.rename tmp dest))

  unfoldable pub publish : FilePath → FilePath → List ℕ → W → W × Result IoError (Unit {0})
  publish dir dest data' w = publish_temp dir dest data' (disk.create_temp dir w)

pub record CacheEntry : Type 0 where
  pub mtime : ℤ
  pub size : ℕ
  pub path : FilePath

-- `now.duration_since(mtime).unwrap_or_default()`.
unfoldable pub age_of : ℤ → ℤ → ℕ
age_of (pos n) (pos m) = n - m
age_of (pos n) (negsuc m) = n + m + 1
age_of (negsuc n) (pos m) = 0
age_of (negsuc n) (negsuc m) = m - n

-- The order of the triples.
unfoldable pub entry_leb : CacheEntry → CacheEntry → Bool
entry_leb a b =
    if int_eq a.mtime b.mtime
    then ltb a.size b.size || (a.size == b.size && str_leb a.path b.path)
    else int_leb a.mtime b.mtime

unfoldable pub insert_entry : CacheEntry → List CacheEntry → List CacheEntry
insert_entry x [] = x ∷ []
insert_entry x (y ∷ ys) =
    let rest = insert_entry x ys in if entry_leb x y then x ∷ y ∷ ys else y ∷ rest

unfoldable pub sort_entries : List CacheEntry → List CacheEntry
sort_entries [] = []
sort_entries (x ∷ xs) = insert_entry x (sort_entries xs)

abbrev pub total_size : List CacheEntry → ℕ
total_size [] = 0
total_size (e ∷ es) = e.size + total_size es

-- What the first loop makes of one entry, before the rest: the files too old, and the candidates.
abbrev pub sift_mtime :
    ℤ
    → CacheLimits
    → DirEntry
    → ℕ
    → Result IoError ℤ
    → List FilePath × List CacheEntry
    → List FilePath × List CacheEntry
sift_mtime now limits entry len (err e) rest = rest
sift_mtime now limits entry len (ok mtime) rest =
    if ltb limits.max_age (age_of now mtime)
    then (entry.path ∷ rest.0, rest.1)
    else (rest.0, record { mtime = mtime; size = len; path = entry.path } ∷ rest.1)

abbrev pub sift_meta :
    ℤ
    → CacheLimits
    → DirEntry
    → Result IoError Meta
    → List FilePath × List CacheEntry
    → List FilePath × List CacheEntry
sift_meta now limits entry (err e) rest = rest
sift_meta now limits entry (ok m) rest =
    if m.is_symlink then rest else sift_mtime now limits entry m.len m.modified rest

unfoldable pub sift : ℤ → CacheLimits → List DirEntry → List FilePath × List CacheEntry
sift now limits [] = ([], [])
sift now limits (entry ∷ entries) =
    let rest = sift now limits entries in
    if starts_with (codes ".") entry.file_name
    then rest
    else sift_meta now limits entry entry.metadata rest

-- The second loop: the entries removed, oldest first, until both budgets hold.
unfoldable pub over_budget : CacheLimits → List CacheEntry → ℕ → ℕ → List CacheEntry
over_budget limits [] total count = []
over_budget limits (e ∷ es) total count =
    let rest = over_budget limits es (total - e.size) (count - 1) in
    if leb total limits.max_bytes && leb count limits.max_entries then [] else e ∷ rest

unfoldable pub victims : CacheLimits → List CacheEntry → List CacheEntry
victims limits entries =
    let sorted = sort_entries entries in
    over_budget limits sorted (total_size entries) (length entries)

abbrev pub remove_all : {W : Type 0} → Disk W → List FilePath → W → W
remove_all disk [] w = w
remove_all disk (p ∷ ps) w = remove_all disk ps (disk.remove_file p w)

abbrev pub evict_listed :
    {W : Type 0} → Disk W → ℤ → CacheLimits → Result IoError (List DirEntry) → W → W
evict_listed disk now limits (err e) w = w
evict_listed disk now limits (ok listed) w =
    let (expired, entries) = sift now limits listed in
    remove_all disk (map (λ e. e.path) (victims limits entries)) (remove_all disk expired w)

unfoldable pub evict : {W : Type 0} → Disk W → FilePath → ℤ → CacheLimits → W → W
evict disk dir now limits w = evict_listed disk now limits (disk.read_dir dir w) w
