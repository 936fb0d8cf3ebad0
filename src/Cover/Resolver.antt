-- ===== src/Cover/Resolver.antt =====
-- src/cover/mod.rs: the resolver that the worker's stage calls. Hashing, the `url` crate and the
-- fetcher (in the daemon `fetch` of Cover/Fetch.antt) are parameters; the stop flag is part of the
-- world. Warnings are kept in a list, the newest first.
pub mod Limiter
pub mod Published
mod Tests
use mpris_chroma.Prelude.{
  ℕ, ◌+◌, ◌-◌, ◌*◌, ◌/◌, ◌%◌, Bool, true, false, not, ◌&&◌, ◌||◌, Option, none, some, List, [], ◌∷◌,
  ◌++◌, ltb, leb, if◌then◌else◌,
}
use mpris_chroma.Prelude.Text.{Str, FilePath, codes, starts_with}
use mpris_chroma.Prelude.Int.{ℤ}
use mpris_chroma.Prelude.Result.{Result, ok, err}
use mpris_chroma.Prelude.Dict
use mpris_chroma.Cover.{
  ContentId, Resolution, ready, retryable, rejected, CoverError, IoError, from_io, name, classify,
}
use mpris_chroma.Cover.Policy.{UrlCrate}
use mpris_chroma.Cover.Disk.{Disk, content_id}
use mpris_chroma.Cover.Cache.{CacheLimits, looks_like_image, is_real_file, publish, evict}
use mpris_chroma.Cover.Local.{DirScanner, resolve_file, scan}

-- 60 s, in nanoseconds.
abbrev pub log_interval : ℕ
log_interval = 60_000_000_000

-- A warning's key, its time and its text.
pub record Logged : Type 0 where
  pub key : Str
  pub at : ℕ
  pub message : Str

pub record CoverResolver : Type 0 where
  pub cache_dir : FilePath
  pub cache_limits : CacheLimits
  pub scanner : DirScanner
  pub last_logged : Dict.Dict ℕ
  pub warned : List Logged

-- What the resolver calls besides the disk.
pub record Services (Url : Type 0) (W : Type 0) : Type 0 where
  pub urls : UrlCrate Url
  pub sha256 : Str → List ℕ
  pub fetch : Str → W → W × Result CoverError (List ℕ)

abbrev pub hex_digit : ℕ → ℕ
hex_digit n = if ltb n 10 then b'0' + n else b'a' + (n - 10)

-- `{b:02x}` of every byte.
abbrev pub hex : List ℕ → Str
hex [] = []
hex (b ∷ bytes) = hex_digit (b / 16) ∷ hex_digit (b % 16) ∷ hex bytes

unfoldable pub cache_path : (Str → List ℕ) → FilePath → Str → FilePath
cache_path sha256 cache_dir url = cache_dir ++ b'/' ∷ (hex (sha256 url) ++ codes ".img")

abbrev pub is_due : ℕ → Option ℕ → Bool
is_due now none = true
is_due now (some t) = leb log_interval (now - t)

unfoldable pub log_failure : Str → Str → ℕ → CoverResolver → CoverResolver
log_failure key message now r =
    if is_due now (Dict.get key r.last_logged)
    then record r {
      last_logged = Dict.insert key now r.last_logged;
      warned = record { key = key; at = now; message = message } ∷ r.warned;
    }
    else r

abbrev pub or_unknown : Option Str → Str
or_unknown none = codes "?"
or_unknown (some h) = h

abbrev pub host_of : {Url : Type 0} → UrlCrate Url → Result Str Url → Str
host_of u (err why) = codes "?"
host_of u (ok url) = or_unknown (u.host_str url)

-- What a resolution gives: the world, the resolver and the outcome.
abbrev pub Resolved : Type 0 → Type 0
Resolved W = W × CoverResolver × Resolution

module _ {W : Type 0} (disk : Disk W) where
  abbrev pub evict_after :
      FilePath → CacheLimits → W × Result IoError (Unit {0}) → W × Result IoError (Unit {0})
  evict_after dir limits (w, err e) = (w, err e)
  evict_after dir limits (w, ok done) = (evict disk dir (disk.system_now w) limits w, ok done)

  abbrev pub publish_in :
      FilePath
      → CacheLimits
      → FilePath
      → List ℕ
      → W × Result IoError (Unit {0})
      → W × Result IoError (Unit {0})
  publish_in dir limits dest data' (w, err e) = (w, err e)
  publish_in dir limits dest data' (w, ok done) =
      evict_after dir limits (publish disk dir dest data' w)

  -- `dest` lies in `cache_dir`, which is its parent.
  unfoldable pub store :
      FilePath → CacheLimits → FilePath → List ℕ → W → W × Result IoError (Unit {0})
  store dir limits dest data' w = publish_in dir limits dest data' (disk.create_dirs dir w)

module _ {Url W : Type 0} (disk : Disk W) (services : Services Url W) where
  unfoldable pub contain : Str → CoverError → W → CoverResolver → Resolved W
  contain url e w r =
      let host = host_of services.urls (services.urls.parse url) in
      let (w1, now) = disk.now w in
      (
        w1,
        log_failure host (((codes "cover fetch failed for " ++ host) ++ codes ": ") ++ name e) now
            r,
        classify e,
      )

  abbrev pub after_store_id :
      Str → FilePath → Result IoError ContentId → W → CoverResolver → Resolved W
  after_store_id url dest (ok id) w r = (w, r, ready dest id)
  after_store_id url dest (err e) w r = contain url (from_io e) w r

  abbrev pub after_store :
      Str → FilePath → CoverResolver → W × Result IoError (Unit {0}) → Resolved W
  after_store url dest r (w, err e) = contain url (from_io e) w r
  after_store url dest r (w, ok done) = after_store_id url dest (content_id disk dest w) w r

  abbrev pub after_fetch :
      Str → FilePath → CoverResolver → W × Result CoverError (List ℕ) → Resolved W
  after_fetch url dest r (w, err e) = contain url e w r
  after_fetch url dest r (w, ok data') =
      if not (looks_like_image data')
      then (w, r, rejected (codes "empty or non-image body"))
      else after_store url dest r (store disk r.cache_dir r.cache_limits dest data' w)

  abbrev pub download : Str → FilePath → W → CoverResolver → Resolved W
  download url dest w r = after_fetch url dest r (services.fetch url w)

  abbrev pub on_hit : Str → FilePath → Result IoError ContentId → W → CoverResolver → Resolved W
  on_hit url dest (ok id) w r = (w, r, ready dest id)
  on_hit url dest (err e) w r = download url dest w r

  unfoldable pub resolve_remote : Str → W → CoverResolver → Resolved W
  resolve_remote url w r =
      let dest = cache_path services.sha256 r.cache_dir url in
      if is_real_file disk dest w
      then on_hit url dest (content_id disk dest w) w r
      else download url dest w r

  abbrev pub scan_dir : Option FilePath → W → CoverResolver → Resolved W
  scan_dir none w r = (w, r, rejected (codes "no art source"))
  scan_dir (some dir) w r =
      let (scanner, found) = scan disk dir w r.scanner in (w, record r { scanner = scanner }, found)

  unfoldable pub resolve : Str → Option FilePath → W → CoverResolver → Resolved W
  resolve art_url covers_dir w r =
      if starts_with (codes "file://") art_url
      then (w, r, resolve_file disk services.urls art_url covers_dir w)
      else if starts_with (codes "http://") art_url || starts_with (codes "https://") art_url
      then resolve_remote art_url w r
      else scan_dir covers_dir w r
