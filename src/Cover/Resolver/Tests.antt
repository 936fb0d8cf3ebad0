-- ===== src/Cover/Resolver/Tests.antt =====
-- The cache, the scan and the resolver on a small disk.
use mpris_chroma.Prelude.{
  ℕ, ◌+◌, ◌≡◌, refl, true, false, Option, none, some, List, [], ◌∷◌, length, All,
}
use mpris_chroma.Prelude.Text.{Str, FilePath, codes, strip_prefix, starts_with, split, str_eq}
use mpris_chroma.Prelude.Sort.{SameItems}
use mpris_chroma.Prelude.Int.{pos, int_leb}
use mpris_chroma.Prelude.Result.{Result, ok, err}
use mpris_chroma.Prelude.Dict
use mpris_chroma.Cover.{ContentId, ready, timeout, IoError, other}
use mpris_chroma.Cover.Policy.{UrlCrate}
use mpris_chroma.Cover.Disk.{Meta, DirEntry, Disk, content_id}
use mpris_chroma.Cover.Cache.{
  CacheLimits, CacheEntry, cache_limits, looks_like_image, entry_leb, insert_entry, sort_entries,
  over_budget, victims, is_real_file,
}
use mpris_chroma.Cover.Cache.{age_of, sift}
use mpris_chroma.Cover.Cache.Spared.{IsExpired, IsCandidate, sift_lem}
use mpris_chroma.Cover.Cache.Eviction.{IsByAge, IsLeastCut, victims_lem}
use mpris_chroma.Cover.Local.{
  path_starts_with, is_prefix, resolve_file, candidate, newest, DirScanner, scan,
}
use mpris_chroma.Cover.Local.Confined.{IsConfined, resolve_file-IsConfined}
use mpris_chroma.Cover.Local.Scanning.{scan_again}
use mpris_chroma.Cover.Resolver.{
  CoverResolver, Services, log_failure, contain, resolve_remote, resolve,
}
use mpris_chroma.Cover.Resolver.Limiter.{IsSpaced, resolve_all, warnings-IsSpaced}
use mpris_chroma.Cover.Resolver.Published.{images_only, resolve_remote-images_only}

abbrev entry_of : ℕ → ℕ → CacheEntry
entry_of t size = record { mtime = pos t; size = size; path = codes "/k" }

abbrev three : List CacheEntry
three = entry_of 5 4 ∷ entry_of 3 6 ∷ entry_of 9 2 ∷ []

abbrev tight : CacheLimits
tight = record { max_bytes = 5; max_entries = 2; max_age = 100 }

oldest_go : victims tight three ≡ entry_of 3 6 ∷ entry_of 5 4 ∷ []
unfolding victims sort_entries insert_entry entry_leb over_budget int_leb
oldest_go = refl

victims_lem_example :
    IsByAge (sort_entries three)
    × SameItems (sort_entries three) three
    × IsLeastCut tight (sort_entries three) (victims tight three)
victims_lem_example = victims_lem tight three

-- A URL is the text behind `file://`.
abbrev path_of : Option Str → Result Str Str
path_of none = err (codes "relative URL without a base")
path_of (some rest) = ok rest

abbrev file_crate : UrlCrate Str
file_crate = record {
  parse = λ s. path_of (strip_prefix (codes "file://") s);
  join = λ base location. err [];
  scheme = λ url. codes "file";
  username = λ url. [];
  password = λ url. none;
  port = λ url. none;
  host = λ url. none;
  host_str = λ url. none;
  to_file_path = λ url. some url;
}

abbrev no_such : IoError
no_such = record { kind = other; text = codes "no such file" }

abbrev plain : Meta
plain = record { is_file = true; is_symlink = false; len = 10; modified = ok (pos 5) }

abbrev cover_file : FilePath
cover_file = codes "/c/a.jpg"

abbrev listing : List DirEntry
listing =
    record {
      file_name = codes "a.nfo";
      path = codes "/c/a.nfo";
      metadata = ok (record plain { modified = ok (pos 9) });
      header = ok (codes "artist");
    }
    ∷ record {
      file_name = codes "a.jpg";
      path = cover_file;
      metadata = ok plain;
      header = ok (0xff ∷ 0xd8 ∷ 0xff ∷ 0xe0 ∷ []);
    }
    ∷ []

-- Every path names a plain file; the cache is empty. The world is the clock.
abbrev small_disk : Disk ℕ
small_disk = record {
  metadata = λ p w. ok plain;
  symlink_metadata = λ p w. err no_such;
  canonicalize = λ p w. ok p;
  read_dir = λ p w. ok listing;
  remove_file = λ p w. w;
  create_dirs = λ p w. (w, ok tt);
  create_temp = λ p w. (w, ok (codes "/k/.tmp"));
  write_all = λ p d w. (w, ok tt);
  sync_all = λ p w. (w, ok tt);
  rename = λ p q w. (w, ok tt);
  now = λ w. (w + 1_000_000_000, w);
  system_now = λ w. pos w;
}

-- A temporary file beside the others is spared; with an age limit of 2 the cover goes.
abbrev with_temp : List DirEntry
with_temp =
    record {
      file_name = codes ".tmp-1";
      path = codes "/c/.tmp-1";
      metadata = ok plain;
      header = ok [];
    }
    ∷ listing

abbrev short_lived : CacheLimits
short_lived = record { max_bytes = 100; max_entries = 10; max_age = 2 }

only_old : (sift (pos 10) short_lived with_temp).0 ≡ cover_file ∷ []
unfolding sift age_of starts_with strip_prefix
only_old = refl

sift_lem_example :
    All (IsExpired (pos 10) short_lived with_temp) (sift (pos 10) short_lived with_temp).0
    × All (IsCandidate (pos 10) short_lived with_temp) (sift (pos 10) short_lived with_temp).1
sift_lem_example = sift_lem (pos 10) short_lived with_temp

abbrev plain_id : ContentId
plain_id = record { size = 10; mtime_ns = pos 5 }

resolve_file-IsConfined_example :
    IsConfined small_disk file_crate
      (codes "file:///c/a.jpg")
      (some (codes "/c"))
      0
      cover_file
      plain_id
unfolding resolve_file strip_prefix path_starts_with is_prefix split str_eq content_id
resolve_file-IsConfined_example =
    resolve_file-IsConfined small_disk file_crate (codes "file:///c/a.jpg") (some (codes "/c")) 0
      cover_file plain_id refl

abbrev unused : DirScanner
unused = record { memo = []; scans = 0 }

abbrev used : DirScanner
used = record { memo = (codes "/c", (pos 5, cover_file)) ∷ []; scans = 1 }

scan_again_example : scan small_disk (codes "/c") 7 used ≡ (used, ready cover_file plain_id)
unfolding scan newest candidate looks_like_image starts_with strip_prefix str_eq content_id Dict.get
    Dict.insert
scan_again_example =
    scan_again small_disk (codes "/c") 0 7 unused used cover_file plain_id plain_id refl refl refl

-- Every download times out.
abbrev offline : Services Str ℕ
offline = record {
  urls = record file_crate { parse = λ s. ok s; host_str = λ url. some (codes "i.scdn.co") };
  sha256 = λ url. [];
  fetch = λ url w. (w, err timeout);
}

abbrev resolver : CoverResolver
resolver = record {
  cache_dir = codes "/k";
  cache_limits = cache_limits;
  scanner = unused;
  last_logged = [];
  warned = [];
}

abbrev twice : List (Str × Option FilePath)
twice = (codes "https://i.scdn.co/a", none) ∷ (codes "https://i.scdn.co/b", none) ∷ []

-- Two failures within a minute are one warning.
one_warning : length (resolve_all small_disk offline twice (λ w. w) 0 resolver).1.warned ≡ 1
unfolding resolve_all resolve resolve_remote contain log_failure is_real_file starts_with
    strip_prefix str_eq Dict.get Dict.insert
one_warning = refl

warnings-IsSpaced_example :
    IsSpaced (resolve_all small_disk offline twice (λ w. w) 0 resolver).1.warned
warnings-IsSpaced_example = warnings-IsSpaced small_disk offline twice (λ w. w) 0 resolver refl refl

abbrev online : Services Str ℕ
online = record offline { fetch = λ url w. (w, ok (0xff ∷ 0xd8 ∷ 0xff ∷ 0xe0 ∷ [])) }

resolve_remote-images_only_example :
    resolve_remote (images_only small_disk) online (codes "https://i.scdn.co/a") 0 resolver
    ≡ resolve_remote small_disk online (codes "https://i.scdn.co/a") 0 resolver
resolve_remote-images_only_example =
    resolve_remote-images_only small_disk online (codes "https://i.scdn.co/a") 0 resolver
