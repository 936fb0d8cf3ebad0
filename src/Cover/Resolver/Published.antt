-- ===== src/Cover/Resolver/Published.antt =====
-- src/cover/mod.rs: what is ever written under the cache's names.
use mpris_chroma.Prelude.{
  ℕ, inl, inr, map, ◌≡◌, refl, ap, ◌∙◌, true, List, [], ◌∷◌, if◌then◌else◌, Bool-cases,
}
use mpris_chroma.Prelude.Text.{Str, FilePath}
use mpris_chroma.Prelude.Int.{ℤ}
use mpris_chroma.Prelude.Result.{Result, ok, err}
use mpris_chroma.Cover.{ContentId, CoverError, IoError, other}
use mpris_chroma.Cover.Disk.{Disk, DirEntry, content_id}
use mpris_chroma.Cover.Cache.{
  CacheLimits, looks_like_image, is_real_file, publish, publish_temp, settle_publish, then_try,
  evict, evict_listed, remove_all, sift, victims,
}
use mpris_chroma.Cover.Resolver.{
  CoverResolver, Services, cache_path, contain, evict_after, publish_in, store, after_store_id,
  after_store, after_fetch, on_hit, resolve_remote,
}

-- A disk that refuses to write anything but an accepted image.
abbrev pub images_only : {W : Type 0} → Disk W → Disk W
images_only disk = record disk {
  write_all = λ path data' w.
      if looks_like_image data'
      then disk.write_all path data' w
      else (w, err (record { kind = other; text = [] }));
}

module _ {W : Type 0} (disk : Disk W) where
  write_all-images_only :
      (path : FilePath) (data' : List ℕ) (w : W)
      → looks_like_image data' ≡ true
      → (images_only disk).write_all path data' w ≡ disk.write_all path data' w
  write_all-images_only path data' w image = rw image

  settle_publish-images_only :
      (dir tmp : FilePath) (o : W × Result IoError (Unit {0}))
      → settle_publish (images_only disk) dir tmp o ≡ settle_publish disk dir tmp o
  settle_publish-images_only dir tmp (w, ok done) = refl
  settle_publish-images_only dir tmp (w, err e) = refl

  publish_temp-images_only :
      (dir dest : FilePath) (data' : List ℕ) (o : W × Result IoError FilePath)
      → looks_like_image data' ≡ true
      → publish_temp (images_only disk) dir dest data' o ≡ publish_temp disk dir dest data' o
  publish_temp-images_only dir dest data' (w, err e) image = refl
  publish_temp-images_only dir dest data' (w, ok tmp) image =
      ap
        (λ o.
          settle_publish (images_only disk) dir tmp
            (then_try (then_try o (disk.sync_all tmp)) (disk.rename tmp dest)))
        (write_all-images_only tmp data' w image)
      ∙ settle_publish-images_only dir tmp _

  remove_all-images_only :
      (paths : List FilePath) (w : W)
      → remove_all (images_only disk) paths w ≡ remove_all disk paths w
  remove_all-images_only [] w = refl
  remove_all-images_only (p ∷ paths) w = remove_all-images_only paths (disk.remove_file p w)

  evict_listed-images_only :
      (now : ℤ) (limits : CacheLimits) (r : Result IoError (List DirEntry)) (w : W)
      → evict_listed (images_only disk) now limits r w ≡ evict_listed disk now limits r w
  evict_listed-images_only now limits (err e) w = refl
  evict_listed-images_only now limits (ok listed) w =
      let (expired, entries) = sift now limits listed in
      let gone = map (λ e. e.path) (victims limits entries) in
      remove_all-images_only gone (remove_all (images_only disk) expired w)
      ∙ ap (remove_all disk gone) (remove_all-images_only expired w)

  evict_after-images_only :
      (dir : FilePath) (limits : CacheLimits) (o : W × Result IoError (Unit {0}))
      → evict_after (images_only disk) dir limits o ≡ evict_after disk dir limits o
  unfolding evict
  evict_after-images_only dir limits (w, err e) = refl
  evict_after-images_only dir limits (w, ok done) =
      ap (λ u. (u, ok done))
        (evict_listed-images_only (disk.system_now w) limits (disk.read_dir dir w) w)

  publish_in-images_only :
      (dir : FilePath) (limits : CacheLimits) (dest : FilePath) (data' : List ℕ)
      (o : W × Result IoError (Unit {0}))
      → looks_like_image data' ≡ true
      → publish_in (images_only disk) dir limits dest data' o
        ≡ publish_in disk dir limits dest data' o
  unfolding publish
  publish_in-images_only dir limits dest data' (w, err e) image = refl
  publish_in-images_only dir limits dest data' (w, ok done) image =
      ap (evict_after (images_only disk) dir limits)
        (publish_temp-images_only dir dest data' (disk.create_temp dir w) image)
      ∙ evict_after-images_only dir limits
          (publish_temp disk dir dest data' (disk.create_temp dir w))

  store-images_only :
      (dir : FilePath) (limits : CacheLimits) (dest : FilePath) (data' : List ℕ) (w : W)
      → looks_like_image data' ≡ true
      → store (images_only disk) dir limits dest data' w ≡ store disk dir limits dest data' w
  unfolding store
  store-images_only dir limits dest data' w =
      publish_in-images_only dir limits dest data' (disk.create_dirs dir w)

module _ {Url W : Type 0} (disk : Disk W) (services : Services Url W) where
  after_store_id-images_only :
      (url : Str) (dest : FilePath) (o : Result IoError ContentId) (w : W) (r : CoverResolver)
      → after_store_id (images_only disk) services url dest o w r
        ≡ after_store_id disk services url dest o w r
  unfolding contain
  after_store_id-images_only url dest (ok id) w r = refl
  after_store_id-images_only url dest (err e) w r = refl

  after_store-images_only :
      (url : Str) (dest : FilePath) (r : CoverResolver) (o : W × Result IoError (Unit {0}))
      → after_store (images_only disk) services url dest r o
        ≡ after_store disk services url dest r o
  unfolding contain content_id
  after_store-images_only url dest r (w, err e) = refl
  after_store-images_only url dest r (w, ok done) =
      after_store_id-images_only url dest (content_id disk dest w) w r

  after_fetch-images_only :
      (url : Str) (dest : FilePath) (r : CoverResolver) (o : W × Result CoverError (List ℕ))
      → after_fetch (images_only disk) services url dest r o
        ≡ after_fetch disk services url dest r o
  unfolding contain
  after_fetch-images_only url dest r (w, err e) = refl
  after_fetch-images_only url dest r (w, ok data') = elim (Bool-cases (looks_like_image data')) [
    | inr f ↦ rw f refl
    | inl image ↦ rw image (
        ap (after_store (images_only disk) services url dest r)
          (store-images_only disk r.cache_dir r.cache_limits dest data' w image)
        ∙ after_store-images_only url dest r (store disk r.cache_dir r.cache_limits dest data' w))
  ]

  on_hit-images_only :
      (url : Str) (dest : FilePath) (o : Result IoError ContentId) (w : W) (r : CoverResolver)
      → on_hit (images_only disk) services url dest o w r ≡ on_hit disk services url dest o w r
  on_hit-images_only url dest (ok id) w r = refl
  on_hit-images_only url dest (err e) w r =
      after_fetch-images_only url dest r (services.fetch url w)

  -- Whatever a server sends, only content with an accepted image signature is ever written into the
  -- cache: on a disk that refuses to write anything else, every remote resolution goes the same way.
  pub resolve_remote-images_only :
      (url : Str) (w : W) (r : CoverResolver)
      → resolve_remote (images_only disk) services url w r ≡ resolve_remote disk services url w r
  unfolding resolve_remote content_id is_real_file
  resolve_remote-images_only url w r =
      let dest = cache_path services.sha256 r.cache_dir url in
      elim (Bool-cases (is_real_file disk dest w)) [
        | inl t ↦ rw t (on_hit-images_only url dest (content_id disk dest w) w r)
        | inr f ↦ rw f (after_fetch-images_only url dest r (services.fetch url w))
      ]
