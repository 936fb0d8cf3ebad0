-- ===== src/Cover/Resolver/Limiter.antt =====
-- src/cover/mod.rs, `log_failure`: however many covers fail, the journal is not flooded.
use mpris_chroma.Prelude.{
  ℕ, ◌+◌, ◌-◌, ◌≤◌, ◌≡◌, refl, subst, ap, sym, ◌∙◌, true, false, not, ◌||◌, leb→le, Option, none,
  some, List, [], ◌∷◌, arith, All, All-mono, if◌then◌else◌, if_cases,
}
use mpris_chroma.Prelude.Text.{Str, FilePath, codes, str_eq, str_eq_iff, starts_with}
use mpris_chroma.Prelude.Result.{Result, ok, err}
use mpris_chroma.Prelude.Dict
use mpris_chroma.Cover.{ContentId, CoverError, IoError}
use mpris_chroma.Cover.Disk.{Disk, content_id}
use mpris_chroma.Cover.Cache.{looks_like_image, is_real_file}
use mpris_chroma.Cover.Resolver.{
  log_interval, Logged, CoverResolver, Services, cache_path, is_due, log_failure, Resolved, contain,
  store, after_store_id, after_store, after_fetch, on_hit, resolve_remote, scan_dir, resolve,
}

-- Two warnings under one key lie the interval apart; the list is newest first.
abbrev pub IsSpaced : List Logged → Type 0
IsSpaced [] = Unit {0}
IsSpaced (x ∷ xs) = All (λ y. y.key ≡ x.key → y.at + log_interval ≤ x.at) xs × IsSpaced xs

-- When a key was last warned of.
abbrev latest : Str → List Logged → Option ℕ
latest key [] = none
latest key (x ∷ xs) = if str_eq x.key key then some x.at else latest key xs

-- The times kept are the latest ones.
record IsLimited (r : CoverResolver) : Type 0 where
  tracked : (key : Str) → Dict.get key r.last_logged ≡ latest key r.warned
  spaced : IsSpaced r.warned

-- No warning under the key is later than this.
abbrev IsLast : Str → Option ℕ → List Logged → Type 0
IsLast key none xs = All (λ y. y.key ≡ key → ⊥) xs
IsLast key (some t) xs = All (λ y. y.key ≡ key → y.at ≤ t) xs

latest-IsLast : (key : Str) (xs : List Logged) → IsSpaced xs → IsLast key (latest key xs) xs
latest-IsLast key [] s = tt
latest-IsLast key (x ∷ xs) s =
    if_cases (λ o. IsLast key o (x ∷ xs)) (str_eq x.key key) _ _
      (λ t.
        let same = (str_eq_iff x.key key).0 t in
        ((λ _. omega arith), All-mono _ _ xs (λ y far e. omega (arith, far (e ∙ sym same))) s.0))
      (λ f. further f (latest key xs) (latest-IsLast key xs s.1))
  where
    further : str_eq x.key key ≡ false → (o : Option ℕ) → IsLast key o xs → IsLast key o (x ∷ xs)
    further f none l = ((λ e. cc ((str_eq_iff x.key key).1 e, f)), l)
    further f (some t) l = ((λ e. absurd (cc ((str_eq_iff x.key key).1 e, f))), l)

log_failure-IsLimited :
    (key message : Str) (now : ℕ) (r : CoverResolver)
    → IsLimited r
    → IsLimited (log_failure key message now r)
unfolding log_failure
log_failure-IsLimited key message now r l =
    if_cases IsLimited (is_due now (Dict.get key r.last_logged)) _ _
      (λ due. record {
        tracked = λ k.
            Dict.get-insert key k now r.last_logged
            ∙ ap (λ o. if str_eq key k then some now else o) (l.tracked k);
        spaced = (
          apart due (Dict.get key r.last_logged) refl (
              subst (λ o. IsLast key o r.warned) (sym (l.tracked key))
                (latest-IsLast key r.warned l.spaced)),
          l.spaced,
        );
      })
      (λ _. l)
  where
    apart :
        is_due now (Dict.get key r.last_logged) ≡ true
        → (o : Option ℕ) → Dict.get key r.last_logged ≡ o
        → IsLast key (Dict.get key r.last_logged) r.warned
        → All (λ y. y.key ≡ key → y.at + log_interval ≤ now) r.warned
    apart due none e last =
        All-mono _ _ r.warned (λ y no same. absurd (no same))
          (subst (λ o. IsLast key o r.warned) e last)
    apart due (some t) e last =
        let far = leb→le log_interval (now - t) (rw e at due) in
        All-mono _ _ r.warned (λ y before same. omega (arith, far, before same))
          (subst (λ o. IsLast key o r.warned) e last)

module _ {Url W : Type 0} (disk : Disk W) (services : Services Url W) where
  -- The warnings and their times are as the limiter wants them in this outcome.
  abbrev Keeps : Resolved W → Type 0
  Keeps out = IsLimited out.1

  contain-Keeps :
      (url : Str) (e : CoverError) (w : W) (r : CoverResolver)
      → IsLimited r
      → Keeps (contain disk services url e w r)
  unfolding contain
  contain-Keeps url e w r l = log_failure-IsLimited _ _ (disk.now w).1 r l

  after_store_id-Keeps :
      (url : Str) (dest : FilePath) (o : Result IoError ContentId) (w : W) (r : CoverResolver)
      → IsLimited r
      → Keeps (after_store_id disk services url dest o w r)
  after_store_id-Keeps url dest (ok id) w r l = l
  after_store_id-Keeps url dest (err e) w r l = contain-Keeps url _ w r l

  after_store-Keeps :
      (url : Str) (dest : FilePath) (r : CoverResolver) (o : W × Result IoError (Unit {0}))
      → IsLimited r
      → Keeps (after_store disk services url dest r o)
  after_store-Keeps url dest r (w, err e) l = contain-Keeps url _ w r l
  after_store-Keeps url dest r (w, ok done) l =
      after_store_id-Keeps url dest (content_id disk dest w) w r l

  after_fetch-Keeps :
      (url : Str) (dest : FilePath) (r : CoverResolver) (o : W × Result CoverError (List ℕ))
      → IsLimited r
      → Keeps (after_fetch disk services url dest r o)
  after_fetch-Keeps url dest r (w, err e) l = contain-Keeps url e w r l
  after_fetch-Keeps url dest r (w, ok data') l =
      if_cases Keeps (not (looks_like_image data')) _ _ (λ _. l)
        (λ _. after_store-Keeps url dest r (store disk r.cache_dir r.cache_limits dest data' w) l)

  on_hit-Keeps :
      (url : Str) (dest : FilePath) (o : Result IoError ContentId) (w : W) (r : CoverResolver)
      → IsLimited r
      → Keeps (on_hit disk services url dest o w r)
  on_hit-Keeps url dest (ok id) w r l = l
  on_hit-Keeps url dest (err e) w r l = after_fetch-Keeps url dest r (services.fetch url w) l

  resolve_remote-Keeps :
      (url : Str) (w : W) (r : CoverResolver)
      → IsLimited r
      → Keeps (resolve_remote disk services url w r)
  unfolding resolve_remote
  resolve_remote-Keeps url w r l =
      let dest = cache_path services.sha256 r.cache_dir url in
      if_cases Keeps (is_real_file disk dest w) _ _
        (λ _. on_hit-Keeps url dest (content_id disk dest w) w r l)
        (λ _. after_fetch-Keeps url dest r (services.fetch url w) l)

  scan_dir-Keeps :
      (covers_dir : Option FilePath) (w : W) (r : CoverResolver)
      → IsLimited r
      → Keeps (scan_dir disk services covers_dir w r)
  scan_dir-Keeps none w r l = l
  scan_dir-Keeps (some dir) w r l = record { tracked = l.tracked; spaced = l.spaced }

  resolve-Keeps :
      (art_url : Str) (covers_dir : Option FilePath) (w : W) (r : CoverResolver)
      → IsLimited r
      → Keeps (resolve disk services art_url covers_dir w r)
  unfolding resolve
  resolve-Keeps art_url covers_dir w r l =
      if_cases Keeps (starts_with (codes "file://") art_url) _ _ (λ _. l)
        (λ _.
          if_cases Keeps
            (starts_with (codes "http://") art_url || starts_with (codes "https://") art_url) _ _
            (λ _. resolve_remote-Keeps art_url w r l) (λ _. scan_dir-Keeps covers_dir w r l))

  -- A sequence of resolutions, with what the other threads do to the world between them.
  unfoldable pub resolve_all :
      List (Str × Option FilePath) → (W → W) → W → CoverResolver → W × CoverResolver
  resolve_all [] between w r = (w, r)
  resolve_all ((url, dir) ∷ targets) between w r =
      let (w1, r1, found) = resolve disk services url dir (between w) r in
      resolve_all targets between w1 r1

  resolve_all-IsLimited :
      (targets : List (Str × Option FilePath)) (between : W → W) (w : W) (r : CoverResolver)
      → IsLimited r
      → IsLimited (resolve_all targets between w r).1
  unfolding resolve_all
  resolve_all-IsLimited [] between w r l = l
  resolve_all-IsLimited ((url, dir) ∷ targets) between w r l =
      let out = resolve disk services url dir (between w) r in
      resolve_all-IsLimited targets between out.0 out.1 (resolve-Keeps url dir (between w) r l)

  -- Over any sequence of resolutions from a new resolver, two warnings about the same host are at
  -- least a minute apart, also if the clock is set back between them.
  pub warnings-IsSpaced :
      (targets : List (Str × Option FilePath)) (between : W → W) (w : W) (r : CoverResolver)
      → r.last_logged ≡ []
      → r.warned ≡ []
      → IsSpaced (resolve_all targets between w r).1.warned
  unfolding Dict.get
  warnings-IsSpaced targets between w r fresh quiet =
      (resolve_all-IsLimited targets between w r (record {
        tracked = λ key. ap (Dict.get key) fresh ∙ ap (latest key) (sym quiet);
        spaced = subst IsSpaced (sym quiet) tt;
      })).spaced
