-- ===== src/Cover/Local/Confined.antt =====
-- src/cover/local.rs, `resolve_file`: a cover that is accepted lies beneath the configured root.
use mpris_chroma.Prelude.{
  ◌≡◌, inl, inr, subst, refl, ap, ◌∙◌, true, false, Option, none, some, List, [], ◌∷◌, ◌++◌, arith,
  Bool-cases,
}
use mpris_chroma.Prelude.Text.{Str, FilePath, str_eq_iff}
use mpris_chroma.Prelude.Result.{Result, ok, err}
use mpris_chroma.Cover.{ContentId, ready, IoError}
use mpris_chroma.Cover.Policy.{UrlCrate}
use mpris_chroma.Cover.Disk.{Disk, content_id}
use mpris_chroma.Cover.Cache.{is_file}
use mpris_chroma.Cover.Local.{
  ready_with, components, is_prefix, path_starts_with, foreign_host, on_target, on_real_root,
  on_root, on_file_url, resolve_file,
}

is_prefix-eq_true :
    (rs cs : List Str) → is_prefix rs cs ≡ true → (rest : List Str) × (cs ≡ rs ++ rest)
unfolding is_prefix
is_prefix-eq_true [] cs e = (cs, refl)
is_prefix-eq_true (r ∷ rs) [] e = ground arith
is_prefix-eq_true (r ∷ rs) (c ∷ cs) e =
    let (rest, same) = is_prefix-eq_true rs cs (ground arith) in
    let head : c ≡ r = ground (arith, str_eq_iff r c) in
    (rest, ap (◌∷◌ c) same ∙ ap (λ x. x ∷ (rs ++ rest)) head)

module _ {W : Type 0} (disk : Disk W) where
  -- A URL without a foreign authority, a root and a local path, both resolved through every link;
  -- the resolved path is a regular file, its components begin with those of the resolved root, and
  -- the identity is that file's.
  pub record IsConfined {Url : Type 0} (u : UrlCrate Url) (art_url : Str) (root : Option FilePath)
      (w : W) (path : FilePath) (id : ContentId) : Type 0 where
    pub url : Url
    pub parsed : u.parse art_url ≡ ok url
    pub authority : foreign_host (u.host_str url) ≡ false
    pub given_root : FilePath
    pub rooted : root ≡ some given_root
    pub real_root : FilePath
    pub root_resolved : disk.canonicalize given_root w ≡ ok real_root
    pub given_path : FilePath
    pub local : u.to_file_path url ≡ some given_path
    pub path_resolved : disk.canonicalize given_path w ≡ ok path
    pub regular : is_file (disk.metadata path w) ≡ true
    pub beneath : List Str
    pub confined : components path ≡ components real_root ++ beneath
    pub identity : content_id disk path w ≡ ok id

  pub ready_with_lem :
      (target path : FilePath) (r : Result IoError ContentId) (id : ContentId)
      → ready_with target r ≡ ready path id
      → (target ≡ path) × (r ≡ ok id)
  ready_with_lem target path (ok i) id h = ground arith
  ready_with_lem target path (err e) id h = ground arith

  on_target_lem :
      (real_root : FilePath) (r : Result IoError FilePath) (w : W) (path : FilePath)
      (id : ContentId)
      → on_target disk real_root r w ≡ ready path id
      → (r ≡ ok path)
        × (is_file (disk.metadata path w) ≡ true)
        × (path_starts_with path real_root ≡ true)
        × (content_id disk path w ≡ ok id)
  on_target_lem real_root (err e) w path id h = ground arith
  on_target_lem real_root (ok target) w path id h =
      elim (Bool-cases (is_file (disk.metadata target w))) [
        | inr f ↦ absurd (ground (arith, f, h))
        | inl t ↦ elim (Bool-cases (path_starts_with target real_root)) [
          | inr f ↦ absurd (ground (arith, f, t, h))
          | inl s ↦
              let out : ready_with target (content_id disk target w) ≡ ready path id =
                rw (t, s) at h in
              let (same, found) = ready_with_lem target path (content_id disk target w) id out in
              (
                ap ok same,
                subst (λ p. is_file (disk.metadata p w) ≡ true) same t,
                subst (λ p. path_starts_with p real_root ≡ true) same s,
                subst (λ p. content_id disk p w ≡ ok id) same found,
              )
        ]
      ]

  module _ {Url : Type 0} (u : UrlCrate Url) (art_url : Str) (root : Option FilePath) (w : W)
      (path : FilePath) (id : ContentId) (url : Url) where
    on_root_lem :
        u.parse art_url ≡ ok url
        → foreign_host (u.host_str url) ≡ false
        → (r : Option FilePath) → root ≡ r
        → (p : Option FilePath) → u.to_file_path url ≡ p
        → on_root disk r p w ≡ ready path id
        → IsConfined u art_url root w path id
    unfolding path_starts_with
    on_root_lem parsed host none e p l h = ground arith
    on_root_lem parsed host (some g) e p l h = by_root (disk.canonicalize g w) refl p l h
      where
        by_root :
            (c : Result IoError FilePath)
            → disk.canonicalize g w ≡ c
            → (p : Option FilePath) → u.to_file_path url ≡ p
            → on_real_root disk c p w ≡ ready path id
            → IsConfined u art_url root w path id
        by_root (err why) f p l h = ground arith
        by_root (ok real) f none l h = ground arith
        by_root (ok real) f (some given) l h =
            let (resolved, regular, inside, identity) =
              on_target_lem real (disk.canonicalize given w) w path id h in
            let (beneath, confined) =
              is_prefix-eq_true (components real) (components path) inside in
            record {
              url = url;
              parsed = parsed;
              authority = host;
              given_root = g;
              rooted = e;
              real_root = real;
              root_resolved = f;
              given_path = given;
              local = l;
              path_resolved = resolved;
              regular = regular;
              beneath = beneath;
              confined = confined;
              identity = identity;
            }

  on_file_url_lem :
      {Url : Type 0} (u : UrlCrate Url) (art_url : Str) (root : Option FilePath) (w : W)
      (path : FilePath) (id : ContentId) (p : Result Str Url)
      → u.parse art_url ≡ p
      → on_file_url disk u p root w ≡ ready path id
      → IsConfined u art_url root w path id
  on_file_url_lem u art_url root w path id (err why) e h = ground arith
  on_file_url_lem u art_url root w path id (ok url) e h =
      elim (Bool-cases (foreign_host (u.host_str url))) [
        | inl t ↦ absurd (ground (arith, t, h))
        | inr f ↦
            on_root_lem u art_url root w path id url e f root refl (u.to_file_path url) refl
              (rw f at h)
      ]

  -- A `file://` cover is accepted only if it names no foreign host and, with every link on both
  -- paths resolved, is a regular file whose components begin with those of the configured root; so
  -- neither a link nor a dotted path leads out of the root.
  pub resolve_file-IsConfined :
      {Url : Type 0} (u : UrlCrate Url) (art_url : Str) (root : Option FilePath) (w : W)
      (path : FilePath) (id : ContentId)
      → resolve_file disk u art_url root w ≡ ready path id
      → IsConfined u art_url root w path id
  unfolding resolve_file
  resolve_file-IsConfined u art_url root w path id h =
      on_file_url_lem u art_url root w path id (u.parse art_url) refl h
