-- ===== src/Cover/Cache/Spared.antt =====
-- src/cover/cache.rs, `evict`: which entries of the directory it may remove at all.
use mpris_chroma.Prelude.{
  ℕ, ◌<◌, ◌≡◌, inl, inr, refl, subst, sym, false, ltb, ltb→lt, List, [], ◌∷◌, All, All-mono, Any,
  if_cases,
}
use mpris_chroma.Prelude.Text.{FilePath, codes, starts_with}
use mpris_chroma.Prelude.Int.{ℤ}
use mpris_chroma.Prelude.Result.{Result, ok, err}
use mpris_chroma.Cover.{IoError}
use mpris_chroma.Cover.Disk.{Meta, DirEntry}
use mpris_chroma.Cover.Cache.{CacheLimits, CacheEntry, age_of, sift_mtime, sift_meta, sift}

-- The entry's data, where they could be read: no link, of this age and size.
abbrev pub HasMeta : Result IoError Meta → ℤ → ℕ → Type 0
HasMeta (err e) mtime size = ⊥
HasMeta (ok m) mtime size = (m.is_symlink ≡ false) × (m.modified ≡ ok mtime) × (m.len ≡ size)

-- A listed entry with this path, not hidden, whose data are these.
abbrev pub Listed : FilePath → ℤ → ℕ → DirEntry → Type 0
Listed path mtime size d =
    (d.path ≡ path) × (starts_with (codes ".") d.file_name ≡ false) × HasMeta d.metadata mtime size

module _ (now : ℤ) (limits : CacheLimits) where
  -- A path that is removed for its age.
  abbrev pub IsExpired : List DirEntry → FilePath → Type 0
  IsExpired listed path =
      (mtime : ℤ) × (size : ℕ) × (limits.max_age < age_of now mtime)
      × Any (Listed path mtime size) listed

  abbrev pub IsCandidate : List DirEntry → CacheEntry → Type 0
  IsCandidate listed e = Any (Listed e.path e.mtime e.size) listed

  abbrev Sifted : List DirEntry → List FilePath × List CacheEntry → Type 0
  Sifted listed out = All (IsExpired listed) out.0 × All (IsCandidate listed) out.1

  more :
      (d : DirEntry) (listed : List DirEntry) (out : List FilePath × List CacheEntry)
      → Sifted listed out
      → Sifted (d ∷ listed) out
  more d listed out s = (
    All-mono _ _ out.0 (λ p x. (x.0, x.1, x.2, inr x.3)) s.0,
    All-mono _ _ out.1 (λ e x. inr x) s.1,
  )

  sift_meta-Sifted :
      (d : DirEntry) (listed : List DirEntry) (r : Result IoError Meta)
      (rest : List FilePath × List CacheEntry)
      → d.metadata ≡ r
      → starts_with (codes ".") d.file_name ≡ false
      → Sifted listed rest
      → Sifted (d ∷ listed) (sift_meta now limits d r rest)
  sift_meta-Sifted d listed (err e) rest q shown s = more d listed rest s
  sift_meta-Sifted d listed (ok m) rest q shown s =
      if_cases (Sifted (d ∷ listed)) m.is_symlink _ _ (λ _. more d listed rest s)
        (λ no_link. by_mtime no_link m.modified refl)
    where
      by_mtime :
          m.is_symlink ≡ false
          → (t : Result IoError ℤ) → m.modified ≡ t
          → Sifted (d ∷ listed) (sift_mtime now limits d m.len t rest)
      by_mtime no_link (err e) p = more d listed rest s
      by_mtime no_link (ok t) p =
          let up = more d listed rest s in
          let here : Listed d.path t m.len d =
            (refl, shown, subst (λ r. HasMeta r t m.len) (sym q) (no_link, p, refl)) in
          if_cases (Sifted (d ∷ listed)) (ltb limits.max_age (age_of now t)) _ _
            (λ old.
              ((((t, m.len, ltb→lt limits.max_age (age_of now t) old, inl here), up.0)), up.1))
            (λ _. (up.0, (inl here, up.1)))

  -- `evict` considers only entries of the directory that are not hidden, so no temporary file, and
  -- that are no links; it removes one for its age only if that is over the limit, and the candidates
  -- for the budgets carry their own times and sizes.
  pub sift_lem :
      (listed : List DirEntry)
      → All (IsExpired listed) (sift now limits listed).0
        × All (IsCandidate listed) (sift now limits listed).1
  unfolding sift
  sift_lem [] = (tt, tt)
  sift_lem (d ∷ listed) =
      let rest = sift_lem listed in
      if_cases (Sifted (d ∷ listed)) (starts_with (codes ".") d.file_name) _ _
        (λ _. more d listed (sift now limits listed) rest)
        (λ shown. sift_meta-Sifted d listed d.metadata (sift now limits listed) refl shown rest)
