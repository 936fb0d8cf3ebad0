-- ===== src/Cover/Local/Scanning.antt =====
-- src/cover/local.rs, `DirScanner::scan`: the newest image, found once per change of the directory.
use mpris_chroma.Prelude.{
  ◌≡◌, ◌⊎◌, inl, inr, refl, ap, sym, ◌∙◌, true, Option, none, some, List, [], ◌∷◌, arith, All, Any,
  Bool-cases, if_cases,
}
use mpris_chroma.Prelude.Text.{FilePath}
use mpris_chroma.Prelude.Int.{
  ℤ, int_eq, int_eq_iff, int_leb, int_leb_refl, int_leb_total, int_leb_trans,
}
use mpris_chroma.Prelude.Result.{Result, ok, err, and_then}
use mpris_chroma.Prelude.Dict
use mpris_chroma.Cover.{ContentId, Resolution, ready, IoError}
use mpris_chroma.Cover.Disk.{DirEntry, Disk, content_id}
use mpris_chroma.Cover.Local.{
  Candidate, candidate, better, newest, DirScanner, on_best, on_entries, on_cached, on_memo, on_dir,
  scan,
}
use mpris_chroma.Cover.Local.Confined.{ready_with_lem}

-- No candidate of this entry is newer.
abbrev pub IsBeaten : ℤ → DirEntry → Type 0
IsBeaten m entry = (c : Candidate) → candidate entry ≡ some c → int_leb c.0 m ≡ true

-- `best` is what the entries before gave; `out` is what all give.
record Newest (best : Option Candidate) (entries : List DirEntry) (out : Candidate) : Type 0 where
  found : (best ≡ some out) ⊎ Any (λ e. candidate e ≡ some out) entries
  older : (b : Candidate) → best ≡ some b → int_leb b.0 out.0 ≡ true
  beaten : All (IsBeaten out.0) entries

better_lem :
    (best c : Option Candidate) (b : Candidate)
    → better best c ≡ some b
    → ((best ≡ some b) ⊎ (c ≡ some b))
      × ((x : Candidate) → best ≡ some x → int_leb x.0 b.0 ≡ true)
      × ((x : Candidate) → c ≡ some x → int_leb x.0 b.0 ≡ true)
better_lem none none b h = ground arith
better_lem (some a) none b h = (inl h, λ x e. ground (arith, int_leb_refl b.0), λ x e. ground arith)
better_lem none (some c) b h = (inr h, λ x e. ground arith, λ x e. ground (arith, int_leb_refl b.0))
better_lem (some a) (some c) b h = elim (Bool-cases (int_leb c.0 a.0)) [
  | inl t ↦
      let same : some a ≡ some b = rw t at h in
      (
        inl same,
        λ x e. ground (arith, int_leb_refl b.0, e, same),
        λ x e. ground (arith, t, e, same),
      )
  | inr f ↦
      let same : some c ≡ some b = rw f at h in
      let less = int_leb_total c.0 a.0 f in
      (
        inr same,
        λ x e. ground (arith, less, e, same),
        λ x e. ground (arith, int_leb_refl b.0, e, same),
      )
]

better-eq_none : (best c : Option Candidate) → better best c ≡ none → (best ≡ none) × (c ≡ none)
better-eq_none none none h = (refl, refl)
better-eq_none (some a) none h = ground arith
better-eq_none none (some c) h = ground arith
better-eq_none (some a) (some c) h = ground arith

newest-Newest :
    (best : Option Candidate) (entries : List DirEntry) (out : Candidate)
    → newest best entries ≡ some out
    → Newest best entries out
unfolding newest
newest-Newest best [] out h = record {
  found = inl h;
  older = λ b e. ground (arith, int_leb_refl out.0, e, h);
  beaten = tt;
}
newest-Newest best (e ∷ entries) out h =
    let rest = newest-Newest (better best (candidate e)) entries out h in
    by_better (better best (candidate e)) refl rest
  where
    widen :
        (o : Option Candidate)
        → (o ≡ some out → (best ≡ some out) ⊎ (candidate e ≡ some out))
        → (o ≡ some out) ⊎ Any (λ d. candidate d ≡ some out) entries
        → (best ≡ some out) ⊎ Any (λ d. candidate d ≡ some out) (e ∷ entries)
    widen o k (inr a) = inr (inr a)
    widen o k (inl p) = elim (k p) [ inl x ↦ inl x | inr x ↦ inr (inl x) ]

    by_better :
        (o : Option Candidate)
        → better best (candidate e) ≡ o
        → Newest o entries out
        → Newest best (e ∷ entries) out
    by_better none q rest =
        let gone = better-eq_none best (candidate e) q in
        record {
          found = widen none (λ p. ground arith) rest.found;
          older = λ b p. ground (arith, gone.0, p);
          beaten = ((λ c p. ground (arith, gone.1, p)), rest.beaten);
        }
    by_better (some b) q rest =
        let (from, old, new) = better_lem best (candidate e) b q in
        let b_out = rest.older b refl in
        record {
          found = widen (some b) (λ p. ground (arith, from, p)) rest.found;
          older = λ x p. int_leb_trans x.0 b.0 out.0 (old x p) b_out;
          beaten = ((λ c p. int_leb_trans c.0 b.0 out.0 (new c p) b_out), rest.beaten);
        }

-- A full scan finds an image that no other is newer than: some entry is a regular file with an
-- accepted signature and gave this time and path, and the time of every other such entry is not
-- later.
pub newest_lem :
    (entries : List DirEntry) (out : Candidate)
    → newest none entries ≡ some out
    → Any (λ e. candidate e ≡ some out) entries × All (IsBeaten out.0) entries
newest_lem entries out h =
    let n = newest-Newest none entries out h in
    (elim n.found [ inl p ↦ absurd (ground arith) | inr a ↦ a ], n.beaten)

module _ {W : Type 0} (disk : Disk W) where
  abbrev pub dir_mtime : FilePath → W → Result IoError ℤ
  dir_mtime dir w = and_then (disk.metadata dir w) (λ m. m.modified)

  -- The memo holds this path for the directory's present time.
  record Remembers (dir : FilePath) (w : W) (path : FilePath) (s : DirScanner) : Type 0 where
    mtime : ℤ
    present : dir_mtime dir w ≡ ok mtime
    kept : Dict.get dir s.memo ≡ some (mtime, path)

  -- What a scan that ends well leaves behind.
  abbrev Leaves : FilePath → W → DirScanner × Resolution → Type 0
  Leaves dir w out =
      (path : FilePath) (id : ContentId) → out.1 ≡ ready path id → Remembers dir w path out.0

  module _ (dir : FilePath) (w : W) (m : ℤ) (now : dir_mtime dir w ≡ ok m) where
    on_best-Leaves :
        (best : Option Candidate) (s : DirScanner) → Leaves dir w (on_best disk dir m best w s)
    on_best-Leaves none s path id h = ground arith
    on_best-Leaves (some (t, found)) s path id h =
        let (same, _) = ready_with_lem disk found path (content_id disk found w) id h in
        record {
          mtime = m;
          present = now;
          kept = Dict.get-insert_self dir (m, found) s.memo ∙ ap (λ p. some (m, p)) same;
        }

    on_entries-Leaves :
        (r : Result IoError (List DirEntry)) (s : DirScanner)
        → Leaves dir w (on_entries disk dir m r w s)
    on_entries-Leaves (err e) s = λ path id h. ground arith
    on_entries-Leaves (ok entries) s = on_best-Leaves (newest none entries) s

    on_cached-Leaves :
        (cached : FilePath) (r : Result IoError ContentId) (s : DirScanner)
        → Dict.get dir s.memo ≡ some (m, cached)
        → Leaves dir w (on_cached disk dir m cached r w s)
    on_cached-Leaves cached (ok i) s kept path id h = record {
      mtime = m;
      present = now;
      kept = ground (arith, kept, h);
    }
    on_cached-Leaves cached (err e) s kept path id h =
        on_entries-Leaves (disk.read_dir dir w) _ path id h

    on_memo-Leaves :
        (o : Option Candidate) (s : DirScanner)
        → Dict.get dir s.memo ≡ o
        → Leaves dir w (on_memo disk dir m o w s)
    on_memo-Leaves none s e = on_entries-Leaves (disk.read_dir dir w) _
    on_memo-Leaves (some (t, cached)) s e =
        if_cases (Leaves dir w) (int_eq t m) _ _
          (λ q.
            on_cached-Leaves cached (content_id disk cached w) s
              (e ∙ ap (λ x. some (x, cached)) ((int_eq_iff t m).0 q)))
          (λ _. on_entries-Leaves (disk.read_dir dir w) _)

  scan-Leaves : (dir : FilePath) (w : W) (s : DirScanner) → Leaves dir w (scan disk dir w s)
  unfolding scan
  scan-Leaves dir w s = by_mtime (dir_mtime dir w) refl
    where
      by_mtime : (r : Result IoError ℤ) → dir_mtime dir w ≡ r → Leaves dir w (on_dir disk dir r w s)
      by_mtime (err e) q = λ path id h. ground arith
      by_mtime (ok m) q = on_memo-Leaves dir w m q (Dict.get dir s.memo) s refl

  -- A directory that has not changed is not read again: after a scan that found a cover, a scan in
  -- any later state in which the directory has the same time and the cover still exists gives that
  -- cover with its present identity, and leaves the scanner and its count of full scans as they are.
  pub scan_again :
      (dir : FilePath) (w later : W) (s s1 : DirScanner) (path : FilePath) (id now : ContentId)
      → scan disk dir w s ≡ (s1, ready path id)
      → dir_mtime dir later ≡ dir_mtime dir w
      → content_id disk path later ≡ ok now
      → scan disk dir later s1 ≡ (s1, ready path now)
  unfolding scan
  scan_again dir w later s s1 path id now ran quiet there =
      let r = scan-Leaves dir w s path id (ap (λ o. o.1) ran) in
      let kept : Dict.get dir s1.memo ≡ some (r.mtime, path) =
        sym (ap (λ o. Dict.get dir o.0.memo) ran) ∙ r.kept in
      rw (quiet ∙ r.present, kept, (int_eq_iff r.mtime r.mtime).1 refl, there) refl
