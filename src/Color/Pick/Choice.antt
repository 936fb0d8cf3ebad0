-- ===== src/Color/Pick/Choice.antt =====
-- src/color/pick.rs, `select` as a whole: what the three colours owe to the histogram.
use mpris_chroma.Prelude.{
  ℕ, zero, suc, ◌-◌, ◌≤◌, ◌<◌, ◌≡◌, refl, ap, ◌∙◌, ◌⊎◌, inl, inr, some, List, [], ◌∷◌, ◌++◌, map,
  arith, length, take, replicate, All, Any, All-mono, Any-mono,
}
use mpris_chroma.Prelude.Sort.{total, All-sort_by, sort_by-All}
use mpris_chroma.Quantize.{get_elem?, get_elem?-defined}
use mpris_chroma.Color.{Float}
use mpris_chroma.Color.Oklab.{Triple}
use mpris_chroma.Color.Pick.{
  HistEntry, Ranked, Picked, ranks_before, rank, vibrancy_score, source_lch, pick_from, resize,
  padded, select,
}
use mpris_chroma.Color.Pick.Laws.{Pairs, IsApart, IsCovered, pick_from_lem}

module _ {A : Type 0} where
  pub take-All : (P : A → Type 0) (n : ℕ) (xs : List A) → All P xs → All P (take n xs)
  take-All P zero xs a = tt
  take-All P (suc n) [] a = tt
  take-All P (suc n) (x ∷ xs) a = (a.0, take-All P n xs a.1)

  pub replicate-All : (P : A → Type 0) (n : ℕ) (x : A) → P x → All P (replicate n x)
  replicate-All P zero x p = tt
  replicate-All P (suc n) x p = (p, replicate-All P n x p)

  pub length-replicate : (n : ℕ) (x : A) → length (replicate n x) ≡ n
  length-replicate zero x = refl
  length-replicate (suc n) x = ap suc (length-replicate n x)

  pub take-append :
      (xs ys : List A) (n : ℕ) → length xs ≤ n → take n (xs ++ ys) ≡ xs ++ take (n - length xs) ys
  take-append [] ys n h = let e : n - 0 ≡ n = omega arith in rw e refl
  take-append (x ∷ xs) ys zero h = absurd (omega arith)
  take-append (x ∷ xs) ys (suc n) h =
      let e : suc n - suc (length xs) ≡ n - length xs = omega arith in
      rw e (ap (◌∷◌ x) (take-append xs ys n (omega arith)))

  pub take-replicate : (m n : ℕ) (x : A) → m ≤ n → take m (replicate n x) ≡ replicate m x
  take-replicate zero n x h = refl
  take-replicate (suc m) zero x h = absurd (omega arith)
  take-replicate (suc m) (suc n) x h = ap (◌∷◌ x) (take-replicate m n x (omega arith))

  Any_self : (xs : List A) → All (λ x. Any (λ y. x ≡ y) xs) xs
  Any_self [] = tt
  Any_self (x ∷ xs) = (inl refl, All-mono _ _ xs (λ y h. inr h) (Any_self xs))

  Any-positive : (P : A → Type 0) (xs : List A) → Any P xs → 0 < length xs
  Any-positive P [] h = elim h [ ]
  Any-positive P (x ∷ xs) h = omega arith

module _ {F : Type 0} ⦃r : Float F⦄ where
  rank-All :
      (P : Triple F → Type 0) (hist : List (HistEntry F))
      → All (λ (e : HistEntry F). P (source_lch e.1)) hist
      → All (λ (e : Ranked F). P (source_lch e.1)) (rank hist)
  unfolding rank
  rank-All P hist a =
      let sum = total (λ (e : HistEntry F). e.0) hist in
      All-sort_by ranks_before (λ (e : Ranked F). P (source_lch e.1)) _ (scored sum hist a)
    where
      scored :
          (sum : ℕ) (es : List (HistEntry F))
          → All (λ (e : HistEntry F). P (source_lch e.1)) es
          → All
              (λ (e : Ranked F). P (source_lch e.1))
              (map (λ (e : HistEntry F). (vibrancy_score e.0 sum e.1, e.1)) es)
      scored sum [] b = tt
      scored sum (e ∷ es) b = (b.0, scored sum es b.1)

  All-rank :
      (P : Triple F → Type 0) (hist : List (HistEntry F))
      → All (λ (e : Ranked F). P (source_lch e.1)) (rank hist)
      → All (λ (e : HistEntry F). P (source_lch e.1)) hist
  unfolding rank
  All-rank P hist a =
      let sum = total (λ (e : HistEntry F). e.0) hist in
      unscored sum hist (sort_by-All ranks_before (λ (e : Ranked F). P (source_lch e.1)) _ a)
    where
      unscored :
          (sum : ℕ) (es : List (HistEntry F))
          → All
              (λ (e : Ranked F). P (source_lch e.1))
              (map (λ (e : HistEntry F). (vibrancy_score e.0 sum e.1, e.1)) es)
          → All (λ (e : HistEntry F). P (source_lch e.1)) es
      unscored sum [] b = tt
      unscored sum (e ∷ es) b = (b.0, unscored sum es b.1)

  -- What a choice of three colours owes to a histogram: the first `n` of them are real, each is the
  -- colour of an entry, a later one is never too close to an earlier one, every entry's colour is one
  -- of them or too close to one unless they are three, and the last real one fills up the three.
  pub record IsChoice (hist : List (HistEntry F)) (picks : List (Triple F)) (n : ℕ) : Type 0 where
    pub reals : List (Triple F)
    pub last : Triple F
    pub filled : picks ≡ reals ++ replicate (3 - n) last
    pub is_last : get_elem? (n - 1) reals ≡ some last
    pub counted : length reals ≡ n
    pub some_real : 1 ≤ n
    pub few : n ≤ 3
    pub known : All (λ p. Any (λ (e : HistEntry F). p ≡ source_lch e.1) hist) reals
    pub apart : Pairs IsApart reals
    pub covered : (n ≡ 3) ⊎ All (λ (e : HistEntry F). IsCovered reals (source_lch e.1)) hist

  padded_lem :
      (e : HistEntry F) (es : List (HistEntry F)) (picked : List (Triple F))
      → 0 < length picked
      → length picked ≤ 3
      → All (λ p. Any (λ (k : HistEntry F). p ≡ source_lch k.1) (e ∷ es)) picked
      → Pairs IsApart picked
      → (length picked ≡ 3) ⊎ All (λ (k : HistEntry F). IsCovered picked (source_lch k.1)) (e ∷ es)
      → (picks : List (Triple F)) × (padded picked ≡ some (picks, length picked))
        × IsChoice (e ∷ es) picks (length picked)
  unfolding padded
  padded_lem e es picked some_real few known apart covered =
      let (last, f) = get_elem?-defined (length picked - 1) picked (omega arith) in
      let filled =
        take-append picked (replicate 3 last) 3 few
        ∙ ap (λ l. picked ++ l) (take-replicate (3 - length picked) 3 last (omega arith)) in
      (
        resize 3 last picked,
        rw f refl,
        record {
          reals = picked;
          last = last;
          filled = filled;
          is_last = f;
          counted = refl;
          some_real = some_real;
          few = few;
          known = known;
          apart = apart;
          covered = covered;
        },
      )

  -- On a histogram that is not empty, `select` does not panic and gives three colours, of which the
  -- first n, one to three, are real: each real one is the colour of an entry, no later one is less
  -- than the minimum distance from an earlier one, every entry's colour is that close to a real one
  -- unless three are real, and the last real one fills up the three.
  pub select_lem :
      (e : HistEntry F) (es : List (HistEntry F))
      → (picks : List (Triple F)) × (n : ℕ) × (select (e ∷ es) ≡ some (picks, n))
        × IsChoice (e ∷ es) picks n
  unfolding select
  select_lem e es =
      let P = λ (p : Triple F). Any (λ (k : HistEntry F). p ≡ source_lch k.1) (e ∷ es) in
      let start : Picked F = ([], []) in
      let all_known = known_all (e ∷ es) in
      let (g, grown, c) =
        pick_from_lem P (rank (e ∷ es)) start (rank-All P (e ∷ es) all_known)
          (record { same = refl; apart = tt; few = omega arith; known = tt }) in
      let picked = (pick_from (rank (e ∷ es)) start).0 in
      let covered = back picked c in
      let (picks, f, choice) =
        padded_lem e es picked (positive picked covered) g.few g.known g.apart covered in
      (picks, length picked, f, choice)
    where
      known_all :
          (ks : List (HistEntry F))
          → All
              (λ (k : HistEntry F). Any (λ (m : HistEntry F). source_lch k.1 ≡ source_lch m.1) ks)
              ks
      known_all ks =
          All-mono _ _ ks
            (λ k h. Any-mono _ _ ks (λ m s. ap (λ (x : HistEntry F). source_lch x.1) s) h)
            (Any_self ks)

      back :
          (picked : List (Triple F))
          → (length picked ≡ 3)
            ⊎ All (λ (k : Ranked F). IsCovered picked (source_lch k.1)) (rank (e ∷ es))
          → (length picked ≡ 3)
            ⊎ All (λ (k : HistEntry F). IsCovered picked (source_lch k.1)) (e ∷ es)
      back picked (inl h) = inl h
      back picked (inr h) = inr (All-rank (IsCovered picked) (e ∷ es) h)

      positive :
          (picked : List (Triple F))
          → (length picked ≡ 3)
            ⊎ All (λ (k : HistEntry F). IsCovered picked (source_lch k.1)) (e ∷ es)
          → 0 < length picked
      positive picked (inl h) = omega arith
      positive picked (inr (inl h, rest)) = Any-positive _ picked h
      positive picked (inr (inr h, rest)) = Any-positive _ picked h
