-- ===== src/Quantize/Split/Boundary.antt =====
-- color/quantize.rs, `split`: where the sorted entries are cut. The cut lies between the entries that
-- reach some value on the axis and those that stay below it.
use mpris_chroma.Prelude.{
  ℕ, zero, suc, ◌+◌, ◌-◌, ◌*◌, ◌%◌, ◌^◌, ◌≤◌, ◌<◌, ◌≡◌, refl, ap, ◌≢◌, inl, inr, true, Option, some,
  List, [], ◌∷◌, ◌++◌, arith, ltb, leb, ◌==◌, if◌then◌else◌, leb→le, ==_iff, Bool-cases,
  Option-cases, if_cases, length, take, drop, All, length-append, All-mono,
}
use mathlib.Core.List.{reverse, reverse-cons}
use mpris_chroma.Prelude.Sort.{IsSorted}
use mpris_chroma.Quantize.{Axis, channel, Entry, get_elem?, get_elem?-All, get_elem?-defined}
use mpris_chroma.Quantize.Split.{
  descending, median_len, run_len, color_of, value_at, past_median, before_tail, left_length,
  then_before,
}

median_len-le : (pixel_count left : ℕ) (s : List Entry) → median_len pixel_count left s ≤ length s
unfolding median_len
median_len-le pixel_count left [] = omega arith
median_len-le pixel_count left (e ∷ s) =
    if_cases (λ n. n ≤ suc (length s)) (ltb pixel_count ((left + e.count) % 2 ^ 32 * 2 % 2 ^ 32)) _
      _ (λ _. omega arith)
      (λ _. omega (arith, median_len-le pixel_count ((left + e.count) % 2 ^ 32) s))

median_len-positive :
    (pixel_count left : ℕ) (s : List Entry) → 0 < length s → 0 < median_len pixel_count left s
unfolding median_len
median_len-positive pixel_count left [] h = absurd (omega arith)
median_len-positive pixel_count left (e ∷ s) h =
    if_cases (λ n. 0 < n) (ltb pixel_count ((left + e.count) % 2 ^ 32 * 2 % 2 ^ 32)) _ _
      (λ _. omega arith) (λ _. omega arith)

module _ (axis : Axis) where
  abbrev pub val : Entry → ℕ
  val e = channel axis e.color

  -- How many entries reach a value.
  abbrev pub count_ge : ℕ → List Entry → ℕ
  count_ge t [] = 0
  count_ge t (e ∷ s) = let rest = count_ge t s in if leb t (val e) then suc rest else rest

  abbrev pub Descends : List Entry → Type 0
  Descends = IsSorted (descending axis)

  count_ge_none : (t : ℕ) (s : List Entry) → All (λ e. val e < t) s → count_ge t s ≡ 0
  count_ge_none t [] a = refl
  count_ge_none t (e ∷ s) a = ground (arith, a.0, count_ge_none t s a.1)

  count_ge-le : (t : ℕ) (s : List Entry) → count_ge t s ≤ length s
  count_ge-le t [] = omega arith
  count_ge-le t (e ∷ s) = ground (arith, count_ge-le t s)

  count_ge-zero : (t : ℕ) (s : List Entry) → count_ge t s ≡ 0 → All (λ e. val e < t) s
  count_ge-zero t [] h = tt
  count_ge-zero t (e ∷ s) h = (ground arith, count_ge-zero t s (ground arith))

  count_ge-full : (t : ℕ) (s : List Entry) → count_ge t s ≡ length s → All (λ e. t ≤ val e) s
  count_ge-full t [] h = tt
  count_ge-full t (e ∷ s) h =
      (ground (arith, count_ge-le t s), count_ge-full t s (ground (arith, count_ge-le t s)))

  below_head :
      (t : ℕ) (e : Entry) (s : List Entry) → val e < t → Descends (e ∷ s) → All (λ f. val f < t) s
  below_head t e s h d = All-mono _ _ s (λ f l. omega (arith, leb→le (val f) (val e) l)) d.0

  -- The cut after the entries that reach a value.
  pub cut_count_ge :
      (t : ℕ) (s : List Entry)
      → Descends s
      → All (λ e. t ≤ val e) (take (count_ge t s) s) × All (λ e. val e < t) (drop (count_ge t s) s)
  cut_count_ge t [] d = (tt, tt)
  cut_count_ge t (e ∷ s) d = elim (Bool-cases (leb t (val e))) [
    | inl h ↦ let r = cut_count_ge t s d.1 in rw h ((leb→le t (val e) h, r.0), r.1)
    | inr f ↦
        let small : val e < t = ground arith in
        let rest = below_head t e s small d in rw (f, count_ge_none t s rest) (tt, (small, rest))
  ]

  run_len-count_ge :
      (v : ℕ) (s : List Entry)
      → Descends s
      → All (λ e. val e ≤ v) s
      → run_len axis v s ≡ count_ge v s
  unfolding run_len
  run_len-count_ge v [] d a = refl
  run_len-count_ge v (e ∷ s) d a = elim (Bool-cases (val e == v)) [
    | inl h ↦ ground (arith, run_len-count_ge v s d.1 a.1)
    | inr f ↦
        let small : val e < v = ground (arith, a.0) in
        ground (arith, count_ge_none v s (below_head v e s small d))
  ]

  value_at-All :
      (P : ℕ → Type 0) (i : ℕ) (s : List Entry) (v : ℕ)
      → value_at axis i s ≡ some v
      → All (λ e. P (val e)) s
      → P v
  unfolding value_at
  value_at-All P i s v h a = elim (Option-cases (get_elem? i s)) [
    | inl e ↦ absurd (cc (rw e at h))
    | inr (x, e) ↦
        let same : val x ≡ v = ground (arith, rw e at h) in
        rw same at (get_elem?-All (λ y. P (val y)) i s x e a)
  ]

  pub value_at-defined :
      (i : ℕ) (s : List Entry) → i < length s → (v : ℕ) × (value_at axis i s ≡ some v)
  unfolding value_at
  value_at-defined i s h = let (x, e) = get_elem?-defined i s h in (val x, ap (color_of axis) e)

  past_run_lem :
      (n : ℕ) (s : List Entry) (v : ℕ)
      → Descends s
      → value_at axis n s ≡ some v
      → suc n + run_len axis v (drop (suc n) s) ≡ count_ge v s
  unfolding value_at get_elem?
  past_run_lem n [] v d h = absurd (cc)
  past_run_lem zero (e ∷ s) v d h =
      let same : val e ≡ v = ground (arith, h) in
      let below =
        All-mono _ (λ f. val f ≤ v) s (λ f l. omega (arith, same, leb→le (val f) (val e) l)) d.0 in
      ground (arith, same, run_len-count_ge v s d.1 below)
  past_run_lem (suc n) (e ∷ s) v d h =
      let further : value_at axis n s ≡ some v = h in
      let reached = leb→le v (val e) (value_at-All (λ w. leb w (val e) ≡ true) n s v further d.0) in
      ground (arith, reached, past_run_lem n s v d.1 further)

  run_len-le : (v : ℕ) (s : List Entry) → run_len axis v s ≤ length s
  unfolding run_len
  run_len-le v [] = omega arith
  run_len-le v (e ∷ s) = ground (arith, run_len-le v s)

  run_len-snoc :
      (v : ℕ) (s : List Entry) (e : Entry)
      → run_len axis v (s ++ e ∷ []) ≡ (
          if run_len axis v s == length s
          then (if val e == v then suc (length s) else length s)
          else run_len axis v s)
  unfolding run_len
  run_len-snoc v [] e = ground arith
  run_len-snoc v (f ∷ s) e = ground (arith, run_len-snoc v s e, run_len-le v s)

  length-reverse : (s : List Entry) → length (reverse s) ≡ length s
  length-reverse [] = refl
  length-reverse (e ∷ s) = omega (
    arith,
    ap length (reverse-cons e s),
    length-append {0} (reverse s) (e ∷ []),
    length-reverse s,
  )

  before_run_lem :
      (v : ℕ) (s : List Entry)
      → Descends s
      → All (λ e. v ≤ val e) s
      → run_len axis v (reverse s) + count_ge (suc v) s ≡ length s
  before_run_lem v [] d a = unfold run_len in refl
  before_run_lem v (e ∷ s) d a =
      let step = run_len-snoc v (reverse s) e in
      let ih = before_run_lem v s d.1 a.1 in
      let size = length-reverse s in
      rw reverse-cons (elim (Bool-cases (val e == v)) [
        | inl h ↦
            let top : val e < suc v = ground arith in
            ground (arith, step, ih, size, count_ge_none (suc v) s (below_head (suc v) e s top d))
        | inr f ↦ ground (arith, step, ih, size, a.0, run_len-le v (reverse s))
      ])

  lowest :
      (n : ℕ) (s : List Entry) (w : ℕ)
      → Descends s
      → length s ≡ suc n
      → value_at axis n s ≡ some w
      → All (λ e. w ≤ val e) s
  unfolding value_at get_elem?
  lowest n [] w d l h = absurd (omega arith)
  lowest zero (e ∷ []) w d l h = (ground (arith, h), tt)
  lowest zero (e ∷ f ∷ s) w d l h = absurd (omega arith)
  lowest (suc n) (e ∷ s) w d l h = (
    leb→le w (val e) (value_at-All (λ v. leb v (val e) ≡ true) n s w h d.0),
    lowest n s w d.1 (omega arith) h,
  )

  module _ (s : List Entry) (d : Descends s) (nonempty : 0 < length s)
      (mixed : (w : ℕ) → ¬ All (λ e. val e ≡ w) s) where
    -- A value that cuts the entries in two parts, none of them empty, and the length of the first.
    abbrev pub IsCut : Option ℕ → Type 0
    IsCut r = (t : ℕ) × (r ≡ some (count_ge t s)) × (0 < count_ge t s) × (count_ge t s < length s)

    merge_bounds :
        (w : ℕ) (x : List Entry)
        → All (λ e. w ≤ val e) x
        → All (λ e. val e < suc w) x
        → All (λ e. val e ≡ w) x
    merge_bounds w [] a b = tt
    merge_bounds w (e ∷ x) a b = (omega (arith, a.0, b.0), merge_bounds w x a.1 b.1)

    before_tail_full : (n : ℕ) → n ≡ length s → IsCut (before_tail axis s n)
    unfolding before_tail
    before_tail_full n e =
        let (w, h) = value_at-defined (length s - 1) s (omega arith) in
        let low = lowest (length s - 1) s w d (omega arith) h in
        let whole : (n == length s) ≡ true = ground arith in
        let back = before_run_lem w s d low in
        let cut : n - run_len axis w (reverse s) ≡ count_ge (suc w) s = omega (arith, back, e) in
        let some_left : count_ge (suc w) s ≢ 0 =
          λ z. mixed w (merge_bounds w s low (count_ge-zero (suc w) s z)) in
        let some_right : count_ge (suc w) s ≢ length s = λ z.
          let above =
            value_at-All (λ v. suc w ≤ v) (length s - 1) s w h (count_ge-full (suc w) s z) in
          absurd (omega (arith, above)) in
        (
          suc w,
          rw (whole, h) (ap some cut),
          ground (arith, some_left),
          ground (arith, some_right, count_ge-le (suc w) s),
        )

    before_tail-IsCut : (t : ℕ) → 0 < count_ge t s → IsCut (before_tail axis s (count_ge t s))
    before_tail-IsCut t p = elim (Bool-cases (count_ge t s == length s)) [
      | inl full ↦ before_tail_full (count_ge t s) ((==_iff _ _).0 full)
      | inr f ↦ (t, unfold before_tail in rw f refl, p, ground (arith, count_ge-le t s))
    ]

    past_median_lem :
        (n : ℕ) → 0 < n → n ≤ length s → IsCut (then_before axis s (past_median axis s n))
    unfolding past_median then_before before_tail
    past_median_lem zero p l = absurd (omega arith)
    past_median_lem (suc n) p l = elim (Bool-cases (ltb (suc n) (length s))) [
      | inl more ↦
          let (v, h) = value_at-defined n s (omega arith) in
          let past = past_run_lem n s v d h in
          let pred : suc n - 1 ≡ n = omega arith in
          rw (more, pred, h, past) (before_tail-IsCut v (omega (arith, past)))
      | inr f ↦ rw f (before_tail_full (suc n) (ground arith))
    ]

    pub left_length-IsCut : (pixel_count : ℕ) → IsCut (left_length axis pixel_count s)
    unfolding left_length
    left_length-IsCut pixel_count =
        past_median_lem (median_len pixel_count 0 s) (median_len-positive pixel_count 0 s nonempty)
          (median_len-le pixel_count 0 s)
