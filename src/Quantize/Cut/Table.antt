-- ===== src/Quantize/Cut/Table.antt =====
-- color/quantize.rs, step 1 of `quantize`: the histogram counts every pixel, under its hash.
use mpris_chroma.Prelude.{
  ℕ, suc, ◌+◌, ◌^◌, ◌<◌, ◌≡◌, refl, sym, ap, ◌∙◌, inl, inr, true, false, none, some, List, [], ◌∷◌,
  ◌++◌, map, map-append, arith, ◌==◌, if◌then◌else◌, Bool-cases, Option-cases, is_some, if_cases,
  length, All, All-append, All-mono,
}
use mpris_chroma.Prelude.Sort.{total, total-append}
use mpris_chroma.Quantize.{Rgb, Entry, pixel_hash}
use mpris_chroma.Quantize.Split.Laws.{pixels}
use mpris_chroma.Quantize.Cut.{
  Keyed, lookup, Histogram, bump, count_pixel, histogram_from, histogram, entries_of,
}

abbrev pub keys : {V : Type 0} → Keyed V → List ℕ
keys = map (λ p. p.0)

abbrev pub values : {V : Type 0} → Keyed V → List V
values = map (λ p. p.1)

-- No key stands twice.
abbrev IsUnique : Keyed Entry → Type 0
IsUnique [] = Unit {0}
IsUnique ((h, e) ∷ m) = (lookup h m ≡ none) × IsUnique m

-- Each entry stands under the hash of its colour.
abbrev IsHashed : ℕ × Entry → Type 0
IsHashed (h, e) = pixel_hash e.color ≡ h

other_keys : (j : ℕ) (m : Keyed Entry) → lookup j m ≡ none → All (λ h. (j == h) ≡ false) (keys m)
unfolding lookup
other_keys j [] n = tt
other_keys j ((h, e) ∷ m) n = elim (Bool-cases (h == j)) [
  | inl t ↦ absurd (cc (rw t at n))
  | inr f ↦ (ground arith, other_keys j m (rw f at n))
]

entries_of-cons :
    (j : ℕ) (e : Entry) (hs : List ℕ) (m : Keyed Entry)
    → All (λ h. (j == h) ≡ false) hs
    → entries_of hs ((j, e) ∷ m) ≡ entries_of hs m
unfolding entries_of lookup
entries_of-cons j e [] m a = refl
entries_of-cons j e (h ∷ hs) m a = let rest = entries_of-cons j e hs m a.1 in rw (a.0, rest) refl

entries_of-keys : (m : Keyed Entry) → IsUnique m → entries_of (keys m) m ≡ some (values m)
unfolding entries_of
entries_of-keys [] u = refl
entries_of-keys ((h, e) ∷ m) u =
    let here : lookup h ((h, e) ∷ m) ≡ some e = unfold lookup in ground arith in
    let rest = entries_of-cons h e (keys m) m (other_keys h m u.0) ∙ entries_of-keys m u.1 in
    rw (here, rest) refl

lookup-bump-none : (k h : ℕ) (m : Keyed Entry) → lookup k m ≡ none → lookup k (bump h m) ≡ none
unfolding lookup bump
lookup-bump-none k h [] n = refl
lookup-bump-none k h ((j, e) ∷ m) n = ground (arith, lookup-bump-none k h m)

lookup-bump-some :
    (k h : ℕ) (m : Keyed Entry) → is_some (lookup k m) ≡ true → is_some (lookup k (bump h m)) ≡ true
unfolding lookup bump
lookup-bump-some k h [] n = n
lookup-bump-some k h ((j, e) ∷ m) n = ground (arith, lookup-bump-some k h m)

bump-IsUnique : (h : ℕ) (m : Keyed Entry) → IsUnique m → IsUnique (bump h m)
unfolding bump
bump-IsUnique h [] u = tt
bump-IsUnique h ((j, e) ∷ m) u =
    if_cases IsUnique (j == h) _ _ (λ _. (u.0, u.1))
      (λ _. (lookup-bump-none j h m u.0, bump-IsUnique h m u.1))

bump-IsHashed : (h : ℕ) (m : Keyed Entry) → All IsHashed m → All IsHashed (bump h m)
unfolding bump
bump-IsHashed h [] a = tt
bump-IsHashed h ((j, e) ∷ m) a =
    if_cases (All IsHashed) (j == h) _ _ (λ _. (a.0, a.1)) (λ _. (a.0, bump-IsHashed h m a.1))

keys-bump : (h : ℕ) (m : Keyed Entry) → keys (bump h m) ≡ keys m
unfolding bump
keys-bump h [] = refl
keys-bump h ((j, e) ∷ m) =
    if_cases {A = Keyed Entry} (λ m'. keys m' ≡ j ∷ keys m) (j == h) _ _ (λ _. refl)
      (λ _. ap (◌∷◌ j) (keys-bump h m))

pixels-bump :
    (h : ℕ) (m : Keyed Entry)
    → is_some (lookup h m) ≡ true
    → pixels (values m) + 1 < 2 ^ 32
    → pixels (values (bump h m)) ≡ pixels (values m) + 1
unfolding bump lookup
pixels-bump h [] i s = absurd (cc)
pixels-bump h ((j, e) ∷ m) i s = elim (Bool-cases (j == h)) [
  | inl t ↦ rw t (omega arith)
  | inr f ↦ let rest = pixels-bump h m (rw f at i) (omega arith) in rw f (omega (arith, rest))
]

lookup-append :
    (k h : ℕ) (e : Entry) (m : Keyed Entry)
    → lookup k (m ++ (h, e) ∷ [])
      ≡ (if is_some (lookup k m) then lookup k m else if h == k then some e else none)
unfolding lookup
lookup-append k h e [] = refl
lookup-append k h e ((j, f) ∷ m) = ground (arith, lookup-append k h e m)

append-IsUnique :
    (h : ℕ) (e : Entry) (m : Keyed Entry)
    → lookup h m ≡ none
    → IsUnique m
    → IsUnique (m ++ (h, e) ∷ [])
unfolding lookup
append-IsUnique h e [] n u = (refl, tt)
append-IsUnique h e ((j, f) ∷ m) n u = elim (Bool-cases (j == h)) [
  | inl t ↦ absurd (cc (rw t at n))
  | inr g ↦ (
    lookup-append j h e m ∙ (let none_here = u.0 in ground (arith, none_here)),
    append-IsUnique h e m (rw g at n) u.1,
  )
]

-- The histogram of as many pixels.
pub record IsTable (t : Histogram) (seen : ℕ) : Type 0 where
  pub ordered : t.order ≡ keys t.table
  pub unique : IsUnique t.table
  pub hashed : All IsHashed t.table
  pub counted : pixels (values t.table) ≡ seen

count_pixel-IsTable :
    (p : Rgb) (t : Histogram) (seen : ℕ)
    → seen + 1 < 2 ^ 32
    → IsTable t seen
    → IsTable (count_pixel p t) (seen + 1)
      × (is_some (lookup (pixel_hash p) (count_pixel p t).table) ≡ true)
      × ((h : ℕ)
          → is_some (lookup h t.table) ≡ true
          → is_some (lookup h (count_pixel p t).table) ≡ true)
unfolding count_pixel
count_pixel-IsTable p t seen s g =
    let h = pixel_hash p in
    elim (Option-cases (lookup h t.table)) [
      | inl n ↦ rw n (
        record {
          ordered =
              ap (λ (o : List ℕ). o ++ h ∷ []) g.ordered
              ∙ sym (
                  map-append (λ (x : ℕ × Entry). x.0) t.table
                    ((h, record { color = p; count = 1 }) ∷ []));
          unique = append-IsUnique h (record { color = p; count = 1 }) t.table n g.unique;
          hashed = All-append IsHashed t.table _ g.hashed (refl, tt);
          counted =
              ap pixels (
                map-append (λ (x : ℕ × Entry). x.1) t.table
                  ((h, record { color = p; count = 1 }) ∷ []))
              ∙ omega (
                arith,
                total-append {0} (λ (x : Entry). x.count) (values t.table)
                    (record { color = p; count = 1 } ∷ []),
                g.counted,
              );
        },
        ground (arith, lookup-append h h (record { color = p; count = 1 }) t.table, n),
        λ k i. ground (arith, lookup-append k h (record { color = p; count = 1 }) t.table, i),
      )
      | inr (e, n) ↦
          let there : is_some (lookup h t.table) ≡ true = rw n refl in
          rw n (
            record {
              ordered = g.ordered ∙ sym (keys-bump h t.table);
              unique = bump-IsUnique h t.table g.unique;
              hashed = bump-IsHashed h t.table g.hashed;
              counted =
                  omega (arith, pixels-bump h t.table there (omega (arith, g.counted)), g.counted);
            },
            lookup-bump-some h h t.table there,
            λ k i. lookup-bump-some k h t.table i,
          )
    ]

histogram_from-IsTable :
    (ps : List Rgb) (t : Histogram) (seen : ℕ)
    → seen + length ps < 2 ^ 32
    → IsTable t seen
    → IsTable (histogram_from t ps) (seen + length ps)
      × All (λ p. is_some (lookup (pixel_hash p) (histogram_from t ps).table) ≡ true) ps
      × ((h : ℕ)
          → is_some (lookup h t.table) ≡ true
          → is_some (lookup h (histogram_from t ps).table) ≡ true)
unfolding histogram_from
histogram_from-IsTable [] t seen s g =
    let e : seen ≡ seen + 0 = omega arith in (rw e at g, tt, λ h i. i)
histogram_from-IsTable (p ∷ ps) t seen s g =
    let step = count_pixel-IsTable p t seen (omega arith) g in
    let rest = histogram_from-IsTable ps (count_pixel p t) (seen + 1) (omega arith) step.0 in
    let e : seen + 1 + length ps ≡ seen + suc (length ps) = omega arith in
    (rw e at rest.0, (rest.2 (pixel_hash p) step.1, rest.1), λ h i. rest.2 h (step.2 h i))

-- 1 for an entry that has a hash.
abbrev pub has_hash : ℕ → Entry → ℕ
has_hash h e = if pixel_hash e.color == h then 1 else 0

hashed_there :
    (h : ℕ) (m : Keyed Entry)
    → All IsHashed m
    → is_some (lookup h m) ≡ true
    → 0 < total (has_hash h) (values m)
unfolding lookup
hashed_there h [] a i = absurd (cc)
hashed_there h ((j, e) ∷ m) a i = elim (Bool-cases (j == h)) [
  | inl t ↦ let same = a.0 in ground (arith, same, t)
  | inr f ↦ let rest = hashed_there h m a.1 (rw f at i) in omega (arith, rest)
]

pub All-hashed :
    (ps : List Rgb) (m : Keyed Entry)
    → All IsHashed m
    → All (λ p. is_some (lookup (pixel_hash p) m) ≡ true) ps
    → All (λ p. 0 < total (has_hash (pixel_hash p)) (values m)) ps
All-hashed ps m a i = All-mono _ _ ps (λ p. hashed_there (pixel_hash p) m a) i

-- The entries that the histogram gives: none is missing, their counts add up to the pixels, and
-- every pixel's hash is the hash of one of them.
pub histogram_lem :
    (ps : List Rgb)
    → length ps < 2 ^ 32
    → (es : List Entry) × (entries_of (histogram ps).order (histogram ps).table ≡ some es)
      × (pixels es ≡ length ps)
      × All (λ p. 0 < total (has_hash (pixel_hash p)) es) ps
unfolding histogram
histogram_lem ps s =
    let start : Histogram = record { order = []; table = [] } in
    let g =
      histogram_from-IsTable ps start 0 (omega arith)
        (record { ordered = refl; unique = tt; hashed = tt; counted = refl }) in
    let t = histogram_from start ps in
    (
      values t.table,
      rw g.0.ordered (entries_of-keys t.table g.0.unique),
      omega (arith, g.0.counted),
      All-hashed ps t.table g.0.hashed g.1,
    )
