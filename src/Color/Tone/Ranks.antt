-- ===== src/Color/Tone/Ranks.antt =====
-- src/color/tone.rs, `separate`: its indices are in range, those of the order, of the ranks and of the
-- closest pair.
use mpris_chroma.Prelude.{
  ℕ, zero, suc, ◌+◌, ◌≤◌, ◌<◌, ◌≡◌, refl, ap, ◌∙◌, some, List, [], ◌∷◌, map, arith, if_cases,
  length, All,
}
use mpris_chroma.Prelude.Sort.{sort_by, All-sort_by, length-sort_by}
use mpris_chroma.Quantize.{get_elem?-defined}
use mpris_chroma.Color.{Float}
use mpris_chroma.Color.Oklab.{Triple, delta_e}
use mpris_chroma.Color.Raster.{span}
use mpris_chroma.Color.Raster.Places.{collect_lem, length-below, length-map, span-below}
use mpris_chroma.Color.Tone.{
  Toned, set?, order_le, closer_pair, closest_to, closest_from, closest_pair, toned_lab,
}
use mpris_chroma.Color.Tone.Separate.{key_of, order_of, ranks_from}

-- `n` indices, each below `n`.
pub record IsIndexing (n : ℕ) (xs : List ℕ) : Type 0 where
  pub sized : length xs ≡ n
  pub below : All (λ x. x < n) xs

module _ {A : Type 0} where
  pub set?-All :
      (P : A → Type 0) (i : ℕ) (x : A) (xs : List A)
      → i < length xs
      → P x
      → All P xs
      → (ys : List A) × (set? i x xs ≡ some ys) × (length ys ≡ length xs) × All P ys
  unfolding set?
  set?-All P i x [] h p a = absurd (omega arith)
  set?-All P zero x (y ∷ ys) h p a = (x ∷ ys, refl, refl, (p, a.1))
  set?-All P (suc i) x (y ∷ ys) h p a =
      let (zs, e, l, b) = set?-All P i x ys (omega arith) p a.1 in
      (y ∷ zs, rw e refl, ap suc l, (a.0, b))

  pub set?-length :
      (i : ℕ) (x : A) (xs : List A)
      → i < length xs
      → (ys : List A) × (set? i x xs ≡ some ys) × (length ys ≡ length xs)
  unfolding set?
  set?-length i x [] h = absurd (omega arith)
  set?-length zero x (y ∷ ys) h = (x ∷ ys, refl, refl)
  set?-length (suc i) x (y ∷ ys) h =
      let (zs, e, l) = set?-length i x ys (omega arith) in (y ∷ zs, rw e refl, ap suc l)

map-first :
    {F : Type 0} (n : ℕ) (ks : List (ℕ × F))
    → All (λ (k : ℕ × F). k.0 < n) ks
    → All (λ x. x < n) (map (λ (k : ℕ × F). k.0) ks)
map-first n [] a = tt
map-first n (k ∷ ks) a = (a.0, map-first n ks a.1)

pub ranks_from-IsIndexing :
    (n pos : ℕ) (order rank : List ℕ)
    → pos + length order ≤ n
    → All (λ x. x < n) order
    → IsIndexing n rank
    → (out : List ℕ) × (ranks_from pos order rank ≡ some out) × IsIndexing n out
unfolding ranks_from
ranks_from-IsIndexing n pos [] rank h a k = (rank, refl, k)
ranks_from-IsIndexing n pos (slot ∷ order) rank h a k =
    let (next, e, l, b) =
      set?-All (λ x. x < n) slot pos rank (omega (arith, a.0, k.sized)) (omega arith) k.below in
    let (out, f, k') =
      ranks_from-IsIndexing n (suc pos) order next (omega arith) a.1
        (record { sized = l ∙ k.sized; below = b }) in
    (out, rw e f, k')

module _ {F : Type 0} ⦃r : Float F⦄ where
  key_of_lem :
      (work : List (Toned F)) (n a : ℕ)
      → n ≤ length work
      → a < n
      → (k : ℕ × F) × (key_of work a ≡ some k) × (k.0 < n)
  unfolding key_of
  key_of_lem work n a few h =
      let (t, e) = get_elem?-defined a work (omega arith) in ((a, t.l), rw e refl, h)

  pub order_of-IsIndexing :
      (work : List (Toned F)) (n : ℕ)
      → n ≤ length work
      → (order : List ℕ) × (order_of work n ≡ some order) × IsIndexing n order
  unfolding order_of
  order_of-IsIndexing work n few =
      let (keys, e, l, a) =
        collect_lem (key_of work) (λ a. a < n) (λ (k : ℕ × F). k.0 < n) (span 0 n)
          (λ a h. key_of_lem work n a few h) (span-below 0 n n (omega arith)) in
      let sorted = sort_by order_le keys in
      (
        map (λ (k : ℕ × F). k.0) sorted,
        rw e refl,
        record {
          sized = length-map _ sorted ∙ length-sort_by order_le keys ∙ l ∙ length-below n;
          below = map-first n sorted (All-sort_by order_le (λ (k : ℕ × F). k.0 < n) keys a);
        },
      )

  -- Both slots of a pair are among the first `n`.
  abbrev pub IsPair : ℕ → ℕ × ℕ × F → Type 0
  IsPair n (i, j, best) = (i < n) × (j < n)

  closest_to-IsPair :
      (n i : ℕ) (p : Triple F) (j : ℕ) (qs : List (Triple F)) (best : ℕ × ℕ × F)
      → i < n
      → j + length qs ≤ n
      → IsPair n best
      → IsPair n (closest_to i p j qs best)
  unfolding closest_to
  closest_to-IsPair n i p j [] best a b h = h
  closest_to-IsPair n i p j (q ∷ qs) best a b h =
      closest_to-IsPair n i p (suc j) qs (closer_pair best i j (delta_e p q)) a (omega arith) (
        if_cases (IsPair n) (r.less (delta_e p q) best.2) (i, j, delta_e p q) best
          (λ _. (a, omega arith)) (λ _. h))

  closest_from-IsPair :
      (n i : ℕ) (ps : List (Triple F)) (best : ℕ × ℕ × F)
      → i + length ps ≤ n
      → IsPair n best
      → IsPair n (closest_from i ps best)
  unfolding closest_from
  closest_from-IsPair n i [] best b h = h
  closest_from-IsPair n i (p ∷ ps) best b h =
      closest_from-IsPair n (suc i) ps (closest_to i p (suc i) ps best) (omega arith)
        (closest_to-IsPair n i p (suc i) ps best (omega arith) (omega arith) h)

  pub closest_pair-IsPair :
      (n : ℕ) (slots : List (Toned F)) → 2 ≤ n → length slots ≡ n → IsPair n (closest_pair slots)
  unfolding closest_pair
  closest_pair-IsPair n slots two size =
      closest_from-IsPair n 0 (map toned_lab slots) (0, 1, r.infinity)
        (omega (arith, length-map toned_lab slots)) (omega arith, omega arith)
