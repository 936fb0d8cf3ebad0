-- ===== src/Quantize/Heap/Contents.antt =====
-- color/quantize.rs, `Heap`: reads and writes of the slots, and what the heap holds after `add` and
-- `remove`.
use mpris_chroma.Prelude.{
  ℕ, zero, suc, ◌+◌, ◌-◌, ◌*◌, ◌/◌, ◌≤◌, ◌<◌, ◌≡◌, refl, ap, inl, inr, false, not, some, List, [],
  ◌∷◌, ◌++◌, arith, ltb, ◌==◌, if◌then◌else◌, Bool-cases, if_cases, length, take, length-append,
  length-take,
}
use mpris_chroma.Prelude.Sort.{total, total-append}
use mpris_chroma.Quantize.{BoxNode, get_elem?}
use mpris_chroma.Quantize.Heap.{
  slot, set, cmp, is_positive, sift_up, add, larger_child, sift_down, without_last, remove,
}

pub length-set : (k v : ℕ) (s : List ℕ) → length (set k v s) ≡ length s
unfolding set
length-set k v [] = refl
length-set zero v (x ∷ s) = refl
length-set (suc k) v (x ∷ s) = ap suc (length-set k v s)

pub slot-set :
    (k j v : ℕ) (s : List ℕ) → k < length s → slot (set k v s) j ≡ (if k == j then v else slot s j)
unfolding slot set get_elem?
slot-set k j v [] h = absurd (omega arith)
slot-set zero zero v (x ∷ s) h = ground arith
slot-set zero (suc j) v (x ∷ s) h = ground arith
slot-set (suc k) zero v (x ∷ s) h = ground arith
slot-set (suc k) (suc j) v (x ∷ s) h = ground (arith, slot-set k j v s)

pub slot-append : (s t : List ℕ) (j : ℕ) → j < length s → slot (s ++ t) j ≡ slot s j
unfolding slot get_elem?
slot-append [] t j h = absurd (omega arith)
slot-append (x ∷ s) t zero h = refl
slot-append (x ∷ s) t (suc j) h = slot-append s t j (omega arith)

pub slot-take : (n : ℕ) (s : List ℕ) (j : ℕ) → j < n → slot (take n s) j ≡ slot s j
unfolding slot get_elem?
slot-take zero s j h = absurd (omega arith)
slot-take (suc n) [] j h = refl
slot-take (suc n) (x ∷ s) zero h = refl
slot-take (suc n) (x ∷ s) (suc j) h = slot-take n s j (omega arith)

pub length-without_last : (s : List ℕ) → length (without_last s) ≡ length s - 1
length-without_last s = omega (arith, length-take (length s - 1) s)

module _ (f : ℕ → ℕ) where
  total-set :
      (k v : ℕ) (s : List ℕ) → k < length s → total f (set k v s) + f (slot s k) ≡ total f s + f v
  unfolding slot set get_elem?
  total-set k v [] h = absurd (omega arith)
  total-set zero v (x ∷ s) h = omega arith
  total-set (suc k) v (x ∷ s) h = omega (arith, total-set k v s)

  total-take :
      (n : ℕ) (s : List ℕ) → length s ≡ suc n → total f (take n s) + f (slot s n) ≡ total f s
  unfolding slot get_elem?
  total-take n [] h = absurd (omega arith)
  total-take zero (x ∷ []) h = omega arith
  total-take zero (x ∷ y ∷ s) h = absurd (omega arith)
  total-take (suc n) (x ∷ s) h = omega (arith, total-take n s)

  total-without_last :
      (s : List ℕ) → 0 < length s → total f (without_last s) + f (slot s (length s - 1)) ≡ total f s
  total-without_last s h = total-take (length s - 1) s (omega arith)

  -- Moving the free slot trades what stands in it for the value that is written.
  module _ (boxes : List BoxNode) (v : ℕ) where
    sift_up-total :
        (fuel k : ℕ) (s : List ℕ)
        → 0 < k
        → k < length s
        → total f (sift_up boxes v fuel k s) + f (slot s k) ≡ total f s + f v
    unfolding sift_up
    sift_up-total zero k s p h = total-set k v s h
    sift_up-total (suc fuel) k s p h =
        if_cases Traded (k == 1) _ _ (λ _. total-set k v s h)
          (λ other.
            if_cases Traded (not (is_positive (cmp boxes v (slot s (k / 2))))) _ _
              (λ _. total-set k v s h)
              (λ _.
                let moved = set k (slot s (k / 2)) s in
                let lower : k / 2 < k = omega arith in
                let positive : 0 < k / 2 = ground arith in
                let same : slot moved (k / 2) ≡ slot s (k / 2) =
                  ground (arith, slot-set k (k / 2) (slot s (k / 2)) s) in
                let rest =
                  sift_up-total fuel (k / 2) moved positive
                    (omega (arith, length-set k (slot s (k / 2)) s)) in
                omega (arith, rw same at rest, total-set k (slot s (k / 2)) s h)))
      where
        Traded : List ℕ → Type 0
        Traded t = total f t + f (slot s k) ≡ total f s + f v

    pub larger_child-le :
        (count k : ℕ) (s : List ℕ)
        → 0 < k
        → k * 2 ≤ count
        → (k < larger_child boxes count k s) × (larger_child boxes count k s ≤ count)
    unfolding larger_child
    larger_child-le count k s p h = ground arith

    sift_down-total :
        (count fuel k : ℕ) (s : List ℕ)
        → 0 < k
        → k < length s
        → count < length s
        → total f (sift_down boxes v count fuel k s) + f (slot s k) ≡ total f s + f v
    unfolding sift_down
    sift_down-total count zero k s p h c = total-set k v s h
    sift_down-total count (suc fuel) k s p h c =
        if_cases Traded (ltb count (k * 2)) _ _ (λ _. total-set k v s h)
          (λ inside.
            if_cases Traded (is_positive (cmp boxes v (slot s (larger_child boxes count k s)))) _ _
              (λ _. total-set k v s h)
              (λ _.
                let l = larger_child boxes count k s in
                let bounds = larger_child-le count k s p (ground arith) in
                let moved = set k (slot s l) s in
                let same : slot moved l ≡ slot s l =
                  ground (arith, slot-set k l (slot s l) s, bounds) in
                let rest =
                  sift_down-total count fuel l moved (omega (arith, bounds.0))
                    (omega (arith, bounds.1, length-set k (slot s l) s))
                    (omega (arith, length-set k (slot s l) s)) in
                omega (arith, rw same at rest, total-set k (slot s l) s h)))
      where
        Traded : List ℕ → Type 0
        Traded t = total f t + f (slot s k) ≡ total f s + f v

slot-append_end : (s : List ℕ) (v : ℕ) → slot (s ++ v ∷ []) (length s) ≡ v
unfolding slot get_elem?
slot-append_end [] v = refl
slot-append_end (x ∷ s) v = slot-append_end s v

module _ (boxes : List BoxNode) where
  pub add-total :
      (v : ℕ) (s : List ℕ) (f : ℕ → ℕ) → 0 < length s → total f (add boxes v s) ≡ total f s + f v
  unfolding add
  add-total v s f h =
      let grown = s ++ v ∷ [] in
      let traded =
        sift_up-total f boxes v (length s) (length s) grown h
          (omega (arith, length-append {0} s (v ∷ []))) in
      omega (arith, rw (slot-append_end s v) at traded, total-append {0} f s (v ∷ []))

  pub remove-total :
      (s : List ℕ)
      → 1 < length s
      → (t : List ℕ) × (remove boxes s ≡ some (slot s 1, t))
        × ((f : ℕ → ℕ) → total f t + f (slot s 1) ≡ total f s)
  unfolding remove
  remove-total s h = elim (Bool-cases (length s - 1 - 1 == 0)) [
    | inl single ↦ (
      without_last s,
      rw (nonempty, single) refl,
      λ f.
          let last : length s - 1 ≡ 1 = ground arith in
          omega (arith, total-without_last f s (omega arith), ap (λ (k : ℕ). f (slot s k)) last),
    )
    | inr several ↦ (
      sift_down boxes (slot s (length s - 1)) (length s - 1 - 1) (length s - 1 - 1) 1
          (without_last s),
      rw (nonempty, several) refl,
      λ f.
          let shorter = length-without_last s in
          let kept : slot (without_last s) 1 ≡ slot s 1 =
            slot-take (length s - 1) s 1 (ground arith) in
          let traded =
            sift_down-total f boxes (slot s (length s - 1)) (length s - 1 - 1) (length s - 1 - 1) 1
              (without_last s) (omega arith) (ground (arith, shorter)) (ground (arith, shorter)) in
          omega (arith, rw kept at traded, total-without_last f s (omega arith)),
    )
  ]
    where
      nonempty : (length s - 1 == 0) ≡ false
      nonempty = ground arith
