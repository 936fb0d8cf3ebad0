-- ===== src/Quantize/Heap/Unused.antt =====
-- color/quantize.rs, `Heap`: slot 0 stays as it is, and what the sum over the slots says of each.
use mpris_chroma.Prelude.{
  ℕ, zero, suc, ◌+◌, ◌-◌, ◌*◌, ◌/◌, ◌≤◌, ◌<◌, ◌≡◌, refl, ◌∙◌, inl, inr, false, not, some, List, [],
  ◌∷◌, ◌++◌, arith, ltb, ◌==◌, Bool-cases, if_cases, length,
}
use mpris_chroma.Prelude.Sort.{total}
use mpris_chroma.Quantize.{BoxNode, get_elem?}
use mpris_chroma.Quantize.Heap.{
  slot, set, cmp, is_positive, sift_up, add, larger_child, sift_down, without_last, remove,
}
use mpris_chroma.Quantize.Heap.Contents.{slot-append, slot-take, larger_child-le}

set-slot_0 : (k v : ℕ) (s : List ℕ) → 0 < k → slot (set k v s) 0 ≡ slot s 0
unfolding slot set get_elem?
set-slot_0 k v [] h = refl
set-slot_0 zero v (x ∷ s) h = absurd (omega arith)
set-slot_0 (suc k) v (x ∷ s) h = refl

module _ (boxes : List BoxNode) (v : ℕ) where
  sift_up-slot_0 : (fuel k : ℕ) (s : List ℕ) → 0 < k → slot (sift_up boxes v fuel k s) 0 ≡ slot s 0
  unfolding sift_up
  sift_up-slot_0 zero k s p = set-slot_0 k v s p
  sift_up-slot_0 (suc fuel) k s p =
      if_cases (λ t. slot t 0 ≡ slot s 0) (k == 1) _ _ (λ _. set-slot_0 k v s p)
        (λ other.
          if_cases (λ t. slot t 0 ≡ slot s 0) (not (is_positive (cmp boxes v (slot s (k / 2))))) _ _
            (λ _. set-slot_0 k v s p)
            (λ _.
              sift_up-slot_0 fuel (k / 2) (set k (slot s (k / 2)) s) (ground arith)
              ∙ set-slot_0 k (slot s (k / 2)) s p))

  sift_down-slot_0 :
      (count fuel k : ℕ) (s : List ℕ) → 0 < k → slot (sift_down boxes v count fuel k s) 0 ≡ slot s 0
  unfolding sift_down
  sift_down-slot_0 count zero k s p = set-slot_0 k v s p
  sift_down-slot_0 count (suc fuel) k s p =
      if_cases (λ t. slot t 0 ≡ slot s 0) (ltb count (k * 2)) _ _ (λ _. set-slot_0 k v s p)
        (λ inside.
          let l = larger_child boxes count k s in
          if_cases (λ t. slot t 0 ≡ slot s 0) (is_positive (cmp boxes v (slot s l))) _ _
            (λ _. set-slot_0 k v s p)
            (λ _.
              let bounds = larger_child-le (λ _. 0) boxes v count k s p (ground arith) in
              sift_down-slot_0 count fuel l (set k (slot s l) s) (omega (arith, bounds.0))
              ∙ set-slot_0 k (slot s l) s p))

module _ (boxes : List BoxNode) where
  pub add-slot_0 : (v : ℕ) (s : List ℕ) → 0 < length s → slot (add boxes v s) 0 ≡ slot s 0
  unfolding add
  add-slot_0 v s h =
      sift_up-slot_0 boxes v (length s) (length s) (s ++ v ∷ []) h ∙ slot-append s (v ∷ []) 0 h

  pub remove-slot_0 :
      (s t : List ℕ) (n : ℕ) → 1 < length s → remove boxes s ≡ some (n, t) → slot t 0 ≡ slot s 0
  unfolding remove
  remove-slot_0 s t n h e =
      let kept : slot (without_last s) 0 ≡ slot s 0 = slot-take (length s - 1) s 0 (ground arith) in
      elim (Bool-cases (length s - 1 - 1 == 0)) [
        | inl single ↦
            let same : without_last s ≡ t = cc (rw (nonempty, single) at e) in rw (← same) kept
        | inr several ↦
            let last = slot s (length s - 1) in
            let same : sift_down boxes last (length s - 1 - 1) (length s - 1 - 1) 1 (without_last s)
                ≡ t =
              cc (rw (nonempty, several) at e) in
            rw (← same) (
              sift_down-slot_0 boxes last (length s - 1 - 1) (length s - 1 - 1) 1 (without_last s)
                (omega arith)
              ∙ kept)
      ]
    where
      nonempty : (length s - 1 == 0) ≡ false
      nonempty = ground arith

module _ (f : ℕ → ℕ) where
  slot-le-total : (i : ℕ) (s : List ℕ) → i < length s → f (slot s i) ≤ total f s
  unfolding slot get_elem?
  slot-le-total i [] h = absurd (omega arith)
  slot-le-total zero (x ∷ s) h = omega arith
  slot-le-total (suc i) (x ∷ s) h = omega (arith, slot-le-total i s)

  pub two_slots-le-total :
      (i : ℕ) (s : List ℕ) → 1 ≤ i → i < length s → f (slot s 0) + f (slot s i) ≤ total f s
  unfolding slot get_elem?
  two_slots-le-total i [] p h = absurd (omega arith)
  two_slots-le-total zero (x ∷ s) p h = absurd (omega arith)
  two_slots-le-total (suc i) (x ∷ s) p h = omega (arith, slot-le-total i s)

  pub slot_0-le-total : (s : List ℕ) → 0 < length s → f (slot s 0) ≤ total f s
  slot_0-le-total s h = slot-le-total 0 s h

  total_none : (s : List ℕ) → ((i : ℕ) → i < length s → f (slot s i) ≡ 0) → total f s ≡ 0
  unfolding slot get_elem?
  total_none [] h = refl
  total_none (x ∷ s) h =
      omega (arith, h 0 (omega arith), total_none s (λ i l. h (suc i) (omega arith)))

  pub total_slot_0 :
      (s : List ℕ)
      → 0 < length s
      → ((i : ℕ) → 1 ≤ i → i < length s → f (slot s i) ≡ 0)
      → total f s ≡ f (slot s 0)
  unfolding slot get_elem?
  total_slot_0 [] p h = absurd (omega arith)
  total_slot_0 (x ∷ s) p h =
      omega (arith, total_none s (λ i l. h (suc i) (omega arith) (omega arith)))
