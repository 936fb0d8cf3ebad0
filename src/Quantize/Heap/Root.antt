-- ===== src/Quantize/Heap/Root.antt =====
-- color/quantize.rs, `Heap`: the top of the heap, and what `add` and `remove` keep.
use mpris_chroma.Prelude.{
  ℕ, zero, suc, ◌+◌, ◌-◌, ◌/◌, ◌≤◌, ◌<◌, ◌≡◌, refl, ap, inl, inr, false, none, some, List, [], ◌∷◌,
  ◌++◌, arith, ◌==◌, ==_iff, Bool-cases, length, length-append,
}
use mpris_chroma.Prelude.Sort.{total}
use mpris_chroma.Quantize.{BoxNode}
use mpris_chroma.Quantize.Heap.{slot, count_of, add, sift_down, without_last, remove}
use mpris_chroma.Quantize.Heap.Contents.{
  slot-append, slot-take, length-without_last, add-total, remove-total,
}
use mpris_chroma.Quantize.Heap.Order.{
  IsSmall, IsHeap, IsOpenUp, IsOpenDown, sift_up-IsHeap, sift_down-IsHeap,
}

module _ (boxes : List BoxNode) where
  root-ge :
      (bound i : ℕ) (s : List ℕ)
      → i ≤ bound
      → IsHeap boxes s
      → 1 ≤ i
      → i < length s
      → count_of boxes (slot s i) ≤ count_of boxes (slot s 1)
  root-ge zero i s b o p h = absurd (omega arith)
  root-ge (suc bound) i s b o p h = elim (Bool-cases (i == 1)) [
    | inl t ↦
        let e : i ≡ 1 = (==_iff i 1).0 t in
        omega (arith, ap (λ (k : ℕ). count_of boxes (slot s k)) e)
    | inr f ↦
        let parent = o i (ground arith) h in
        let rest = root-ge bound (i / 2) s (omega arith) o (ground arith) (omega arith) in
        omega (arith, parent, rest)
  ]

  module _ (small : IsSmall boxes) (s : List ℕ) (heap : IsHeap boxes s) where
    -- Adding a box to the slots of a heap, in which slot 0 is unused, keeps the order of the heap,
    -- and the slots then hold what they held and the new box, each as often.
    pub add-IsHeap :
        (v : ℕ)
        → 0 < length s
        → IsHeap boxes (add boxes v s) × ((f : ℕ → ℕ) → total f (add boxes v s) ≡ total f s + f v)
    unfolding add
    add-IsHeap v h =
        let grown = s ++ v ∷ [] in
        let size = length-append s (v ∷ []) in
        let read = λ (i : ℕ) (l : i < length s). slot-append s (v ∷ []) i l in
        let open_end : IsOpenUp boxes small (length s) v grown = record {
          ordered = λ i lo hi n m. ground (arith, read i, read (i / 2), heap i);
          below = λ i lo hi e. absurd (ground (arith, size));
          across = λ i lo hi e le. absurd (ground (arith, size));
        } in
        (
          sift_up-IsHeap boxes small v (length s) (length s) grown (omega arith) h
              (omega (arith, size)) open_end,
          λ f. add-total boxes v s f h,
        )

    without_last-IsHeap : IsOpenDown boxes small (slot s (length s - 1)) 1 (without_last s)
    without_last-IsHeap =
        let size = length-without_last s in
        let read = λ (i : ℕ) (l : i < length s - 1). slot-take (length s - 1) s i l in
        record {
          ordered = λ i lo hi n m. ground (arith, size, read i, read (i / 2), heap i);
          across = λ i lo hi e le. absurd (omega arith);
          above = λ le. absurd (omega arith);
        }

    remove-order :
        (t : List ℕ) → 1 < length s → remove boxes s ≡ some (slot s 1, t) → IsHeap boxes t
    unfolding remove
    remove-order t h e = elim (Bool-cases (length s - 1 - 1 == 0)) [
      | inl single ↦
          let same : without_last s ≡ t = cc (rw (nonempty, single) at e) in
          rw (← same) (λ i lo hi. absurd (ground (arith, length-without_last s)))
      | inr several ↦
          let same : sift_down boxes (slot s (length s - 1)) (length s - 1 - 1) (length s - 1 - 1) 1
                (without_last s)
              ≡ t =
            cc (rw (nonempty, several) at e) in
          rw (← same) (
            sift_down-IsHeap boxes small (slot s (length s - 1)) (length s - 1 - 1)
              (length s - 1 - 1) 1 (without_last s) (omega arith) (omega arith) (ground arith)
              (omega (arith, length-without_last s)) without_last-IsHeap)
    ]
      where
        nonempty : (length s - 1 == 0) ≡ false
        nonempty = ground arith

    -- Removing from a heap in order that is not empty, of boxes with fewer than 2^31 pixels each, gives
    -- a box with the most pixels of all in the slots, and leaves slots that are in order and hold
    -- the other boxes, each as often.
    pub remove-IsHeap :
        1 < length s
        → (t : List ℕ) × (remove boxes s ≡ some (slot s 1, t))
          × IsHeap boxes t
          × ((f : ℕ → ℕ) → total f t + f (slot s 1) ≡ total f s)
          × ((i : ℕ) → 1 ≤ i → i < length s → count_of boxes (slot s i) ≤ count_of boxes (slot s 1))
    remove-IsHeap h =
        let (t, e, kept) = remove-total boxes s h in
        (t, e, remove-order t h e, kept, λ i p l. root-ge i i s (omega arith) heap p l)

    pub remove_empty : length s ≡ 1 → remove boxes s ≡ none
    unfolding remove
    remove_empty e = rw e refl
