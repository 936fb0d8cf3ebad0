-- ===== src/Quantize/Cut/Next.antt =====
-- color/quantize.rs, the inner loop of `quantize`: it ends, and finds the box to cut.
use mpris_chroma.Prelude.{
  ℕ, zero, suc, ◌+◌, ◌≤◌, ◌<◌, ◌≡◌, refl, ◌∙◌, ◌≢◌, ◌⊎◌, inl, inr, Bool, true, false, Option, none,
  some, List, arith, ltb, ◌==◌, if◌then◌else◌, ==_iff, Bool-cases, if_cases, length,
}
use mpris_chroma.Prelude.Sort.{total, length-total}
use mpris_chroma.Quantize.{BoxNode, volume}
use mpris_chroma.Quantize.Heap.{slot, count_of}
use mpris_chroma.Quantize.Heap.Order.{IsSmall, IsHeap}
use mpris_chroma.Quantize.Heap.Root.{remove-IsHeap, remove_empty}
use mpris_chroma.Quantize.Heap.Unused.{remove-slot_0, two_slots-le-total, total_slot_0}
use mpris_chroma.Quantize.Cut.{box_at, or_next, next_box}

module _ (boxes : List BoxNode) where
  abbrev pub is_single : ℕ → Bool
  is_single a = volume (box_at boxes a) == 1

  -- 1 for a box of several colours that has more pixels.
  abbrev pub exceeds : ℕ → ℕ → ℕ
  exceeds n a =
      if is_single a then 0 else if ltb (count_of boxes n) (count_of boxes a) then 1 else 0

  -- 1 for a box of several colours.
  abbrev pub several : ℕ → ℕ
  several a = if is_single a then 0 else 1

  -- What the search leaves when it finds a box, by sums over the slots.
  pub record IsTaken (s : List ℕ) (n : ℕ) (left : List ℕ) : Type 0 where
    pub mixed : is_single n ≡ false
    pub in_order : IsHeap boxes left
    pub kept : (f : ℕ → ℕ) → total f left + f n ≤ total f s
    pub unused : slot left 0 ≡ slot s 0
    pub nonempty : 0 < length left
    pub largest : total (exceeds n) s ≡ exceeds n (slot s 0)

  module _ (small : IsSmall boxes) where
    abbrev pub Searched : List ℕ → Option (ℕ × List ℕ) → Type 0
    Searched s r =
        ((r ≡ none) × (total several s ≡ several (slot s 0)))
        ⊎ ((n : ℕ) × (left : List ℕ) × (r ≡ some (n, left)) × IsTaken s n left)

    Searched-past :
        (s t : List ℕ) (r : Option (ℕ × List ℕ))
        → is_single (slot s 1) ≡ true
        → ((f : ℕ → ℕ) → total f t + f (slot s 1) ≡ total f s)
        → slot t 0 ≡ slot s 0
        → Searched t r
        → Searched s r
    Searched-past s t r single same zero_kept (inl (e, rest)) =
        let none_there : several (slot s 1) ≡ 0 = rw single refl in
        inl (e, omega (arith, same several, none_there, rw zero_kept at rest))
    Searched-past s t r single same zero_kept (inr (n, left, e, k)) =
        let none_larger : exceeds n (slot s 1) ≡ 0 = rw single refl in
        inr (
          n,
          left,
          e,
          record {
            mixed = k.mixed;
            in_order = k.in_order;
            kept = λ f. omega (arith, same f, k.kept f);
            unused = k.unused ∙ zero_kept;
            nonempty = k.nonempty;
            largest = omega (arith, same (exceeds n), none_larger, rw zero_kept at k.largest);
          },
        )

    pub search :
        (fuel : ℕ) (s : List ℕ)
        → length s ≤ fuel
        → 0 < length s
        → IsHeap boxes s
        → Searched s (next_box boxes fuel s)
    unfolding next_box or_next
    search zero s f p h = absurd (omega arith)
    search (suc fuel) s f p h = elim (Bool-cases (length s == 1)) [
      | inl alone ↦
          let e : length s ≡ 1 = (==_iff _ _).0 alone in
          rw (remove_empty boxes small s h e)
            (inl (refl, total_slot_0 several s p (λ i lo hi. absurd (omega (arith, e)))))
      | inr more ↦
          let (t, e, order, same, top) = remove-IsHeap boxes small s h (ground arith) in
          let kept_0 = remove-slot_0 boxes s t (slot s 1) (ground arith) e in
          let size = same (λ _. 1) in
          rw e (
            if_cases (Searched s) (is_single (slot s 1)) _ _
              (λ single. Searched-past s t (next_box boxes fuel t) single same kept_0 (
                search fuel t (omega (arith, size, length-total t, length-total s))
                  (ground (arith, size, length-total t, length-total s)) order))
              (λ mixed. inr (
                slot s 1,
                t,
                refl,
                record {
                  mixed = mixed;
                  in_order = order;
                  kept = λ f. omega (arith, same f);
                  unused = kept_0;
                  nonempty = ground (arith, size, length-total t, length-total s);
                  largest =
                      total_slot_0 (exceeds (slot s 1)) s p
                        (λ i lo hi. ground (arith, top i lo hi));
                },
              )))
    ]

    -- The inner loop ends, in a heap in order of boxes with fewer than 2^31 pixels each, with as much
    -- fuel as the heap has slots: it gives none where every box of the heap has one colour, and else a
    -- box of several colours, with at least as many pixels as each such box of the heap, and a heap
    -- in order of boxes from the heap, from which that box is gone.
    pub next_box_lem :
        (s : List ℕ)
        → 0 < length s
        → IsHeap boxes s
        → ((next_box boxes (length s) s ≡ none)
            × ((i : ℕ) → 1 ≤ i → i < length s → volume (box_at boxes (slot s i)) ≡ 1))
          ⊎ ((n : ℕ) × (left : List ℕ) × (next_box boxes (length s) s ≡ some (n, left))
              × (volume (box_at boxes n) ≢ 1)
              × IsHeap boxes left
              × ((f : ℕ → ℕ) → total f left + f n ≤ total f s)
              × ((i : ℕ)
                  → 1 ≤ i
                  → i < length s
                  → volume (box_at boxes (slot s i)) ≢ 1
                  → count_of boxes (slot s i) ≤ count_of boxes n))
    next_box_lem s p h = elim (search (length s) s (omega arith) p h) [
      | inl (e, rest) ↦
          inl (e, λ i lo hi. ground (arith, two_slots-le-total several i s lo hi, rest))
      | inr (n, left, e, k) ↦ inr (
        n,
        left,
        e,
        λ one. ground (arith, k.mixed, one),
        k.in_order,
        k.kept,
        λ i lo hi v. ground (arith, two_slots-le-total (exceeds n) i s lo hi, k.largest, v),
      )
    ]
