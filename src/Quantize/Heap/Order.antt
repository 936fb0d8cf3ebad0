-- ===== src/Quantize/Heap/Order.antt =====
-- color/quantize.rs, `Heap`: the order of the slots, which the loops of `add` and `remove` restore.
use mpris_chroma.Prelude.{
  ℕ, zero, suc, ◌+◌, ◌*◌, ◌/◌, ◌^◌, ◌≤◌, ◌<◌, ◌≡◌, ◌⊎◌, inl, inr, true, false, not, List, arith,
  ltb, ◌==◌, if_cases, length,
}
use mpris_chroma.Quantize.{BoxNode}
use mpris_chroma.Quantize.Heap.{
  slot, set, count_of, cmp, is_positive, is_negative, sift_up, larger_child, sift_down,
}
use mpris_chroma.Quantize.Heap.Contents.{length-set, slot-set}

-- No box has more pixels than `i32` holds.
abbrev pub IsSmall : List BoxNode → Type 0
IsSmall boxes = (a : ℕ) → count_of boxes a < 2 ^ 31

-- No box has more pixels than the one above it.
abbrev pub IsHeap : List BoxNode → List ℕ → Type 0
IsHeap boxes s =
    (i : ℕ) → 2 ≤ i → i < length s → count_of boxes (slot s i) ≤ count_of boxes (slot s (i / 2))

module _ (boxes : List BoxNode) (small : IsSmall boxes) where
  abbrev size : ℕ → ℕ
  size a = count_of boxes a

  is_positive-cmp : (a b : ℕ) → is_positive (cmp boxes a b) ≡ ltb (size b) (size a)
  unfolding cmp
  is_positive-cmp a b = ground (arith, small a, small b)

  is_negative-cmp : (a b : ℕ) → is_negative (cmp boxes a b) ≡ ltb (size a) (size b)
  unfolding cmp
  is_negative-cmp a b = ground (arith, small a, small b)

  stops→le : (a b : ℕ) → not (is_positive (cmp boxes a b)) ≡ true → size a ≤ size b
  stops→le a b h = ground (arith, is_positive-cmp a b)

  goes_on→gt : (a b : ℕ) → not (is_positive (cmp boxes a b)) ≡ false → size b < size a
  goes_on→gt a b h = ground (arith, is_positive-cmp a b)

  positive→gt : (a b : ℕ) → is_positive (cmp boxes a b) ≡ true → size b < size a
  positive→gt a b h = ground (arith, is_positive-cmp a b)

  not_positive→le : (a b : ℕ) → is_positive (cmp boxes a b) ≡ false → size a ≤ size b
  not_positive→le a b h = ground (arith, is_positive-cmp a b)

  -- Slot `k` is free and waits for `v`: all is in order but for the slots above and below it.
  pub record IsOpenUp (k v : ℕ) (s : List ℕ) : Type 0 where
    pub ordered :
        (i : ℕ)
        → 2 ≤ i
        → i < length s
        → (i == k) ≡ false
        → (i / 2 == k) ≡ false
        → size (slot s i) ≤ size (slot s (i / 2))
    pub below : (i : ℕ) → 2 ≤ i → i < length s → (i / 2 == k) ≡ true → size (slot s i) ≤ size v
    pub across :
        (i : ℕ)
        → 2 ≤ i
        → i < length s
        → (i / 2 == k) ≡ true
        → 2 ≤ k
        → size (slot s i) ≤ size (slot s (k / 2))

  module _ (v : ℕ) where
    close_up :
        (k : ℕ) (s : List ℕ)
        → k < length s
        → IsOpenUp k v s
        → (2 ≤ k → size v ≤ size (slot s (k / 2)))
        → IsHeap boxes (set k v s)
    close_up k s h o parent = λ i lo hi. ground (
      arith,
      slot-set k i v s,
      slot-set k (i / 2) v s,
      length-set k v s,
      o.ordered i,
      o.below i,
      parent,
    )

    pub sift_up-IsHeap :
        (fuel k : ℕ) (s : List ℕ)
        → k ≤ fuel
        → 0 < k
        → k < length s
        → IsOpenUp k v s
        → IsHeap boxes (sift_up boxes v fuel k s)
    unfolding sift_up
    sift_up-IsHeap zero k s f p h o = absurd (omega arith)
    sift_up-IsHeap (suc fuel) k s f p h o =
        if_cases (IsHeap boxes) (k == 1) _ _
          (λ top. close_up k s h o (λ two. absurd (ground arith)))
          (λ other.
            if_cases (IsHeap boxes) (not (is_positive (cmp boxes v (slot s (k / 2))))) _ _
              (λ stop. close_up k s h o (λ _. stops→le v (slot s (k / 2)) stop))
              (λ more.
                let moved = set k (slot s (k / 2)) s in
                let larger : size (slot s (k / 2)) < size v = goes_on→gt v (slot s (k / 2)) more in
                let kept = length-set k (slot s (k / 2)) s in
                let read = λ (i : ℕ). slot-set k i (slot s (k / 2)) s h in
                let open_above : IsOpenUp (k / 2) v moved = record {
                  ordered =
                      λ i lo hi. ground (arith, read i, read (i / 2), o.ordered i, o.across i);
                  below = λ i lo hi e. ground (arith, read i, o.ordered i);
                  across = λ i lo hi e le.
                      ground (arith, read i, read (k / 2 / 2), o.ordered i, o.ordered (k / 2));
                } in
                sift_up-IsHeap fuel (k / 2) moved (omega arith) (ground arith) (omega (arith, kept))
                  open_above))

    -- Slot `k` is free and waits for `v`, which belongs below the slots above `k`.
    pub record IsOpenDown (k : ℕ) (s : List ℕ) : Type 0 where
      pub ordered :
          (i : ℕ)
          → 2 ≤ i
          → i < length s
          → (i == k) ≡ false
          → (i / 2 == k) ≡ false
          → size (slot s i) ≤ size (slot s (i / 2))
      pub across :
          (i : ℕ)
          → 2 ≤ i
          → i < length s
          → (i / 2 == k) ≡ true
          → 2 ≤ k
          → size (slot s i) ≤ size (slot s (k / 2))
      pub above : 2 ≤ k → size v ≤ size (slot s (k / 2))

    close_down :
        (k : ℕ) (s : List ℕ)
        → k < length s
        → IsOpenDown k s
        → ((i : ℕ) → 2 ≤ i → i < length s → (i / 2 == k) ≡ true → size (slot s i) ≤ size v)
        → IsHeap boxes (set k v s)
    close_down k s h o children = λ i lo hi. ground (
      arith,
      slot-set k i v s,
      slot-set k (i / 2) v s,
      length-set k v s,
      o.ordered i,
      children i,
      o.above,
    )

    larger_child_lem :
        (count k : ℕ) (s : List ℕ)
        → 0 < k
        → k * 2 ≤ count
        → (larger_child boxes count k s / 2 ≡ k)
          × (larger_child boxes count k s ≤ count)
          × ((i : ℕ)
              → i ≤ count
              → (i / 2 == k) ≡ true
              → size (slot s i) ≤ size (slot s (larger_child boxes count k s)))
    unfolding larger_child count_of
    larger_child_lem count k s p c =
        (ground arith, ground arith, λ i hi e. child i hi (ground arith))
      where
        sign :
            is_negative (cmp boxes (slot s (k * 2)) (slot s (k * 2 + 1)))
            ≡ ltb (size (slot s (k * 2))) (size (slot s (k * 2 + 1)))
        sign = is_negative-cmp (slot s (k * 2)) (slot s (k * 2 + 1))

        child :
            (i : ℕ)
            → i ≤ count
            → (i ≡ k * 2) ⊎ (i ≡ k * 2 + 1)
            → size (slot s i) ≤ size (slot s (larger_child boxes count k s))
        child i hi (inl e) = rw e (rw (larger_child, sign) (grind arith))
        child i hi (inr e) = rw e (rw (larger_child, sign) (grind arith))

    pub sift_down-IsHeap :
        (count fuel k : ℕ) (s : List ℕ)
        → count < fuel + k
        → 0 < k
        → k ≤ count
        → length s ≡ suc count
        → IsOpenDown k s
        → IsHeap boxes (sift_down boxes v count fuel k s)
    unfolding sift_down
    sift_down-IsHeap count zero k s f p h c o = absurd (omega arith)
    sift_down-IsHeap count (suc fuel) k s f p h c o =
        if_cases (IsHeap boxes) (ltb count (k * 2)) _ _
          (λ alone. close_down k s (omega arith) o (λ i lo hi e. absurd (ground arith)))
          (λ inside.
            let l = larger_child boxes count k s in
            let chosen = larger_child_lem count k s p (ground arith) in
            if_cases (IsHeap boxes) (is_positive (cmp boxes v (slot s l))) _ _
              (λ stop.
                let smaller = positive→gt v (slot s l) stop in
                close_down k s (omega arith) o
                  (λ i lo hi e. omega (arith, smaller, chosen.2 i (omega arith) e)))
              (λ more.
                let larger = not_positive→le v (slot s l) more in
                let moved = set k (slot s l) s in
                let kept = length-set k (slot s l) s in
                let read = λ (i : ℕ). slot-set k i (slot s l) s (omega arith) in
                let open_below : IsOpenDown l moved = record {
                  ordered = λ i lo hi n m. ground (
                    arith,
                    read i,
                    read (i / 2),
                    chosen.0,
                    chosen.2 i,
                    o.ordered i,
                    o.across l,
                    o.across i,
                  );
                  across =
                      λ i lo hi e le. ground (arith, read i, read (l / 2), chosen.0, o.ordered i);
                  above = λ le. ground (arith, read (l / 2), chosen.0, larger);
                } in
                sift_down-IsHeap count fuel l moved (omega (arith, chosen.0))
                  (omega (arith, chosen.0)) chosen.1 (omega (arith, kept)) open_below))
