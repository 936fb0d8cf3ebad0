-- ===== src/Quantize/Cut/Kept.antt =====
-- color/quantize.rs, `quantize`: a box of the median cut is replaced by its halves.
use mpris_chroma.Prelude.{
  ℕ, zero, suc, ◌+◌, ◌/◌, ◌^◌, ◌≤◌, ◌<◌, ◌≡◌, refl, sym, ap, ◌∙◌, inl, inr, List, [], ◌∷◌, arith,
  ltb, ◌==◌, ltb→lt, ==_iff, Bool-cases, if_cases, length, All, All-mono,
}
use mpris_chroma.Prelude.Sort.{total, length-total, total-append}
use mpris_chroma.Quantize.{Entry, BoxNode, get_elem?}
use mpris_chroma.Quantize.Heap.{slot, count_of, add}
use mpris_chroma.Quantize.Heap.Order.{IsSmall, IsHeap}
use mpris_chroma.Quantize.Heap.Root.{add-IsHeap}
use mpris_chroma.Quantize.Heap.Unused.{add-slot_0, two_slots-le-total}
use mpris_chroma.Quantize.Split.Laws.{pixels, Halves}
use mpris_chroma.Quantize.Cut.{Cut, box_at, push_halves}
use mpris_chroma.Quantize.Cut.Next.{IsTaken}
use mpris_chroma.Quantize.Cut.Tree.{
  count_of-box_at, is_index, occurrences, occurrences-All, Walk, IsLeaf, Walk-leaves, graft,
  total-graft, grown, length-grown, grown_same, grown_other, grown_left, grown_right, Walk-grown,
}
use mpris_chroma.Quantize.Cut.Rounds.{leaf_total, IsFull, IsCut, once, is_leaf, node_few}

total_same : (v w : ℕ → ℕ) (ls : List ℕ) → All (λ m. v m ≡ w m) ls → total v ls ≡ total w ls
total_same v w [] a = refl
total_same v w (m ∷ ls) a = omega (arith, a.0, total_same v w ls a.1)

All-graft :
    (P : ℕ → Type 0) (n li ri : ℕ) (ls : List ℕ) → P li → P ri → All P ls → All P (graft n li ri ls)
All-graft P n li ri [] p q a = tt
All-graft P n li ri (m ∷ ls) p q a =
    let rest = All-graft P n li ri ls p q a.1 in
    if_cases (All P) (m == n) _ _ (λ _. (p, (q, rest))) (λ _. (a.0, rest))

count_of-out : (bs : List BoxNode) (a : ℕ) → length bs ≤ a → count_of bs a ≡ 0
unfolding count_of get_elem?
count_of-out [] a h = refl
count_of-out (b ∷ bs) zero h = absurd (omega arith)
count_of-out (b ∷ bs) (suc a) h = count_of-out bs a (omega arith)

module _ (entries : List Entry) (few : pixels entries < 2 ^ 31) (c : Cut) (ls : List ℕ)
    (good : IsCut entries c ls) (n : ℕ) (left : List ℕ) (taken : IsTaken c.boxes c.heap n left)
    (l r : BoxNode) (halves : Halves (box_at c.boxes n) l r) where
  inside : n < length c.boxes
  inside = (is_leaf entries few c ls good n left taken).0

  abbrev boxes' : List BoxNode
  boxes' = grown c.boxes l r n inside

  boxes'_old :
      (m : ℕ)
      → m < length c.boxes
      → ((box_at boxes' m).entries ≡ (box_at c.boxes m).entries)
        × ((box_at boxes' m).pixel_count ≡ (box_at c.boxes m).pixel_count)
  boxes'_old m h = elim (Bool-cases (m == n)) [
    | inl t ↦
        let e : m ≡ n = (==_iff m n).0 t in
        let same = grown_same c.boxes l r n inside in
        rw e (ap (λ (b : BoxNode). b.entries) same, ap (λ (b : BoxNode). b.pixel_count) same)
    | inr f ↦
        let same = grown_other c.boxes l r n inside m f h in
        (ap (λ (b : BoxNode). b.entries) same, ap (λ (b : BoxNode). b.pixel_count) same)
  ]

  count_of_old : (m : ℕ) → m < length c.boxes → count_of boxes' m ≡ count_of c.boxes m
  count_of_old m h = count_of-box_at boxes' m ∙ (boxes'_old m h).1 ∙ sym (count_of-box_at c.boxes m)

  small' : IsSmall boxes'
  small' = λ a. elim (Bool-cases (ltb a (length c.boxes))) [
    | inl t ↦ omega (arith, count_of_old a (ltb→lt _ _ t), good.small a)
    | inr f ↦ elim (Bool-cases (a == length c.boxes)) [
      | inl t ↦
          let e : a ≡ length c.boxes = (==_iff _ _).0 t in
          rw e (
            omega (
              arith,
              count_of-box_at boxes' (length c.boxes),
              ap (λ (b : BoxNode). b.pixel_count) (grown_left c.boxes l r n inside),
              halves.counted,
              parent,
            ))
      | inr g ↦ elim (Bool-cases (a == length c.boxes + 1)) [
        | inl t ↦
            let e : a ≡ length c.boxes + 1 = (==_iff _ _).0 t in
            rw e (
              omega (
                arith,
                count_of-box_at boxes' (length c.boxes + 1),
                ap (λ (b : BoxNode). b.pixel_count) (grown_right c.boxes l r n inside),
                halves.counted,
                parent,
              ))
        | inr k ↦
            let gone = count_of-out boxes' a (ground (arith, length-grown c.boxes l r n inside)) in
            omega (arith, gone)
      ]
    ]
  ]
    where
      parent : pixels (box_at c.boxes n).entries < 2 ^ 31
      parent = node_few entries few c ls good n left taken

  -- What is left in the heap are leaves.
  left-IsLeaf : (i : ℕ) → 1 ≤ i → i < length left → IsLeaf c.boxes (slot left i)
  left-IsLeaf i lo hi =
      let x = slot left i in
      let start : slot left 0 ≡ 0 = taken.unused ∙ good.heap_start in
      let held = rw start at (two_slots-le-total (is_index x) i left lo hi) in
      occurrences-All (IsLeaf c.boxes) x ls
        (omega (arith, held, self x, taken.kept (is_index x), good.heap_leaves (is_index x)))
        (Walk-leaves good.walked)
    where
      self : (x : ℕ) → is_index x x ≡ 1
      self x = ground arith

  left_order : IsHeap boxes' left
  left_order = λ i lo hi.
      let here = left-IsLeaf i (omega arith) hi in
      let above = left-IsLeaf (i / 2) (omega arith) (omega arith) in
      omega (
        arith,
        taken.in_order i lo hi,
        count_of_old (slot left i) here.0,
        count_of_old (slot left (i / 2)) above.0,
      )

  fresh : (a : ℕ) → length c.boxes ≤ a → occurrences a ls ≡ 0
  fresh a h = elim (Bool-cases (occurrences a ls == 0)) [
    | inl t ↦ (==_iff _ _).0 t
    | inr f ↦
        let there =
          occurrences-All (IsLeaf c.boxes) a ls (ground arith) (Walk-leaves good.walked) in
        absurd (omega (arith, there.0))
  ]

  abbrev pub new_leaves : List ℕ
  new_leaves = graft n (length c.boxes) (length c.boxes + 1) ls

  swapped :
      (f : ℕ → ℕ)
      → total f new_leaves + f n ≡ total f ls + f (length c.boxes) + f (length c.boxes + 1)
  swapped f =
      total-graft f n (length c.boxes) (length c.boxes + 1) ls
        (once entries few c ls good n left taken)

  distinct' : (a : ℕ) → occurrences a new_leaves ≤ 1
  distinct' a = elim (Bool-cases (ltb a (length c.boxes))) [
    | inl t ↦ ground (arith, swapped (is_index a), good.distinct a)
    | inr f ↦ ground (arith, swapped (is_index a), fresh a)
  ]

  shared' : (f : Entry → ℕ) → leaf_total boxes' f new_leaves ≡ total f entries
  shared' f =
      let w = λ (m : ℕ). total f (box_at boxes' m).entries in
      let old =
        total_same w (λ m. total f (box_at c.boxes m).entries) ls
          (All-mono _ _ ls (λ m h. ap (total f) (boxes'_old m h.0).0) (Walk-leaves good.walked)) in
      omega (
        arith,
        swapped w,
        old,
        good.shared f,
        ap (total f) (boxes'_old n inside).0,
        ap (λ (x : BoxNode). total f x.entries) (grown_left c.boxes l r n inside),
        ap (λ (x : BoxNode). total f x.entries) (grown_right c.boxes l r n inside),
        halves.same_entries f,
        total-append f l.entries r.entries,
      )

  full' : All (λ m. IsFull (box_at boxes' m)) new_leaves
  full' =
      All-graft (λ m. IsFull (box_at boxes' m)) n (length c.boxes) (length c.boxes + 1) ls
        (rw (grown_left c.boxes l r n inside) (halves.left_nonempty, halves.left_counted))
        (rw (grown_right c.boxes l r n inside) (halves.right_nonempty, halves.right_counted))
        (kept_full ls (Walk-leaves good.walked) good.full)
    where
      kept_full :
          (ms : List ℕ)
          → All (IsLeaf c.boxes) ms
          → All (λ m. IsFull (box_at c.boxes m)) ms
          → All (λ m. IsFull (box_at boxes' m)) ms
      kept_full [] a b = tt
      kept_full (m ∷ ms) a b =
          let old = boxes'_old m a.0.0 in
          (
            (omega (arith, b.0.0, ap length old.0), old.1 ∙ b.0.1 ∙ sym (ap pixels old.0)),
            kept_full ms a.1 b.1,
          )

  walked' : Walk boxes' (0 ∷ []) new_leaves (length boxes')
  walked' =
      let (k, e, w) =
        Walk-grown c.boxes l r n inside (is_leaf entries few c ls good n left taken).1
          halves.leaves.0 halves.leaves.1 good.walked in
      let full_length : k ≡ length boxes' =
        omega
          (arith, e, once entries few c ls good n left taken, length-grown c.boxes l r n inside) in
      rw full_length at w

  abbrev next : Cut
  next = push_halves c.boxes n left (l, r)

  -- The next state of the cut keeps the invariant, and has one leaf more.
  pub push_halves-IsCut : IsCut entries next new_leaves × (length new_leaves ≡ suc (length ls))
  unfolding push_halves
  push_halves-IsCut =
      let added = add-IsHeap boxes' small' left left_order (length c.boxes) taken.nonempty in
      let size = added.1 (λ _. 1) in
      let one = add boxes' (length c.boxes) left in
      let nonempty : 0 < length one = omega (arith, size, length-total one) in
      let both = add-IsHeap boxes' small' one added.0 (length c.boxes + 1) nonempty in
      let two = add boxes' (length c.boxes + 1) one in
      let start =
        add-slot_0 boxes' (length c.boxes + 1) one nonempty
        ∙ add-slot_0 boxes' (length c.boxes) left taken.nonempty
        ∙ taken.unused
        ∙ good.heap_start in
      (
        record {
          walked = walked';
          shared = shared';
          full = full';
          small = small';
          distinct = distinct';
          heap_leaves =
              λ f. omega (arith, added.1 f, both.1 f, taken.kept f, good.heap_leaves f, swapped f);
          heap_order = both.0;
          heap_start = start;
          heap_nonempty = omega (arith, both.1 (λ _. 1), length-total two, size, length-total one);
        },
        omega (arith, swapped (λ _. 1), length-total ls, length-total new_leaves),
      )
