-- ===== src/Quantize/Cut/Rounds.antt =====
-- color/quantize.rs, `quantize`: what the median cut keeps from round to round.
use mpris_chroma.Prelude.{
  ℕ, ◌+◌, ◌^◌, ◌≤◌, ◌<◌, ◌≡◌, ap, ◌∙◌, inl, inr, some, List, [], ◌∷◌, arith, ◌==◌, ==_iff,
  Bool-cases, length, All,
}
use mpris_chroma.Prelude.Sort.{total}
use mpris_chroma.Quantize.{Entry, BoxNode}
use mpris_chroma.Quantize.Heap.{slot}
use mpris_chroma.Quantize.Heap.Order.{IsSmall, IsHeap}
use mpris_chroma.Quantize.Heap.Unused.{slot_0-le-total}
use mpris_chroma.Quantize.Split.{split}
use mpris_chroma.Quantize.Split.Laws.{pixels, Halves, split_lem}
use mpris_chroma.Quantize.Cut.{Cut, box_at}
use mpris_chroma.Quantize.Cut.Next.{IsTaken}
use mpris_chroma.Quantize.Cut.Tree.{
  is_index, occurrences, occurrences-All, Walk, IsLeaf, Walk-leaves,
}

-- The entries of the leaves, by a weight.
abbrev pub leaf_total : List BoxNode → (Entry → ℕ) → List ℕ → ℕ
leaf_total boxes f = total (λ n. total f (box_at boxes n).entries)

-- A box has entries, and counts their pixels.
abbrev pub IsFull : BoxNode → Type 0
IsFull b = (0 < length b.entries) × (b.pixel_count ≡ pixels b.entries)

module _ (entries : List Entry) where
  pub record IsCut (c : Cut) (ls : List ℕ) : Type 0 where
    -- The walk from the first box meets the leaves, and each box once.
    pub walked : Walk c.boxes (0 ∷ []) ls (length c.boxes)
    -- The leaves share the entries between them.
    pub shared : (f : Entry → ℕ) → leaf_total c.boxes f ls ≡ total f entries
    pub full : All (λ n. IsFull (box_at c.boxes n)) ls
    pub small : IsSmall c.boxes
    -- No leaf is met twice.
    pub distinct : (a : ℕ) → occurrences a ls ≤ 1
    -- The heap holds leaves, none of them twice.
    pub heap_leaves : (f : ℕ → ℕ) → total f c.heap ≤ f 0 + total f ls
    pub heap_order : IsHeap c.boxes c.heap
    pub heap_start : slot c.heap 0 ≡ 0
    pub heap_nonempty : 0 < length c.heap

  module _ (few : pixels entries < 2 ^ 31) (c : Cut) (ls : List ℕ) (good : IsCut c ls) where
    leaf-le :
        (f : Entry → ℕ) (n : ℕ) (ms : List ℕ)
        → 0 < occurrences n ms
        → total f (box_at c.boxes n).entries ≤ leaf_total c.boxes f ms
    leaf-le f n [] h = absurd (omega arith)
    leaf-le f n (m ∷ ms) h = elim (Bool-cases (m == n)) [
      | inl t ↦
          let e : m ≡ n = (==_iff m n).0 t in
          omega (arith, ap (λ k. total f (box_at c.boxes k).entries) e)
      | inr g ↦ let rest = leaf-le f n ms (ground arith) in omega (arith, rest)
    ]

    module _ (n : ℕ) (left : List ℕ) (taken : IsTaken c.boxes c.heap n left) where
      pub once : occurrences n ls ≡ 1
      once =
          let start : slot left 0 ≡ 0 = taken.unused ∙ good.heap_start in
          omega (
            arith,
            taken.kept (is_index n),
            good.heap_leaves (is_index n),
            good.distinct n,
            rw start at (slot_0-le-total (is_index n) left taken.nonempty),
            self,
          )
        where
          self : is_index n n ≡ 1
          self = ground arith

      pub is_leaf : IsLeaf c.boxes n
      is_leaf =
          occurrences-All (IsLeaf c.boxes) n ls (omega (arith, once)) (Walk-leaves good.walked)

      pub is_full : IsFull (box_at c.boxes n)
      is_full =
          occurrences-All (λ m. IsFull (box_at c.boxes m)) n ls (omega (arith, once)) good.full

      pub node_few : pixels (box_at c.boxes n).entries < 2 ^ 31
      node_few = omega (
        arith,
        leaf-le (λ (e : Entry). e.count) n ls (omega (arith, once)),
        good.shared (λ (e : Entry). e.count),
        few,
      )

      pub node_split :
          (l : BoxNode) × (r : BoxNode) × (split (box_at c.boxes n) ≡ some (l, r))
          × Halves (box_at c.boxes n) l r
      node_split =
          split_lem (box_at c.boxes n) is_full.0 (λ v. ground (arith, taken.mixed, v))
            (omega (arith, node_few))
