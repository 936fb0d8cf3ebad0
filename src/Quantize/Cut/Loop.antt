-- ===== src/Quantize/Cut/Loop.antt =====
-- color/quantize.rs, the loop `'cut` of `quantize`: it never panics, and each round adds one leaf.
use mpris_chroma.Prelude.{
  ℕ, zero, suc, ◌+◌, ◌^◌, ◌≤◌, ◌<◌, ◌≡◌, refl, sym, ap, ◌∙◌, ◌⊎◌, inl, inr, none, some, List, [],
  ◌∷◌, arith, length,
}
use mpris_chroma.Prelude.Sort.{total}
use mpris_chroma.Quantize.{Entry, BoxNode, get_elem?}
use mpris_chroma.Quantize.Heap.{slot, set, count_of, add, sift_up}
use mpris_chroma.Quantize.Split.Laws.{pixels}
use mpris_chroma.Quantize.Cut.{
  Cut, Round, broken, halved, box_at, cut_found, halves_pushed, push_halves, cut_round, cut_rounds,
}
use mpris_chroma.Quantize.Cut.Next.{search}
use mpris_chroma.Quantize.Cut.Tree.{Walk}
use mpris_chroma.Quantize.Cut.Rounds.{IsCut, node_split}
use mpris_chroma.Quantize.Cut.Kept.{new_leaves, push_halves-IsCut}

module _ (entries : List Entry) (few : pixels entries < 2 ^ 31) where
  abbrev Rounded : List ℕ → Round → Type 0
  Rounded ls r =
      (r ≡ broken)
      ⊎ ((c' : Cut) × (ms : List ℕ) × (r ≡ halved c')
          × IsCut entries c' ms
          × (length ms ≡ suc (length ls)))

  cut_round_lem : (c : Cut) (ls : List ℕ) → IsCut entries c ls → Rounded ls (cut_round c)
  unfolding cut_round cut_found halves_pushed
  cut_round_lem c ls good =
      elim (search c.boxes good.small (length c.heap) c.heap (omega arith) good.heap_nonempty
        good.heap_order) [
          | inl (e, alone) ↦ inl (rw e refl)
          | inr (n, left, e, taken) ↦
              let (l, r, cut, halves) = node_split entries few c ls good n left taken in
              let kept = push_halves-IsCut entries few c ls good n left taken l r halves in
              inr (
                push_halves c.boxes n left (l, r),
                new_leaves entries few c ls good n left taken l r halves,
                rw (e, cut) refl,
                kept.0,
                kept.1,
              )
        ]

  pub cut_rounds_lem :
      (n : ℕ) (c : Cut) (ls : List ℕ)
      → IsCut entries c ls
      → (c' : Cut) × (ms : List ℕ) × (cut_rounds n c ≡ some c')
        × IsCut entries c' ms
        × (length ls ≤ length ms)
        × (length ms ≤ length ls + n)
  unfolding cut_rounds
  cut_rounds_lem zero c ls good = (c, ls, refl, good, omega arith, omega arith)
  cut_rounds_lem (suc n) c ls good = elim (cut_round_lem c ls good) [
    | inl e ↦ (c, ls, rw e refl, good, omega arith, omega arith)
    | inr (c1, ms, e, good1, size) ↦
        let (c', ms', f, good', lo, hi) = cut_rounds_lem n c1 ms good1 in
        (c', ms', rw e f, good', omega (arith, size, lo), omega (arith, size, hi))
  ]

-- The state before the first round: one box of all entries, alone in the heap.
module _ (entries : List Entry) (some_entry : 0 < length entries)
    (few : pixels entries < 2 ^ 31) where
  pub one_box-IsCut :
      (b : BoxNode)
      → b.entries ≡ entries
      → b.pixel_count ≡ pixels entries
      → b.children ≡ none
      → IsCut entries (record { boxes = b ∷ []; heap = add (b ∷ []) 0 (0 ∷ []) }) (0 ∷ [])
  unfolding box_at get_elem? add sift_up slot set
  one_box-IsCut b e p n = record {
    walked = Walk.leaf (omega arith) n Walk.done;
    shared = λ f. omega (arith, ap (total f) e);
    full = ((omega (arith, ap length e), p ∙ sym (ap pixels e)), tt);
    small = λ a. counted a;
    distinct = λ a. ground arith;
    heap_leaves = λ f. omega arith;
    heap_order = λ i lo hi. absurd (omega arith);
    heap_start = refl;
    heap_nonempty = omega arith;
  }
    where
      counted : (a : ℕ) → count_of (b ∷ []) a < 2 ^ 31
      counted zero = unfold count_of in omega (arith, p)
      counted (suc a) = unfold count_of in omega arith
