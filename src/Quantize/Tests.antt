-- ===== src/Quantize/Tests.antt =====
-- Runs of the quantizer on small images, those of the source's tests among them, and each result at a
-- concrete input.
use mpris_chroma.Prelude.{
  ℕ, zero, suc, ◌+◌, ◌≤◌, ◌<◌, ◌≡◌, refl, ◌≢◌, ◌⊎◌, Option, none, some, List, [], ◌∷◌, arith,
  replicate, All,
}
use mpris_chroma.Prelude.Sort.{total}
use mpris_chroma.Quantize.{Rgb, IsRgb, BoxNode, dist_sq, volume, get_elem?}
use mpris_chroma.Quantize.Heap.{slot, count_of, add, remove}
use mpris_chroma.Quantize.Heap.Order.{IsSmall, IsHeap}
use mpris_chroma.Quantize.Heap.Root.{remove-IsHeap}
use mpris_chroma.Quantize.Split.{split}
use mpris_chroma.Quantize.Split.Laws.{Halves, split_lem}
use mpris_chroma.Quantize.Nearest.{entry, nearest}
use mpris_chroma.Quantize.Nearest.Laws.{full_search, nearest_lem}
use mpris_chroma.Quantize.Cut.{box_at, next_box, histogram}
use mpris_chroma.Quantize.Cut.Next.{next_box_lem}
use mpris_chroma.Quantize.Paint.{Quantized, quantize, colors_of}
use mpris_chroma.Quantize.Paint.Whole.{IsQuantized, quantize_lem}

abbrev rgb : ℕ → ℕ → ℕ → Rgb
rgb r g b = record { red = r; green = g; blue = b }

abbrev five : List Rgb
five = rgb 0 0 0 ∷ rgb 10 0 0 ∷ rgb 255 255 255 ∷ rgb 250 250 250 ∷ rgb 0 0 0 ∷ []

five-quantized :
    quantize five 2
    ≡ some (record { palette = rgb 253 253 253 ∷ rgb 3 0 0 ∷ []; indices = 1 ∷ 1 ∷ 0 ∷ 0 ∷ 1 ∷ [] })
unfolding quantize
five-quantized = refl

abbrev counted : Option Quantized → Option (List (ℕ × ℕ))
unfolding colors_of
counted (some q) = colors_of q
counted none = none

-- `solid_image_is_one_entry`.
solid_image : counted (quantize (replicate 100 (rgb 224 16 80)) 16) ≡ some ((100, 0) ∷ [])
unfolding quantize counted
solid_image = refl

no_colors : quantize five 0 ≡ none
unfolding quantize
no_colors = refl

no_pixels : quantize [] 4 ≡ some (record { palette = []; indices = [] })
unfolding quantize
no_pixels = refl

five-IsRgb : All IsRgb five
five-IsRgb = omega arith

quantize_lem_example : (q : Quantized) × (quantize five 2 ≡ some q) × IsQuantized five 2 q
unfolding histogram
quantize_lem_example =
    quantize_lem five five-IsRgb 2 (omega arith) (omega arith) (omega arith) (omega arith)
      (omega arith)

abbrev two : List Rgb
two = rgb 253 253 253 ∷ rgb 3 0 0 ∷ []

two-IsRgb : All IsRgb two
two-IsRgb = omega arith

nearest_lem_example :
    (nearest two 0 (rgb 100 0 0) ≡ (full_search two (rgb 100 0 0) 0).best)
    × (nearest two 0 (rgb 100 0 0) < 2)
    × ((j : ℕ)
        → j < 2
        → dist_sq (entry two (nearest two 0 (rgb 100 0 0))) (rgb 100 0 0)
          ≤ dist_sq (entry two j) (rgb 100 0 0))
nearest_lem_example =
    nearest_lem two (rgb 100 0 0) 0 two-IsRgb (omega arith, omega arith, omega arith) (omega arith)

abbrev counted_box : ℕ → Rgb → Rgb → BoxNode
counted_box n a b = record {
  entries = record { color = a; count = n } ∷ record { color = b; count = 1 } ∷ [];
  pixel_count = n + 1;
  children = none;
}

abbrev mixed_box : BoxNode
mixed_box = counted_box 3 (rgb 9 0 0) (rgb 0 0 7)

split_lem_example :
    (l : BoxNode) × (r : BoxNode) × (split mixed_box ≡ some (l, r)) × Halves mixed_box l r
unfolding volume
split_lem_example = split_lem mixed_box (omega arith) (λ e. cc) (omega arith)

abbrev boxes : List BoxNode
boxes =
    counted_box 3 (rgb 9 0 0) (rgb 0 0 7)
    ∷ counted_box 8 (rgb 5 5 5) (rgb 5 5 5)
    ∷ counted_box 6 (rgb 1 0 0) (rgb 0 1 0)
    ∷ []

boxes-IsSmall : IsSmall boxes
unfolding count_of get_elem?
boxes-IsSmall zero = omega arith
boxes-IsSmall (suc zero) = omega arith
boxes-IsSmall (suc (suc zero)) = omega arith
boxes-IsSmall (suc (suc (suc a))) = omega arith

abbrev slots : List ℕ
slots = 0 ∷ 1 ∷ 0 ∷ 2 ∷ []

slots_added : add boxes 2 (add boxes 1 (add boxes 0 (0 ∷ []))) ≡ slots
unfolding add
slots_added = refl

slots-IsHeap : IsHeap boxes slots
unfolding count_of get_elem? slot
slots-IsHeap zero lo hi = absurd (omega arith)
slots-IsHeap (suc zero) lo hi = absurd (omega arith)
slots-IsHeap (suc (suc zero)) lo hi = omega arith
slots-IsHeap (suc (suc (suc zero))) lo hi = omega arith
slots-IsHeap (suc (suc (suc (suc i)))) lo hi = absurd (omega arith)

remove-IsHeap_example :
    (t : List ℕ) × (remove boxes slots ≡ some (slot slots 1, t))
    × IsHeap boxes t
    × ((f : ℕ → ℕ) → total f t + f (slot slots 1) ≡ total f slots)
    × ((i : ℕ) → 1 ≤ i → i < 4 → count_of boxes (slot slots i) ≤ count_of boxes (slot slots 1))
remove-IsHeap_example = remove-IsHeap boxes boxes-IsSmall slots slots-IsHeap (omega arith)

-- The box of the most pixels has one colour, so the next one is found.
next_box-slots : next_box boxes 4 slots ≡ some (2, 0 ∷ 0 ∷ [])
unfolding next_box
next_box-slots = refl

next_box_lem_example :
    ((next_box boxes 4 slots ≡ none)
      × ((i : ℕ) → 1 ≤ i → i < 4 → volume (box_at boxes (slot slots i)) ≡ 1))
    ⊎ ((n : ℕ) × (left : List ℕ) × (next_box boxes 4 slots ≡ some (n, left))
        × (volume (box_at boxes n) ≢ 1)
        × IsHeap boxes left
        × ((f : ℕ → ℕ) → total f left + f n ≤ total f slots)
        × ((i : ℕ)
            → 1 ≤ i
            → i < 4
            → volume (box_at boxes (slot slots i)) ≢ 1
            → count_of boxes (slot slots i) ≤ count_of boxes n))
next_box_lem_example = next_box_lem boxes boxes-IsSmall slots (omega arith) slots-IsHeap
