-- ===== src/Quantize/Paint.antt =====
-- color/quantize.rs, `quantize`: the numbering of the leaves, the palette and the index of each
-- pixel; `Quantized::colors`. None stands for a panic. The source computes a rounded mean in f64,
-- `0.5 + s / n` of two `u32`: unless that is a whole number it is at least 2^-33 away from one,
-- more than its two roundings move it, so the quotient of whole numbers gives the same.
pub mod Leaves
pub mod Whole
use mpris_chroma.Prelude.{
  ℕ, zero, suc, ◌+◌, ◌-◌, ◌*◌, ◌/◌, ◌%◌, ◌^◌, ◌≤◌, ◌<◌, min, max, bit_and, bit_xor, ◌≡◌, refl, sym,
  ap, subst, ◌∙◌, ◌≢◌, ◌↔◌, ◌⊎◌, inl, inr, Bool, true, false, not, ◌&&◌, ◌||◌, Option, none, some,
  List, [], ◌∷◌, ◌++◌, map, append-nil, append_assoc, map-append, arith, ltb, leb, ◌==◌,
  if◌then◌else◌, ltb→lt, lt→ltb, leb→le, le→leb, ==_iff, Bool-cases, Option-cases, List-cases,
  is_some, if_cases, if_else, length, take, drop, replicate, concat, any, all, keep, All, Any,
  length-append, length-take, take-append-drop, All-append, All-map, All-mono, Any-mono, all-All,
  any-Any, Any-any,
}
use mpris_chroma.Quantize.{Rgb, Entry, BoxNode, pixel_hash, get_elem?}
use mpris_chroma.Quantize.Heap.{add}
use mpris_chroma.Quantize.Nearest.{nearest, indices_below}
use mpris_chroma.Quantize.Cut.{
  Keyed, lookup, cons?, box_at, histogram, Histogram, entries_of, max_hash_entries, Cut, cut_rounds,
}

-- The numbers of the leaves, by the hashes of their entries.
pub record Numbered : Type 0 where
  pub box_of : Keyed ℕ
  pub n_entries : ℕ

unfoldable pub assign : List Entry → ℕ → Keyed ℕ → Keyed ℕ
unfolding pixel_hash
assign [] n m = m
assign (e ∷ es) n m = assign es n ((pixel_hash e.color, n) ∷ m)

unfoldable pub number_leaf : BoxNode → Numbered → Numbered
unfolding assign
number_leaf b s = record {
  box_of = assign b.entries s.n_entries s.box_of;
  n_entries = elim b.entries [ [] ↦ s.n_entries | _ ∷ _ ↦ s.n_entries + 1 ];
}

-- One box of the stack: its children go on the stack, the left one on top, or it is a leaf.
unfoldable pub visit : BoxNode → Option (ℕ × ℕ) → List ℕ → Numbered → List ℕ × Numbered
unfolding number_leaf
visit b (some (l, r)) stack s = (l ∷ r ∷ stack, s)
visit b none stack s = (stack, number_leaf b s)

-- The loop over the stack; none without fuel. Each box is visited once.
unfoldable pub number_leaves : ℕ → List BoxNode → List ℕ → Numbered → Option Numbered
unfolding visit box_at
number_leaves fuel boxes [] s = some s
number_leaves zero boxes (n ∷ stack) s = none
number_leaves (suc fuel) boxes (n ∷ stack) s =
    let b = box_at boxes n in
    let (stack', s') = visit b b.children stack s in number_leaves fuel boxes stack' s'

-- The sums of a box's pixels by channel, and their number.
pub record Sums : Type 0 where
  pub red_sum : ℕ
  pub green_sum : ℕ
  pub blue_sum : ℕ
  pub pixel_sum : ℕ

abbrev pub add_pixel : Rgb → Sums → Sums
add_pixel p s = record {
  red_sum = (s.red_sum + p.red) % 2 ^ 32;
  green_sum = (s.green_sum + p.green) % 2 ^ 32;
  blue_sum = (s.blue_sum + p.blue) % 2 ^ 32;
  pixel_sum = (s.pixel_sum + 1) % 2 ^ 32;
}

-- `sums[b][..] += ..`, which panics out of range.
unfoldable pub add_at : ℕ → Rgb → List Sums → Option (List Sums)
add_at b p [] = none
add_at zero p (s ∷ ss) = some (add_pixel p s ∷ ss)
add_at (suc b) p (s ∷ ss) = cons? (some s) (add_at b p ss)

unfoldable pub add_in : Rgb → Option ℕ → List Sums → Option (List Sums)
unfolding add_at
add_in p (some b) sums = add_at b p sums
add_in p none sums = none

abbrev pub and_sums : Option (List Sums) → (List Sums → Option (List Sums)) → Option (List Sums)
and_sums (some sums) next = next sums
and_sums none next = none

unfoldable pub add_pixels : Keyed ℕ → List Rgb → List Sums → Option (List Sums)
unfolding lookup pixel_hash add_in
add_pixels box_of [] sums = some sums
add_pixels box_of (p ∷ ps) sums =
    and_sums (add_in p (lookup (pixel_hash p) box_of) sums) (add_pixels box_of ps)

-- `(0.5 + s as f64 / count as f64) as u8`: the cast saturates.
abbrev pub rounded_mean : ℕ → ℕ → ℕ
rounded_mean s n = min 255 ((2 * s + n) / (2 * n))

abbrev pub mean_color : Sums → Rgb
mean_color s = record {
  red = rounded_mean s.red_sum s.pixel_sum;
  green = rounded_mean s.green_sum s.pixel_sum;
  blue = rounded_mean s.blue_sum s.pixel_sum;
}

abbrev pub rgb_eq : Rgb → Rgb → Bool
rgb_eq a b = a.red == b.red && (a.green == b.green && a.blue == b.blue)

-- The indices found so far, by colour.
abbrev pub Cache : Type 0
Cache = List (Rgb × ℕ)

unfoldable pub cached : Rgb → Cache → Option ℕ
cached p [] = none
cached p ((q, i) ∷ c) = if rgb_eq q p then some i else cached p c

-- The index of a pixel with its own box, `best as u8`.
unfoldable pub index_from : List Rgb → Rgb → Option ℕ → Option ℕ
unfolding nearest
index_from palette p (some own) = some (nearest palette own p % 256)
index_from palette p none = none

unfoldable pub index_of : List Rgb → Keyed ℕ → Rgb → Option ℕ
unfolding index_from lookup pixel_hash
index_of palette box_of p = index_from palette p (lookup (pixel_hash p) box_of)

-- `cache.entry(p).or_insert_with(..)`.
abbrev pub entry_or_insert : Rgb → Option ℕ → Option ℕ → Cache → Option (ℕ × Cache)
entry_or_insert p (some i) fresh c = some (i, c)
entry_or_insert p none (some i) c = some (i, (p, i) ∷ c)
entry_or_insert p none none c = none

abbrev pub and_indices : Option (ℕ × Cache) → (Cache → Option (List ℕ)) → Option (List ℕ)
and_indices (some (i, c)) next = cons? (some i) (next c)
and_indices none next = none

unfoldable pub map_pixels : List Rgb → Keyed ℕ → List Rgb → Cache → Option (List ℕ)
unfolding cached index_of
map_pixels palette box_of [] c = some []
map_pixels palette box_of (p ∷ ps) c =
    and_indices (entry_or_insert p (cached p c) (index_of palette box_of p) c)
      (map_pixels palette box_of ps)

pub record Quantized : Type 0 where
  pub palette : List Rgb
  pub indices : List ℕ

-- `getcolors()`: `counts[i as usize] += 1`, which panics out of range.
unfoldable pub tally_at : ℕ → List ℕ → Option (List ℕ)
tally_at i [] = none
tally_at zero (c ∷ cs) = some ((c + 1) % 2 ^ 32 ∷ cs)
tally_at (suc i) (c ∷ cs) = cons? (some c) (tally_at i cs)

abbrev pub and_counts : Option (List ℕ) → (List ℕ → Option (List ℕ)) → Option (List ℕ)
and_counts (some counts) next = next counts
and_counts none next = none

unfoldable pub tally : List ℕ → List ℕ → Option (List ℕ)
unfolding tally_at
tally [] counts = some counts
tally (i ∷ is) counts = and_counts (tally_at i counts) (tally is)

-- `enumerate().filter(|&(_, c)| c > 0).map(|(i, c)| (c, i))`, from an index on.
unfoldable pub positive_counts : ℕ → List ℕ → List (ℕ × ℕ)
positive_counts i [] = []
positive_counts i (c ∷ cs) =
    let rest = positive_counts (suc i) cs in if ltb 0 c then (c, i) ∷ rest else rest

unfoldable pub listed : Option (List ℕ) → Option (List (ℕ × ℕ))
unfolding positive_counts
listed (some counts) = some (positive_counts 0 counts)
listed none = none

-- `Quantized::colors`.
unfoldable pub colors_of : Quantized → Option (List (ℕ × ℕ))
unfolding tally listed
colors_of q = listed (tally q.indices (replicate (length q.palette) 0))

-- The steps of `quantize` one after the other, each from what the one before gave.
abbrev pub no_sums : Sums
no_sums = record { red_sum = 0; green_sum = 0; blue_sum = 0; pixel_sum = 0 }

abbrev pub with_indices : List Rgb → Option (List ℕ) → Option Quantized
with_indices palette (some indices) = some (record { palette = palette; indices = indices })
with_indices palette none = none

unfoldable pub with_sums : List Rgb → Keyed ℕ → Option (List Sums) → Option Quantized
unfolding map_pixels
with_sums pixels box_of (some sums) =
    let palette = map mean_color sums in with_indices palette (map_pixels palette box_of pixels [])
with_sums pixels box_of none = none

unfoldable pub with_numbers : List Rgb → Option Numbered → Option Quantized
unfolding with_sums add_pixels
with_numbers pixels (some s) =
    with_sums pixels s.box_of (add_pixels s.box_of pixels (replicate s.n_entries no_sums))
with_numbers pixels none = none

-- Each box is on the stack once, so their number is fuel enough.
unfoldable pub with_cut : List Rgb → Option Cut → Option Quantized
unfolding with_numbers number_leaves
with_cut pixels (some c) =
    with_numbers pixels
      (number_leaves (length c.boxes) c.boxes (0 ∷ []) (record { box_of = []; n_entries = 0 }))
with_cut pixels none = none

abbrev pub first_box : List Rgb → List Entry → BoxNode
first_box pixels entries = record {
  entries = entries;
  pixel_count = length pixels % 2 ^ 32;
  children = none;
}

-- One box of all entries, alone in the heap.
unfoldable pub first_cut : List Rgb → List Entry → Cut
unfolding add
first_cut pixels entries =
    let boxes = first_box pixels entries ∷ [] in
    record { boxes = boxes; heap = add boxes 0 (0 ∷ []) }

unfoldable pub with_entries : List Rgb → ℕ → Option (List Entry) → Option Quantized
unfolding with_cut cut_rounds first_cut
with_entries pixels colors (some entries) =
    with_cut pixels (cut_rounds (colors - 1) (first_cut pixels entries))
with_entries pixels colors none = none

unfoldable pub quantize_pixels : List Rgb → ℕ → Histogram → Option Quantized
unfolding with_entries entries_of
quantize_pixels pixels colors t =
    if leb (length t.table) max_hash_entries
    then with_entries pixels colors (entries_of t.order t.table)
    else none

unfoldable pub quantize_or_empty : List Rgb → ℕ → Option Quantized
unfolding quantize_pixels histogram
quantize_or_empty [] colors = some (record { palette = []; indices = [] })
quantize_or_empty (p ∷ ps) colors = quantize_pixels (p ∷ ps) colors (histogram (p ∷ ps))

-- `quantize`.
unfoldable pub quantize : List Rgb → ℕ → Option Quantized
unfolding quantize_or_empty
quantize pixels colors =
    if leb 1 colors && leb colors 256 then quantize_or_empty pixels colors else none
