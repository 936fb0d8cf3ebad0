-- ===== src/Quantize/Split.antt =====
-- color/quantize.rs, `split`: a box is cut across its widest axis at the median of its pixels.
pub mod Boundary
pub mod Laws
use mpris_chroma.Prelude.{
  ℕ, zero, suc, ◌+◌, ◌-◌, ◌*◌, ◌/◌, ◌%◌, ◌^◌, ◌≤◌, ◌<◌, min, max, bit_and, bit_xor, ◌≡◌, refl, sym,
  ap, subst, ◌∙◌, ◌≢◌, ◌↔◌, ◌⊎◌, inl, inr, Bool, true, false, not, ◌&&◌, ◌||◌, Option, none, some,
  List, [], ◌∷◌, ◌++◌, map, append-nil, append_assoc, map-append, arith, ltb, leb, ◌==◌,
  if◌then◌else◌, ltb→lt, lt→ltb, leb→le, le→leb, ==_iff, Bool-cases, Option-cases, List-cases,
  is_some, if_cases, if_else, length, take, drop, replicate, concat, any, all, keep, All, Any,
  length-append, length-take, take-append-drop, All-append, All-map, All-mono, Any-mono, all-All,
  any-Any, Any-any,
}
use mathlib.Core.List.{reverse}
use mpris_chroma.Prelude.Int.{ℤ, pos, negsuc, int_leb}
use mpris_chroma.Prelude.Sort.{total, sort_by}
use mpris_chroma.Quantize.{
  Axis, axis_red, axis_green, axis_blue, channel, Entry, BoxNode, extent, get_elem?,
}

abbrev pub weight : Axis → ℕ
weight axis_red = 77
weight axis_green = 150
weight axis_blue = 29

-- The best extent so far, and its axis.
abbrev pub Widest : Type 0
Widest = ℤ × Axis

-- One round of the loop over the weights.
unfoldable pub weigh : BoxNode → Axis → Widest → Widest
unfolding extent int_leb
weigh node axis (best, chosen) =
    let f = pos (extent axis node * weight axis) in
    if int_leb f best then (best, chosen) else (f, axis)

unfoldable pub widest_axis : BoxNode → Axis
unfolding weigh
widest_axis node =
    let start : Widest = (negsuc (2 ^ 31 - 1), axis_red) in
    (weigh node axis_blue (weigh node axis_green (weigh node axis_red start))).1

-- `b.color[axis].cmp(&a.color[axis])`: descending.
abbrev pub descending : Axis → Entry → Entry → Bool
descending axis a b = leb (channel axis b.color) (channel axis a.color)

-- The loop that adds up pixels until they pass half of the box: the number of entries taken.
unfoldable pub median_len : ℕ → ℕ → List Entry → ℕ
median_len pixel_count left [] = 0
median_len pixel_count left (e ∷ rest) =
    let left' = (left + e.count) % 2 ^ 32 in
    let more = suc (median_len pixel_count left' rest) in
    if ltb pixel_count (left' * 2 % 2 ^ 32) then 1 else more

-- The number of entries at the front that have a value on the axis.
unfoldable pub run_len : Axis → ℕ → List Entry → ℕ
run_len axis v [] = 0
run_len axis v (e ∷ rest) =
    let more = suc (run_len axis v rest) in if channel axis e.color == v then more else 0

-- `sorted[i].color[axis]`, which panics out of range.
abbrev pub color_of : Axis → Option Entry → Option ℕ
color_of axis (some e) = some (channel axis e.color)
color_of axis none = none

unfoldable pub value_at : Axis → ℕ → List Entry → Option ℕ
unfolding get_elem?
value_at axis i entries = color_of axis (get_elem? i entries)

-- Past the entries that share the median's value.
abbrev pub past_run : Axis → List Entry → ℕ → Option ℕ → Option ℕ
past_run axis sorted left_len (some v) = some (left_len + run_len axis v (drop left_len sorted))
past_run axis sorted left_len none = none

unfoldable pub past_median : Axis → List Entry → ℕ → Option ℕ
unfolding value_at run_len
past_median axis sorted left_len =
    if ltb left_len (length sorted)
    then past_run axis sorted left_len (value_at axis (left_len - 1) sorted)
    else some left_len

-- Back before the entries that share the tail's value, where no right side is left.
abbrev pub before_run : Axis → List Entry → ℕ → Option ℕ → Option ℕ
before_run axis sorted left_len (some v) = some (left_len - run_len axis v (reverse sorted))
before_run axis sorted left_len none = none

unfoldable pub before_tail : Axis → List Entry → ℕ → Option ℕ
unfolding value_at run_len
before_tail axis sorted left_len =
    if left_len == length sorted
    then before_run axis sorted left_len (value_at axis (length sorted - 1) sorted)
    else some left_len

-- The number of entries that go left.
unfoldable pub then_before : Axis → List Entry → Option ℕ → Option ℕ
unfolding before_tail
then_before axis sorted (some left_len) = before_tail axis sorted left_len
then_before axis sorted none = none

unfoldable pub left_length : Axis → ℕ → List Entry → Option ℕ
unfolding then_before median_len past_median
left_length axis pixel_count sorted =
    then_before axis sorted (past_median axis sorted (median_len pixel_count 0 sorted))

-- A new box, with the pixels of its entries.
abbrev pub new_box : List Entry → BoxNode
new_box entries = record {
  entries = entries;
  pixel_count = total (λ (e : Entry). e.count) entries % 2 ^ 32;
  children = none;
}

abbrev pub cut_at : List Entry → Option ℕ → Option (BoxNode × BoxNode)
cut_at sorted (some n) = some (new_box (take n sorted), new_box (drop n sorted))
cut_at sorted none = none

-- `split`; none where it panics.
unfoldable pub split : BoxNode → Option (BoxNode × BoxNode)
unfolding widest_axis left_length sort_by
split node =
    let axis = widest_axis node in
    let sorted = sort_by (descending axis) node.entries in
    cut_at sorted (left_length axis node.pixel_count sorted)
