-- ===== src/Quantize/Heap.antt =====
-- color/quantize.rs, `Heap`: the binary heap on pixel counts, in slots numbered from 1; slot 0 is
-- unused.
pub mod Contents
pub mod Order
pub mod Root
pub mod Unused
use mpris_chroma.Prelude.{
  ℕ, zero, suc, ◌+◌, ◌-◌, ◌*◌, ◌/◌, ◌%◌, ◌^◌, ◌≤◌, ◌<◌, min, max, bit_and, bit_xor, ◌≡◌, refl, sym,
  ap, subst, ◌∙◌, ◌≢◌, ◌↔◌, ◌⊎◌, inl, inr, Bool, true, false, not, ◌&&◌, ◌||◌, Option, none, some,
  List, [], ◌∷◌, ◌++◌, map, append-nil, append_assoc, map-append, arith, ltb, leb, ◌==◌,
  if◌then◌else◌, ltb→lt, lt→ltb, leb→le, le→leb, ==_iff, Bool-cases, Option-cases, List-cases,
  is_some, if_cases, if_else, length, take, drop, replicate, concat, any, all, keep, All, Any,
  length-append, length-take, take-append-drop, All-append, All-map, All-mono, Any-mono, all-All,
  any-Any, Any-any,
}
use mpris_chroma.Prelude.Int.{ℤ, pos, negsuc}
use mpris_chroma.Quantize.{BoxNode, get_elem?}

-- `slots[k]`; no index that is used here is out of range.
abbrev pub or_zero : Option ℕ → ℕ
or_zero (some v) = v
or_zero none = 0

unfoldable pub slot : List ℕ → ℕ → ℕ
unfolding get_elem?
slot slots k = or_zero (get_elem? k slots)

-- `slots[k] = v`.
unfoldable pub set : ℕ → ℕ → List ℕ → List ℕ
set k v [] = []
set zero v (x ∷ xs) = v ∷ xs
set (suc k) v (x ∷ xs) = x ∷ set k v xs

-- `boxes[a].pixel_count`; the heap holds indices of boxes only.
abbrev pub pixels_of : Option BoxNode → ℕ
pixels_of (some b) = b.pixel_count
pixels_of none = 0

unfoldable pub count_of : List BoxNode → ℕ → ℕ
unfolding get_elem?
count_of boxes a = pixels_of (get_elem? a boxes)

-- The number that a 32-bit pattern stands for as `i32`.
abbrev pub as_i32 : ℕ → ℤ
as_i32 w = if ltb w (2 ^ 31) then pos w else negsuc (2 ^ 32 - 1 - w)

-- `Heap::cmp`: the difference as `i32`, wrapping.
unfoldable pub cmp : List BoxNode → ℕ → ℕ → ℤ
unfolding count_of
cmp boxes a b = as_i32 ((count_of boxes a + 2 ^ 32 - count_of boxes b) % 2 ^ 32)

-- The signs that the loops test.
abbrev pub is_negative : ℤ → Bool
is_negative (pos n) = false
is_negative (negsuc n) = true

abbrev pub is_positive : ℤ → Bool
is_positive (pos zero) = false
is_positive (pos (suc n)) = true
is_positive (negsuc n) = false

-- The loop of `Heap::add`, moving the free slot `k` up; it halves `k`, so `k` is fuel enough.
unfoldable pub sift_up : List BoxNode → ℕ → ℕ → ℕ → List ℕ → List ℕ
unfolding cmp slot set
sift_up boxes val zero k slots = set k val slots
sift_up boxes val (suc fuel) k slots =
    let higher = sift_up boxes val fuel (k / 2) (set k (slot slots (k / 2)) slots) in
    if k == 1
    then set k val slots
    else if not (is_positive (cmp boxes val (slot slots (k / 2))))
    then set k val slots
    else higher

-- `Heap::add`.
unfoldable pub add : List BoxNode → ℕ → List ℕ → List ℕ
unfolding sift_up
add boxes val slots = sift_up boxes val (length slots) (length slots) (slots ++ val ∷ [])

-- The child with more pixels, the left one of two equals.
unfoldable pub larger_child : List BoxNode → ℕ → ℕ → List ℕ → ℕ
unfolding cmp slot
larger_child boxes count k slots =
    let l = k * 2 in
    if ltb l count && is_negative (cmp boxes (slot slots l) (slot slots (l + 1))) then l + 1 else l

-- The loop of `Heap::remove`, moving the free slot `k` down; it doubles `k`, so `count` is fuel
-- enough.
unfoldable pub sift_down : List BoxNode → ℕ → ℕ → ℕ → ℕ → List ℕ → List ℕ
unfolding larger_child cmp slot set
sift_down boxes v count zero k slots = set k v slots
sift_down boxes v count (suc fuel) k slots =
    let l = larger_child boxes count k slots in
    let lower = sift_down boxes v count fuel l (set k (slot slots l) slots) in
    if ltb count (k * 2)
    then set k v slots
    else if is_positive (cmp boxes v (slot slots l))
    then set k v slots
    else lower

-- `slots.pop()`: the last slot goes.
abbrev pub without_last : List ℕ → List ℕ
without_last slots = take (length slots - 1) slots

-- `Heap::remove`: the top and the slots that are left, or none of an empty heap.
unfoldable pub remove : List BoxNode → List ℕ → Option (ℕ × List ℕ)
unfolding sift_down slot
remove boxes slots =
    let count = length slots - 1 in
    let left = without_last slots in
    if count == 0
    then none
    else if count - 1 == 0
    then some (slot slots 1, left)
    else some (slot slots 1, sift_down boxes (slot slots count) (count - 1) (count - 1) 1 left)
