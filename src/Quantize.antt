-- ===== src/Quantize.antt =====
-- color/quantize.rs: the colours, the hash of a pixel, the boxes of the median cut and their extents.
-- `[u8; 3]` is a record of three numbers below 256, and an axis is one of its indices. The values
-- of `u32` and `i32` keep their wrap-around, except where 8-bit channels rule it out.
pub mod Heap
pub mod Split
pub mod Nearest
pub mod Cut
pub mod Paint
mod Tests
use mpris_chroma.Prelude.{
  ℕ, zero, suc, ◌+◌, ◌-◌, ◌*◌, ◌/◌, ◌%◌, ◌^◌, ◌≤◌, ◌<◌, min, max, bit_and, bit_xor, ◌≡◌, refl, sym,
  ap, subst, ◌∙◌, ◌≢◌, ◌↔◌, ◌⊎◌, inl, inr, Bool, true, false, not, ◌&&◌, ◌||◌, Option, none, some,
  List, [], ◌∷◌, ◌++◌, map, append-nil, append_assoc, map-append, arith, ltb, leb, ◌==◌,
  if◌then◌else◌, ltb→lt, lt→ltb, leb→le, le→leb, ==_iff, Bool-cases, Option-cases, List-cases,
  is_some, if_cases, if_else, length, take, drop, replicate, concat, any, all, keep, All, Any,
  length-append, length-take, take-append-drop, All-append, All-map, All-mono, Any-mono, all-All,
  any-Any, Any-any,
}

pub record Rgb : Type 0 where
  pub red : ℕ
  pub green : ℕ
  pub blue : ℕ

pub data Axis : Type 0 where
  axis_red : Axis
  axis_green : Axis
  axis_blue : Axis

-- `color[axis]`.
abbrev pub channel : Axis → Rgb → ℕ
channel axis_red c = c.red
channel axis_green c = c.green
channel axis_blue c = c.blue

abbrev pub IsRgb : Rgb → Type 0
IsRgb c = (c.red < 256) × (c.green < 256) × (c.blue < 256)

-- `pixel_hash`: the products wrap at 32 bits.
unfoldable pub pixel_hash : Rgb → ℕ
pixel_hash p =
    bit_xor (bit_xor (p.red * 463 % 2 ^ 32) (p.green * 2 ^ 8 % 2 ^ 32 * 10069 % 2 ^ 32))
      (p.blue * 2 ^ 16 % 2 ^ 32 * 64997 % 2 ^ 32)

-- `|a - b|`, which the source squares as a signed number.
abbrev pub diff : ℕ → ℕ → ℕ
diff a b = (a - b) + (b - a)

-- `dist_sq`.
unfoldable pub dist_sq : Rgb → Rgb → ℕ
dist_sq a b =
    diff a.red b.red * diff a.red b.red
    + diff a.green b.green * diff a.green b.green
    + diff a.blue b.blue * diff a.blue b.blue

pub record Entry : Type 0 where
  pub color : Rgb
  pub count : ℕ

pub record BoxNode : Type 0 where
  pub entries : List Entry
  pub pixel_count : ℕ
  pub children : Option (ℕ × ℕ)

-- `iter().min().unwrap_or(0)` and `iter().max().unwrap_or(0)`.
unfoldable pub least : List ℕ → ℕ
least [] = 0
least (x ∷ []) = x
least (x ∷ y ∷ rest) = min x (least (y ∷ rest))

unfoldable pub greatest : List ℕ → ℕ
greatest [] = 0
greatest (x ∷ []) = x
greatest (x ∷ y ∷ rest) = max x (greatest (y ∷ rest))

-- `BoxNode::range`.
unfoldable pub range : Axis → BoxNode → ℕ × ℕ
unfolding least greatest
range axis node =
    let values = map (λ (e : Entry). channel axis e.color) node.entries in
    (least values, greatest values)

-- `hi as i32 - lo as i32`, where the greatest value is at least the least.
unfoldable pub extent : Axis → BoxNode → ℕ
unfolding range
extent axis node = let (lo, hi) = range axis node in hi - lo

-- `BoxNode::volume`.
unfoldable pub volume : BoxNode → ℕ
unfolding extent
volume node = elim node.entries [
  | [] ↦ 0
  | _ ∷ _ ↦ (extent axis_red node + 1) * (extent axis_green node + 1) * (extent axis_blue node + 1)
]

-- The element at an index, or none out of range.
unfoldable pub get_elem? {ℓ} : {A : Type ℓ} → ℕ → List A → Option A
get_elem? i [] = none
get_elem? zero (x ∷ xs) = some x
get_elem? (suc i) (x ∷ xs) = get_elem? i xs

pub get_elem?-All :
    {A : Type 0} (P : A → Type 0) (i : ℕ) (xs : List A) (x : A)
    → get_elem? i xs ≡ some x
    → All P xs
    → P x
unfolding get_elem?
get_elem?-All P i [] x e a = absurd (cc)
get_elem?-All P zero (y ∷ xs) x e a = let same : y ≡ x = ground arith in rw same at a.0
get_elem?-All P (suc i) (y ∷ xs) x e a = get_elem?-All P i xs x e a.1

pub get_elem?-defined :
    {A : Type 0} (i : ℕ) (xs : List A) → i < length xs → (x : A) × (get_elem? i xs ≡ some x)
unfolding get_elem?
get_elem?-defined i [] h = absurd (omega arith)
get_elem?-defined zero (x ∷ xs) h = (x, refl)
get_elem?-defined (suc i) (x ∷ xs) h = get_elem?-defined i xs (omega arith)
