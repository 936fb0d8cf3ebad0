-- ===== src/Color/Raster/Places.antt =====
-- src/color/resize.rs: the places of a raster, and the loops over them.
use native.Mathlib.Nat.{mul-le-mul_right, suc-mul}
use mpris_chroma.Prelude.{
  ℕ, zero, suc, ◌+◌, ◌-◌, ◌*◌, ◌≤◌, ◌<◌, ◌≡◌, refl, ap, Option, some, List, [], ◌∷◌, map, arith,
  length, All, length-append, All-append,
}
use mpris_chroma.Quantize.{Rgb, get_elem?-All, get_elem?-defined}
use mpris_chroma.Color.Raster.{Rgb8, at, counted, span, grid, collect}

-- The number of the pixels is the size of the raster.
abbrev pub IsRaster : Rgb8 → Type 0
IsRaster r = length r.pixels ≡ r.width * r.height

abbrev pub IsInside : ℕ → ℕ → ℕ × ℕ → Type 0
IsInside h w (y, x) = (y < h) × (x < w)

pub counted-All :
    (P : ℕ → Type 0) (lo n : ℕ) → ((i : ℕ) → lo ≤ i → i < lo + n → P i) → All P (counted lo n)
counted-All P lo zero p = tt
counted-All P lo (suc n) p = (
  p lo (omega arith) (omega arith),
  counted-All P (suc lo) n (λ i a b. p i (omega arith) (omega arith)),
)

pub length-counted : (lo n : ℕ) → length (counted lo n) ≡ n
length-counted lo zero = refl
length-counted lo (suc n) = ap suc (length-counted (suc lo) n)

pub length-map : {A B : Type 0} (f : A → B) (xs : List A) → length (map f xs) ≡ length xs
length-map f [] = refl
length-map f (x ∷ xs) = ap suc (length-map f xs)

map-IsInside :
    (h w y : ℕ) (xs : List ℕ)
    → y < h
    → All (λ x. x < w) xs
    → All (IsInside h w) (map (λ x. (y, x)) xs)
map-IsInside h w y [] a b = tt
map-IsInside h w y (x ∷ xs) a b = ((a, b.0), map-IsInside h w y xs a b.1)

pub grid-All :
    (h w : ℕ) (ys xs : List ℕ)
    → All (λ y. y < h) ys
    → All (λ x. x < w) xs
    → All (IsInside h w) (grid ys xs)
grid-All h w [] xs a b = tt
grid-All h w (y ∷ ys) xs a b =
    All-append (IsInside h w) (map (λ x. (y, x)) xs) (grid ys xs) (map-IsInside h w y xs a.0 b)
      (grid-All h w ys xs a.1 b)

pub length-grid : (ys xs : List ℕ) → length (grid ys xs) ≡ length xs * length ys
length-grid [] xs = omega arith
length-grid (y ∷ ys) xs =
    let first = length-append (map (λ x. (y, x)) xs) (grid ys xs) in
    let row = length-map {B = ℕ × ℕ} (λ x. (y, x)) xs in
    let rest = length-grid ys xs in rw (first, row, rest) (omega arith)

pub collect_lem :
    {A B : Type 0} (f : A → Option B) (P : A → Type 0) (Q : B → Type 0) (xs : List A)
    → ((x : A) → P x → (y : B) × (f x ≡ some y) × Q y)
    → All P xs
    → (ys : List B) × (collect f xs ≡ some ys) × (length ys ≡ length xs) × All Q ys
collect_lem f P Q [] g a = ([], refl, refl, tt)
collect_lem f P Q (x ∷ xs) g a =
    let (y, e, q) = g x a.0 in
    let (ys, es, l, qs) = collect_lem f P Q xs g a.1 in (y ∷ ys, rw (e, es) refl, ap suc l, (q, qs))

pub index_inside : (w h x y : ℕ) → x < w → y < h → y * w + x < w * h
index_inside w h x y a b =
    omega (arith, mul-le-mul_right {m = suc y} {n = h} w (omega arith), suc-mul y w)

pub at_lem :
    (P : Rgb → Type 0) (src : Rgb8) (x y : ℕ)
    → IsRaster src
    → All P src.pixels
    → IsInside src.height src.width (y, x)
    → (p : Rgb) × (at src x y ≡ some p) × P p
unfolding at
at_lem P src x y size a inside =
    let within = index_inside src.width src.height x y inside.1 inside.0 in
    let (p, e) = get_elem?-defined (y * src.width + x) src.pixels (omega (arith, size)) in
    (p, e, get_elem?-All P (y * src.width + x) src.pixels p e a)

pub length-below : (n : ℕ) → length (span 0 n) ≡ n
length-below n = omega (arith, length-counted 0 (n - 0))

pub span-below : (lo hi n : ℕ) → hi ≤ n → All (λ i. i < n) (span lo hi)
span-below lo hi n h = counted-All (λ i. i < n) lo (hi - lo) (λ i a b. omega arith)
