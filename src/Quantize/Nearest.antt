-- ===== src/Quantize/Nearest.antt =====
-- color/quantize.rs, step 7: the search for the nearest palette entry, which stops early by the
-- distances between the entries.
pub mod Laws
use mpris_chroma.Prelude.{
  ℕ, zero, suc, ◌+◌, ◌-◌, ◌*◌, ◌/◌, ◌%◌, ◌^◌, ◌≤◌, ◌<◌, min, max, bit_and, bit_xor, ◌≡◌, refl, sym,
  ap, subst, ◌∙◌, ◌≢◌, ◌↔◌, ◌⊎◌, inl, inr, Bool, true, false, not, ◌&&◌, ◌||◌, Option, none, some,
  List, [], ◌∷◌, ◌++◌, map, append-nil, append_assoc, map-append, arith, ltb, leb, ◌==◌,
  if◌then◌else◌, ltb→lt, lt→ltb, leb→le, le→leb, ==_iff, Bool-cases, Option-cases, List-cases,
  is_some, if_cases, if_else, length, take, drop, replicate, concat, any, all, keep, All, Any,
  length-append, length-take, take-append-drop, All-append, All-map, All-mono, Any-mono, all-All,
  any-Any, Any-any,
}
use mpris_chroma.Prelude.Sort.{sort_by}
use mpris_chroma.Quantize.{Rgb, dist_sq, get_elem?}

-- `0..n`.
unfoldable pub indices_below : ℕ → List ℕ
indices_below zero = []
indices_below (suc n) = indices_below n ++ n ∷ []

-- `palette[i]`; no index that is used here is out of range.
abbrev pub or_black : Option Rgb → Rgb
or_black (some c) = c
or_black none = record { red = 0; green = 0; blue = 0 }

unfoldable pub entry : List Rgb → ℕ → Rgb
unfolding get_elem?
entry palette i = or_black (get_elem? i palette)

-- `avg_dist[i * n + j]`: the table, as the function that fills it.
unfoldable pub avg_dist : List Rgb → ℕ → ℕ → ℕ
unfolding entry dist_sq
avg_dist palette i j = dist_sq (entry palette i) (entry palette j)

-- The order of the keys `(avg_dist[i * n + j], j)`.
unfoldable pub row_le : List Rgb → ℕ → ℕ → ℕ → Bool
unfolding avg_dist
row_le palette i j k =
    ltb (avg_dist palette i j) (avg_dist palette i k)
    || ((avg_dist palette i j == avg_dist palette i k) && leb j k)

-- `sort_key[i]`.
unfoldable pub sort_key : List Rgb → ℕ → List ℕ
unfolding row_le sort_by indices_below
sort_key palette i = sort_by (row_le palette i) (indices_below (length palette))

-- The best entry so far and its distance.
pub record Best : Type 0 where
  pub best : ℕ
  pub best_dist : ℕ

unfoldable pub closer : List Rgb → Rgb → ℕ → Best → Best
unfolding dist_sq entry
closer palette p idx b =
    let d = dist_sq (entry palette idx) p in
    if ltb d b.best_dist then record { best = idx; best_dist = d } else b

-- The loop over `sort_key[own]`, with its `break`.
unfoldable pub search_row : List Rgb → Rgb → ℕ → ℕ → List ℕ → Best → Best
unfolding closer avg_dist
search_row palette p own limit [] b = b
search_row palette p own limit (idx ∷ rest) b =
    let onward = search_row palette p own limit rest (closer palette p idx b) in
    if ltb limit (avg_dist palette own idx) then b else onward

-- The index for a pixel whose own box is `own`; the shift by two bits drops what passes 32 bits.
unfoldable pub nearest : List Rgb → ℕ → Rgb → ℕ
unfolding search_row sort_key dist_sq entry
nearest palette own p =
    let best_dist = dist_sq (entry palette own) p in
    let found =
      search_row palette p own (best_dist * 4 % 2 ^ 32) (sort_key palette own)
        (record { best = own; best_dist = best_dist }) in
    found.best

-- A search with no early end.
unfoldable pub search_all : List Rgb → Rgb → List ℕ → Best → Best
unfolding closer
search_all palette p [] b = b
search_all palette p (idx ∷ rest) b = search_all palette p rest (closer palette p idx b)
