-- ===== src/Quantize/Cut.antt =====
-- color/quantize.rs, `quantize`: the histogram and the median cut. None stands for a panic, and a
-- hash map is an association list.
pub mod Table
pub mod Next
pub mod Tree
pub mod Rounds
pub mod Kept
pub mod Loop
use mpris_chroma.Prelude.{
  ℕ, zero, suc, ◌+◌, ◌-◌, ◌*◌, ◌/◌, ◌%◌, ◌^◌, ◌≤◌, ◌<◌, min, max, bit_and, bit_xor, ◌≡◌, refl, sym,
  ap, subst, ◌∙◌, ◌≢◌, ◌↔◌, ◌⊎◌, inl, inr, Bool, true, false, not, ◌&&◌, ◌||◌, Option, none, some,
  List, [], ◌∷◌, ◌++◌, map, append-nil, append_assoc, map-append, arith, ltb, leb, ◌==◌,
  if◌then◌else◌, ltb→lt, lt→ltb, leb→le, le→leb, ==_iff, Bool-cases, Option-cases, List-cases,
  is_some, if_cases, if_else, length, take, drop, replicate, concat, any, all, keep, All, Any,
  length-append, length-take, take-append-drop, All-append, All-map, All-mono, Any-mono, all-All,
  any-Any, Any-any,
}
use mpris_chroma.Quantize.{Rgb, Entry, BoxNode, pixel_hash, volume, get_elem?}
use mpris_chroma.Quantize.Heap.{add, remove}
use mpris_chroma.Quantize.Split.{split}
use mpris_chroma.Quantize.Nearest.{nearest}

-- A hash map with `u32` keys: the newest of two equal keys counts.
abbrev pub Keyed : Type 0 → Type 0
Keyed V = List (ℕ × V)

module _ {V : Type 0} where
  unfoldable pub lookup : ℕ → Keyed V → Option V
  lookup k [] = none
  lookup k ((j, v) ∷ m) = if j == k then some v else lookup k m

-- `MAX_HASH_ENTRIES`.
abbrev pub max_hash_entries : ℕ
max_hash_entries = 65536

-- The hashes in the order of their first pixels, and the entry of each.
pub record Histogram : Type 0 where
  pub order : List ℕ
  pub table : Keyed Entry

-- `*e.count += 1` for a key of the table.
unfoldable pub bump : ℕ → Keyed Entry → Keyed Entry
bump h [] = []
bump h ((j, e) ∷ m) =
    if j == h
    then (j, record { color = e.color; count = (e.count + 1) % 2 ^ 32 }) ∷ m
    else (j, e) ∷ bump h m

abbrev pub count_found : Rgb → ℕ → Histogram → Option Entry → Histogram
count_found p h t (some e) = record { order = t.order; table = bump h t.table }
count_found p h t none = record {
  order = t.order ++ h ∷ [];
  table = t.table ++ (h, record { color = p; count = 1 }) ∷ [];
}

unfoldable pub count_pixel : Rgb → Histogram → Histogram
unfolding pixel_hash lookup bump
count_pixel p t = count_found p (pixel_hash p) t (lookup (pixel_hash p) t.table)

unfoldable pub histogram_from : Histogram → List Rgb → Histogram
unfolding count_pixel
histogram_from t [] = t
histogram_from t (p ∷ ps) = histogram_from (count_pixel p t) ps

unfoldable pub histogram : List Rgb → Histogram
unfolding histogram_from
histogram = histogram_from (record { order = []; table = [] })

-- A list of results, if each is there.
abbrev pub cons? {ℓ} : {A : Type ℓ} → Option A → Option (List A) → Option (List A)
cons? (some x) (some xs) = some (x ∷ xs)
cons? _ _ = none

-- `order.iter().map(|h| table[h])`.
unfoldable pub entries_of : List ℕ → Keyed Entry → Option (List Entry)
unfolding lookup
entries_of [] table = some []
entries_of (h ∷ hs) table = cons? (lookup h table) (entries_of hs table)

-- `boxes[n]`; no index that is used here is out of range.
abbrev pub or_no_box : Option BoxNode → BoxNode
or_no_box (some b) = b
or_no_box none = record { entries = []; pixel_count = 0; children = none }

unfoldable pub box_at : List BoxNode → ℕ → BoxNode
unfolding get_elem?
box_at boxes n = or_no_box (get_elem? n boxes)

-- `boxes[n].children = Some(..)`.
abbrev pub with_children : ℕ × ℕ → BoxNode → BoxNode
with_children both b = record {
  entries = b.entries;
  pixel_count = b.pixel_count;
  children = some both;
}

unfoldable pub set_children : ℕ → ℕ × ℕ → List BoxNode → List BoxNode
set_children n both [] = []
set_children zero both (b ∷ bs) = with_children both b ∷ bs
set_children (suc n) both (b ∷ bs) = b ∷ set_children n both bs

-- The inner loop: the next box of the heap that has more than one colour, and the heap that is
-- left. Each round takes a box off the heap, so its length is fuel enough.
unfoldable pub or_next :
    List BoxNode → (List ℕ → Option (ℕ × List ℕ)) → Option (ℕ × List ℕ) → Option (ℕ × List ℕ)
unfolding volume box_at
or_next boxes onward none = none
or_next boxes onward (some (n, left)) =
    let rest = onward left in if volume (box_at boxes n) == 1 then rest else some (n, left)

unfoldable pub next_box : List BoxNode → ℕ → List ℕ → Option (ℕ × List ℕ)
unfolding or_next remove
next_box boxes zero slots = none
next_box boxes (suc fuel) slots = or_next boxes (next_box boxes fuel) (remove boxes slots)

pub record Cut : Type 0 where
  pub boxes : List BoxNode
  pub heap : List ℕ

-- The two new boxes enter the list and the heap.
unfoldable pub push_halves : List BoxNode → ℕ → List ℕ → BoxNode × BoxNode → Cut
unfolding set_children add
push_halves boxes node left (l, r) =
    let li = length boxes in
    let ri = length boxes + 1 in
    let grown = set_children node (li, ri) (boxes ++ l ∷ r ∷ []) in
    record { boxes = grown; heap = add grown ri (add grown li left) }

-- What a round does with its box: the loop ends without one.
pub data Round : Type 0 where
  broken : Round
  panicked : Round
  halved : Cut → Round

unfoldable pub halves_pushed : List BoxNode → ℕ → List ℕ → Option (BoxNode × BoxNode) → Round
unfolding push_halves
halves_pushed boxes node left (some both) = halved (push_halves boxes node left both)
halves_pushed boxes node left none = panicked

unfoldable pub cut_found : List BoxNode → Option (ℕ × List ℕ) → Round
unfolding halves_pushed split box_at
cut_found boxes none = broken
cut_found boxes (some (node, left)) = halves_pushed boxes node left (split (box_at boxes node))

-- One round of the loop `'cut`.
unfoldable pub cut_round : Cut → Round
unfolding cut_found next_box
cut_round c = cut_found c.boxes (next_box c.boxes (length c.heap) c.heap)

abbrev pub after_round : (Cut → Option Cut) → Cut → Round → Option Cut
after_round onward c broken = some c
after_round onward c panicked = none
after_round onward c (halved c') = onward c'

-- The loop `'cut`, for a number of rounds.
unfoldable pub cut_rounds : ℕ → Cut → Option Cut
unfolding cut_round
cut_rounds zero c = some c
cut_rounds (suc n) c = after_round (cut_rounds n) c (cut_round c)
