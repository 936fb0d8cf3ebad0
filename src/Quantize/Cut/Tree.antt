-- ===== src/Quantize/Cut/Tree.antt =====
-- color/quantize.rs, `quantize`: the boxes as a tree, walked from a stack, and a leaf that is given
-- two children.
use mpris_chroma.Prelude.{
  ℕ, zero, suc, ◌+◌, ◌*◌, ◌<◌, ◌≡◌, refl, ap, ◌∙◌, inl, inr, false, none, some, List, [], ◌∷◌, ◌++◌,
  arith, ◌==◌, if◌then◌else◌, ==_iff, Bool-cases, Option-cases, length, All, length-append,
}
use mpris_chroma.Prelude.Sort.{total}
use mpris_chroma.Quantize.{BoxNode, get_elem?}
use mpris_chroma.Quantize.Heap.{count_of}
use mpris_chroma.Quantize.Cut.{box_at, with_children, set_children}

pub count_of-box_at :
    (boxes : List BoxNode) (n : ℕ) → count_of boxes n ≡ (box_at boxes n).pixel_count
unfolding count_of box_at
count_of-box_at boxes n = elim (Option-cases (get_elem? n boxes)) [
  | inl e ↦ rw e refl
  | inr (b, e) ↦ rw e refl
]

length-set_children :
    (n : ℕ) (both : ℕ × ℕ) (bs : List BoxNode) → length (set_children n both bs) ≡ length bs
unfolding set_children
length-set_children n both [] = refl
length-set_children zero both (b ∷ bs) = refl
length-set_children (suc n) both (b ∷ bs) = ap suc (length-set_children n both bs)

box_at-append : (bs cs : List BoxNode) (n : ℕ) → n < length bs → box_at (bs ++ cs) n ≡ box_at bs n
unfolding box_at get_elem?
box_at-append [] cs n h = absurd (omega arith)
box_at-append (b ∷ bs) cs zero h = refl
box_at-append (b ∷ bs) cs (suc n) h = box_at-append bs cs n (omega arith)

box_at-append_new :
    (bs cs : List BoxNode) (i n : ℕ) → n ≡ length bs + i → box_at (bs ++ cs) n ≡ box_at cs i
unfolding box_at get_elem?
box_at-append_new [] cs i n h = let e : n ≡ i = omega arith in rw e refl
box_at-append_new (b ∷ bs) cs i zero h = absurd (omega arith)
box_at-append_new (b ∷ bs) cs i (suc n) h = box_at-append_new bs cs i n (omega arith)

box_at-set_same :
    (n : ℕ) (both : ℕ × ℕ) (bs : List BoxNode)
    → n < length bs
    → box_at (set_children n both bs) n ≡ with_children both (box_at bs n)
unfolding box_at get_elem? set_children
box_at-set_same n both [] h = absurd (omega arith)
box_at-set_same zero both (b ∷ bs) h = refl
box_at-set_same (suc n) both (b ∷ bs) h = box_at-set_same n both bs (omega arith)

box_at-set_other :
    (n m : ℕ) (both : ℕ × ℕ) (bs : List BoxNode)
    → (m == n) ≡ false
    → box_at (set_children n both bs) m ≡ box_at bs m
unfolding box_at get_elem? set_children
box_at-set_other n m both [] h = refl
box_at-set_other zero zero both (b ∷ bs) h = absurd (ground arith)
box_at-set_other zero (suc m) both (b ∷ bs) h = refl
box_at-set_other (suc n) zero both (b ∷ bs) h = refl
box_at-set_other (suc n) (suc m) both (b ∷ bs) h = box_at-set_other n m both bs (ground arith)

-- How often an index stands in a list.
abbrev pub is_index : ℕ → ℕ → ℕ
is_index a n = if n == a then 1 else 0

abbrev pub occurrences : ℕ → List ℕ → ℕ
occurrences a = total (is_index a)

pub occurrences-All : (P : ℕ → Type 0) (a : ℕ) (ls : List ℕ) → 0 < occurrences a ls → All P ls → P a
occurrences-All P a [] h p = absurd (omega arith)
occurrences-All P a (n ∷ ls) h p = elim (Bool-cases (n == a)) [
  | inl t ↦ let e : n ≡ a = (==_iff n a).0 t in rw e at p.0
  | inr f ↦ occurrences-All P a ls (ground arith) p.1
]

-- The walk from a stack, left child first: the leaves that it meets, and its length.
pub data Walk (boxes : List BoxNode) : List ℕ → List ℕ → ℕ → Type 0 where
  done : Walk boxes [] [] zero
  leaf :
      {n k : ℕ} {stack ls : List ℕ}
      → n < length boxes
      → (box_at boxes n).children ≡ none
      → Walk boxes stack ls k
      → Walk boxes (n ∷ stack) (n ∷ ls) (suc k)
  inner :
      {n l r k : ℕ} {stack ls : List ℕ}
      → n < length boxes
      → (box_at boxes n).children ≡ some (l, r)
      → Walk boxes (l ∷ r ∷ stack) ls k
      → Walk boxes (n ∷ stack) ls (suc k)

abbrev pub IsLeaf : List BoxNode → ℕ → Type 0
IsLeaf boxes n = (n < length boxes) × ((box_at boxes n).children ≡ none)

pub Walk-leaves :
    {boxes : List BoxNode} {stack ls : List ℕ} {k : ℕ}
    → Walk boxes stack ls k
    → All (IsLeaf boxes) ls
Walk-leaves Walk.done = tt
Walk-leaves (Walk.leaf h e w) = ((h, e), Walk-leaves w)
Walk-leaves (Walk.inner h e w) = Walk-leaves w

-- The leaves once one of them has two children.
abbrev pub graft : ℕ → ℕ → ℕ → List ℕ → List ℕ
graft n li ri [] = []
graft n li ri (m ∷ ls) = let rest = graft n li ri ls in if m == n then li ∷ ri ∷ rest else m ∷ rest

graft-absent : (n li ri : ℕ) (ls : List ℕ) → occurrences n ls ≡ 0 → graft n li ri ls ≡ ls
graft-absent n li ri [] h = refl
graft-absent n li ri (m ∷ ls) h = elim (Bool-cases (m == n)) [
  | inl t ↦ absurd (ground arith)
  | inr f ↦ rw f (ap (◌∷◌ m) (graft-absent n li ri ls (ground arith)))
]

-- A leaf that is met once is replaced by its children.
pub total-graft :
    (f : ℕ → ℕ) (n li ri : ℕ) (ls : List ℕ)
    → occurrences n ls ≡ 1
    → total f (graft n li ri ls) + f n ≡ total f ls + f li + f ri
total-graft f n li ri [] h = absurd (omega arith)
total-graft f n li ri (m ∷ ls) h = elim (Bool-cases (m == n)) [
  | inl t ↦
      let e : m ≡ n = (==_iff m n).0 t in
      let rest = graft-absent n li ri ls (ground arith) in
      rw t (omega (arith, ap f e, ap (total f) rest))
  | inr g ↦ let rest = total-graft f n li ri ls (ground arith) in rw g (omega (arith, rest))
]

module _ (boxes : List BoxNode) (l r : BoxNode) (n : ℕ) (inside : n < length boxes) where
  -- The boxes after the cut of box `n`.
  abbrev pub grown : List BoxNode
  grown = set_children n (length boxes, length boxes + 1) (boxes ++ l ∷ r ∷ [])

  pub length-grown : length grown ≡ length boxes + 2
  length-grown = omega (
    arith,
    length-set_children n (length boxes, length boxes + 1) (boxes ++ l ∷ r ∷ []),
    length-append {0} boxes (l ∷ r ∷ []),
  )

  pub grown_same : box_at grown n ≡ with_children (length boxes, length boxes + 1) (box_at boxes n)
  grown_same =
      box_at-set_same n (length boxes, length boxes + 1) (boxes ++ l ∷ r ∷ [])
        (omega (arith, length-append {0} boxes (l ∷ r ∷ [])))
      ∙ ap (with_children (length boxes, length boxes + 1))
          (box_at-append boxes (l ∷ r ∷ []) n inside)

  pub grown_other : (m : ℕ) → (m == n) ≡ false → m < length boxes → box_at grown m ≡ box_at boxes m
  grown_other m f h =
      box_at-set_other n m (length boxes, length boxes + 1) (boxes ++ l ∷ r ∷ []) f
      ∙ box_at-append boxes (l ∷ r ∷ []) m h

  pub grown_left : box_at grown (length boxes) ≡ l
  unfolding box_at get_elem?
  grown_left =
      box_at-set_other n (length boxes) (length boxes, length boxes + 1) (boxes ++ l ∷ r ∷ [])
        (ground arith)
      ∙ box_at-append_new boxes (l ∷ r ∷ []) 0 (length boxes) (omega arith)

  pub grown_right : box_at grown (length boxes + 1) ≡ r
  unfolding box_at get_elem?
  grown_right =
      box_at-set_other n (length boxes + 1) (length boxes, length boxes + 1) (boxes ++ l ∷ r ∷ [])
        (ground arith)
      ∙ box_at-append_new boxes (l ∷ r ∷ []) 1 (length boxes + 1) (omega arith)

  module _ (leafs : (box_at boxes n).children ≡ none) (l_leaf : l.children ≡ none)
      (r_leaf : r.children ≡ none) where
    pub Walk-grown :
        {stack ls : List ℕ} {k : ℕ}
        → Walk boxes stack ls k
        → (k' : ℕ) × (k' ≡ k + 2 * occurrences n ls)
          × Walk grown stack (graft n (length boxes) (length boxes + 1) ls) k'
    Walk-grown Walk.done = (zero, refl, Walk.done)
    Walk-grown (Walk.leaf {n = m} {ls = ls} h e w) =
        let (k', same, rest) = Walk-grown w in
        elim (Bool-cases (m == n)) [
          | inl t ↦
              let here : m ≡ n = (==_iff m n).0 t in
              rw t (
                suc (suc (suc k')),
                omega (arith, same),
                Walk.inner (omega (arith, length-grown)) (rw here (rw grown_same refl)) (
                    Walk.leaf (omega (arith, length-grown)) (rw grown_left l_leaf)
                      (Walk.leaf (omega (arith, length-grown)) (rw grown_right r_leaf) rest)),
              )
          | inr f ↦ rw f (
            suc k',
            omega (arith, same),
            Walk.leaf (omega (arith, length-grown)) (rw (grown_other m f h) e) rest,
          )
        ]
    Walk-grown (Walk.inner {n = m} h e w) =
        let (k', same, rest) = Walk-grown w in
        elim (Bool-cases (m == n)) [
          | inl t ↦ let here : m ≡ n = (==_iff m n).0 t in absurd (cc (rw here at e, leafs))
          | inr f ↦ (
            suc k',
            omega (arith, same),
            Walk.inner (omega (arith, length-grown)) (rw (grown_other m f h) e) rest,
          )
        ]
