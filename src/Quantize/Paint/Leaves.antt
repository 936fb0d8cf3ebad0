-- ===== src/Quantize/Paint/Leaves.antt =====
-- color/quantize.rs, step 4 of `quantize`: the leaves are numbered from 0 on, and the hash of each
-- entry of a leaf is given one of the numbers.
use mpris_chroma.Prelude.{
  ℕ, suc, ◌+◌, ◌<◌, ◌≡◌, refl, inl, inr, true, some, List, [], ◌∷◌, arith, ltb, ◌==◌, ltb→lt,
  Bool-cases, is_some, length, All, All-mono,
}
use mpris_chroma.Prelude.Sort.{total}
use mpris_chroma.Quantize.{Entry, BoxNode, pixel_hash}
use mpris_chroma.Quantize.Cut.{Keyed, lookup, box_at}
use mpris_chroma.Quantize.Cut.Table.{has_hash}
use mpris_chroma.Quantize.Cut.Tree.{Walk}
use mpris_chroma.Quantize.Cut.Rounds.{leaf_total, IsFull}
use mpris_chroma.Quantize.Paint.{Numbered, assign, number_leaf, visit, number_leaves}

-- One leaf after the other.
number_all : List BoxNode → List ℕ → Numbered → Numbered
number_all boxes [] s = s
number_all boxes (n ∷ ls) s = number_all boxes ls (number_leaf (box_at boxes n) s)

number_leaves-Walk :
    (boxes : List BoxNode) {stack ls : List ℕ} {k : ℕ}
    → Walk boxes stack ls k
    → (s : Numbered) → number_leaves k boxes stack s ≡ some (number_all boxes ls s)
unfolding number_leaves number_all visit
number_leaves-Walk boxes Walk.done s = refl
number_leaves-Walk boxes (Walk.leaf {n = n} h e w) s =
    rw (e, number_leaves) (number_leaves-Walk boxes w (number_leaf (box_at boxes n) s))
number_leaves-Walk boxes (Walk.inner {n = n} h e w) s =
    rw (e, number_leaves) (number_leaves-Walk boxes w s)

-- Every number that is given is below a bound.
abbrev pub IsBelow : ℕ → Keyed ℕ → Type 0
IsBelow n = All (λ p. p.1 < n)

pub lookup-lt : (n h b : ℕ) (m : Keyed ℕ) → IsBelow n m → lookup h m ≡ some b → b < n
unfolding lookup
lookup-lt n h b [] a e = absurd (cc)
lookup-lt n h b ((j, v) ∷ m) a e = elim (Bool-cases (j == h)) [
  | inl t ↦ let same : v ≡ b = cc (rw t at e) in rw same at a.0
  | inr f ↦ lookup-lt n h b m a.1 (rw f at e)
]

assign-IsBelow :
    (es : List Entry) (n k : ℕ) (m : Keyed ℕ) → n < k → IsBelow k m → IsBelow k (assign es n m)
unfolding assign
assign-IsBelow [] n k m h a = a
assign-IsBelow (e ∷ es) n k m h a = assign-IsBelow es n k ((pixel_hash e.color, n) ∷ m) h (h, a)

assign-keeps :
    (es : List Entry) (n h : ℕ) (m : Keyed ℕ)
    → is_some (lookup h m) ≡ true
    → is_some (lookup h (assign es n m)) ≡ true
unfolding assign
assign-keeps [] n h m i = i
assign-keeps (e ∷ es) n h m i = assign-keeps es n h ((pixel_hash e.color, n) ∷ m) later
  where
    later : is_some (lookup h ((pixel_hash e.color, n) ∷ m)) ≡ true
    later = unfold lookup in ground (arith, i)

assign-adds :
    (es : List Entry) (n h : ℕ) (m : Keyed ℕ)
    → 0 < total (has_hash h) es
    → is_some (lookup h (assign es n m)) ≡ true
unfolding assign
assign-adds [] n h m i = absurd (omega arith)
assign-adds (e ∷ es) n h m i = elim (Bool-cases (pixel_hash e.color == h)) [
  | inl t ↦ assign-keeps es n h ((pixel_hash e.color, n) ∷ m) (unfold lookup in rw t refl)
  | inr f ↦ assign-adds es n h ((pixel_hash e.color, n) ∷ m) (ground (arith, i, f))
]

number_leaf-n_entries :
    (b : BoxNode) (s : Numbered)
    → 0 < length b.entries
    → (number_leaf b s).n_entries ≡ suc s.n_entries
unfolding number_leaf
number_leaf-n_entries b s h = ground arith

number_leaf-box_of :
    (b : BoxNode) (s : Numbered) → (number_leaf b s).box_of ≡ assign b.entries s.n_entries s.box_of
unfolding number_leaf
number_leaf-box_of b s = refl

abbrev IsNumbered : Numbered → Type 0
IsNumbered s = IsBelow s.n_entries s.box_of

number_leaf-IsNumbered :
    (b : BoxNode) (s : Numbered)
    → 0 < length b.entries
    → IsNumbered s
    → IsNumbered (number_leaf b s)
number_leaf-IsNumbered b s h a =
    rw (number_leaf-box_of, number_leaf-n_entries b s h)
      (assign-IsBelow b.entries s.n_entries (suc s.n_entries) s.box_of (omega arith)
        (All-mono _ _ s.box_of (λ p l. omega (arith, l)) a))

number_all-keeps :
    (boxes : List BoxNode) (ls : List ℕ) (s : Numbered) (h : ℕ)
    → is_some (lookup h s.box_of) ≡ true
    → is_some (lookup h (number_all boxes ls s).box_of) ≡ true
unfolding number_all
number_all-keeps boxes [] s h i = i
number_all-keeps boxes (n ∷ ls) s h i =
    number_all-keeps boxes ls (number_leaf (box_at boxes n) s) h
      (rw number_leaf-box_of (assign-keeps (box_at boxes n).entries s.n_entries h s.box_of i))

number_all-adds :
    (boxes : List BoxNode) (ls : List ℕ) (s : Numbered) (h : ℕ)
    → 0 < leaf_total boxes (has_hash h) ls
    → is_some (lookup h (number_all boxes ls s).box_of) ≡ true
unfolding number_all
number_all-adds boxes [] s h i = absurd (omega arith)
number_all-adds boxes (n ∷ ls) s h i =
    let next = number_leaf (box_at boxes n) s in
    elim (Bool-cases (ltb 0 (total (has_hash h) (box_at boxes n).entries))) [
      | inl t ↦ number_all-keeps boxes ls next h (
          rw number_leaf-box_of
            (assign-adds (box_at boxes n).entries s.n_entries h s.box_of (ltb→lt _ _ t)))
      | inr f ↦ number_all-adds boxes ls next h (ground (arith, i, f))
    ]

number_all-IsNumbered :
    (boxes : List BoxNode) (ls : List ℕ) (s : Numbered)
    → All (λ n. IsFull (box_at boxes n)) ls
    → IsNumbered s
    → IsNumbered (number_all boxes ls s)
      × ((number_all boxes ls s).n_entries ≡ s.n_entries + length ls)
unfolding number_all
number_all-IsNumbered boxes [] s f a = (a, omega arith)
number_all-IsNumbered boxes (n ∷ ls) s f a =
    let b = box_at boxes n in
    let rest =
      number_all-IsNumbered boxes ls (number_leaf b s) f.1 (number_leaf-IsNumbered b s f.0.0 a) in
    (rest.0, omega (arith, rest.1, number_leaf-n_entries b s f.0.0))

-- The walk over a tree of boxes with entries ends with all its leaves numbered.
pub number_leaves_lem :
    (boxes : List BoxNode) (ls : List ℕ) (k : ℕ)
    → Walk boxes (0 ∷ []) ls k
    → All (λ n. IsFull (box_at boxes n)) ls
    → (s : Numbered) × (number_leaves k boxes (0 ∷ []) (record { box_of = []; n_entries = 0 })
        ≡ some s)
      × (s.n_entries ≡ length ls)
      × IsBelow s.n_entries s.box_of
      × ((h : ℕ) → 0 < leaf_total boxes (has_hash h) ls → is_some (lookup h s.box_of) ≡ true)
number_leaves_lem boxes ls k w f =
    let start : Numbered = record { box_of = []; n_entries = 0 } in
    let done = number_all-IsNumbered boxes ls start f tt in
    (
      number_all boxes ls start,
      number_leaves-Walk boxes w start,
      omega (arith, done.1),
      done.0,
      λ h i. number_all-adds boxes ls start h i,
    )
