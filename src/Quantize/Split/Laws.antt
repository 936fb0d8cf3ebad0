-- ===== src/Quantize/Split/Laws.antt =====
-- color/quantize.rs, `split`: the two boxes that a box is cut into.
use mpris_chroma.Prelude.{
  ℕ, ◌+◌, ◌*◌, ◌^◌, ◌≤◌, ◌<◌, ◌≡◌, refl, ap, ◌∙◌, ◌≢◌, inl, inr, true, false, none, some, List, [],
  ◌∷◌, ◌++◌, map, arith, leb, Bool-cases, List-cases, length, take, drop, All, length-append,
  length-take, take-append-drop,
}
use mpris_chroma.Prelude.Int.{pos, int_leb}
use mpris_chroma.Prelude.Sort.{
  total, total-append, total-take-drop, SameItems, sort_by, sort_by-SameItems, sort_by-All,
  sort_by-IsSorted, length-sort_by,
}
use mpris_chroma.Quantize.{
  Axis, axis_red, axis_green, axis_blue, channel, Entry, BoxNode, least, greatest, range, extent,
  volume,
}
use mpris_chroma.Quantize.Split.{
  Widest, weight, weigh, widest_axis, descending, new_box, cut_at, split,
}
use mpris_chroma.Quantize.Split.Boundary.{val, count_ge, cut_count_ge, left_length-IsCut}

abbrev pub pixels : List Entry → ℕ
pixels = total (λ (e : Entry). e.count)

descending_trans :
    (axis : Axis) (a b c : Entry)
    → descending axis a b ≡ true
    → descending axis b c ≡ true
    → descending axis a c ≡ true
descending_trans axis a b c h k = ground arith

descending_total :
    (axis : Axis) (a b : Entry) → descending axis a b ≡ false → descending axis b a ≡ true
descending_total axis a b h = ground arith

least_same :
    (axis : Axis) (w : ℕ) (e : Entry) (s : List Entry)
    → All (λ f. val axis f ≡ w) (e ∷ s)
    → (least (map (λ (f : Entry). channel axis f.color) (e ∷ s)) ≡ w)
      × (greatest (map (λ (f : Entry). channel axis f.color) (e ∷ s)) ≡ w)
unfolding least greatest
least_same axis w e [] a = (a.0, a.0)
least_same axis w e (f ∷ s) a =
    let rest = least_same axis w f s a.1 in (omega (arith, a.0, rest.0), omega (arith, a.0, rest.1))

extent_same :
    (axis : Axis) (w : ℕ) (node : BoxNode)
    → 0 < length node.entries
    → All (λ f. val axis f ≡ w) node.entries
    → extent axis node ≡ 0
unfolding extent range
extent_same axis w node h a = elim (List-cases node.entries) [
  | inl e ↦ absurd (omega (arith, ap length e))
  | inr (x, xs, e) ↦ let r = least_same axis w x xs (rw e at a) in rw e (omega (arith, r.0, r.1))
]

weigh_keeps :
    (node : BoxNode) (axis chosen : Axis) (m : ℕ)
    → leb (extent axis node * weight axis) m ≡ true
    → weigh node axis (pos m, chosen) ≡ (pos m, chosen)
unfolding weigh int_leb
weigh_keeps node axis chosen m h = rw h refl

weigh_takes :
    (node : BoxNode) (axis chosen : Axis) (m : ℕ)
    → leb (extent axis node * weight axis) m ≡ false
    → weigh node axis (pos m, chosen) ≡ (pos (extent axis node * weight axis), axis)
unfolding weigh int_leb
weigh_takes node axis chosen m h = rw h refl

widest_axis_lem :
    (node : BoxNode) (second third : Widest)
    → weigh node axis_green (pos (extent axis_red node * 77), axis_red) ≡ second
    → weigh node axis_blue second ≡ third
    → widest_axis node ≡ third.1
unfolding widest_axis weigh int_leb
widest_axis_lem node second third g b =
    ap (λ (w : Widest). (weigh node axis_blue w).1) g ∙ ap (λ (w : Widest). w.1) b

-- An axis of no extent is the widest only where no axis has any.
widest_axis-zero :
    (node : BoxNode)
    → extent (widest_axis node) node ≡ 0
    → (extent axis_red node ≡ 0) × (extent axis_green node ≡ 0) × (extent axis_blue node ≡ 0)
widest_axis-zero node h =
    let r = extent axis_red node * 77 in
    let g = extent axis_green node * 150 in
    let b = extent axis_blue node * 29 in
    elim (Bool-cases (leb g r)) [
      | inl t ↦
          let green = weigh_keeps node axis_green axis_red r t in
          elim (Bool-cases (leb b r)) [
            | inl t' ↦
                let c = widest_axis_lem node _ _ green (weigh_keeps node axis_blue axis_red r t') in
                let z : extent axis_red node ≡ 0 = rw c at h in ground arith
            | inr f' ↦
                let c = widest_axis_lem node _ _ green (weigh_takes node axis_blue axis_red r f') in
                let z : extent axis_blue node ≡ 0 = rw c at h in ground arith
          ]
      | inr f ↦
          let green = weigh_takes node axis_green axis_red r f in
          elim (Bool-cases (leb b g)) [
            | inl t' ↦
                let c =
                  widest_axis_lem node _ _ green (weigh_keeps node axis_blue axis_green g t') in
                let z : extent axis_green node ≡ 0 = rw c at h in ground arith
            | inr f' ↦
                let c =
                  widest_axis_lem node _ _ green (weigh_takes node axis_blue axis_green g f') in
                let z : extent axis_blue node ≡ 0 = rw c at h in ground arith
          ]
    ]

volume_nonempty :
    (node : BoxNode)
    → 0 < length node.entries
    → volume node
      ≡ (extent axis_red node + 1) * (extent axis_green node + 1) * (extent axis_blue node + 1)
unfolding volume
volume_nonempty node h = ground arith

volume_one :
    (node : BoxNode)
    → 0 < length node.entries
    → extent (widest_axis node) node ≡ 0
    → volume node ≡ 1
volume_one node h z =
    let r = widest_axis-zero node z in volume_nonempty node h ∙ (rw (r.0, r.1, r.2) refl)

module _ (node : BoxNode) where
  abbrev pub axis_of : Axis
  axis_of = widest_axis node

  sorted_entries : List Entry
  sorted_entries = sort_by (descending axis_of) node.entries

  sorted_entries-mixed :
      0 < length node.entries
      → volume node ≢ 1
      → (w : ℕ) → ¬ All (λ e. val axis_of e ≡ w) sorted_entries
  unfolding sorted_entries
  sorted_entries-mixed h v w a =
      let same = sort_by-All (descending axis_of) _ node.entries a in
      v (volume_one node h (extent_same axis_of w node h same))

  -- What two boxes owe to the box that they are cut from.
  pub record Halves (l r : BoxNode) : Type 0 where
    pub left_nonempty : 0 < length l.entries
    pub right_nonempty : 0 < length r.entries
    pub same_entries : SameItems (l.entries ++ r.entries) node.entries
    pub level : ℕ
    pub left_above : All (λ e. level ≤ channel axis_of e.color) l.entries
    pub right_below : All (λ e. channel axis_of e.color < level) r.entries
    pub counted : l.pixel_count + r.pixel_count ≡ pixels node.entries
    pub left_counted : l.pixel_count ≡ pixels l.entries
    pub right_counted : r.pixel_count ≡ pixels r.entries
    pub leaves : (l.children ≡ none) × (r.children ≡ none)

  -- A box of several colours, whose pixels are counted by 32 bits, is cut without a panic into two
  -- boxes with entries: they share the entries of the box between them, some value on its widest
  -- axis is reached by all entries on the left and by none on the right, each counts the pixels of
  -- its own entries, and neither has children.
  pub split_lem :
      0 < length node.entries
      → volume node ≢ 1
      → pixels node.entries < 2 ^ 32
      → (l : BoxNode) × (r : BoxNode) × (split node ≡ some (l, r)) × Halves l r
  unfolding split sorted_entries
  split_lem h v c =
      let s = sort_by (descending axis_of) node.entries in
      let d =
        sort_by-IsSorted (descending axis_of) (descending_trans axis_of) (descending_total axis_of)
          node.entries in
      let (t, e, lo, hi) =
        left_length-IsCut axis_of s d
          (omega (arith, length-sort_by (descending axis_of) node.entries))
          (sorted_entries-mixed h v) node.pixel_count in
      let n = count_ge axis_of t s in
      let sides = cut_count_ge axis_of t s d in
      let same = sort_by-SameItems (descending axis_of) node.entries in
      let parts = λ (f : Entry → ℕ). total-take-drop f n s in
      let all_pixels = parts (λ (x : Entry). x.count) in
      let sorted_pixels = same (λ (x : Entry). x.count) in
      let halves : Halves (new_box (take n s)) (new_box (drop n s)) = record {
        left_nonempty = omega (arith, length-take {0} n s);
        right_nonempty = omega (
          arith,
          ap length (take-append-drop n s),
          length-append {0} (take n s) (drop n s),
          length-take {0} n s,
        );
        same_entries = λ f. total-append f (take n s) (drop n s) ∙ parts f ∙ same f;
        level = t;
        left_above = sides.0;
        right_below = sides.1;
        counted = omega (arith, all_pixels, sorted_pixels);
        left_counted = omega (arith, all_pixels, sorted_pixels);
        right_counted = omega (arith, all_pixels, sorted_pixels);
        leaves = (refl, refl);
      } in
      (new_box (take n s), new_box (drop n s), ap (cut_at s) e, halves)
