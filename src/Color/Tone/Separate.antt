-- ===== src/Color/Tone/Separate.antt =====
-- src/color/tone.rs, `separate`: the passes that push slots apart.
use mpris_chroma.Prelude.{
  ℕ, zero, suc, ◌+◌, ◌-◌, Bool, true, false, not, ◌&&◌, Option, none, some, List, [], ◌∷◌, map, ltb,
  leb, if◌then◌else◌, length, take, replicate, all,
}
use mpris_chroma.Prelude.Sort.{sort_by}
use mpris_chroma.State.{Mode}
use mpris_chroma.Quantize.{get_elem?}
use mpris_chroma.Color.{Float, ◌⊕◌, ◌⊖◌, ◌⊗◌, ◌>>=◌}
use mpris_chroma.Color.Pick.{resize}
use mpris_chroma.Color.Raster.{span, collect}
use mpris_chroma.Color.Tone.{
  Toned, SeparationReason, clear, duplicates, budget_spent, blocked, passes, SeparationResult,
  max_separation_passes, set?, envelope, closest_pair, order_le, with_lightness,
}

-- The slots, the displacement that each may still accumulate, and whether the pass moved one.
pub record Motion (F : Type 0) : Type 0 where
  pub work : List (Toned F)
  pub budget : List F
  pub moved : Bool

-- The loop that fills `rank`: the place of each slot of the order.
unfoldable pub ranks_from : ℕ → List ℕ → List ℕ → Option (List ℕ)
unfolding set?
ranks_from pos [] rank = some rank
ranks_from pos (slot ∷ order) rank = set? slot pos rank >>= λ next. ranks_from (suc pos) order next

module _ {F : Type 0} ⦃r : Float F⦄ where
  abbrev pub is_nonpositive : F → Bool
  is_nonpositive x = r.at_most x (r.decimal 0 1)

  -- `direction` is 1.0 where a slot moves up and -1.0 where it moves down.
  abbrev pub direction : Bool → F
  direction up = if up then r.decimal 10 1 else r.negative (r.decimal 10 1)

  -- A displacement within the budget.
  abbrev pub within_budget : F → F → F
  within_budget delta left =
      if r.less left (r.abs delta)
      then (if r.less (r.decimal 0 1) delta then left else r.negative left)
      else delta

  -- `order`: the slots by lightness, each with the lightness that it was sorted by.
  unfoldable pub key_of : List (Toned F) → ℕ → Option (ℕ × F)
  unfolding get_elem?
  key_of work a = get_elem? a work >>= λ t. some (a, t.l)

  unfoldable pub order_of : List (Toned F) → ℕ → Option (List ℕ)
  unfolding key_of sort_by
  order_of work n = collect (key_of work) (span 0 n) >>= λ keys.
      some (map (λ (k : ℕ × F). k.0) (sort_by order_le keys))

  -- The bounds of the mode, the slots by lightness, the place of each slot in that order, and their
  -- number. An index out of range gives none.
  module _ (lo hi : F) (order rank : List ℕ) (n_distinct : ℕ) where
    -- `work[order[pos]].l`.
    unfoldable pub neighbour : ℕ → List (Toned F) → Option F
    unfolding get_elem?
    neighbour pos work = get_elem? pos order >>= λ slot. (get_elem? slot work >>= λ t. some t.l)

    -- The target is kept between the slot's neighbours in the order.
    unfoldable pub beside_neighbour : Bool → ℕ → List (Toned F) → F → Option F
    unfolding neighbour
    beside_neighbour up pos work target =
        if up && ltb (pos + 1) n_distinct
        then (neighbour (pos + 1) work >>= λ l. some (r.smaller target l))
        else if not up && leb 1 pos
        then (neighbour (pos - 1) work >>= λ l. some (r.larger target l))
        else some target

    -- The envelope first, then the neighbours.
    unfoldable pub target_of : F → Bool → F → F
    target_of current up step = r.smaller (r.larger (current ⊕ direction up ⊗ step) lo) hi

    -- The slot and its budget are written back.
    unfoldable pub displaced : ℕ → F → Toned F → F → Motion F → Option (Motion F)
    unfolding set?
    displaced idx left t delta m =
        let spent = within_budget delta left in
        set? idx (left ⊖ r.abs spent) m.budget >>= λ budget.
        (set? idx (with_lightness (t.l ⊕ spent) t) m.work >>= λ work.
        some (record { work = work; budget = budget; moved = true }))

    -- The third test that passes over a slot.
    unfoldable pub unless_blocked : ℕ → Bool → F → Toned F → F → Motion F → Option (Motion F)
    unfolding displaced
    unless_blocked idx up left t target m =
        if is_nonpositive ((target ⊖ t.l) ⊗ direction up)
        then some m
        else displaced idx left t (target ⊖ t.l) m

    -- The second test, and the neighbours.
    unfoldable pub unless_backward : ℕ → Bool → F → Toned F → F → Motion F → Option (Motion F)
    unfolding get_elem? beside_neighbour unless_blocked
    unless_backward idx up left t target m =
        if is_nonpositive ((target ⊖ t.l) ⊗ direction up)
        then some m
        else (get_elem? idx rank >>= λ pos.
            (beside_neighbour up pos m.work target >>= λ bounded.
            unless_blocked idx up left t bounded m))

    -- The first test, on the step that the budget leaves.
    unfoldable pub unless_spent : ℕ → Bool → F → F → Motion F → Option (Motion F)
    unfolding get_elem? target_of unless_backward
    unless_spent idx up left step m =
        if is_nonpositive step
        then some m
        else (get_elem? idx m.work >>= λ t. unless_backward idx up left t (target_of t.l up step) m)

    -- The body of the loop over the two slots of a pair.
    unfoldable pub nudge : ℕ → Bool → Motion F → Option (Motion F)
    unfolding get_elem? unless_spent
    nudge idx up m = get_elem? idx m.budget >>= λ left.
        unless_spent idx up left (r.smaller (r.decimal 1 2) left) m

    -- The higher-ranked slot of the pair goes up, then the lower one down.
    unfoldable pub nudge_pair : ℕ → ℕ → Motion F → Option (Motion F)
    unfolding get_elem? nudge
    nudge_pair i j m = get_elem? i rank >>= λ rank_i.
        (get_elem? j rank >>= λ rank_j.
        (let i_up = ltb rank_j rank_i in
          nudge (if i_up then i else j) true m >>= nudge (if i_up then j else i) false))

    -- The tests behind a pass.
    abbrev pub after_pass :
        (Motion F → Option (List (Toned F) × SeparationReason))
        → Motion F
        → Option (List (Toned F) × SeparationReason)
    after_pass onward m =
        if all (λ b. r.at_most b (r.decimal 1 9)) m.budget
        then some (m.work, budget_spent)
        else if not m.moved
        then some (m.work, blocked)
        else onward m

    -- The passes, for a number of them: the slots and why they stopped.
    unfoldable pub run_passes :
        ℕ → List (Toned F) → List F → Option (List (Toned F) × SeparationReason)
    unfolding closest_pair nudge_pair
    run_passes zero work budget = some (work, passes)
    run_passes (suc n) work budget =
        let (i, j, dist) = closest_pair work in
        if r.at_most (r.decimal 10 2) dist
        then some (work, clear)
        else (nudge_pair i j (record { work = work; budget = budget; moved = false })
            >>= after_pass (λ m. run_passes n m.work m.budget))

  unfoldable pub result_of : List (Toned F) × SeparationReason → SeparationResult F
  unfolding closest_pair
  result_of (work, why) =
      let residual = (closest_pair work).2 in
      let resolved = r.at_most (r.decimal 10 2) residual in
      record {
        resolved = resolved;
        reason = if resolved then clear else why;
        residual_de = residual;
      }

  -- The slots that repeat the last real one follow it.
  unfoldable pub repadded : ℕ → ℕ → List (Toned F) → Option (List (Toned F))
  unfolding get_elem?
  repadded total n work = get_elem? (n - 1) work >>= λ last. some (resize total last work)

  unfoldable pub separate_ranked :
      List (Toned F) → Mode → ℕ → List ℕ → List ℕ → Option (List (Toned F) × SeparationResult F)
  unfolding run_passes result_of repadded
  separate_ranked slots mode n order rank =
      let (lo, hi) = envelope mode in
      run_passes lo hi order rank n max_separation_passes (take n slots)
        (replicate n (r.decimal 4 2))
      >>= λ done. (repadded (length slots) n done.0 >>= λ work. some (work, result_of done))

  unfoldable pub separate_real :
      List (Toned F) → Mode → ℕ → Option (List (Toned F) × SeparationResult F)
  unfolding order_of ranks_from separate_ranked
  separate_real slots mode n = order_of (take n slots) n >>= λ order.
      (ranks_from 0 order (replicate n 0) >>= λ rank. separate_ranked slots mode n order rank)

  -- `separate`; none where it panics.
  unfoldable pub separate : List (Toned F) → Mode → ℕ → Option (List (Toned F) × SeparationResult F)
  unfolding separate_real
  separate slots mode n =
      let unchanged : SeparationResult F = record {
        resolved = false;
        reason = duplicates;
        residual_de = r.decimal 0 1;
      } in
      if ltb (length slots) n
      then none
      else if ltb n 2
      then some (slots, unchanged)
      else separate_real slots mode n
