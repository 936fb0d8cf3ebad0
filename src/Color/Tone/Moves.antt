-- ===== src/Color/Tone/Moves.antt =====
-- src/color/tone.rs, `separate`: no step of a pass panics, each keeps the hues, and why the passes stop.
use mpris_chroma.Prelude.{
  ℕ, zero, suc, ◌+◌, ◌-◌, ◌≤◌, ◌<◌, ◌≡◌, refl, ap, ◌∙◌, Bool, true, false, not, ◌&&◌, Option, some,
  List, [], ◌∷◌, map, arith, ltb, leb, if◌then◌else◌, if_cases, length, all,
}
use mpris_chroma.Quantize.{get_elem?, get_elem?-defined, get_elem?-All}
use mpris_chroma.Color.{Float, ◌⊕◌, ◌⊖◌, ◌⊗◌}
use mpris_chroma.Color.Tone.{
  Toned, SeparationReason, clear, budget_spent, blocked, passes, set?, with_lightness, closest_pair,
}
use mpris_chroma.Color.Tone.Separate.{
  Motion, is_nonpositive, direction, within_budget, neighbour, beside_neighbour, displaced,
  unless_blocked, unless_backward, unless_spent, nudge, nudge_pair, run_passes,
}
use mpris_chroma.Color.Tone.Ranks.{IsIndexing, set?-length, closest_pair-IsPair}

module _ {F : Type 0} ⦃r : Float F⦄ where
  -- What a separation never changes: the hue and the source's chroma of each slot.
  abbrev pub hues : List (Toned F) → List (F × F)
  hues = map (λ (t : Toned F). (t.h, t.c_src))

  pub length-hues : (ts : List (Toned F)) → length (hues ts) ≡ length ts
  length-hues [] = refl
  length-hues (t ∷ ts) = ap suc (length-hues ts)

  -- Writing another lightness to a slot keeps the hues.
  hues-set? :
      (i : ℕ) (x : F) (t : Toned F) (ts : List (Toned F))
      → get_elem? i ts ≡ some t
      → (us : List (Toned F)) × (set? i (with_lightness x t) ts ≡ some us) × (hues us ≡ hues ts)
  unfolding set? get_elem?
  hues-set? i x t [] e = absurd (cc)
  hues-set? zero x t (u ∷ ts) e =
      let same : u ≡ t = ground arith in (with_lightness x t ∷ ts, refl, rw same refl)
  hues-set? (suc i) x t (u ∷ ts) e =
      let (us, f, k) = hues-set? i x t ts e in (u ∷ us, rw f refl, ap (◌∷◌ (u.h, u.c_src)) k)

  -- A step that does not panic, and keeps the hues and the number of budgets.
  record Moves (m : Motion F) (o : Option (Motion F)) : Type 0 where
    next : Motion F
    got : o ≡ some next
    same : hues next.work ≡ hues m.work
    left : length next.budget ≡ length m.budget

  rests : (m : Motion F) → Moves m (some m)
  rests m = record { next = m; got = refl; same = refl; left = refl }

  -- As many slots and budgets as there are ranks.
  record IsReady (n : ℕ) (m : Motion F) : Type 0 where
    slots : length m.work ≡ n
    budgets : length m.budget ≡ n

  module _ (lo hi : F) (order rank : List ℕ) (n : ℕ) (indexed : IsIndexing n order)
      (ranked : IsIndexing n rank) where
    neighbour_lem :
        (pos : ℕ) (work : List (Toned F))
        → pos < n
        → length work ≡ n
        → (l : F) × (neighbour lo hi order rank n pos work ≡ some l)
    unfolding neighbour
    neighbour_lem pos work h size =
        let (slot, e) = get_elem?-defined pos order (omega (arith, indexed.sized)) in
        let below = get_elem?-All (λ x. x < n) pos order slot e indexed.below in
        let (t, f) = get_elem?-defined slot work (omega (arith, size, below)) in
        (t.l, rw (e, f) refl)

    beside_neighbour_lem :
        (up : Bool) (pos : ℕ) (work : List (Toned F)) (target : F)
        → pos < n
        → length work ≡ n
        → (x : F) × (beside_neighbour lo hi order rank n up pos work target ≡ some x)
    unfolding beside_neighbour
    beside_neighbour_lem up pos work target h size =
        if_cases (λ o. (x : F) × (o ≡ some x)) (up && ltb (pos + 1) n) _ _
          (λ t.
            let (l, e) = neighbour_lem (pos + 1) work (ground arith) size in
            (r.smaller target l, rw e refl))
          (λ _.
            if_cases (λ o. (x : F) × (o ≡ some x)) (not up && leb 1 pos) _ _
              (λ _.
                let (l, e) = neighbour_lem (pos - 1) work (omega arith) size in
                (r.larger target l, rw e refl))
              (λ _. (target, refl)))

    displaced_lem :
        (idx : ℕ) (left : F) (t : Toned F) (delta : F) (m : Motion F)
        → idx < n
        → IsReady n m
        → get_elem? idx m.work ≡ some t
        → Moves m (displaced lo hi order rank n idx left t delta m)
    unfolding displaced
    displaced_lem idx left t delta m h ready e =
        let spent = within_budget delta left in
        let (budget, f, l) =
          set?-length idx (left ⊖ r.abs spent) m.budget (omega (arith, ready.budgets)) in
        let (work, g, k) = hues-set? idx (t.l ⊕ spent) t m.work e in
        record {
          next = record { work = work; budget = budget; moved = true };
          got = rw (f, g) refl;
          same = k;
          left = l;
        }

    unless_backward_lem :
        (idx : ℕ) (up : Bool) (left : F) (t : Toned F) (target : F) (m : Motion F)
        → idx < n
        → IsReady n m
        → get_elem? idx m.work ≡ some t
        → Moves m (unless_backward lo hi order rank n idx up left t target m)
    unfolding unless_backward unless_blocked
    unless_backward_lem idx up left t target m h ready e =
        if_cases (Moves m) (is_nonpositive ((target ⊖ t.l) ⊗ direction up)) (some m) _
          (λ _. rests m)
          (λ _.
            let (pos, f) = get_elem?-defined idx rank (omega (arith, ranked.sized)) in
            let place = get_elem?-All (λ x. x < n) idx rank pos f ranked.below in
            let (bounded, g) = beside_neighbour_lem up pos m.work target place ready.slots in
            rw (f, g)
              (if_cases (Moves m) (is_nonpositive ((bounded ⊖ t.l) ⊗ direction up)) (some m)
                (displaced lo hi order rank n idx left t (bounded ⊖ t.l) m) (λ _. rests m)
                (λ _. displaced_lem idx left t (bounded ⊖ t.l) m h ready e)))

    nudge_lem :
        (idx : ℕ) (up : Bool) (m : Motion F)
        → idx < n
        → IsReady n m
        → Moves m (nudge lo hi order rank n idx up m)
    unfolding nudge unless_spent
    nudge_lem idx up m h ready =
        let (left, e) = get_elem?-defined idx m.budget (omega (arith, ready.budgets)) in
        let step = r.smaller (r.decimal 1 2) left in
        let (t, f) = get_elem?-defined idx m.work (omega (arith, ready.slots)) in
        rw e (
          if_cases (Moves m) (is_nonpositive step) (some m) _ (λ _. rests m)
            (λ _. rw f (unless_backward_lem idx up left t _ m h ready f)))

    Moves-IsReady :
        (m : Motion F) (o : Option (Motion F)) (k : Moves m o) → IsReady n m → IsReady n k.next
    Moves-IsReady m o k ready = record {
      slots =
          omega (arith, length-hues k.next.work, ap length k.same, length-hues m.work, ready.slots);
      budgets = k.left ∙ ready.budgets;
    }

    nudge_pair_lem :
        (i j : ℕ) (m : Motion F)
        → i < n
        → j < n
        → IsReady n m
        → Moves m (nudge_pair lo hi order rank n i j m)
    unfolding nudge_pair
    nudge_pair_lem i j m a b ready =
        let (rank_i, e) = get_elem?-defined i rank (omega (arith, ranked.sized)) in
        let (rank_j, f) = get_elem?-defined j rank (omega (arith, ranked.sized)) in
        let i_up = ltb rank_j rank_i in
        let up = if i_up then i else j in
        let down = if i_up then j else i in
        let up_below : up < n = if_cases (λ k. k < n) i_up i j (λ _. a) (λ _. b) in
        let down_below : down < n = if_cases (λ k. k < n) i_up j i (λ _. b) (λ _. a) in
        let first = nudge_lem up true m up_below ready in
        let second = nudge_lem down false first.next down_below (Moves-IsReady m _ first ready) in
        rw (e, f, first.got, second.got)
          (record {
            next = second.next;
            got = refl;
            same = second.same ∙ first.same;
            left = second.left ∙ first.left;
          })

    -- Passes that do not panic; those that stop as clear leave a closest pair that is far enough apart.
    pub record IsClear (work : List (Toned F)) (o : Option (List (Toned F) × SeparationReason))
        : Type 0 where
      pub done : List (Toned F) × SeparationReason
      pub got : o ≡ some done
      pub same : hues done.0 ≡ hues work
      pub far : done.1 ≡ clear → r.at_most (r.decimal 10 2) (closest_pair done.0).2 ≡ true

    pub run_passes-IsClear :
        (k : ℕ) (work : List (Toned F)) (budget : List F)
        → 2 ≤ n
        → length work ≡ n
        → length budget ≡ n
        → IsClear work (run_passes lo hi order rank n k work budget)
    unfolding run_passes
    run_passes-IsClear zero work budget two size left = record {
      done = (work, passes);
      got = refl;
      same = refl;
      far = λ e. absurd (cc);
    }
    run_passes-IsClear (suc k) work budget two size left =
        let pair = closest_pair work in
        let start : Motion F = record { work = work; budget = budget; moved = false } in
        let (a, b) = closest_pair-IsPair n work two size in
        let ready : IsReady n start = record { slots = size; budgets = left } in
        let kept = nudge_pair_lem pair.0 pair.1 start a b ready in
        let m = kept.next in
        let ready' = Moves-IsReady start _ kept ready in
        let rest = run_passes-IsClear k m.work m.budget two ready'.slots ready'.budgets in
        if_cases (IsClear work) (r.at_most (r.decimal 10 2) pair.2) (some (work, clear)) _
          (λ far. record { done = (work, clear); got = refl; same = refl; far = λ _. far })
          (λ _. rw (kept.got) (
            if_cases (IsClear work) (all (λ b. r.at_most b (r.decimal 1 9)) m.budget)
              (some (m.work, budget_spent)) _
              (λ _. record {
                done = (m.work, budget_spent);
                got = refl;
                same = kept.same;
                far = λ c. absurd (cc);
              })
              (λ _.
                if_cases (IsClear work) (not m.moved) (some (m.work, blocked))
                  (run_passes lo hi order rank n k m.work m.budget)
                  (λ _. record {
                    done = (m.work, blocked);
                    got = refl;
                    same = kept.same;
                    far = λ c. absurd (cc);
                  })
                  (λ _. record {
                    done = rest.done;
                    got = rest.got;
                    same = rest.same ∙ kept.same;
                    far = rest.far;
                  }))))
