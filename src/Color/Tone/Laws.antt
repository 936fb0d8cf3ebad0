-- ===== src/Color/Tone/Laws.antt =====
-- src/color/tone.rs, `separate`: what a separation keeps, and why it stops.
use mpris_chroma.Prelude.{
  ℕ, ◌-◌, ◌≤◌, ◌<◌, ◌≡◌, refl, sym, ap, subst, ◌∙◌, ◌↔◌, inl, inr, true, false, Option, some, List,
  ◌++◌, arith, ltb, Bool-cases, length, take, replicate, length-take,
}
use mpris_chroma.State.{Mode}
use mpris_chroma.Quantize.{get_elem?, get_elem?-defined}
use mpris_chroma.Color.{Float, ◌>>=◌}
use mpris_chroma.Color.Pick.{resize}
use mpris_chroma.Color.Pick.Choice.{take-append, take-replicate, length-replicate, replicate-All}
use mpris_chroma.Color.Tone.{
  Toned, SeparationReason, clear, SeparationResult, max_separation_passes, envelope, closest_pair,
}
use mpris_chroma.Color.Tone.Separate.{result_of, repadded, separate_ranked, separate_real, separate}
use mpris_chroma.Color.Tone.Ranks.{IsIndexing, ranks_from-IsIndexing, order_of-IsIndexing}
use mpris_chroma.Color.Tone.Moves.{hues, length-hues, run_passes-IsClear}

not_below : (a b : ℕ) → b ≤ a → ltb a b ≡ false
not_below a b h = ground arith

module _ {F : Type 0} ⦃r : Float F⦄ where
  -- What a separation of the first `n` slots gives. `work` are these slots as they came to lie.
  pub record IsSeparated (slots : List (Toned F)) (n : ℕ) (out : List (Toned F))
      (res : SeparationResult F) : Type 0 where
    pub work : List (Toned F)
    pub last : Toned F
    pub filled : out ≡ work ++ replicate (length slots - n) last
    pub is_last : get_elem? (n - 1) work ≡ some last
    pub counted : length work ≡ n
    pub same_hues : hues work ≡ hues (take n slots)
    pub residual : res.residual_de ≡ (closest_pair work).2
    pub resolved : res.resolved ≡ r.at_most (r.decimal 10 2) res.residual_de
    pub reason : (res.resolved ≡ true) ↔ (res.reason ≡ clear)

  result_of_lem :
      (done : List (Toned F) × SeparationReason)
      → (done.1 ≡ clear → r.at_most (r.decimal 10 2) (closest_pair done.0).2 ≡ true)
      → ((result_of done).resolved ≡ true) ↔ ((result_of done).reason ≡ clear)
  unfolding result_of
  result_of_lem done far = elim (Bool-cases (r.at_most (r.decimal 10 2) (closest_pair done.0).2)) [
    | inl t ↦ (λ _. rw t refl, λ _. t)
    | inr f ↦ (λ h. absurd (cc (f, h)), λ h. far (rw f at h))
  ]

  -- What a separation gives, where it does not panic.
  Separates : List (Toned F) → ℕ → Option (List (Toned F) × SeparationResult F) → Type 0
  Separates slots n o =
      (out : List (Toned F)) × (res : SeparationResult F) × (o ≡ some (out, res))
      × IsSeparated slots n out res

  finish :
      (slots : List (Toned F)) (n : ℕ) (done : List (Toned F) × SeparationReason)
      → 2 ≤ n
      → n ≤ length slots
      → length done.0 ≡ n
      → hues done.0 ≡ hues (take n slots)
      → (done.1 ≡ clear → r.at_most (r.decimal 10 2) (closest_pair done.0).2 ≡ true)
      → Separates slots n (repadded (length slots) n done.0 >>= λ work. some (work, result_of done))
  unfolding Separates repadded result_of
  finish slots n done two few size same far =
      let (last, g) = get_elem?-defined (n - 1) done.0 (omega (arith, size)) in
      let filled =
        take-append done.0 (replicate (length slots) last) (length slots) (omega (arith, size))
        ∙ ap (λ k. done.0 ++ k)
            (take-replicate (length slots - length done.0) (length slots) last (omega arith))
        ∙ ap (λ (k : ℕ). done.0 ++ replicate (length slots - k) last) size in
      (
        resize (length slots) last done.0,
        result_of done,
        rw g refl,
        record {
          work = done.0;
          last = last;
          filled = filled;
          is_last = g;
          counted = size;
          same_hues = same;
          residual = refl;
          resolved = refl;
          reason = result_of_lem done far;
        },
      )

  separate_ranked_lem :
      (slots : List (Toned F)) (mode : Mode) (n : ℕ) (order rank : List ℕ)
      → 2 ≤ n
      → n ≤ length slots
      → IsIndexing n order
      → IsIndexing n rank
      → Separates slots n (separate_ranked slots mode n order rank)
  unfolding separate_ranked
  separate_ranked_lem slots mode n order rank two few indexed ranked =
      let real = take n slots in
      let real_size : length real ≡ n = omega (arith, length-take {0} n slots) in
      let bounds = envelope mode in
      let clean =
        run_passes-IsClear bounds.0 bounds.1 order rank n indexed ranked max_separation_passes real
          (replicate n (r.decimal 4 2)) two real_size (length-replicate n (r.decimal 4 2)) in
      let size : length clean.done.0 ≡ n =
        omega
          (arith, length-hues clean.done.0, ap length clean.same, length-hues real, real_size) in
      subst
        (λ o. Separates slots n (
          o >>= λ done. (repadded (length slots) n done.0 >>= λ work. some (work, result_of done))))
        (sym clean.got) (finish slots n clean.done two few size clean.same clean.far)

  separate_real_lem :
      (slots : List (Toned F)) (mode : Mode) (n : ℕ)
      → 2 ≤ n
      → n ≤ length slots
      → Separates slots n (separate_real slots mode n)
  unfolding separate_real
  separate_real_lem slots mode n two few =
      let real = take n slots in
      let real_size : length real ≡ n = omega (arith, length-take {0} n slots) in
      let (order, e, indexed) = order_of-IsIndexing real n (omega (arith, real_size)) in
      let (rank, f, ranked) =
        ranks_from-IsIndexing n 0 order (replicate n 0) (omega (arith, indexed.sized)) indexed.below
          (record {
            sized = length-replicate n 0;
            below = replicate-All (λ x. x < n) n 0 (omega arith);
          }) in
      rw (e, f) (separate_ranked_lem slots mode n order rank two few indexed ranked)

  -- Separating two or more of the slots never panics. It keeps their number, and the hue and the
  -- source's chroma of each; the slots after them repeat the last one of them; the result tells the
  -- distance of the closest pair that is left, is resolved exactly when that is at least the least
  -- distance asked for, and gives clear as its reason exactly when it is resolved.
  pub separate_lem :
      (slots : List (Toned F)) (mode : Mode) (n : ℕ)
      → 2 ≤ n
      → n ≤ length slots
      → (out : List (Toned F)) × (res : SeparationResult F) × (separate slots mode n
          ≡ some (out, res))
        × IsSeparated slots n out res
  unfolding separate Separates
  separate_lem slots mode n two few =
      rw (not_below (length slots) n few, not_below n 2 two)
        (separate_real_lem slots mode n two few)
