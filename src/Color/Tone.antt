-- ===== src/Color/Tone.antt =====
-- src/color/tone.rs: a palette is toned into a mode's envelope, and slots that collide are pushed
-- apart in lightness.
pub mod Separate
pub mod Ranks
pub mod Moves
pub mod Laws
use mpris_chroma.Prelude.{
  ℕ, zero, suc, ◌+◌, ◌-◌, ◌*◌, ◌/◌, ◌%◌, ◌^◌, ◌≤◌, ◌<◌, min, max, bit_and, bit_xor, ◌≡◌, refl, sym,
  ap, subst, ◌∙◌, ◌≢◌, ◌↔◌, ◌⊎◌, inl, inr, Bool, true, false, not, ◌&&◌, ◌||◌, Option, none, some,
  List, [], ◌∷◌, ◌++◌, map, append-nil, append_assoc, map-append, arith, ltb, leb, ◌==◌,
  if◌then◌else◌, ltb→lt, lt→ltb, leb→le, le→leb, ==_iff, Bool-cases, Option-cases, List-cases,
  is_some, if_cases, if_else, length, take, drop, replicate, concat, any, all, keep, All, Any,
  length-append, length-take, take-append-drop, All-append, All-map, All-mono, Any-mono, all-All,
  any-Any, Any-any,
}
use mpris_chroma.Prelude.Text.{Str, codes}
use mpris_chroma.Prelude.Sort.{sort_by}
use mpris_chroma.State.{Mode, dark, light}
use mpris_chroma.Quantize.Nearest.{indices_below}
use mpris_chroma.Color.{Float, ◌⊕◌, ◌⊖◌, ◌⊗◌, ◌⊘◌, ◌>>=◌}
use mpris_chroma.Color.Oklab.{Triple, max_chroma, lch_to_hex, from_lch, delta_e}
use mpris_chroma.Color.Pick.{resize}

pub record Toned (F : Type 0) : Type 0 where
  pub l : F
  pub h : F
  pub c_src : F

pub data SeparationReason : Type 0 where
  clear : SeparationReason
  duplicates : SeparationReason
  budget_spent : SeparationReason
  blocked : SeparationReason
  passes : SeparationReason

-- `SeparationReason::as_str`.
abbrev pub reason_text : SeparationReason → Str
reason_text clear = codes "clear"
reason_text duplicates = codes "duplicates"
reason_text budget_spent = codes "budget"
reason_text blocked = codes "blocked"
reason_text passes = codes "passes"

pub record SeparationResult (F : Type 0) : Type 0 where
  pub resolved : Bool
  pub reason : SeparationReason
  pub residual_de : F

-- `MAX_SEPARATION_PASSES`.
abbrev pub max_separation_passes : ℕ
max_separation_passes = 8

-- `xs[i] = x`, which panics out of range.
unfoldable pub set? {ℓ} : {A : Type ℓ} → ℕ → A → List A → Option (List A)
set? i x [] = none
set? zero x (y ∷ ys) = some (x ∷ ys)
set? (suc i) x (y ∷ ys) = set? i x ys >>= λ zs. some (y ∷ zs)

module _ {F : Type 0} ⦃r : Float F⦄ where
  abbrev pub envelope : Mode → F × F
  envelope dark = (r.decimal 15 2, r.decimal 55 2)
  envelope light = (r.decimal 55 2, r.decimal 92 2)

  abbrev pub gamma : Mode → F
  gamma dark = r.decimal 85 2
  gamma light = r.decimal 118 2

  unfoldable pub chroma_for : F → F → F → F
  unfolding max_chroma
  chroma_for l h c_src =
      let ceiling = max_chroma l h in
      if r.less c_src (r.decimal 2 2)
      then r.smaller c_src ceiling
      else r.smaller (r.larger c_src (r.decimal 85 2 ⊗ ceiling)) ceiling

  -- `Toned::c`, `Toned::to_hex` and `Toned::to_lab`.
  unfoldable pub chroma_of : Toned F → F
  unfolding chroma_for
  chroma_of t = chroma_for t.l t.h t.c_src

  unfoldable pub toned_hex : Toned F → Str
  unfolding chroma_of lch_to_hex
  toned_hex t = lch_to_hex t.l (chroma_of t) t.h

  unfoldable pub toned_lab : Toned F → Triple F
  unfolding chroma_of from_lch
  toned_lab t = from_lch t.l (chroma_of t) t.h

  -- `iter().sum::<f64>()`, from -0.0 on.
  abbrev pub sum_from : F → List F → F
  sum_from acc [] = acc
  sum_from acc (x ∷ xs) = sum_from (acc ⊕ x) xs

  abbrev pub tone_slot : F → F → F → F → Triple F → Toned F
  tone_slot lo hi anchor toned_anchor (l, c, h) = record {
    l = r.smaller (r.larger (toned_anchor ⊕ r.decimal 10 1 ⊗ (l ⊖ anchor)) lo) hi;
    h = h;
    c_src = c;
  }

  abbrev pub tone_around : List (Triple F) → Mode → F → List (Toned F)
  tone_around source mode anchor =
      let (lo, hi) = envelope mode in
      let toned_anchor = lo ⊕ (hi ⊖ lo) ⊗ r.powf (r.larger anchor (r.decimal 0 1)) (gamma mode) in
      map (tone_slot lo hi anchor toned_anchor) source

  abbrev pub anchor_of : List (Triple F) → F
  anchor_of source =
      sum_from (r.negative (r.decimal 0 1)) (map (λ (t : Triple F). t.0) source)
      ⊘ r.of_nat (length source)

  -- `tone`; none where it panics.
  unfoldable pub tone : List (Triple F) → Mode → Option (List (Toned F))
  tone [] mode = none
  tone (s ∷ source) mode = some (tone_around (s ∷ source) mode (anchor_of (s ∷ source)))

  -- The closest pair so far and its distance.
  abbrev pub closer_pair : ℕ × ℕ × F → ℕ → ℕ → F → ℕ × ℕ × F
  closer_pair (i, j, best) i' j' d = if r.less d best then (i', j', d) else (i, j, best)

  unfoldable pub closest_to : ℕ → Triple F → ℕ → List (Triple F) → ℕ × ℕ × F → ℕ × ℕ × F
  unfolding delta_e
  closest_to i p j [] best = best
  closest_to i p j (q ∷ qs) best = closest_to i p (suc j) qs (closer_pair best i j (delta_e p q))

  unfoldable pub closest_from : ℕ → List (Triple F) → ℕ × ℕ × F → ℕ × ℕ × F
  unfolding closest_to
  closest_from i [] best = best
  closest_from i (p ∷ ps) best = closest_from (suc i) ps (closest_to i p (suc i) ps best)

  unfoldable pub closest_pair : List (Toned F) → ℕ × ℕ × F
  unfolding closest_from toned_lab
  closest_pair slots = closest_from 0 (map toned_lab slots) (0, 1, r.infinity)

  -- `work[a].l.total_cmp(&work[b].l).then(a.cmp(&b))` is not `Greater`, for slots with their lightness.
  abbrev pub order_le : ℕ × F → ℕ × F → Bool
  order_le (a, x) (b, y) = r.total_le x y && (not (r.total_le y x) || leb a b)

  -- `Toned { l, ..t }`.
  abbrev pub with_lightness : F → Toned F → Toned F
  with_lightness x t = record { l = x; h = t.h; c_src = t.c_src }
