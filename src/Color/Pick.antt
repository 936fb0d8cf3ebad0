-- ===== src/Color/Pick.antt =====
-- src/color/pick.rs: the ranking of a histogram and the choice of up to three source colours.
pub mod Laws
pub mod Choice
use mpris_chroma.Prelude.{
  ℕ, zero, suc, ◌+◌, ◌-◌, ◌*◌, ◌/◌, ◌%◌, ◌^◌, ◌≤◌, ◌<◌, min, max, bit_and, bit_xor, ◌≡◌, refl, sym,
  ap, subst, ◌∙◌, ◌≢◌, ◌↔◌, ◌⊎◌, inl, inr, Bool, true, false, not, ◌&&◌, ◌||◌, Option, none, some,
  List, [], ◌∷◌, ◌++◌, map, append-nil, append_assoc, map-append, arith, ltb, leb, ◌==◌,
  if◌then◌else◌, ltb→lt, lt→ltb, leb→le, le→leb, ==_iff, Bool-cases, Option-cases, List-cases,
  is_some, if_cases, if_else, length, take, drop, replicate, concat, any, all, keep, All, Any,
  length-append, length-take, take-append-drop, All-append, All-map, All-mono, Any-mono, all-All,
  any-Any, Any-any,
}
use mpris_chroma.Prelude.Int.{ℤ, pos, negsuc}
use mpris_chroma.Prelude.Sort.{total, sort_by}
use mpris_chroma.Quantize.{get_elem?}
use mpris_chroma.Color.{Float, ◌⊕◌, ◌⊖◌, ◌⊗◌, ◌⊘◌, ◌>>=◌}
use mpris_chroma.Color.Oklab.{Triple, srgb_to_oklab, to_lch, from_lch, delta_e}

-- One entry of the quantized palette: its pixels, and its colour as HSV.
abbrev pub HistEntry : Type 0 → Type 0
HistEntry F = ℕ × Triple F

-- `x.rem_euclid(6)` of a signed number.
abbrev pub rem_euclid_6 : ℤ → ℕ
rem_euclid_6 (pos n) = n % 6
rem_euclid_6 (negsuc n) = 5 - n % 6

-- A score and its colour.
abbrev pub Ranked : Type 0 → Type 0
Ranked F = F × Triple F

-- The colours picked so far as OkLCh, and the points that they are compared by.
abbrev pub Picked : Type 0 → Type 0
Picked F = List (Triple F) × List (Triple F)

-- The picks and how many of them are real.
abbrev pub Picks : Type 0 → Type 0
Picks F = List (Triple F) × ℕ

-- `v.resize(n, x)`.
abbrev pub resize {ℓ} : {A : Type ℓ} → ℕ → A → List A → List A
resize n x xs = take n (xs ++ replicate n x)

module _ {F : Type 0} ⦃r : Float F⦄ where
  abbrev pub zero_float : F
  zero_float = r.decimal 0 1

  abbrev pub one_float : F
  one_float = r.decimal 10 1

  unfoldable pub py_mod1 : F → F
  py_mod1 x =
      let m = r.remainder x one_float in
      if r.equal m zero_float then zero_float else if r.less m zero_float then m ⊕ one_float else m

  unfoldable pub rgb_to_hsv : Triple F → Triple F
  unfolding py_mod1
  rgb_to_hsv (red, green, blue) =
      let maxc = r.larger (r.larger red green) blue in
      let minc = r.smaller (r.smaller red green) blue in
      let rangec = maxc ⊖ minc in
      let s = rangec ⊘ maxc in
      let rc = (maxc ⊖ red) ⊘ rangec in
      let gc = (maxc ⊖ green) ⊘ rangec in
      let bc = (maxc ⊖ blue) ⊘ rangec in
      let h =
        if r.equal red maxc
        then bc ⊖ gc
        else if r.equal green maxc
        then r.decimal 20 1 ⊕ rc ⊖ bc
        else r.decimal 40 1 ⊕ gc ⊖ rc in
      if r.equal minc maxc
      then (zero_float, zero_float, maxc)
      else (py_mod1 (h ⊘ r.decimal 60 1), s, maxc)

  -- The `match` on the sector of the hue.
  abbrev pub by_sector : ℕ → F → F → F → F → Triple F
  by_sector zero v p q t = (v, t, p)
  by_sector (suc zero) v p q t = (q, v, p)
  by_sector (suc (suc zero)) v p q t = (p, v, t)
  by_sector (suc (suc (suc zero))) v p q t = (p, q, v)
  by_sector (suc (suc (suc (suc zero)))) v p q t = (t, p, v)
  by_sector (suc (suc (suc (suc (suc n))))) v p q t = (v, p, q)

  unfoldable pub hsv_to_rgb : Triple F → Triple F
  hsv_to_rgb (h, s, v) =
      let i = r.trunc (h ⊗ r.decimal 60 1) in
      let f = h ⊗ r.decimal 60 1 ⊖ i in
      let p = v ⊗ (one_float ⊖ s) in
      let q = v ⊗ (one_float ⊖ s ⊗ f) in
      let t = v ⊗ (one_float ⊖ s ⊗ (one_float ⊖ f)) in
      let sector = by_sector (rem_euclid_6 (r.to_int i)) v p q t in
      if r.equal s zero_float then (v, v, v) else sector

  unfoldable pub vibrancy_score : ℕ → ℕ → Triple F → F
  vibrancy_score count sum (h, s, v) =
      let frac = r.of_nat count ⊘ r.of_nat sum in
      if r.less frac (r.decimal 1 2) then frac else frac ⊕ r.decimal 5 1 ⊗ s ⊗ v

  -- `b.0.total_cmp(&a.0)`: descending, and stable.
  abbrev pub ranks_before : Ranked F → Ranked F → Bool
  ranks_before (a, c) (b, d) = r.total_le b a

  unfoldable pub rank : List (HistEntry F) → List (Ranked F)
  unfolding vibrancy_score sort_by
  rank hist =
      let sum = total (λ (e : HistEntry F). e.0) hist in
      sort_by ranks_before (map (λ (e : HistEntry F). (vibrancy_score e.0 sum e.1, e.1)) hist)

  unfoldable pub source_lch : Triple F → Triple F
  unfolding hsv_to_rgb srgb_to_oklab to_lch
  source_lch hsv = to_lch (srgb_to_oklab (hsv_to_rgb hsv))

  unfoldable pub lab_of : Triple F → Triple F
  unfolding from_lch
  lab_of (l, c, h) = from_lch l c h

  -- `labs.iter().all(|&p| delta_e(lab, p) >= SELECT_MIN_DE)`.
  unfoldable pub is_distinct : Triple F → List (Triple F) → Bool
  unfolding delta_e
  is_distinct lab labs = all (λ p. r.at_most (r.decimal 8 2) (delta_e lab p)) labs

  unfoldable pub consider : Triple F → Picked F → Picked F
  unfolding source_lch lab_of is_distinct
  consider hsv (picked, labs) =
      let lch = source_lch hsv in
      let lab = lab_of lch in
      if is_distinct lab labs then (picked ++ lch ∷ [], labs ++ lab ∷ []) else (picked, labs)

  -- The loop over the ranked entries.
  unfoldable pub pick_from : List (Ranked F) → Picked F → Picked F
  unfolding consider
  pick_from [] s = s
  pick_from ((score, hsv) ∷ rest) s =
      let onward = pick_from rest (consider hsv s) in if length s.0 == 3 then s else onward

  unfoldable pub padded : List (Triple F) → Option (Picks F)
  unfolding get_elem?
  padded picked =
      get_elem? (length picked - 1) picked >>= λ last. some (resize 3 last picked, length picked)

  -- `select`; none where it panics.
  unfoldable pub select : List (HistEntry F) → Option (Picks F)
  unfolding padded pick_from rank
  select [] = some ([], 0)
  select (e ∷ hist) = padded (pick_from (rank (e ∷ hist)) ([], [])).0
