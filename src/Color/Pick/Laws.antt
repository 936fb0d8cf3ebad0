-- ===== src/Color/Pick/Laws.antt =====
-- src/color/pick.rs, `select`: which colours are picked.
use mpris_chroma.Prelude.{
  ◌≤◌, ◌<◌, ◌≡◌, refl, sym, ap, ◌∙◌, ◌⊎◌, inl, inr, true, false, List, [], ◌∷◌, ◌++◌, map,
  append-nil, append_assoc, map-append, arith, ◌==◌, ==_iff, Bool-cases, if_cases, length, All, Any,
  length-append, All-append,
}
use mpris_chroma.Color.{Float}
use mpris_chroma.Color.Oklab.{Triple, delta_e}
use mpris_chroma.Color.Pick.{Ranked, Picked, source_lch, lab_of, is_distinct, consider, pick_from}

module _ {A : Type 0} where
  -- Each element stands in the relation to all that follow it.
  abbrev pub Pairs : (A → A → Type 0) → List A → Type 0
  Pairs R [] = Unit {0}
  Pairs R (x ∷ xs) = All (R x) xs × Pairs R xs

  Pairs-snoc :
      (R : A → A → Type 0) (xs : List A) (y : A)
      → Pairs R xs
      → All (λ x. R x y) xs
      → Pairs R (xs ++ y ∷ [])
  Pairs-snoc R [] y p a = (tt, tt)
  Pairs-snoc R (x ∷ xs) y p a =
      (All-append (R x) xs (y ∷ []) p.0 (a.0, tt), Pairs-snoc R xs y p.1 a.1)

  Any-append : (P : A → Type 0) (xs ys : List A) → Any P xs → Any P (xs ++ ys)
  Any-append P [] ys h = elim h [ ]
  Any-append P (x ∷ xs) ys (inl p) = inl p
  Any-append P (x ∷ xs) ys (inr h) = inr (Any-append P xs ys h)

  Any-last : (P : A → Type 0) (xs : List A) (y : A) → P y → Any P (xs ++ y ∷ [])
  Any-last P [] y p = inl p
  Any-last P (x ∷ xs) y p = inr (Any-last P xs y p)

  All-Any_self : (xs ys : List A) → All (λ x. Any (λ y. x ≡ y) (x ∷ ys)) xs
  All-Any_self [] ys = tt
  All-Any_self (x ∷ xs) ys = (inl refl, All-Any_self xs ys)

module _ {F : Type 0} ⦃r : Float F⦄ where
  -- Far enough apart to be two picks, the later one second.
  abbrev pub IsApart : Triple F → Triple F → Type 0
  IsApart p q = r.at_most (r.decimal 8 2) (delta_e (lab_of q) (lab_of p)) ≡ true

  -- A colour of the histogram that is a pick, or closer to one than two picks may be.
  abbrev pub IsCovered : List (Triple F) → Triple F → Type 0
  IsCovered picked lch =
      Any (λ p. lch ≡ p) picked
      ⊎ Any (λ p. r.at_most (r.decimal 8 2) (delta_e (lab_of lch) (lab_of p)) ≡ false) picked

  IsCovered-append :
      (xs ys : List (Triple F)) (lch : Triple F) → IsCovered xs lch → IsCovered (xs ++ ys) lch
  IsCovered-append xs ys lch (inl h) = inl (Any-append _ xs ys h)
  IsCovered-append xs ys lch (inr h) = inr (Any-append _ xs ys h)

  distinct-IsApart :
      (lch : Triple F) (picked : List (Triple F))
      → is_distinct (lab_of lch) (map lab_of picked) ≡ true
      → All (λ p. IsApart p lch) picked
  unfolding is_distinct
  distinct-IsApart lch [] h = tt
  distinct-IsApart lch (p ∷ picked) h = (ground arith, distinct-IsApart lch picked (ground arith))

  indistinct-Any :
      (lch : Triple F) (picked : List (Triple F))
      → is_distinct (lab_of lch) (map lab_of picked) ≡ false
      → Any (λ p. r.at_most (r.decimal 8 2) (delta_e (lab_of lch) (lab_of p)) ≡ false) picked
  unfolding is_distinct
  indistinct-Any lch [] h = absurd (cc)
  indistinct-Any lch (p ∷ picked) h =
      elim (Bool-cases (r.at_most (r.decimal 8 2) (delta_e (lab_of lch) (lab_of p)))) [
        | inl t ↦ inr (indistinct-Any lch picked (rw t at h))
        | inr f ↦ inl f
      ]

  module _ (P : Triple F → Type 0) where
    pub record IsPicked (s : Picked F) : Type 0 where
      pub same : s.1 ≡ map lab_of s.0
      pub apart : Pairs IsApart s.0
      pub few : length s.0 ≤ 3
      pub known : All P s.0

    -- What a step gives: more picks at the end.
    abbrev pub Grows : Picked F → Picked F → Type 0
    Grows s t = (ys : List (Triple F)) × (t.0 ≡ s.0 ++ ys)

    consider_lem :
        (hsv : Triple F) (s : Picked F)
        → P (source_lch hsv)
        → length s.0 < 3
        → IsPicked s
        → IsPicked (consider hsv s)
          × Grows s (consider hsv s)
          × IsCovered (consider hsv s).0 (source_lch hsv)
    unfolding consider
    consider_lem hsv s p l g =
        let lch = source_lch hsv in
        elim (Bool-cases (is_distinct (lab_of lch) s.1)) [
          | inl t ↦
              let far = distinct-IsApart lch s.0 (rw g.same at t) in
              rw t (
                record {
                  same = rw g.same (sym (map-append lab_of s.0 (lch ∷ [])));
                  apart = Pairs-snoc IsApart s.0 lch g.apart far;
                  few = omega (arith, length-append {0} s.0 (lch ∷ []));
                  known = All-append P s.0 (lch ∷ []) g.known (p, tt);
                },
                (lch ∷ [], refl),
                inl (Any-last (λ q. lch ≡ q) s.0 lch refl),
              )
          | inr f ↦
              let near = indistinct-Any lch s.0 (rw g.same at f) in
              rw f (g, ([], sym (append-nil s.0)), inr near)
        ]

    abbrev pub Reached : List (Ranked F) → Picked F → Picked F → Type 0
    Reached rs s t =
        IsPicked t × Grows s t × ((length t.0 ≡ 3) ⊎ All (λ e. IsCovered t.0 (source_lch e.1)) rs)

    pub pick_from_lem :
        (rs : List (Ranked F)) (s : Picked F)
        → All (λ e. P (source_lch e.1)) rs
        → IsPicked s
        → Reached rs s (pick_from rs s)
    unfolding pick_from
    pick_from_lem [] s a g = (g, ([], sym (append-nil s.0)), inr tt)
    pick_from_lem (e ∷ rs) s a g =
        if_cases (Reached (e ∷ rs) s) (length s.0 == 3) _ _
          (λ full. (g, ([], sym (append-nil s.0)), inl ((==_iff _ _).0 full)))
          (λ room.
            let (g1, (ys, e1), c1) = consider_lem e.1 s a.0 (ground (arith, g.few)) g in
            let (g2, (zs, e2), c2) = pick_from_lem rs (consider e.1 s) a.1 g1 in
            let grown = e2 ∙ ap (λ l. l ++ zs) e1 ∙ append_assoc s.0 ys zs in
            let first : IsCovered (pick_from rs (consider e.1 s)).0 (source_lch e.1) =
              rw e2 (IsCovered-append (consider e.1 s).0 zs (source_lch e.1) c1) in
            (g2, (ys ++ zs, grown), with_first e rs (pick_from rs (consider e.1 s)).0 first c2))
      where
        with_first :
            (x : Ranked F) (xs : List (Ranked F)) (picked : List (Triple F))
            → IsCovered picked (source_lch x.1)
            → (length picked ≡ 3) ⊎ All (λ y. IsCovered picked (source_lch y.1)) xs
            → (length picked ≡ 3) ⊎ All (λ y. IsCovered picked (source_lch y.1)) (x ∷ xs)
        with_first x xs picked c (inl h) = inl h
        with_first x xs picked c (inr h) = inr (c, h)
