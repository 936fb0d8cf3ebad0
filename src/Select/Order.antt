-- ===== src/Select/Order.antt =====
-- The ranking of players is a total order, and the sort of src/select.rs produces it.
use mpris_chroma.Prelude.{
  ◌<◌, ◌⊎◌, ◌≡◌, refl, true, false, List, [], ◌∷◌, arith, Bool-cases, inl, inr, All, All-mono,
}
use mpris_chroma.Prelude.Text.{Str}
use mpris_chroma.Select.{Entry, str_leb, ranks, insert_ranked, sort_ranked}

pub str_leb_total : (s t : Str) → str_leb s t ≡ false → str_leb t s ≡ true
unfolding str_leb
str_leb_total [] t h = cc
str_leb_total (a ∷ s) [] h = refl
str_leb_total (a ∷ s) (b ∷ t) h = ground (arith, str_leb_total s t)

pub str_leb_trans : (s t u : Str) → str_leb s t ≡ true → str_leb t u ≡ true → str_leb s u ≡ true
unfolding str_leb
str_leb_trans [] t u h k = refl
str_leb_trans (a ∷ s) [] u h k = cc
str_leb_trans (a ∷ s) (b ∷ t) [] h k = cc
str_leb_trans (a ∷ s) (b ∷ t) (c ∷ u) h k = ground (arith, str_leb_trans s t u)

pub ranks_total : (a b : Entry) → ranks a b ≡ false → ranks b a ≡ true
unfolding ranks
ranks_total a b h = ground (arith, str_leb_total a.0 b.0)

pub ranks_refl : (a : Entry) → ranks a a ≡ true
ranks_refl a = elim (Bool-cases (ranks a a)) [ inl t ↦ t | inr f ↦ ranks_total a a f ]

pub ranks_trans : (a b c : Entry) → ranks a b ≡ true → ranks b c ≡ true → ranks a c ≡ true
unfolding ranks
ranks_trans a b c h k = ground (arith, str_leb_trans a.0 b.0 c.0)

-- Newer, or of the same age and first by name.
abbrev pub Outranks : Entry → Entry → Type 0
Outranks a b = (b.1.seq < a.1.seq) ⊎ ((a.1.seq ≡ b.1.seq) × (str_leb a.0 b.0 ≡ true))

pub ranks-Outranks : (a b : Entry) → ranks a b ≡ true → Outranks a b
unfolding ranks
ranks-Outranks a b h = ground (arith, h)

abbrev pub IsRanked : List Entry → Type 0
IsRanked [] = Unit {0}
IsRanked (x ∷ xs) = All (λ y. ranks x y ≡ true) xs × IsRanked xs

pub All-insert_ranked :
    (P : Entry → Type 0) (x : Entry) (xs : List Entry) → P x → All P xs → All P (insert_ranked x xs)
unfolding insert_ranked
All-insert_ranked P x [] p a = (p, tt)
All-insert_ranked P x (y ∷ ys) p a = elim (Bool-cases (ranks x y)) [
  | inl t ↦ rw t (p, a)
  | inr f ↦ rw f (a.0, All-insert_ranked P x ys p a.1)
]

insert_ranked-IsRanked : (x : Entry) (xs : List Entry) → IsRanked xs → IsRanked (insert_ranked x xs)
unfolding insert_ranked
insert_ranked-IsRanked x [] s = (tt, tt)
insert_ranked-IsRanked x (y ∷ ys) s = elim (Bool-cases (ranks x y)) [
  | inl t ↦ rw t ((t, All-mono _ _ ys (λ z h. ranks_trans x y z t h) s.0), s)
  | inr f ↦ rw f (All-insert_ranked _ x ys (ranks_total x y f) s.0, insert_ranked-IsRanked x ys s.1)
]

pub sort_ranked-IsRanked : (xs : List Entry) → IsRanked (sort_ranked xs)
unfolding sort_ranked
sort_ranked-IsRanked [] = tt
sort_ranked-IsRanked (x ∷ xs) = insert_ranked-IsRanked x (sort_ranked xs) (sort_ranked-IsRanked xs)

pub All-sort_ranked : (P : Entry → Type 0) (xs : List Entry) → All P xs → All P (sort_ranked xs)
unfolding sort_ranked
All-sort_ranked P [] a = tt
All-sort_ranked P (x ∷ xs) a = All-insert_ranked P x (sort_ranked xs) a.0 (All-sort_ranked P xs a.1)

-- Nothing is lost: what holds of all sorted entries holds of all entries.
All-of-insert_ranked :
    (P : Entry → Type 0) (x : Entry) (xs : List Entry) → All P (insert_ranked x xs) → P x × All P xs
unfolding insert_ranked
All-of-insert_ranked P x [] a = a
All-of-insert_ranked P x (y ∷ ys) a = elim (Bool-cases (ranks x y)) [
  | inl t ↦ (rw t at a)
  | inr f ↦ let b = rw f at a in let r = All-of-insert_ranked P x ys b.1 in (r.0, (b.0, r.1))
]

pub All-of-sort_ranked : (P : Entry → Type 0) (xs : List Entry) → All P (sort_ranked xs) → All P xs
unfolding sort_ranked
All-of-sort_ranked P [] a = tt
All-of-sort_ranked P (x ∷ xs) a =
    let r = All-of-insert_ranked P x (sort_ranked xs) a in (r.0, All-of-sort_ranked P xs r.1)
