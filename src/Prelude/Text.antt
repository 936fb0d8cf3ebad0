-- ===== src/Prelude/Text.antt =====
-- Rust's `str` as the list of its Unicode scalar values, with the methods of the standard library
-- that the program calls. A path is kept as the text that it was made from.
use Prim.Native.Char.{code}
use Prim.Native.String.{String}
use Prim.Native.Nat.{ℕ, zero, suc, ◌+◌, ◌/◌, ◌%◌, ◌≤◌}
use mathlib.Core.Path.{◌≡◌, refl, sym, ap, ◌∙◌}
use mathlib.Core.Logic.{◌↔◌, ◌≢◌, inl, inr}
use mathlib.Core.Bool.{Bool, true, false, ◌&&◌, ◌||◌}
use mathlib.Core.Option.{Option, none, some}
use mathlib.Core.List.{List, [], ◌∷◌, ◌++◌, reverse}
use native.Mathlib.Omega.{arith}
use mpris_chroma.Prelude.Tests.{
  if◌then◌else◌, ◌==◌, ==_iff, leb, ltb, Bool-cases, is_some, if_cases, ltb→lt,
}
use mpris_chroma.Prelude.Lists.{any, All, replicate}

abbrev pub Str : Type 0
Str = List ℕ

abbrev pub FilePath : Type 0
FilePath = Str

-- A literal of the source.
abbrev pub codes : String → Str
codes String.[] = []
codes (String.◌∷◌ c s) = code c ∷ codes s

unfoldable pub str_eq : Str → Str → Bool
str_eq [] [] = true
str_eq [] (b ∷ t) = false
str_eq (a ∷ s) [] = false
str_eq (a ∷ s) (b ∷ t) = a == b && str_eq s t

pub str_eq_iff : (s t : Str) → (str_eq s t ≡ true) ↔ (s ≡ t)
unfolding str_eq
str_eq_iff [] [] = (λ _. refl, λ _. refl)
str_eq_iff [] (b ∷ t) = (λ h. cc, λ h. cc)
str_eq_iff (a ∷ s) [] = (λ h. cc, λ h. cc)
str_eq_iff (a ∷ s) (b ∷ t) = ground (arith, str_eq_iff s t)

pub str_eq_refl : (s : Str) → str_eq s s ≡ true
str_eq_refl s = (str_eq_iff s s).1 refl

pub opt_str_eq : Option Str → Option Str → Bool
unfolding str_eq
opt_str_eq none none = true
opt_str_eq none (some b) = false
opt_str_eq (some a) none = false
opt_str_eq (some a) (some b) = str_eq a b

abbrev pub is_empty : Str → Bool
is_empty [] = true
is_empty (c ∷ s) = false

-- `s.strip_prefix(p)`.
unfoldable pub strip_prefix : Str → Str → Option Str
strip_prefix [] s = some s
strip_prefix (a ∷ p) [] = none
strip_prefix (a ∷ p) (b ∷ s) = let rest = strip_prefix p s in if a == b then rest else none

pub strip_prefix-eq_some : (p s r : Str) → strip_prefix p s ≡ some r → s ≡ p ++ r
unfolding strip_prefix
strip_prefix-eq_some [] s r h = ground arith
strip_prefix-eq_some (a ∷ p) [] r h = cc
strip_prefix-eq_some (a ∷ p) (b ∷ s) r h = elim (Bool-cases (a == b)) [
  | inl e ↦
      let same : a ≡ b = (==_iff a b).0 e in cc (sym same, strip_prefix-eq_some p s r (rw e at h))
  | inr e ↦ absurd (cc (rw e at h))
]

pub strip_prefix-append : (p r : Str) → strip_prefix p (p ++ r) ≡ some r
unfolding strip_prefix
strip_prefix-append [] r = refl
strip_prefix-append (a ∷ p) r = rw ((==_iff a a).1 refl) (strip_prefix-append p r)

-- `s.starts_with(p)`.
unfoldable pub starts_with : Str → Str → Bool
unfolding strip_prefix
starts_with p s = is_some (strip_prefix p s)

-- Put a character before the first piece, or start a new piece at a separator.
abbrev pub add_piece : Bool → ℕ → List Str → List Str
add_piece true a rest = [] ∷ rest
add_piece false a [] = (a ∷ []) ∷ []
add_piece false a (piece ∷ rest) = (a ∷ piece) ∷ rest

-- `s.split(c)`: the pieces between the separators, at least one.
unfoldable pub split : ℕ → Str → List Str
split c [] = [] ∷ []
split c (a ∷ s) = add_piece (a == c) a (split c s)

abbrev pub cons_unless : Bool → ℕ → Str → Str
cons_unless true a [] = []
cons_unless false a [] = a ∷ []
cons_unless _ a (b ∷ rest) = a ∷ b ∷ rest

-- `s.trim_end_matches(c)`.
unfoldable pub trim_end_matches : ℕ → Str → Str
trim_end_matches c [] = []
trim_end_matches c (a ∷ s) = cons_unless (a == c) a (trim_end_matches c s)

-- The scalar values with the property White_Space.
unfoldable pub is_whitespace : ℕ → Bool
is_whitespace c =
    (leb 9 c && leb c 13)
    || (leb 0x2000 c && leb c 0x200a)
    || any (λ w. c == w)
        (0x20 ∷ 0x85 ∷ 0xa0 ∷ 0x1680 ∷ 0x2028 ∷ 0x2029 ∷ 0x202f ∷ 0x205f ∷ 0x3000 ∷ [])

unfoldable pub trim_start : Str → Str
unfolding is_whitespace
trim_start [] = []
trim_start (c ∷ s) = let rest = trim_start s in if is_whitespace c then rest else c ∷ s

-- `s.trim()`.
unfoldable pub trim : Str → Str
unfolding trim_start
trim s = reverse (trim_start (reverse (trim_start s)))

-- The digits of a number, on fuel; a number has fewer digits than its successor has units.
decimal_from : ℕ → ℕ → Str → Str
decimal_from zero n out = out
decimal_from (suc f) n out =
    let more = decimal_from f (n / 10) ((b'0' + n % 10) ∷ out) in
    if ltb n 10 then (b'0' + n) ∷ out else more

-- `n.to_string()`.
unfoldable pub decimal : ℕ → Str
unfolding decimal_from
decimal n = decimal_from (suc n) n []

-- A decimal digit's character.
abbrev pub IsDigit : ℕ → Type 0
IsDigit c = (b'0' ≤ c) × (c ≤ b'9')

decimal_from-IsDigit : (f n : ℕ) (out : Str) → All IsDigit out → All IsDigit (decimal_from f n out)
unfolding decimal_from
decimal_from-IsDigit zero n out a = a
decimal_from-IsDigit (suc f) n out a =
    let more =
      decimal_from-IsDigit f (n / 10) ((b'0' + n % 10) ∷ out) ((omega arith, omega arith), a) in
    if_cases (All IsDigit) (ltb n 10) _ _ (λ t. ((omega arith, omega (arith, ltb→lt n 10 t)), a))
      (λ _. more)

pub decimal-IsDigit : (n : ℕ) → All IsDigit (decimal n)
unfolding decimal
decimal-IsDigit n = decimal_from-IsDigit (suc n) n [] tt

decimal_from-ne-nil : (f n : ℕ) (c : ℕ) (out : Str) → decimal_from f n (c ∷ out) ≢ []
unfolding decimal_from
decimal_from-ne-nil zero n c out = λ e. ground arith
decimal_from-ne-nil (suc f) n c out =
    if_cases (λ s. s ≢ []) (ltb n 10) _ _ (λ _ e. ground arith)
      (λ _. decimal_from-ne-nil f (n / 10) (b'0' + n % 10) (c ∷ out))

pub decimal-ne-nil : (n : ℕ) → decimal n ≢ []
unfolding decimal decimal_from
decimal-ne-nil n =
    if_cases (λ s. s ≢ []) (ltb n 10) _ _ (λ _ e. ground arith)
      (λ _. decimal_from-ne-nil n (n / 10) (b'0' + n % 10) [])

-- The pieces with the separator between them.
abbrev pub joined : ℕ → List Str → Str
joined c [] = []
joined c (p ∷ []) = p
joined c (p ∷ q ∷ rest) = p ++ c ∷ joined c (q ∷ rest)

abbrev pub Lacks : ℕ → Str → Type 0
Lacks c = All (λ a. (a == c) ≡ false)

joined-add_piece :
    (c a : ℕ) (b : Bool) (ps : List Str)
    → (a == c) ≡ b
    → ps ≢ []
    → joined c (add_piece b a ps) ≡ a ∷ joined c ps
joined-add_piece c a b [] e n = absurd (n refl)
joined-add_piece c a true (p ∷ rest) e n =
    ap (λ x. x ∷ joined c (p ∷ rest)) (sym ((==_iff a c).0 e))
joined-add_piece c a false (p ∷ []) e n = refl
joined-add_piece c a false (p ∷ q ∷ rest) e n = refl

pub split-ne-nil : (c : ℕ) (s : Str) → split c s ≢ []
unfolding split
split-ne-nil c [] = λ e. cc
split-ne-nil c (a ∷ s) = ground arith

pub joined-split : (c : ℕ) (s : Str) → joined c (split c s) ≡ s
unfolding split
joined-split c [] = refl
joined-split c (a ∷ s) =
    joined-add_piece c a (a == c) (split c s) refl (split-ne-nil c s)
    ∙ ap (◌∷◌ a) (joined-split c s)

add_piece-Lacks :
    (c a : ℕ) (b : Bool) (ps : List Str)
    → (a == c) ≡ b
    → All (Lacks c) ps
    → All (Lacks c) (add_piece b a ps)
add_piece-Lacks c a true ps e l = (tt, l)
add_piece-Lacks c a false [] e l = ((e, tt), tt)
add_piece-Lacks c a false (p ∷ rest) e l = ((e, l.0), l.1)

pub split-Lacks : (c : ℕ) (s : Str) → All (Lacks c) (split c s)
unfolding split
split-Lacks c [] = (tt, tt)
split-Lacks c (a ∷ s) = add_piece-Lacks c a (a == c) (split c s) refl (split-Lacks c s)

cons_unless-append :
    (c a : ℕ) (b : Bool) (t : Str) (n : ℕ)
    → (a == c) ≡ b
    → (k : ℕ) × (a ∷ t ++ replicate n c ≡ cons_unless b a t ++ replicate k c)
cons_unless-append c a true [] n e = (suc n, ap (λ x. x ∷ replicate n c) ((==_iff a c).0 e))
cons_unless-append c a false [] n e = (n, refl)
cons_unless-append c a true (x ∷ t) n e = (n, refl)
cons_unless-append c a false (x ∷ t) n e = (n, refl)

-- Only trailing copies of the character are cut off.
pub trim_end_matches-append :
    (c : ℕ) (s : Str) → (n : ℕ) × (s ≡ trim_end_matches c s ++ replicate n c)
unfolding trim_end_matches
trim_end_matches-append c [] = (0, refl)
trim_end_matches-append c (a ∷ s) =
    let (n, e) = trim_end_matches-append c s in
    let (k, e') = cons_unless-append c a (a == c) (trim_end_matches c s) n refl in
    (k, ap (◌∷◌ a) e ∙ e')
