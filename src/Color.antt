-- ===== src/Color.antt =====
-- src/color: the interface of the floating-point numbers that the colour code computes with. A
-- number is a value of any type with these operations, those of Rust's `f64`; no law is asked of
-- them, so what is proved of the code holds whatever its roundings are.
pub mod Oklab
pub mod Pick
pub mod Tone
pub mod Ramp
pub mod Raster
pub mod Resample
pub mod Decode
pub mod Extract
mod Tests
use mpris_chroma.Prelude.{
  ℕ, zero, suc, ◌+◌, ◌-◌, ◌*◌, ◌/◌, ◌%◌, ◌^◌, ◌≤◌, ◌<◌, min, max, bit_and, bit_xor, ◌≡◌, refl, sym,
  ap, subst, ◌∙◌, ◌≢◌, ◌↔◌, ◌⊎◌, inl, inr, Bool, true, false, not, ◌&&◌, ◌||◌, Option, none, some,
  List, [], ◌∷◌, ◌++◌, map, append-nil, append_assoc, map-append, arith, ltb, leb, ◌==◌,
  if◌then◌else◌, ltb→lt, lt→ltb, leb→le, le→leb, ==_iff, Bool-cases, Option-cases, List-cases,
  is_some, if_cases, if_else, length, take, drop, replicate, concat, any, all, keep, All, Any,
  length-append, length-take, take-append-drop, All-append, All-map, All-mono, Any-mono, all-All,
  any-Any, Any-any,
}
use mpris_chroma.Prelude.Int.{ℤ}

pub record Float (F : Type 0) : Type 0 where
  -- `decimal m k` is the literal m / 10^k.
  pub decimal : ℕ → ℕ → F
  pub infinity : F
  -- `n as f64`.
  pub of_nat : ℕ → F
  pub plus : F → F → F
  pub minus : F → F → F
  pub times : F → F → F
  pub over : F → F → F
  -- `%`.
  pub remainder : F → F → F
  pub negative : F → F
  pub less : F → F → Bool
  pub at_most : F → F → Bool
  pub equal : F → F → Bool
  -- `a.total_cmp(b)` is not `Greater`.
  pub total_le : F → F → Bool
  pub smaller : F → F → F
  pub larger : F → F → F
  pub abs : F → F
  pub powf : F → F → F
  pub cbrt : F → F
  pub sqrt : F → F
  pub hypot : F → F → F
  pub atan2 : F → F → F
  pub cos : F → F
  pub sin : F → F
  pub trunc : F → F
  pub floor : F → F
  pub ceil : F → F
  pub round_ties_even : F → F
  -- `x as i64`, and the whole part of `x as u64`, which saturate.
  pub to_int : F → ℤ
  pub to_nat : F → ℕ

module _ {F : Type 0} ⦃r : Float F⦄ where
  infixl 60 ◌⊕◌ ◌⊖◌
  infixl 70 ◌⊗◌ ◌⊘◌
  abbrev pub ◌⊕◌ : F → F → F
  a ⊕ b = r.plus a b

  abbrev pub ◌⊖◌ : F → F → F
  a ⊖ b = r.minus a b

  abbrev pub ◌⊗◌ : F → F → F
  a ⊗ b = r.times a b

  abbrev pub ◌⊘◌ : F → F → F
  a ⊘ b = r.over a b

  -- `x as u8`, which saturates.
  abbrev pub to_u8 : F → ℕ
  to_u8 x = min 255 (r.to_nat x)

-- A chain of results in which a panic ends the rest.
infixl 5 ◌>>=◌
abbrev pub ◌>>=◌ {ℓ κ} : {A : Type ℓ} {B : Type κ} → Option A → (A → Option B) → Option B
some a >>= f = f a
none >>= f = none
