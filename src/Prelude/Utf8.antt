-- ===== src/Prelude/Utf8.antt =====
-- `String::from_utf8_lossy` of the standard library, on bytes: each maximal ill-formed part becomes
-- one U+FFFD.
use Prim.Native.Nat.{ℕ, zero, suc, ◌+◌, ◌-◌, ◌*◌, ◌<◌, ◌≤◌}
use mathlib.Core.Path.{◌≡◌}
use mathlib.Core.Bool.{false, ◌&&◌}
use mathlib.Core.List.{List, [], ◌∷◌, ◌++◌}
use native.Mathlib.Omega.{arith}
use mpris_chroma.Prelude.Tests.{if◌then◌else◌, ltb, leb, ◌==◌, if_cases}
use mpris_chroma.Prelude.Lists.{All-append}
use mpris_chroma.Prelude.Text.{Str, Lacks}

-- Between sequences, or inside one: the bytes still needed after the next, the range allowed for
-- the next byte, and the bits read.
pub data Decoder : Type 0 where
  ready : Decoder
  inside : ℕ → ℕ → ℕ → ℕ → Decoder

abbrev replacement : ℕ
replacement = 0xfffd

first_byte : ℕ → Str × Decoder
first_byte b =
    if ltb b 0x80
    then (b ∷ [], ready)
    else if leb 0xc2 b && leb b 0xdf
    then ([], inside 0 0x80 0xbf (b - 0xc0))
    else if b == 0xe0
    then ([], inside 1 0xa0 0xbf 0)
    else if b == 0xed
    then ([], inside 1 0x80 0x9f 0xd)
    else if leb 0xe1 b && leb b 0xef
    then ([], inside 1 0x80 0xbf (b - 0xe0))
    else if b == 0xf0
    then ([], inside 2 0x90 0xbf 0)
    else if b == 0xf4
    then ([], inside 2 0x80 0x8f 4)
    else if leb 0xf1 b && leb b 0xf3
    then ([], inside 2 0x80 0xbf (b - 0xf0))
    else (replacement ∷ [], ready)

abbrev continue : ℕ → ℕ → Str × Decoder
continue zero bits = (bits ∷ [], ready)
continue (suc n) bits = ([], inside n 0x80 0xbf bits)

decode_byte : Decoder → ℕ → Str × Decoder
decode_byte ready b = first_byte b
decode_byte (inside more lo hi bits) b =
    if leb lo b && leb b hi
    then continue more (bits * 64 + (b - 0x80))
    else (let (out, next) = first_byte b in (replacement ∷ out, next))

decode_from : Decoder → List ℕ → Str
decode_from ready [] = []
decode_from (inside more lo hi bits) [] = replacement ∷ []
decode_from d (b ∷ bs) = let (out, next) = decode_byte d b in out ++ decode_from next bs

unfoldable pub from_utf8_lossy : List ℕ → Str
unfolding decode_from decode_byte first_byte
from_utf8_lossy bytes = decode_from ready bytes

-- A sequence of several bytes never decodes to an ASCII character.
abbrev IsLong : Decoder → Type 0
IsLong ready = Unit {0}
IsLong (inside zero lo hi bits) = 2 ≤ bits
IsLong (inside (suc n) lo hi bits) = 2 ≤ bits * 64 + (lo - 0x80)

module _ (c : ℕ) (ascii : c < 0x80) where
  abbrev IsClean : Str × Decoder → Type 0
  IsClean (out, next) = Lacks c out × IsLong next

  first_byte-IsClean : (b : ℕ) → (b == c) ≡ false → IsClean (first_byte b)
  unfolding first_byte
  first_byte-IsClean b n = ground arith

  continue-IsClean :
      (more lo hi bits b : ℕ)
      → IsLong (inside more lo hi bits)
      → lo ≤ b
      → IsClean (continue more (bits * 64 + (b - 0x80)))
  continue-IsClean zero lo hi bits b l h = ground arith
  continue-IsClean (suc zero) lo hi bits b l h = (tt, omega arith)
  continue-IsClean (suc (suc n)) lo hi bits b l h = (tt, omega arith)

  decode_byte-IsClean :
      (d : Decoder) (b : ℕ) → IsLong d → (b == c) ≡ false → IsClean (decode_byte d b)
  unfolding decode_byte
  decode_byte-IsClean ready b l n = first_byte-IsClean b n
  decode_byte-IsClean (inside more lo hi bits) b l n =
      if_cases IsClean (leb lo b && leb b hi) _ _
        (λ t. continue-IsClean more lo hi bits b l (ground arith))
        (λ _. let r = first_byte-IsClean b n in ((ground arith, r.0), r.1))

  decode_from-Lacks :
      (d : Decoder) (bs : List ℕ) → IsLong d → Lacks c bs → Lacks c (decode_from d bs)
  unfolding decode_from
  decode_from-Lacks ready [] l n = tt
  decode_from-Lacks (inside more lo hi bits) [] l n = (ground arith, tt)
  decode_from-Lacks d (b ∷ bs) l n =
      let r = decode_byte-IsClean d b l n.0 in
      All-append _ (decode_byte d b).0 _ r.0 (decode_from-Lacks (decode_byte d b).1 bs r.1 n.1)

  pub from_utf8_lossy-Lacks : (bs : List ℕ) → Lacks c bs → Lacks c (from_utf8_lossy bs)
  unfolding from_utf8_lossy
  from_utf8_lossy-Lacks bs n = decode_from-Lacks ready bs tt n
