-- ===== src/Framing.antt =====
-- src/framing.rs: bounded newline framing of playerctl's output. Bytes are numbers below 256. The
-- optional callback is a flag; its messages are part of the result.
pub mod Splitting
pub mod Reference
pub mod Stream
mod Tests
use mpris_chroma.Prelude.{
  ℕ, zero, suc, ◌+◌, ◌≡◌, Bool, true, false, Option, none, some, List, [], ◌∷◌, ◌++◌, ltb, ◌==◌,
  if◌then◌else◌, length, ◌||◌,
}
use mpris_chroma.Prelude.Text.{Str, codes, decimal}
use mpris_chroma.Prelude.Utf8.{from_utf8_lossy}

abbrev pub max_line_bytes : ℕ
max_line_bytes = 8192

pub record LineFramer : Type 0 where
  pub buf : List ℕ
  pub max : ℕ
  pub has_on_drop : Bool
  pub discarding : Bool

unfoldable pub new : ℕ → Bool → LineFramer
new max_line_bytes has_on_drop = record {
  buf = [];
  max = max_line_bytes;
  has_on_drop = has_on_drop;
  discarding = false;
}

-- `drop_line`: the message handed to the callback, if there is one.
unfoldable pub drop_line : LineFramer → ℕ → List Str
drop_line f size =
    if f.has_on_drop
    then (codes "line exceeded "
        ++ (decimal f.max ++ (codes " bytes (" ++ (decimal size ++ codes "+)"))))
      ∷ []
    else []

-- The bytes before the first newline and those behind it.
abbrev pub behind : ℕ → Option (List ℕ × List ℕ) → Option (List ℕ × List ℕ)
behind b none = none
behind b (some (line, rest)) = some (b ∷ line, rest)

unfoldable pub find_newline : List ℕ → Option (List ℕ × List ℕ)
find_newline [] = none
find_newline (b ∷ bs) = if b == b'\n' then some ([], bs) else behind b (find_newline bs)

pub record Framed : Type 0 where
  pub rest : List ℕ
  pub discarding : Bool
  pub lines : List Str
  pub reports : List Str

-- One turn of the `while` loop: what it emits before the rest of the loop.
abbrev pub emit : LineFramer → Bool → List ℕ → Framed → Framed
emit f discarding line after =
    if discarding
    then after
    else if ltb f.max (length line)
    then record after { reports = drop_line f (length line) ++ after.reports }
    else record after { lines = from_utf8_lossy line ∷ after.lines }

-- The `while` loop over the newlines of the buffer; fuel above the buffer's length is enough.
unfoldable pub frame_loop : LineFramer → ℕ → Bool → List ℕ → Framed
frame_loop f zero discarding buf = record {
  rest = buf;
  discarding = discarding;
  lines = [];
  reports = [];
}
frame_loop f (suc fuel) discarding buf = elim (find_newline buf) [
  | none ↦ record { rest = buf; discarding = discarding; lines = []; reports = [] }
  | some (line, rest) ↦ emit f discarding line (frame_loop f fuel false rest)
]

-- The end of `feed`: an oversized partial line is refused, and nothing of a refused line is kept.
abbrev pub settle : LineFramer → Framed → LineFramer × List Str × List Str
settle f r =
    let over = ltb f.max (length r.rest) in
    let refused = over || r.discarding in
    (
      record f { buf = if refused then [] else r.rest; discarding = refused },
      r.lines,
      r.reports
          ++ (if over then (if r.discarding then [] else drop_line f (length r.rest)) else []),
    )

-- The new framer, the completed lines, and the reports of refused lines.
unfoldable pub feed : LineFramer → List ℕ → LineFramer × List Str × List Str
feed f data' =
    let buf = f.buf ++ data' in settle f (frame_loop f (suc (length buf)) f.discarding buf)

-- A sequence of reads.
unfoldable pub feed_all : LineFramer → List (List ℕ) → LineFramer × List Str × List Str
feed_all f [] = (f, [], [])
feed_all f (chunk ∷ chunks) =
    let (f1, lines, reports) = feed f chunk in
    let (f2, lines', reports') = feed_all f1 chunks in (f2, lines ++ lines', reports ++ reports')
