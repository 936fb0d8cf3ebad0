-- ===== src/Framing/Reference.antt =====
-- `feed` of src/framing.rs against the lines of the whole stream, however it is cut into reads.
use mpris_chroma.Prelude.{
  ℕ, zero, suc, ◌+◌, ◌<◌, ◌≡◌, refl, ap, sym, ◌∙◌, Bool, true, false, Option, none, some, List, [],
  ◌∷◌, ◌++◌, arith, ◌==◌, ==_iff, All-append, append_assoc, length, length-append, keep, leb, ltb,
  map, if◌then◌else◌, if_cases,
}
use mpris_chroma.Prelude.Text.{Str, split, Lacks, split-ne-nil}
use mpris_chroma.Prelude.Utf8.{from_utf8_lossy}
use mpris_chroma.Framing.{LineFramer, drop_line, find_newline, behind, Framed, emit, frame_loop}
use mpris_chroma.Framing.Splitting.{
  complete, partial, complete-cons, partial-cons, split-lacking, split-at,
}

abbrev pub newline : ℕ
newline = b'\n'

-- The lines that a stream finishes, those within the cap decoded, and how many exceed it.
abbrev pub kept : ℕ → List Str → List Str
kept max lines = map from_utf8_lossy (keep (λ l. leb (length l) max) lines)

abbrev pub oversized : ℕ → List Str → ℕ
oversized max [] = 0
oversized max (l ∷ ls) = (if ltb max (length l) then 1 else 0) + oversized max ls

abbrev pub flag : Bool → ℕ
flag true = 1
flag false = 0

pub kept-append : (max : ℕ) (a b : List Str) → kept max (a ++ b) ≡ kept max a ++ kept max b
kept-append max [] b = refl
kept-append max (l ∷ a) b = ground (arith, kept-append max a b)

pub oversized-append :
    (max : ℕ) (a b : List Str) → oversized max (a ++ b) ≡ oversized max a + oversized max b
oversized-append max [] b = omega arith
oversized-append max (l ∷ a) b = ground (arith, oversized-append max a b)

abbrev Found : List ℕ → Option (List ℕ × List ℕ) → Type 0
Found buf none = Lacks newline buf
Found buf (some (line, rest)) = (buf ≡ line ++ newline ∷ rest) × Lacks newline line

Found-behind :
    (b : ℕ) (bs : List ℕ) (o : Option (List ℕ × List ℕ))
    → (b == newline) ≡ false
    → Found bs o
    → Found (b ∷ bs) (behind b o)
Found-behind b bs none f k = (f, k)
Found-behind b bs (some (line, rest)) f k = (ap (◌∷◌ b) k.0, (f, k.1))

find_newline-Found : (buf : List ℕ) → Found buf (find_newline buf)
unfolding find_newline
find_newline-Found [] = tt
find_newline-Found (b ∷ bs) =
    if_cases (Found (b ∷ bs)) (b == newline) _ _
      (λ t. (ap (λ x. x ∷ bs) ((==_iff b newline).0 t), tt))
      (λ f. Found-behind b bs (find_newline bs) f (find_newline-Found bs))

-- What the loop still owes to the current line: all of it is refused, or none of it is missing.
abbrev pub Owes : ℕ → Bool → List ℕ → Type 0
Owes max true pre = max < length pre
Owes max false pre = pre ≡ []

pub record LoopOk (f : LineFramer) (pre : List ℕ) (discarding : Bool) (buf : List ℕ) (r : Framed)
    : Type 0 where
  pub held : List ℕ
  pub clean : Lacks newline (held ++ r.rest)
  pub owes : Owes f.max r.discarding held
  pub tail : partial (split newline (pre ++ buf)) ≡ held ++ r.rest
  pub lines : r.lines ≡ kept f.max (complete (split newline (pre ++ buf)))
  pub reports :
      f.has_on_drop ≡ true
      → length r.reports + flag discarding
        ≡ oversized f.max (complete (split newline (pre ++ buf))) + flag r.discarding

pub length-drop_line : (f : LineFramer) (n : ℕ) → f.has_on_drop ≡ true → length (drop_line f n) ≡ 1
unfolding drop_line
length-drop_line f n h = rw h

module _ (f : LineFramer) where
  loop_stops :
      (pre : List ℕ) (d : Bool) (buf : List ℕ)
      → Lacks newline (pre ++ buf)
      → Owes f.max d pre
      → LoopOk f pre d buf (record { rest = buf; discarding = d; lines = []; reports = [] })
  loop_stops pre d buf l o = record {
    held = pre;
    clean = l;
    owes = o;
    tail = rw (split-lacking newline (pre ++ buf) l);
    lines = rw (split-lacking newline (pre ++ buf) l);
    reports = λ _. rw (split-lacking newline (pre ++ buf) l);
  }

  -- One turn: the line up to the newline is emitted, refused, or the end of a refused one.
  record TurnOk (line : List ℕ) (rest : List Str) (d : Bool) (r e : Framed) : Type 0 where
    same_rest : e.rest ≡ r.rest
    same_mode : e.discarding ≡ r.discarding
    turn_lines : e.lines ≡ kept f.max (line ∷ rest)
    turn_reports :
        f.has_on_drop ≡ true
        → length e.reports + flag d ≡ oversized f.max (line ∷ rest) + flag r.discarding

  turn_ok :
      (pre : List ℕ) (d : Bool) (line : List ℕ) (rest : List Str) (r : Framed)
      → Owes f.max d pre
      → r.lines ≡ kept f.max rest
      → (f.has_on_drop ≡ true → length r.reports ≡ oversized f.max rest + flag r.discarding)
      → TurnOk (pre ++ line) rest d r (emit f d line r)
  turn_ok pre true line rest r o l k = record {
    same_rest = refl;
    same_mode = refl;
    turn_lines = ground (arith, length-append pre line);
    turn_reports = λ h. ground (arith, length-append pre line, k h);
  }
  turn_ok pre false line rest r o l k = rw o (record {
    same_rest = ground arith;
    same_mode = ground arith;
    turn_lines = ground arith;
    turn_reports = λ h. ground (
      arith,
      k h,
      length-drop_line f (length line) h,
      length-append (drop_line f (length line)) r.reports,
    );
  })

  loop_goes_on :
      (pre : List ℕ) (d : Bool) (buf line rest : List ℕ) (r : Framed)
      → Owes f.max d pre
      → Lacks newline pre
      → (buf ≡ line ++ newline ∷ rest) × Lacks newline line
      → LoopOk f [] false rest r
      → LoopOk f pre d buf (emit f d line r)
  loop_goes_on pre d buf line rest r o l (e, l') k =
      let cut : split newline (pre ++ buf) ≡ (pre ++ line) ∷ split newline rest =
        ap (λ b. split newline (pre ++ b)) e
        ∙ ap (split newline) (sym (append_assoc pre line (newline ∷ rest)))
        ∙ split-at newline (pre ++ line) rest (All-append _ pre line l l') in
      let t =
        turn_ok pre d line (complete (split newline rest)) r o k.lines
          (λ h. omega (arith, k.reports h)) in
      let more = split-ne-nil newline rest in
      record {
        held = k.held;
        clean = rw t.same_rest k.clean;
        owes = rw t.same_mode k.owes;
        tail = rw (t.same_rest, cut) (partial-cons _ _ more ∙ k.tail);
        lines = rw (cut, complete-cons (pre ++ line) _ more) t.turn_lines;
        reports = λ h. rw (cut, complete-cons (pre ++ line) _ more, t.same_mode) (t.turn_reports h);
      }

  -- With fuel above the buffer's length the loop handles every newline.
  pub frame_loop_ok :
      (fuel : ℕ) (pre : List ℕ) (d : Bool) (buf : List ℕ)
      → length buf < fuel
      → Owes f.max d pre
      → Lacks newline pre
      → LoopOk f pre d buf (frame_loop f fuel d buf)
  unfolding frame_loop
  frame_loop_ok zero pre d buf h o l = elim h [ ]
  frame_loop_ok (suc fuel) pre d buf h o l =
      by_found (find_newline buf) (find_newline-Found buf)
        (λ rest small. frame_loop_ok fuel [] false rest small refl tt)
    where
      by_found :
          (o' : Option (List ℕ × List ℕ))
          → Found buf o'
          → ((rest : List ℕ)
              → length rest < fuel
              → LoopOk f [] false rest (frame_loop f fuel false rest))
          → LoopOk f pre d buf (elim o' [
            | none ↦ record { rest = buf; discarding = d; lines = []; reports = [] }
            | some (line, rest) ↦ emit f d line (frame_loop f fuel false rest)
          ])
      by_found none k ih = loop_stops pre d buf (All-append _ pre buf l k) o
      by_found (some (line, rest)) k ih =
          loop_goes_on pre d buf line rest _ o l k
            (ih rest (omega (arith, ap length k.0, length-append line (newline ∷ rest))))
