-- ===== src/Framing/Stream.antt =====
-- Reads in a row through src/framing.rs: the framer's state tracks the unfinished line, and what it
-- emits depends on the bytes of the stream alone.
use mpris_chroma.Prelude.{
  ℕ, suc, ◌+◌, ◌≤◌, ◌<◌, ◌≡◌, refl, ap, sym, subst, ◌∙◌, Bool, true, false, ◌||◌, List, [], ◌∷◌,
  ◌++◌, arith, All, append_assoc, append-nil, ltb→lt, leb, map, length, length-append, ltb,
  if◌then◌else◌, if_cases, concat,
}
use mpris_chroma.Prelude.Text.{Str, split, Lacks, split-ne-nil, split-Lacks}
use mpris_chroma.Prelude.Utf8.{from_utf8_lossy, from_utf8_lossy-Lacks}
use mpris_chroma.Framing.{LineFramer, new, drop_line, frame_loop, settle, feed, feed_all}
use mpris_chroma.Framing.Splitting.{
  complete, partial, split-lacking, split-append, complete-append, partial-append,
}
use mpris_chroma.Framing.Reference.{
  newline, kept, oversized, flag, kept-append, oversized-append, Owes, length-drop_line,
  frame_loop_ok,
}

-- `line` is the unfinished line so far: the buffer, behind what was thrown away of it.
pub record Tracks (f : LineFramer) (line : List ℕ) : Type 0 where
  pub gone : List ℕ
  pub whole : line ≡ gone ++ f.buf
  pub owes : Owes f.max f.discarding gone
  pub clean : Lacks newline gone × Lacks newline line
  pub small : length f.buf ≤ f.max

-- What a read, or several, emit for the text `line ++ bytes`.
pub record Emits (f : LineFramer) (text : List ℕ) (out : LineFramer × List Str × List Str)
    : Type 0 where
  pub tracks : Tracks out.0 (partial (split newline text))
  pub same_max : out.0.max ≡ f.max
  pub same_callback : out.0.has_on_drop ≡ f.has_on_drop
  pub lines : out.1 ≡ kept f.max (complete (split newline text))
  pub reports :
      f.has_on_drop ≡ true
      → length out.2 + flag f.discarding
        ≡ oversized f.max (complete (split newline text)) + flag out.0.discarding

module _ (f : LineFramer) (text held rest : List ℕ) (lines reports : List Str)
    (clean : Lacks newline (held ++ rest)) (tail : partial (split newline text) ≡ held ++ rest)
    (kept_lines : lines ≡ kept f.max (complete (split newline text))) where
  abbrev Settled : Bool → Bool → Type 0
  Settled over d = Emits f text (
    record f { buf = if over || d then [] else rest; discarding = over || d },
    lines,
    reports ++ (if over then (if d then [] else drop_line f (length rest)) else []),
  )

  abbrev Counts : ℕ → Bool → Type 0
  Counts n d =
      f.has_on_drop ≡ true
      → n + flag f.discarding ≡ oversized f.max (complete (split newline text)) + flag d

  -- The unfinished line is refused: it is over the cap, in its refused part or with the rest.
  refused_ok :
      (more : List Str)
      → f.max < length (held ++ rest)
      → Counts (length (reports ++ more)) true
      → Emits f text (record f { buf = []; discarding = true }, lines, reports ++ more)
  refused_ok more over c = record {
    tracks = record {
      gone = held ++ rest;
      whole = tail ∙ sym (append-nil (held ++ rest));
      owes = over;
      clean = (clean, subst (Lacks newline) (sym tail) clean);
      small = omega arith;
    };
    same_max = refl;
    same_callback = refl;
    lines = kept_lines;
    reports = c;
  }

  settle-Settled :
      (over d : Bool)
      → ltb f.max (length rest) ≡ over
      → Owes f.max d held
      → Counts (length reports) d
      → Settled over d
  settle-Settled true true e o c =
      refused_ok [] (omega (arith, length-append held rest))
        (λ h. omega (arith, c h, length-append reports []))
  settle-Settled true false e o c =
      refused_ok (drop_line f (length rest))
        (omega (arith, length-append held rest, ltb→lt f.max (length rest) e))
        (λ h. omega (
          arith,
          c h,
          length-append reports (drop_line f (length rest)),
          length-drop_line f (length rest) h,
        ))
  settle-Settled false true e o c =
      refused_ok [] (omega (arith, length-append held rest))
        (λ h. omega (arith, c h, length-append reports []))
  settle-Settled false false e o c = record {
    tracks = record {
      gone = [];
      whole = tail ∙ ap (λ x. x ++ rest) o;
      owes = refl;
      clean = (tt, subst (Lacks newline) (sym tail) clean);
      small = ground arith;
    };
    same_max = refl;
    same_callback = refl;
    lines = kept_lines;
    reports = λ h. omega (arith, c h, length-append reports []);
  }

-- One read: the text is the unfinished line followed by the bytes read.
pub feed-Emits :
    (f : LineFramer) (line bytes : List ℕ) → Tracks f line → Emits f (line ++ bytes) (feed f bytes)
unfolding feed
feed-Emits f line bytes t =
    let buf = f.buf ++ bytes in
    let r = frame_loop f (suc (length buf)) f.discarding buf in
    let k =
      frame_loop_ok f (suc (length buf)) t.gone f.discarding buf (omega arith) t.owes t.clean.0 in
    let same : t.gone ++ buf ≡ line ++ bytes =
      sym (append_assoc t.gone f.buf bytes) ∙ ap (λ x. x ++ bytes) (sym t.whole) in
    subst (λ text. Emits f text (settle f r)) same
      (settle-Settled f (t.gone ++ buf) k.held r.rest r.lines r.reports k.clean k.tail k.lines
        (ltb f.max (length r.rest)) r.discarding refl k.owes k.reports)

Emits-append :
    (f : LineFramer) (a b : List ℕ) (out out' : LineFramer × List Str × List Str)
    → Emits f a out
    → Emits out.0 (partial (split newline a) ++ b) out'
    → Emits f (a ++ b) (out'.0, out.1 ++ out'.1, out.2 ++ out'.2)
Emits-append f a b out out' k k' =
    let more = split-ne-nil newline (partial (split newline a) ++ b) in
    let cut = split-append newline a b in
    record {
      tracks = rw (cut, partial-append (complete (split newline a)) _ more) k'.tracks;
      same_max = k'.same_max ∙ k.same_max;
      same_callback = k'.same_callback ∙ k.same_callback;
      lines =
          rw (cut, complete-append (complete (split newline a)) _ more)
            (rw (kept-append f.max, k.lines, k'.lines, k.same_max));
      reports = λ h.
          rw (cut, complete-append (complete (split newline a)) _ more)
            (omega (
              arith,
              k.reports h,
              k'.reports (k.same_callback ∙ h),
              length-append out.2 out'.2,
              ap (λ m. oversized m (complete (split newline (partial (split newline a) ++ b))))
                  k.same_max,
              oversized-append f.max (complete (split newline a))
                  (complete (split newline (partial (split newline a) ++ b))),
            ));
    }

feed_all-Emits :
    (f : LineFramer) (line : List ℕ) (chunks : List (List ℕ))
    → Tracks f line
    → Emits f (line ++ concat chunks) (feed_all f chunks)
unfolding feed_all
feed_all-Emits f line [] t =
    let alone : split newline (line ++ []) ≡ line ∷ [] =
      ap (split newline) (append-nil line) ∙ split-lacking newline line t.clean.1 in
    record {
      tracks = rw alone t;
      same_max = refl;
      same_callback = refl;
      lines = rw alone;
      reports = λ h. rw alone;
    }
feed_all-Emits f line (chunk ∷ chunks) t =
    let a = feed-Emits f line chunk t in
    subst (λ text. Emits f text (feed_all f (chunk ∷ chunks)))
      (append_assoc line chunk (concat chunks))
      (Emits-append f (line ++ chunk) (concat chunks) (feed f chunk)
        (feed_all (feed f chunk).0 chunks) a
        (feed_all-Emits (feed f chunk).0 (partial (split newline (line ++ chunk))) chunks a.tracks))

new-Tracks : (max : ℕ) (b : Bool) → Tracks (new max b) []
unfolding new
new-Tracks max b = record {
  gone = [];
  whole = refl;
  owes = refl;
  clean = (tt, tt);
  small = omega arith;
}

-- A line is refused exactly when it is over the cap.
flag_of_line :
    (max : ℕ) (d : Bool) (gone buf line : List ℕ)
    → line ≡ gone ++ buf
    → Owes max d gone
    → length buf ≤ max
    → flag d ≡ (if ltb max (length line) then 1 else 0)
flag_of_line max true gone buf line e o s = ground (arith, ap length e, length-append gone buf)
flag_of_line max false gone buf line e o s =
    ground (arith, ap length e, length-append gone buf, ap length o)

-- However the stream is cut into reads, a new framer emits exactly the finished lines that fit the
-- cap, decoded, in order; it reports each line over the cap once, as soon as it is known to be
-- over; and it never holds more than the cap between reads.
pub feed_all-reference :
    (max : ℕ) (chunks : List (List ℕ))
    → let (f, lines, reports) = feed_all (new max true) chunks in
      let pieces = split newline (concat chunks) in
      (lines ≡ kept max (complete pieces))
      × (length reports ≡ oversized max (complete pieces ++ partial pieces ∷ []))
      × (length f.buf ≤ max)
unfolding new
feed_all-reference max chunks =
    let k = feed_all-Emits (new max true) [] chunks (new-Tracks max true) in
    let out = feed_all (new max true) chunks in
    let pieces = split newline (concat chunks) in
    let t = k.tracks in
    let last =
      flag_of_line out.0.max out.0.discarding t.gone out.0.buf (partial pieces) t.whole t.owes
        t.small in
    (
      k.lines,
      omega (
        arith,
        k.reports refl,
        last,
        ap (λ m. oversized m (partial pieces ∷ [])) k.same_max,
        oversized-append max (complete pieces) (partial pieces ∷ []),
      ),
      omega (arith, k.same_max, t.small),
    )

All-complete : (P : Str → Type 0) (pieces : List Str) → All P pieces → All P (complete pieces)
All-complete P [] a = tt
All-complete P (p ∷ []) a = tt
All-complete P (p ∷ q ∷ r) a = (a.0, All-complete P (q ∷ r) a.1)

kept-Lacks :
    (max : ℕ) (pieces : List Str)
    → All (Lacks newline) pieces
    → All (Lacks newline) (kept max pieces)
kept-Lacks max [] a = tt
kept-Lacks max (p ∷ ps) a =
    let first = from_utf8_lossy-Lacks newline (omega arith) p a.0 in
    let rest = kept-Lacks max ps a.1 in
    if_cases (λ ls. All (Lacks newline) (map from_utf8_lossy ls)) (leb (length p) max) _ _
      (λ _. (first, rest)) (λ _. rest)

-- No emitted line holds a newline, also where ill-formed bytes were replaced in it.
pub feed_all-Lacks :
    (max : ℕ) (chunks : List (List ℕ)) → All (Lacks newline) (feed_all (new max true) chunks).1
feed_all-Lacks max chunks =
    subst (All (Lacks newline)) (sym (feed_all-reference max chunks).0)
      (kept-Lacks max _ (All-complete _ _ (split-Lacks newline (concat chunks))))
