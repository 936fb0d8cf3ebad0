-- ===== src/Sources/Reader.antt =====
-- src/sources/playerctl.rs, `start_reader`: the thread that frames playerctl's output into events,
-- while the loop that receives them lives. The reads are what the pipe gives, ended by `Ok(0)`.
use mpris_chroma.Prelude.{
  ℕ, ◌≡◌, refl, ap, sym, ◌∙◌, true, List, [], ◌∷◌, ◌++◌, map, append_assoc, append-nil, concat,
  length, All, All-append, All-map,
}
use mpris_chroma.Prelude.Text.{Str, split}
use mpris_chroma.Prelude.Result.{ok, err}
use mpris_chroma.Cover.{IoKind, timed_out, interrupted, other}
use mpris_chroma.Cover.Fetch.{Read}
use mpris_chroma.Framing.{LineFramer, max_line_bytes, new, feed, feed_all}
use mpris_chroma.Framing.Reference.{newline, kept, oversized}
use mpris_chroma.Framing.Splitting.{complete, partial}
use mpris_chroma.Framing.Stream.{feed_all-reference}
use mpris_chroma.Runtime.{Event}

-- The reports are sent while `feed` runs, its lines after it.
abbrev pub sent : LineFramer × List Str × List Str → List Event
sent (f, lines, reports) = map Event.oversize reports ++ map Event.line lines

abbrev pub on_kind : IoKind → LineFramer → (LineFramer → List Event) → List Event
on_kind interrupted f next = next f
on_kind timed_out f next = Event.hangup ∷ []
on_kind other f next = Event.hangup ∷ []

abbrev pub on_read : Read → LineFramer → (LineFramer → List Event) → List Event
on_read (ok []) f next = Event.hangup ∷ []
on_read (ok (b ∷ bytes)) f next = sent (feed f (b ∷ bytes)) ++ next (feed f (b ∷ bytes)).0
on_read (err e) f next = on_kind e.kind f next

unfoldable pub read_on : List Read → LineFramer → List Event
read_on [] f = Event.hangup ∷ []
read_on (read ∷ reads) f = on_read read f (read_on reads)

unfoldable pub start_reader : List Read → List Event
start_reader reads = read_on reads (new max_line_bytes true)

-- The bytes that arrive before the end or the first error.
abbrev pub unless_kind : IoKind → List (List ℕ) → List (List ℕ)
unless_kind interrupted rest = rest
unless_kind timed_out rest = []
unless_kind other rest = []

abbrev pub chunks_of : List Read → List (List ℕ)
chunks_of [] = []
chunks_of (ok [] ∷ reads) = []
chunks_of (ok (b ∷ bytes) ∷ reads) = (b ∷ bytes) ∷ chunks_of reads
chunks_of (err e ∷ reads) = unless_kind e.kind (chunks_of reads)

abbrev pub lines_of : List Event → List Str
lines_of [] = []
lines_of (Event.line l ∷ es) = l ∷ lines_of es
lines_of (_ ∷ es) = lines_of es

abbrev pub reports_of : List Event → List Str
reports_of [] = []
reports_of (Event.oversize r ∷ es) = r ∷ reports_of es
reports_of (_ ∷ es) = reports_of es

abbrev pub IsContent : Event → Type 0
IsContent (Event.line l) = Unit {0}
IsContent (Event.oversize r) = Unit {0}
IsContent _ = ⊥

-- What one step sends, in the terms of the three views.
record Splits (es : List Event) (lines reports : List Str) : Type 0 where
  body : List Event
  whole : es ≡ body ++ Event.hangup ∷ []
  content : All IsContent body
  by_line : lines_of body ≡ lines
  by_report : reports_of body ≡ reports

lines_of-append : (a b : List Event) → lines_of (a ++ b) ≡ lines_of a ++ lines_of b
lines_of-append [] b = refl
lines_of-append (Event.line l ∷ a) b = ap (◌∷◌ l) (lines_of-append a b)
lines_of-append (Event.oversize r ∷ a) b = lines_of-append a b
lines_of-append (Event.hangup ∷ a) b = lines_of-append a b
lines_of-append (Event.vanish n ∷ a) b = lines_of-append a b
lines_of-append (Event.scheme v ∷ a) b = lines_of-append a b
lines_of-append (Event.scheme_malformed d ∷ a) b = lines_of-append a b
lines_of-append (Event.worker r ∷ a) b = lines_of-append a b
lines_of-append (Event.shutdown ∷ a) b = lines_of-append a b

reports_of-append : (a b : List Event) → reports_of (a ++ b) ≡ reports_of a ++ reports_of b
reports_of-append [] b = refl
reports_of-append (Event.line l ∷ a) b = reports_of-append a b
reports_of-append (Event.oversize r ∷ a) b = ap (◌∷◌ r) (reports_of-append a b)
reports_of-append (Event.hangup ∷ a) b = reports_of-append a b
reports_of-append (Event.vanish n ∷ a) b = reports_of-append a b
reports_of-append (Event.scheme v ∷ a) b = reports_of-append a b
reports_of-append (Event.scheme_malformed d ∷ a) b = reports_of-append a b
reports_of-append (Event.worker r ∷ a) b = reports_of-append a b
reports_of-append (Event.shutdown ∷ a) b = reports_of-append a b

lines_of-lines : (ls : List Str) → lines_of (map Event.line ls) ≡ ls
lines_of-lines [] = refl
lines_of-lines (l ∷ ls) = ap (◌∷◌ l) (lines_of-lines ls)

lines_of-reports : (rs : List Str) → lines_of (map Event.oversize rs) ≡ []
lines_of-reports [] = refl
lines_of-reports (r ∷ rs) = lines_of-reports rs

reports_of-lines : (ls : List Str) → reports_of (map Event.line ls) ≡ []
reports_of-lines [] = refl
reports_of-lines (l ∷ ls) = reports_of-lines ls

reports_of-reports : (rs : List Str) → reports_of (map Event.oversize rs) ≡ rs
reports_of-reports [] = refl
reports_of-reports (r ∷ rs) = ap (◌∷◌ r) (reports_of-reports rs)

sent-lines :
    (f : LineFramer) (ls rs : List Str)
    → (lines_of (sent (f, ls, rs)) ≡ ls) × (reports_of (sent (f, ls, rs)) ≡ rs)
sent-lines f ls rs = (
  lines_of-append (map Event.oversize rs) (map Event.line ls)
      ∙ ap (λ x. x ++ lines_of (map Event.line ls)) (lines_of-reports rs)
      ∙ lines_of-lines ls,
  reports_of-append (map Event.oversize rs) (map Event.line ls)
      ∙ ap (λ x. reports_of (map Event.oversize rs) ++ x) (reports_of-lines ls)
      ∙ append-nil (reports_of (map Event.oversize rs))
      ∙ reports_of-reports rs,
)

sent-IsContent : (f : LineFramer) (ls rs : List Str) → All IsContent (sent (f, ls, rs))
sent-IsContent f ls rs =
    All-append IsContent (map Event.oversize rs) (map Event.line ls)
      (All-map IsContent Event.oversize rs (λ r. tt)) (All-map IsContent Event.line ls (λ l. tt))

ended : Splits (Event.hangup ∷ []) [] []
ended = record { body = []; whole = refl; content = tt; by_line = refl; by_report = refl }

read_on-Splits :
    (reads : List Read) (f : LineFramer)
    → let (f1, lines, reports) = feed_all f (chunks_of reads) in
      Splits (read_on reads f) lines reports
unfolding read_on feed_all
read_on-Splits [] f = ended
read_on-Splits (ok [] ∷ reads) f = ended
read_on-Splits (ok (b ∷ bytes) ∷ reads) f =
    let (f1, ls, rs) = feed f (b ∷ bytes) in
    let rest = read_on-Splits reads f1 in
    let out = sent (f1, ls, rs) in
    let here = sent-lines f1 ls rs in
    record {
      body = out ++ rest.body;
      whole =
          ap (λ es. out ++ es) rest.whole ∙ sym (append_assoc out rest.body (Event.hangup ∷ []));
      content = All-append IsContent out rest.body (sent-IsContent f1 ls rs) rest.content;
      by_line =
          lines_of-append out rest.body
          ∙ ap (λ x. x ++ lines_of rest.body) here.0
          ∙ ap (λ x. ls ++ x) rest.by_line;
      by_report =
          reports_of-append out rest.body
          ∙ ap (λ x. x ++ reports_of rest.body) here.1
          ∙ ap (λ x. rs ++ x) rest.by_report;
    }
read_on-Splits (err e ∷ reads) f = by_kind e.kind (read_on-Splits reads f)
  where
    by_kind :
        (k : IoKind)
        → Splits (read_on reads f) (feed_all f (chunks_of reads)).1 (feed_all f (chunks_of reads)).2
        → Splits
            (on_kind k f (read_on reads))
            (feed_all f (unless_kind k (chunks_of reads))).1
            (feed_all f (unless_kind k (chunks_of reads))).2
    by_kind interrupted s = s
    by_kind timed_out s = ended
    by_kind other s = ended

-- Whatever the pipe gives, in whatever pieces and with whatever interruptions: the thread sends one
-- hangup, as the last event, and before it only lines and reports; the lines are the finished lines
-- within the cap, decoded, in order, of the bytes before the end or the first error, and there is one
-- report for each line over the cap.
pub start_reader_lem :
    (reads : List Read)
    → let pieces = split newline (concat (chunks_of reads)) in
      (body : List Event) × (start_reader reads ≡ body ++ Event.hangup ∷ [])
      × All IsContent body
      × (lines_of body ≡ kept max_line_bytes (complete pieces))
      × (length (reports_of body)
          ≡ oversized max_line_bytes (complete pieces ++ partial pieces ∷ []))
unfolding start_reader
start_reader_lem reads =
    let s = read_on-Splits reads (new max_line_bytes true) in
    let all_reads = feed_all-reference max_line_bytes (chunks_of reads) in
    (s.body, s.whole, s.content, s.by_line ∙ all_reads.0, ap length s.by_report ∙ all_reads.1)
