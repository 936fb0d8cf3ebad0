-- ===== src/Sources/Tests.antt =====
-- Signals of the portal.
use mpris_chroma.Prelude.{◌≡◌, refl, none, some, List, [], ◌∷◌, ◌++◌, concat, length, All}
use mpris_chroma.Prelude.Text.{codes, str_eq, split}
use mpris_chroma.Prelude.Int.{pos}
use mpris_chroma.Prelude.Result.{ok, err}
use mpris_chroma.Prelude.Utf8.{from_utf8_lossy}
use mpris_chroma.Cover.{interrupted}
use mpris_chroma.Cover.Fetch.{Read}
use mpris_chroma.Framing.{max_line_bytes, new, feed, frame_loop, find_newline}
use mpris_chroma.Framing.Reference.{kept, oversized}
use mpris_chroma.Framing.Splitting.{complete, partial}
use mpris_chroma.Sources.Reader.{
  read_on, start_reader, chunks_of, lines_of, reports_of, IsContent, start_reader_lem,
}
use mpris_chroma.Runtime.{Event}
use mpris_chroma.Sources.{integer, appearance_ns, scheme_key, nested, scheme_value, scheme_event}

prefers_light : scheme_event appearance_ns scheme_key [] (nested 2 (pos 2)) ≡ some (Event.scheme 2)
unfolding scheme_event scheme_value str_eq
prefers_light = refl

another_setting : scheme_event appearance_ns (codes "contrast") [] (integer (pos 1)) ≡ none
unfolding scheme_event str_eq
another_setting = refl

-- Two lines in three reads, one of them interrupted, and a partial line at the end.
abbrev reads : List Read
reads =
    ok (codes "a\tPl")
    ∷ err (record { kind = interrupted; text = [] })
    ∷ ok (codes "aying\t\nb\n")
    ∷ ok (codes "c")
    ∷ []

two_lines :
    start_reader reads
    ≡ Event.line (codes "a\tPlaying\t") ∷ Event.line (codes "b") ∷ Event.hangup ∷ []
unfolding start_reader read_on new feed frame_loop find_newline from_utf8_lossy
two_lines = refl

start_reader_lem_example :
    let pieces = split b'\n' (concat (chunks_of reads)) in
    (body : List Event) × (start_reader reads ≡ body ++ Event.hangup ∷ [])
    × All IsContent body
    × (lines_of body ≡ kept max_line_bytes (complete pieces))
    × (length (reports_of body) ≡ oversized max_line_bytes (complete pieces ++ partial pieces ∷ []))
start_reader_lem_example = start_reader_lem reads
