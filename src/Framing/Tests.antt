-- ===== src/Framing/Tests.antt =====
-- The framer on a concrete stream, and the theorems about it there.
use mpris_chroma.Prelude.{ℕ, ◌≤◌, ◌≡◌, refl, true, List, [], ◌∷◌, ◌++◌, length, concat}
use mpris_chroma.Prelude.Text.{codes, split, decimal}
use mpris_chroma.Prelude.Utf8.{from_utf8_lossy}
use mpris_chroma.Framing.{new, drop_line, find_newline, frame_loop, feed, feed_all}
use mpris_chroma.Framing.Splitting.{complete, partial}
use mpris_chroma.Framing.Reference.{newline, kept, oversized}
use mpris_chroma.Framing.Stream.{feed_all-reference}

-- "ab", then a line of seven bytes in two reads, then "c" and an unfinished "d".
abbrev reads : List (List ℕ)
reads = codes "ab\nover" ∷ codes "ive\nc\nd" ∷ []

reads_lines : (feed_all (new 5 true) reads).1 ≡ codes "ab" ∷ codes "c" ∷ []
unfolding feed_all feed frame_loop find_newline new from_utf8_lossy
reads_lines = refl

reads_reports : (feed_all (new 5 true) reads).2 ≡ codes "line exceeded 5 bytes (7+)" ∷ []
unfolding feed_all feed frame_loop find_newline new from_utf8_lossy drop_line decimal
reads_reports = refl

feed_all-reference_example :
    let (f, lines, reports) = feed_all (new 5 true) reads in
    let pieces = split newline (concat reads) in
    (lines ≡ kept 5 (complete pieces))
    × (length reports ≡ oversized 5 (complete pieces ++ partial pieces ∷ []))
    × (length f.buf ≤ 5)
feed_all-reference_example = feed_all-reference 5 reads
