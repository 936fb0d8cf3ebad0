-- ===== src/Memo/Tests.antt =====
-- A theme flip and a change of cover through the memo; the world counts the selections.
use mpris_chroma.Prelude.{ℕ, suc, ◌≡◌, refl, none, some, List, [], ◌∷◌, map}
use mpris_chroma.Prelude.Text.{FilePath, codes}
use mpris_chroma.Prelude.Int.{pos}
use mpris_chroma.State.{Mode, dark, light}
use mpris_chroma.Cover.{content_eq}
use mpris_chroma.Worker.{Colors}
use mpris_chroma.Memo.{Halves, Request, rendered, get, get_all, get_all-uncached}

-- The picks are the path itself, and a file's path is as long as its content's size.
abbrev size_of : FilePath → ℕ
size_of [] = 0
size_of (c ∷ s) = suc (size_of s)

abbrev shade : ℕ → Mode → Colors
shade n dark = (n ∷ [], [], [])
shade n light = ([], n ∷ [], [])

abbrev halves : Halves ℕ ℕ
halves = record {
  select = λ path w. (suc w, some (size_of path));
  render = λ picks mode label. shade picks mode;
  label = λ path. path;
}

abbrev request : FilePath → Mode → Request
request path mode = record {
  path = path;
  mode = mode;
  content = record { size = size_of path; mtime_ns = pos 1 };
}

abbrev flip : List Request
flip = request (codes "/a") dark ∷ request (codes "/a") light ∷ request (codes "/bc") light ∷ []

-- The flip selects nothing again.
selected_once :
    (get halves (request (codes "/a") light) (get halves (request (codes "/a") dark) none 0).1 1).0
    ≡ 1
unfolding get content_eq
selected_once = refl

get_all-uncached_example :
    get_all halves flip none 0 ≡ map (λ r. some (rendered halves r r.content.size)) flip
get_all-uncached_example =
    get_all-uncached halves (λ id. id.size) flip 0 ((λ w. refl), ((λ w. refl), ((λ w. refl), tt)))
