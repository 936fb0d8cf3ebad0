-- ===== src/Memo.antt =====
-- src/color/mod.rs, `PaletteMemo`: the one-slot memo over the half of extraction that does not look
-- at the mode. Picks, their selection from a file and their rendering are parameters; a selection
-- that panics has no result.
mod Tests
use mpris_chroma.Prelude.{
  ℕ, ◌≡◌, ◌⊎◌, inl, inr, refl, ap, sym, ◌∙◌, Bool, true, false, Option, none, some, List, [], ◌∷◌,
  map, All, arith, Bool-cases, if_cases, if◌then◌else◌,
}
use mpris_chroma.Prelude.Text.{Str, FilePath}
use mpris_chroma.State.{Mode}
use mpris_chroma.Cover.{ContentId, content_eq, content_eq_iff}
use mpris_chroma.Worker.{Colors}

-- The two halves, and the file name that messages show.
pub record Halves (Picks : Type 0) (W : Type 0) : Type 0 where
  pub select : FilePath → W → W × Option Picks
  pub render : Picks → Mode → Str → Colors
  pub label : FilePath → Str

abbrev pub Memo : Type 0 → Type 0
Memo Picks = Option (ContentId × Picks)

-- One call of the memo, and one of the uncached extraction.
pub record Request : Type 0 where
  pub path : FilePath
  pub mode : Mode
  pub content : ContentId

module _ {Picks W : Type 0} (h : Halves Picks W) where
  abbrev pub rendered : Request → Picks → Colors
  rendered r picks = h.render picks r.mode (h.label r.path)

  abbrev pub on_selected : Request → Memo Picks → W × Option Picks → W × Memo Picks × Option Colors
  on_selected r slot (w, none) = (w, slot, none)
  on_selected r slot (w, some picks) = (w, some (r.content, picks), some (rendered r picks))

  abbrev pub on_slot : Request → Memo Picks → W → W × Memo Picks × Option Colors
  on_slot r none w = on_selected r none (h.select r.path w)
  on_slot r (some (key, picks)) w =
      if content_eq key r.content
      then (w, some (key, picks), some (rendered r picks))
      else on_selected r (some (key, picks)) (h.select r.path w)

  unfoldable pub get : Request → Memo Picks → W → W × Memo Picks × Option Colors
  get r slot w = on_slot r slot w

  unfoldable pub get_all : List Request → Memo Picks → W → List (Option Colors)
  get_all [] slot w = []
  get_all (r ∷ rs) slot w = let (w1, slot1, out) = get r slot w in out ∷ get_all rs slot1 w1

  module _ (picks_of : ContentId → Picks) where
    -- The file shows the content that its identity names, whenever it is selected from.
    abbrev pub Shows : Request → Type 0
    Shows r = (w : W) → (h.select r.path w).1 ≡ some (picks_of r.content)

    abbrev IsFaithful : Memo Picks → Type 0
    IsFaithful slot = (key : ContentId) (p : Picks) → slot ≡ some (key, p) → p ≡ picks_of key

    on_selected-IsFaithful :
        (r : Request) (slot : Memo Picks) (o : W × Option Picks)
        → o.1 ≡ some (picks_of r.content)
        → IsFaithful (on_selected r slot o).1
          × ((on_selected r slot o).2 ≡ some (rendered r (picks_of r.content)))
    on_selected-IsFaithful r slot (w, none) e = absurd (ground (arith, e))
    on_selected-IsFaithful r slot (w, some p) e =
        ((λ key q same. ground (arith, e, same)), ground (arith, e))

    get-IsFaithful :
        (r : Request) (slot : Memo Picks) (w : W)
        → Shows r
        → IsFaithful slot
        → IsFaithful (get r slot w).1 × ((get r slot w).2 ≡ some (rendered r (picks_of r.content)))
    unfolding get
    get-IsFaithful r none w shows f = on_selected-IsFaithful r none (h.select r.path w) (shows w)
    get-IsFaithful r (some (key, p)) w shows f =
        if_cases {A = W × Memo Picks × Option Colors}
          (λ o. IsFaithful o.1 × (o.2 ≡ some (rendered r (picks_of r.content))))
          (content_eq key r.content) _ _
          (λ t.
            let same = (content_eq_iff key r.content).0 t in
            (f, ap (λ q. some (rendered r q)) (f key p refl ∙ ap picks_of same)))
          (λ _. on_selected-IsFaithful r (some (key, p)) (h.select r.path w) (shows w))

    get_all-rendered :
        (rs : List Request) (slot : Memo Picks) (w : W)
        → All Shows rs
        → IsFaithful slot
        → get_all rs slot w ≡ map (λ r. some (rendered r (picks_of r.content))) rs
    unfolding get_all
    get_all-rendered [] slot w shows f = refl
    get_all-rendered (r ∷ rs) slot w shows f =
        let here = get-IsFaithful r slot w shows.0 f in
        let rest = get_all-rendered rs (get r slot w).1 (get r slot w).0 shows.1 here.0 in
        ap (λ out. out ∷ get_all rs (get r slot w).1 (get r slot w).0) here.1
        ∙ ap (◌∷◌ (some (rendered r (picks_of r.content)))) rest

    -- The memo agrees with the uncached extraction: if every file shows what its content identity
    -- names whenever it is read, then any sequence of requests through a new memo, modes and files
    -- mixed as they come, gives for each request the rendering of its own picture in its own mode.
    pub get_all-uncached :
        (rs : List Request) (w : W)
        → All Shows rs
        → get_all rs none w ≡ map (λ r. some (rendered r (picks_of r.content))) rs
    get_all-uncached rs w shows = get_all-rendered rs none w shows (λ key p e. ground arith)
