-- ===== src/Select.antt =====
-- src/select.rs: which end-state the per-player states ask for. The sort compares names as Rust
-- does, by their bytes, whose order is that of the scalar values.
pub mod Order
pub mod Winner
use mpris_chroma.Prelude.{
  ℕ, ◌≡◌, Bool, true, false, not, ◌&&◌, ◌||◌, Option, none, some, List, [], ◌∷◌, if◌then◌else◌, ltb,
  ◌==◌, keep, is_some,
}
use mpris_chroma.Prelude.Text.{Str, FilePath, is_empty}
use mpris_chroma.Prelude.Dict.{Dict}
use mpris_chroma.State.{Mode, PlayerState, is_playing}
use mpris_chroma.Job.{CoverTarget, Desired}

pub data Selection : Type 0 where
  apply : Desired → Str → Selection
  revert : Desired → Selection
  hold : Selection

abbrev pub Entry : Type 0
Entry = Str × PlayerState

unfoldable pub str_leb : Str → Str → Bool
str_leb [] t = true
str_leb (a ∷ s) [] = false
str_leb (a ∷ s) (b ∷ t) = ltb a b || (a == b && str_leb s t)

-- Newest first, then by name.
unfoldable pub ranks : Entry → Entry → Bool
ranks a b = ltb b.1.seq a.1.seq || (a.1.seq == b.1.seq && str_leb a.0 b.0)

unfoldable pub insert_ranked : Entry → List Entry → List Entry
insert_ranked x [] = x ∷ []
insert_ranked x (y ∷ ys) = if ranks x y then x ∷ y ∷ ys else y ∷ insert_ranked x ys

unfoldable pub sort_ranked : List Entry → List Entry
sort_ranked [] = []
sort_ranked (x ∷ xs) = insert_ranked x (sort_ranked xs)

module _ (mode : Mode) (covers_dir_for : Str → Option FilePath) (eligible : Str → Bool) where
  unfoldable pub actionable : Entry → Bool
  actionable (name, p) =
      (not (is_empty p.art_url) || is_some (covers_dir_for name)) && eligible name

  abbrev pub desired_for : Entry → Desired
  desired_for (name, p) = record {
    target = some (record { art_url = p.art_url; covers_dir = covers_dir_for name });
    mode = mode;
  }

  -- The loop over the ranked players.
  unfoldable pub first_actionable : List Entry → Selection
  first_actionable [] = hold
  first_actionable (e ∷ es) =
      if actionable e then apply (desired_for e) e.0 else first_actionable es

  abbrev pub rank_and_pick : List Entry → Selection
  rank_and_pick [] = revert (record { target = none; mode = mode })
  rank_and_pick (e ∷ es) = first_actionable (sort_ranked (e ∷ es))

  unfoldable pub decide : Dict PlayerState → Selection
  decide players = rank_and_pick (keep (λ e. is_playing e.1.status) players)
