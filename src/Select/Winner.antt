-- ===== src/Select/Winner.antt =====
-- src/select.rs, `decide` against its documentation: the three selections, and when each is made.
use mpris_chroma.Prelude.{
  ◌≡◌, refl, Bool, true, false, Option, none, List, [], ◌∷◌, Bool-cases, inl, inr, All, Any, keep,
  All-mono, subst, List-cases,
}
use mpris_chroma.Prelude.Text.{Str, FilePath}
use mpris_chroma.Prelude.Dict.{Dict}
use mpris_chroma.State.{Mode, PlayerState, is_playing}
use mpris_chroma.Select.{
  Entry, Selection, apply, revert, hold, ranks, sort_ranked, actionable, desired_for,
  first_actionable, rank_and_pick, decide,
}
use mpris_chroma.Select.Order.{
  Outranks, ranks-Outranks, IsRanked, ranks_refl, sort_ranked-IsRanked, All-sort_ranked,
  All-of-sort_ranked,
}

abbrev pub plays : Entry → Bool
plays e = is_playing e.1.status

All-keep :
    (P : Entry → Type 0) (p : Entry → Bool) (xs : List Entry)
    → All (λ e. p e ≡ true → P e) xs
    → All P (keep p xs)
All-keep P p [] a = tt
All-keep P p (x ∷ xs) a = elim (Bool-cases (p x)) [
  | inl t ↦ rw t (a.0 t, All-keep P p xs a.1)
  | inr f ↦ rw f (All-keep P p xs a.1)
]

All-of-keep :
    (P : Entry → Type 0) (p : Entry → Bool) (xs : List Entry)
    → All P (keep p xs)
    → All (λ e. p e ≡ true → P e) xs
All-of-keep P p [] a = tt
All-of-keep P p (x ∷ xs) a = elim (Bool-cases (p x)) [
  | inl t ↦ let b = rw t at a in (λ _. b.0, All-of-keep P p xs b.1)
  | inr f ↦ let b = rw f at a in (λ t. cc, All-of-keep P p xs b)
]

keep-eq_nil : (p : Entry → Bool) (xs : List Entry) → keep p xs ≡ [] → All (λ e. p e ≡ false) xs
keep-eq_nil p [] h = tt
keep-eq_nil p (x ∷ xs) h = elim (Bool-cases (p x)) [
  | inl t ↦ absurd (cc (rw t at h))
  | inr f ↦ (f, keep-eq_nil p xs (rw f at h))
]

keep-eq_cons :
    (p : Entry → Bool) (xs : List Entry) (y : Entry) (ys : List Entry)
    → keep p xs ≡ y ∷ ys
    → Any (λ e. p e ≡ true) xs
keep-eq_cons p [] y ys h = cc
keep-eq_cons p (x ∷ xs) y ys h = elim (Bool-cases (p x)) [
  | inl t ↦ inl t
  | inr f ↦ inr (keep-eq_cons p xs y ys (rw f at h))
]

All-self : (xs : List Entry) → All (λ a. Any (λ b. b ≡ a) xs) xs
All-self [] = tt
All-self (x ∷ xs) = (inl refl, All-mono _ _ xs (λ a m. inr m) (All-self xs))

All-at : (P : Entry → Type 0) (e : Entry) (xs : List Entry) → Any (λ a. a ≡ e) xs → All P xs → P e
All-at P e [] m a = elim m [ ]
All-at P e (x ∷ xs) (inl q) a = subst P q a.0
All-at P e (x ∷ xs) (inr m) a = All-at P e xs m a.1

module _ (mode : Mode) (covers_dir_for : Str → Option FilePath) (eligible : Str → Bool) where
  -- What each selection promises of the players.
  abbrev pub Decides : Dict PlayerState → Selection → Type 0
  Decides players (revert d) =
      (d ≡ record { target = none; mode = mode }) × All (λ e. plays e ≡ false) players
  Decides players hold =
      Any (λ e. plays e ≡ true) players
      × All (λ e. plays e ≡ true → actionable mode covers_dir_for eligible e ≡ false) players
  Decides players (apply d winner) =
      (e : Entry) × (winner ≡ e.0)
      × Any (λ a. a ≡ e) players
      × (plays e ≡ true)
      × (actionable mode covers_dir_for eligible e ≡ true)
      × (d ≡ desired_for mode covers_dir_for eligible e)
      × All (λ a. plays a ≡ true → actionable mode covers_dir_for eligible a ≡ true → Outranks e a)
          players

  -- What the loop promises of the ranked list that it walks.
  abbrev FirstOf : List Entry → Selection → Type 0
  FirstOf xs (revert d) = ⊥
  FirstOf xs hold = All (λ e. actionable mode covers_dir_for eligible e ≡ false) xs
  FirstOf xs (apply d winner) =
      (e : Entry) × (winner ≡ e.0)
      × Any (λ a. a ≡ e) xs
      × (actionable mode covers_dir_for eligible e ≡ true)
      × (d ≡ desired_for mode covers_dir_for eligible e)
      × All (λ a. actionable mode covers_dir_for eligible a ≡ true → ranks e a ≡ true) xs

  FirstOf-skip :
      (e : Entry) (es : List Entry) (sel : Selection)
      → actionable mode covers_dir_for eligible e ≡ false
      → FirstOf es sel
      → FirstOf (e ∷ es) sel
  FirstOf-skip e es (revert d) f r = r
  FirstOf-skip e es hold f r = (f, r)
  FirstOf-skip e es (apply d w) f (x, w_eq, m, act, d_eq, a) =
      (x, w_eq, inr m, act, d_eq, ((λ t. cc), a))

  first_actionable-FirstOf :
      (xs : List Entry)
      → IsRanked xs
      → FirstOf xs (first_actionable mode covers_dir_for eligible xs)
  unfolding first_actionable
  first_actionable-FirstOf [] s = tt
  first_actionable-FirstOf (e ∷ es) s =
      elim (Bool-cases (actionable mode covers_dir_for eligible e)) [
        | inl t ↦
            rw t
              (e, refl, inl refl, t, refl, ((λ _. ranks_refl e), All-mono _ _ es (λ a r _. r) s.0))
        | inr f ↦ rw f (FirstOf-skip e es _ f (first_actionable-FirstOf es s.1))
      ]

  Decides-of-FirstOf :
      (players : Dict PlayerState) (sel : Selection)
      → Any (λ e. plays e ≡ true) players
      → FirstOf (sort_ranked (keep plays players)) sel
      → Decides players sel
  Decides-of-FirstOf players (revert d) some_plays r = elim r [ ]
  Decides-of-FirstOf players hold some_plays r =
      (some_plays, All-of-keep _ plays players (All-of-sort_ranked _ _ r))
  Decides-of-FirstOf players (apply d w) some_plays (e, w_eq, m, act, d_eq, a) =
      let here = All-sort_ranked _ _ (
        All-keep (λ a. Any (λ b. b ≡ a) players × (plays a ≡ true)) plays players
          (All-mono _ _ players (λ a i t. (i, t)) (All-self players))) in
      let found = All-at _ e _ m here in
      (
        e,
        w_eq,
        found.0,
        found.1,
        act,
        d_eq,
        All-mono _ _ players (λ b first p q. ranks-Outranks e b (first p q))
            (All-of-keep _ plays players (All-of-sort_ranked _ _ a)),
      )

  -- The selection is the documented one: `revert` exactly when nobody plays, `hold` when somebody
  -- plays and no playing entry is actionable (an art source and eligible), and otherwise the
  -- actionable playing entry that is newer than every other actionable playing one, or of the same
  -- age and first by name, with its URL and directory and the mode as the desired state.
  pub decide-Decides :
      (players : Dict PlayerState) → Decides players (decide mode covers_dir_for eligible players)
  unfolding decide
  decide-Decides players = elim (List-cases (keep plays players)) [
    | inl e ↦ rw (e, rank_and_pick) (refl, keep-eq_nil plays players e)
    | inr (y, ys, e) ↦
        rw (e, rank_and_pick)
          (rw (← e) (
            Decides-of-FirstOf players _ (keep-eq_cons plays players y ys e)
              (first_actionable-FirstOf _ (sort_ranked-IsRanked _))))
  ]
