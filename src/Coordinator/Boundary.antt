-- ===== src/Coordinator/Boundary.antt =====
-- The trust boundary of src/coordinator.rs: which lines are accepted, and what a refused one does.
use mpris_chroma.Prelude.{
  ℕ, ◌≡◌, refl, ap, sym, ◌∙◌, true, false, not, ◌⊎◌, inl, inr, Option, none, some, List, [], ◌∷◌,
  ◌++◌, arith, All, Any, any-Any, Any-any, Any-mono, if_cases, subst, ◌↔◌, Bool-cases, Option-cases,
  replicate,
}
use mpris_chroma.Prelude.Text.{
  Str, codes, str_eq, str_eq_iff, strip_prefix, strip_prefix-eq_some, strip_prefix-append,
  starts_with, split, trim_end_matches, joined, Lacks, joined-split, split-Lacks,
  trim_end_matches-append,
}
use mpris_chroma.Prelude.Dict
use mpris_chroma.Coordinator.Form.{status_text, line_of, parse_status-status_text, fields_of}
use mpris_chroma.State.{PlaybackStatus, playing, paused, stopped, parse_status}
use mpris_chroma.Coordinator.{
  Host, Coordinator, Warning, dropped, allowed_name, matches_base, starts_with_dot,
  drop_log_interval,
}
use mpris_chroma.Coordinator.Submit.{decide_and_submit}
use mpris_chroma.Coordinator.Handlers.{
  on_line, on_fields, with_status, accept_line, log_drop, note_player, maintain_cover, is_due,
}

parse_status-eq_some :
    (s : Str) (st : PlaybackStatus) → parse_status s ≡ some st → s ≡ status_text st
unfolding parse_status
parse_status-eq_some s playing h = ground (arith, str_eq_iff s (codes "Playing"))
parse_status-eq_some s paused h = ground (arith, str_eq_iff s (codes "Paused"))
parse_status-eq_some s stopped h = ground (arith, str_eq_iff s (codes "Stopped"))

-- The name is a followed player's, alone or with an instance suffix.
abbrev pub Follows : Str → Str → Type 0
Follows name base = (name ≡ base) ⊎ ((rest : Str) × (name ≡ base ++ b'.' ∷ rest))

starts_with_dot-eq_true :
    (o : Option Str) → starts_with_dot o ≡ true → (rest : Str) × (o ≡ some (b'.' ∷ rest))
unfolding starts_with
starts_with_dot-eq_true none h = cc
starts_with_dot-eq_true (some s) h = elim (Option-cases (strip_prefix (codes ".") s)) [
  | inl e ↦ absurd (cc (rw (e, starts_with) at h))
  | inr (r, e) ↦ (r, ap some (strip_prefix-eq_some (codes ".") s r e))
]

pub matches_base-Follows : (name base : Str) → matches_base name base ≡ true → Follows name base
unfolding matches_base
matches_base-Follows name base h = elim (Bool-cases (str_eq name base)) [
  | inl t ↦ inl ((str_eq_iff name base).0 t)
  | inr f ↦
      let (rest, e) = starts_with_dot-eq_true _ (rw f at h) in
      inr (rest, strip_prefix-eq_some base name (b'.' ∷ rest) e)
]

pub Follows-matches_base : (name base : Str) → Follows name base → matches_base name base ≡ true
unfolding matches_base starts_with strip_prefix
Follows-matches_base name base (inl e) = rw ((str_eq_iff name base).1 e)
Follows-matches_base name base (inr (rest, e)) = elim (Bool-cases (str_eq name base)) [
  | inl t ↦ rw t
  | inr f ↦ rw (f, e, strip_prefix-append base (b'.' ∷ rest))
]

-- A name is accepted exactly when it is a configured base, or a base followed by a dot and any
-- suffix; a longer name that merely begins like a base is not.
pub allowed_name_iff :
    {H : Type 0} (c : Coordinator H) (name : Str)
    → (allowed_name c name ≡ true) ↔ Any (Follows name) c.allowed_bases
unfolding allowed_name
allowed_name_iff c name = (
  (λ h. Any-mono _ _ c.allowed_bases (matches_base-Follows name) (any-Any _ _ h)),
  (λ f. Any-any _ _ (Any-mono _ _ c.allowed_bases (Follows-matches_base name) f)),
)

three_fields :
    (line name status art : Str)
    → split b'\t' (trim_end_matches b'\n' line) ≡ name ∷ status ∷ art ∷ []
    → (n : ℕ) × (line ≡ line_of name status art n) × Lacks b'\t' name × Lacks b'\t' art
three_fields line name status art e =
    let t = trim_end_matches b'\n' line in
    let (n, tail) = trim_end_matches-append b'\n' line in
    let j = joined-split b'\t' t in
    let l = subst (All (Lacks b'\t')) e (split-Lacks b'\t' t) in
    (n, tail ∙ ap (λ x. x ++ replicate n b'\n') (sym j ∙ ap (joined b'\t') e), l.0, l.1.1.0)

-- The text of an accepted line, and what accepting it does.
pub record IsAccepted {H : Type 0} ⦃h : Host H⦄ (c : Coordinator H) (line : Str) : Type 0 where
  pub name : Str
  pub status : PlaybackStatus
  pub art_url : Str
  pub newlines : ℕ
  pub text : line ≡ line_of name (status_text status) art_url newlines
  pub no_tab : Lacks b'\t' name × Lacks b'\t' art_url
  pub followed : Any (Follows name) c.allowed_bases
  pub effect :
      on_line line c
      ≡ decide_and_submit true (maintain_cover name art_url (note_player name status art_url c))

-- The line has not the form of an accepted one, with a followed player's name.
pub record IsMalformed {H : Type 0} (c : Coordinator H) (line : Str) : Type 0 where
  pub no_form :
      (name art : Str) (status : PlaybackStatus) (newlines : ℕ)
      → line ≡ line_of name (status_text status) art newlines
      → Lacks b'\t' name × Lacks b'\t' art
      → Any (Follows name) c.allowed_bases
      → ⊥

-- At most a warning: nothing but the host and the limiter's table can differ.
pub record IsDropped {H : Type 0} ⦃h : Host H⦄ (c d : Coordinator H) : Type 0 where
  pub same : d ≡ record c { host = d.host; last_drop_log = d.last_drop_log }
  pub warned : (d.host ≡ c.host) ⊎ ((w : Warning) × (d.host ≡ h.warn w c.host))

module _ {H : Type 0} ⦃h : Host H⦄ where
  pub log_drop-IsDropped :
      (cat detail : Str) (c : Coordinator H) → IsDropped c (log_drop cat detail c)
  unfolding log_drop
  log_drop-IsDropped cat detail c =
      if_cases (IsDropped c)
        (is_due drop_log_interval (h.now c.host) (Dict.get cat c.last_drop_log)) _ _
        (λ _. record { same = refl; warned = inr (dropped cat detail, refl) })
        (λ _. record { same = refl; warned = inl refl })

  -- Fields that are not accepted.
  abbrev IsUnfit : Coordinator H → List Str → Type 0
  IsUnfit c parts =
      (name art : Str) (status : PlaybackStatus)
      → parts ≡ name ∷ status_text status ∷ art ∷ []
      → allowed_name c name ≡ true
      → ⊥

  IsUnfit-IsMalformed :
      (line : Str) (c : Coordinator H)
      → IsUnfit c (split b'\t' (trim_end_matches b'\n' line))
      → IsMalformed c line
  IsUnfit-IsMalformed line c unfit = record {
    no_form = λ name art status n text clean follows.
        unfit name (trim_end_matches b'\n' art) status
          (ap (λ l. split b'\t' (trim_end_matches b'\n' l)) text
            ∙ fields_of name art status n clean.0 clean.1)
          ((allowed_name_iff c name).1 follows);
  }

  abbrev Verdict : Str → List Str → Coordinator H → Coordinator H → Type 0
  Verdict line parts c d = IsAccepted c line ⊎ (IsUnfit c parts × IsDropped c d)

  fields-Verdict :
      (line name status art : Str) (c : Coordinator H)
      → split b'\t' (trim_end_matches b'\n' line) ≡ name ∷ status ∷ art ∷ []
      → on_line line c ≡ on_fields (name ∷ status ∷ art ∷ []) c
      → Verdict line (name ∷ status ∷ art ∷ []) c (on_fields (name ∷ status ∷ art ∷ []) c)
  unfolding on_fields accept_line
  fields-Verdict line name status art c e f =
      if_cases (Verdict line (name ∷ status ∷ art ∷ []) c) (not (allowed_name c name)) _ _
        (λ no. inr (
          λ name' art' st s ok.
              let same : name ≡ name' = ground arith in absurd (cc (rw same at no, ok)),
          log_drop-IsDropped _ _ c,
        ))
        (λ ok. by_status ok (parse_status status) refl)
    where
      by_status :
          not (allowed_name c name) ≡ false
          → (o : Option PlaybackStatus) → parse_status status ≡ o
          → Verdict line (name ∷ status ∷ art ∷ []) c (with_status name o art c)
      by_status ok none q = inr (
        λ name' art' st s _.
            let same : status ≡ status_text st = ground arith in
            absurd (cc (ap parse_status same, parse_status-status_text st, q)),
        log_drop-IsDropped _ _ c,
      )
      by_status ok (some st) q =
          let (n, text, clean, clean') = three_fields line name status art e in
          inl (record {
            name = name;
            status = st;
            art_url = art;
            newlines = n;
            text = text ∙ ap (λ s. line_of name s art n) (parse_status-eq_some status st q);
            no_tab = (clean, clean');
            followed = (allowed_name_iff c name).0 (ground arith);
            effect = f ∙ rw (ok, q);
          })

  parts-Verdict :
      (line : Str) (c : Coordinator H) (parts : List Str)
      → split b'\t' (trim_end_matches b'\n' line) ≡ parts
      → on_line line c ≡ on_fields parts c
      → Verdict line parts c (on_fields parts c)
  unfolding on_fields
  parts-Verdict line c (name ∷ status ∷ art ∷ []) e f = fields-Verdict line name status art c e f
  parts-Verdict line c [] e f = inr (λ name art st s _. absurd (cc), log_drop-IsDropped _ _ c)
  parts-Verdict line c (a ∷ []) e f =
      inr (λ name art st s _. absurd (ground arith), log_drop-IsDropped _ _ c)
  parts-Verdict line c (a ∷ b ∷ []) e f =
      inr (λ name art st s _. absurd (ground arith), log_drop-IsDropped _ _ c)
  parts-Verdict line c (a ∷ b ∷ d ∷ x ∷ rest) e f =
      inr (λ name art st s _. absurd (ground arith), log_drop-IsDropped _ _ c)

  -- A well-formed line is a followed player's name, a known status and a URL with single tabs between
  -- them, no tab inside the name or the URL, and only newlines behind. Every line either is well
  -- formed, and its effect is to note the player, maintain the cover state and decide again; or it
  -- is not well formed, and it changes nothing but the limiter's table and the host, which at most
  -- logs one warning.
  pub on_line_boundary :
      (line : Str) (c : Coordinator H)
      → IsAccepted c line ⊎ (IsMalformed c line × IsDropped c (on_line line c))
  unfolding on_line
  on_line_boundary line c =
      elim (parts-Verdict line c (split b'\t' (trim_end_matches b'\n' line)) refl refl) [
        | inl accepted ↦ inl accepted
        | inr (unfit, left) ↦ inr (IsUnfit-IsMalformed line c unfit, left)
      ]
