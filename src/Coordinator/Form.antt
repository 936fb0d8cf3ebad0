-- ===== src/Coordinator/Form.antt =====
-- src/coordinator.rs, the text of a well-formed line: how it is trimmed and split.
use mpris_chroma.Prelude.{
  ℕ, zero, suc, ◌≡◌, refl, ap, Bool, true, false, some, [], ◌∷◌, ◌++◌, ◌==◌, ==_iff, replicate,
}
use mpris_chroma.Prelude.Text.{Str, codes, str_eq, split, cons_unless, trim_end_matches, Lacks}
use mpris_chroma.State.{PlaybackStatus, playing, paused, stopped, parse_status}

abbrev pub status_text : PlaybackStatus → Str
status_text playing = codes "Playing"
status_text paused = codes "Paused"
status_text stopped = codes "Stopped"

abbrev pub line_of : Str → Str → Str → ℕ → Str
line_of name status art n = (name ++ (b'\t' ∷ (status ++ (b'\t' ∷ art)))) ++ replicate n b'\n'

pub parse_status-status_text : (st : PlaybackStatus) → parse_status (status_text st) ≡ some st
unfolding parse_status str_eq
parse_status-status_text playing = refl
parse_status-status_text paused = refl
parse_status-status_text stopped = refl

status_text-Lacks : (st : PlaybackStatus) → Lacks b'\t' (status_text st)
status_text-Lacks playing = (refl, (refl, (refl, (refl, (refl, (refl, (refl, tt)))))))
status_text-Lacks paused = (refl, (refl, (refl, (refl, (refl, (refl, tt))))))
status_text-Lacks stopped = (refl, (refl, (refl, (refl, (refl, (refl, (refl, tt)))))))

trim-replicate : (c n : ℕ) → trim_end_matches c (replicate n c) ≡ []
unfolding trim_end_matches
trim-replicate c zero = refl
trim-replicate c (suc n) = rw ((==_iff c c).1 refl, trim-replicate c n) refl

trim-append : (c n : ℕ) (s : Str) → trim_end_matches c (s ++ replicate n c) ≡ trim_end_matches c s
unfolding trim_end_matches
trim-append c n [] = trim-replicate c n
trim-append c n (a ∷ s) = ap (cons_unless (a == c) a) (trim-append c n s)

cons_unless-nonempty :
    (b : Bool) (a d : ℕ) (s t : Str) → cons_unless b a (s ++ d ∷ t) ≡ a ∷ (s ++ d ∷ t)
cons_unless-nonempty true a d [] t = refl
cons_unless-nonempty true a d (e ∷ s) t = refl
cons_unless-nonempty false a d [] t = refl
cons_unless-nonempty false a d (e ∷ s) t = refl

cons_unless-false : (a : ℕ) (s : Str) → cons_unless false a s ≡ a ∷ s
cons_unless-false a [] = refl
cons_unless-false a (b ∷ s) = refl

-- Nothing is trimmed up to another character.
trim-past :
    (c d : ℕ) (s t : Str)
    → (d == c) ≡ false
    → trim_end_matches c (s ++ d ∷ t) ≡ s ++ d ∷ trim_end_matches c t
unfolding trim_end_matches
trim-past c d [] t h = rw h (cons_unless-false d (trim_end_matches c t))
trim-past c d (a ∷ s) t h =
    rw (trim-past c d s t h) (cons_unless-nonempty (a == c) a d s (trim_end_matches c t))

trim-Lacks : (c d : ℕ) (s : Str) → Lacks c s → Lacks c (trim_end_matches d s)
unfolding trim_end_matches
trim-Lacks c d [] a = tt
trim-Lacks c d (x ∷ s) (h, a) = kept (x == d) (trim_end_matches d s) (trim-Lacks c d s a)
  where
    kept : (b : Bool) (t : Str) → Lacks c t → Lacks c (cons_unless b x t)
    kept true [] l = tt
    kept false [] l = (h, tt)
    kept true (y ∷ t) l = (h, l)
    kept false (y ∷ t) l = (h, l)

split-whole : (c : ℕ) (s : Str) → Lacks c s → split c s ≡ s ∷ []
unfolding split
split-whole c [] a = refl
split-whole c (x ∷ s) (h, a) = rw (h, split-whole c s a) refl

split-past : (c : ℕ) (s t : Str) → Lacks c s → split c (s ++ c ∷ t) ≡ s ∷ split c t
unfolding split
split-past c [] t a = rw ((==_iff c c).1 refl) refl
split-past c (x ∷ s) t (h, a) = rw (h, split-past c s t a) refl

-- The fields of a well-formed line.
pub fields_of :
    (name art : Str) (st : PlaybackStatus) (n : ℕ)
    → Lacks b'\t' name
    → Lacks b'\t' art
    → split b'\t' (trim_end_matches b'\n' (line_of name (status_text st) art n))
      ≡ name ∷ status_text st ∷ trim_end_matches b'\n' art ∷ []
fields_of name art st n a b =
    rw
      (
        trim-append b'\n' n (name ++ (b'\t' ∷ (status_text st ++ (b'\t' ∷ art)))),
        trim-past b'\n' b'\t' name (status_text st ++ (b'\t' ∷ art)) refl,
        trim-past b'\n' b'\t' (status_text st) art refl,
        split-past b'\t' name (status_text st ++ (b'\t' ∷ trim_end_matches b'\n' art)) a,
        split-past b'\t' (status_text st) (trim_end_matches b'\n' art) (status_text-Lacks st),
        split-whole b'\t' (trim_end_matches b'\n' art) (trim-Lacks b'\t' b'\n' art b),
      )
      refl
