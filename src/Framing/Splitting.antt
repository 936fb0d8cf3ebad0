-- ===== src/Framing/Splitting.antt =====
-- The pieces of a text between separators, when the text arrives in parts.
use mpris_chroma.Prelude.{
  ℕ, ◌≡◌, ◌≢◌, refl, ap, ◌∙◌, false, List, [], ◌∷◌, ◌++◌, ◌==◌, ==_iff, Bool-cases, inl, inr,
}
use mpris_chroma.Prelude.Text.{Str, split, add_piece, Lacks, split-ne-nil}

-- The finished pieces, and the last one.
abbrev pub complete : List Str → List Str
complete [] = []
complete (p ∷ []) = []
complete (p ∷ q ∷ rest) = p ∷ complete (q ∷ rest)

abbrev pub partial : List Str → Str
partial [] = []
partial (p ∷ []) = p
partial (p ∷ q ∷ rest) = partial (q ∷ rest)

pub split-lacking : (c : ℕ) (p : Str) → Lacks c p → split c p ≡ p ∷ []
unfolding split
split-lacking c [] l = refl
split-lacking c (a ∷ p) l = rw (l.0, split-lacking c p l.1)

pub split-at : (c : ℕ) (p r : Str) → Lacks c p → split c (p ++ c ∷ r) ≡ p ∷ split c r
unfolding split
split-at c [] r l = rw ((==_iff c c).1 refl)
split-at c (a ∷ p) r l = rw (l.0, split-at c p r l.1)

complete-add_piece_append :
    (c x : ℕ) (s : List Str) (b : Str)
    → s ≢ []
    → (x == c) ≡ false
    → add_piece false x (complete s ++ split c (partial s ++ b))
      ≡ complete (add_piece false x s) ++ split c (partial (add_piece false x s) ++ b)
unfolding split
complete-add_piece_append c x [] b n e = absurd (n refl)
complete-add_piece_append c x (p ∷ []) b n e = rw e
complete-add_piece_append c x (p ∷ q ∷ r) b n e = refl

complete-separator :
    (c : ℕ) (s : List Str) (b : Str)
    → s ≢ []
    → [] ∷ (complete s ++ split c (partial s ++ b))
      ≡ complete ([] ∷ s) ++ split c (partial ([] ∷ s) ++ b)
complete-separator c [] b n = absurd (n refl)
complete-separator c (p ∷ s) b n = refl

-- Only the unfinished piece meets what arrives next.
pub split-append :
    (c : ℕ) (a b : Str)
    → split c (a ++ b) ≡ complete (split c a) ++ split c (partial (split c a) ++ b)
unfolding split
split-append c [] b = refl
split-append c (x ∷ a) b = elim (Bool-cases (x == c)) [
  | inl t ↦
      rw t
        (ap (◌∷◌ []) (split-append c a b) ∙ complete-separator c (split c a) b (split-ne-nil c a))
  | inr f ↦ rw f (
      ap (add_piece false x) (split-append c a b)
      ∙ complete-add_piece_append c x (split c a) b (split-ne-nil c a) f)
]

pub complete-append : (s t : List Str) → t ≢ [] → complete (s ++ t) ≡ s ++ complete t
complete-append [] t n = refl
complete-append (p ∷ []) [] n = absurd (n refl)
complete-append (p ∷ []) (q ∷ t) n = refl
complete-append (p ∷ q ∷ s) t n = ap (◌∷◌ p) (complete-append (q ∷ s) t n)

pub partial-append : (s t : List Str) → t ≢ [] → partial (s ++ t) ≡ partial t
partial-append [] t n = refl
partial-append (p ∷ []) [] n = absurd (n refl)
partial-append (p ∷ []) (q ∷ t) n = refl
partial-append (p ∷ q ∷ s) t n = partial-append (q ∷ s) t n

pub complete-cons : (p : Str) (t : List Str) → t ≢ [] → complete (p ∷ t) ≡ p ∷ complete t
complete-cons p [] n = absurd (n refl)
complete-cons p (q ∷ t) n = refl

pub partial-cons : (p : Str) (t : List Str) → t ≢ [] → partial (p ∷ t) ≡ partial t
partial-cons p [] n = absurd (n refl)
partial-cons p (q ∷ t) n = refl
