-- ===== src/Cover/Policy/Allowed.antt =====
-- src/cover/policy.rs, `host_allowed`: the domains themselves and their subdomains, nothing else.
use mpris_chroma.Prelude.{
  ℕ, ◌-◌, ◌≡◌, ◌↔◌, ◌⊎◌, inl, inr, refl, ap, sym, ◌∙◌, true, ◌||◌, ==_iff, some, List, [], ◌∷◌,
  ◌++◌, append_assoc, arith, length, take, drop, Any, Any-mono, any-Any, Any-any, leb, le→leb,
  Bool-cases, Option-cases, length-append, take-append-drop,
}
use mpris_chroma.Prelude.Text.{Str, str_eq, str_eq_iff, str_eq_refl}
use mpris_chroma.Cover.Policy.{Texts, strip_suffix, ends_with, ends_with_dot, host_allowed}

drop-append : (r s : Str) → drop (length r) (r ++ s) ≡ s
drop-append [] s = refl
drop-append (c ∷ r) s = drop-append r s

take-append : (r s : Str) → take (length r) (r ++ s) ≡ r
take-append [] s = refl
take-append (c ∷ r) s = ap (◌∷◌ c) (take-append r s)

strip_suffix-append : (d r : Str) → strip_suffix d (r ++ d) ≡ some r
unfolding strip_suffix
strip_suffix-append d r =
    let n : length (r ++ d) - length d ≡ length r = omega (arith, length-append r d) in
    let fits : leb (length d) (length (r ++ d)) ≡ true =
      le→leb _ _ (omega (arith, length-append r d)) in
    rw (n, fits, drop-append r d, str_eq_refl d, take-append r d)

strip_suffix-eq_some : (d s r : Str) → strip_suffix d s ≡ some r → s ≡ r ++ d
unfolding strip_suffix
strip_suffix-eq_some d s r e =
    let n = length s - length d in ground (arith, str_eq_iff (drop n s) d, take-append-drop n s)

ends_with-eq_true : (c : ℕ) (r : Str) → ends_with c r ≡ true → (q : Str) × (r ≡ q ++ c ∷ [])
unfolding ends_with
ends_with-eq_true c [] e = ground arith
ends_with-eq_true c (a ∷ []) e = ([], ap (λ x. x ∷ []) ((==_iff a c).0 e))
ends_with-eq_true c (a ∷ b ∷ r) e =
    let (q, p) = ends_with-eq_true c (b ∷ r) e in (a ∷ q, ap (◌∷◌ a) p)

ends_with-append : (c : ℕ) (q : Str) → ends_with c (q ++ c ∷ []) ≡ true
unfolding ends_with
ends_with-append c [] = (==_iff c c).1 refl
ends_with-append c (a ∷ []) = (==_iff c c).1 refl
ends_with-append c (a ∷ b ∷ q) = ends_with-append c (b ∷ q)

-- `h` is the domain `d` or a name under it.
abbrev pub IsUnder : Str → Str → Type 0
IsUnder h d = (h ≡ d) ⊎ ((q : Str) × (h ≡ q ++ b'.' ∷ d))

accepts-IsUnder :
    (h d : Str) → (str_eq h d || ends_with_dot (strip_suffix d h)) ≡ true → IsUnder h d
accepts-IsUnder h d e = elim (Bool-cases (str_eq h d)) [
  | inl t ↦ inl ((str_eq_iff h d).0 t)
  | inr f ↦ elim (Option-cases (strip_suffix d h)) [
    | inl o ↦ absurd (cc (rw (f, o, ends_with_dot) at e))
    | inr (r, o) ↦
        let (q, p) = ends_with-eq_true b'.' r (rw (f, o, ends_with_dot) at e) in
        inr (q, strip_suffix-eq_some d h r o ∙ ap (λ x. x ++ d) p ∙ append_assoc q (b'.' ∷ []) d)
  ]
]

IsUnder-accepts :
    (h d : Str) → IsUnder h d → (str_eq h d || ends_with_dot (strip_suffix d h)) ≡ true
IsUnder-accepts h d (inl e) = rw ((str_eq_iff h d).1 e)
IsUnder-accepts h d (inr (q, e)) =
    let whole = e ∙ sym (append_assoc q (b'.' ∷ []) d) in
    let o = ap (strip_suffix d) whole ∙ strip_suffix-append d (q ++ b'.' ∷ []) in
    ground (arith, o, ends_with-append b'.' q)

-- A host is allowed exactly when, in lower case, it is an allowlisted domain or such a domain with a
-- dot and anything before it; a longer name that merely ends like a domain is refused.
pub host_allowed_iff :
    ⦃t : Texts⦄ (host : Str) (domains : List Str)
    → (host_allowed host domains ≡ true) ↔ Any (IsUnder (t.to_lowercase host)) domains
unfolding host_allowed
host_allowed_iff ⦃t⦄ host domains = (
  (λ e. Any-mono _ _ domains (accepts-IsUnder (t.to_lowercase host)) (any-Any _ _ e)),
  (λ a. Any-any _ _ (Any-mono _ _ domains (IsUnder-accepts (t.to_lowercase host)) a)),
)
