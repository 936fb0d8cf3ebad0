-- ===== src/Cover/Cache/Eviction.antt =====
-- src/cover/cache.rs, `evict`: what is removed, in which order, and what is left.
use mpris_chroma.Prelude.{
  ℕ, zero, suc, ◌+◌, ◌-◌, ◌≤◌, ◌<◌, ◌≡◌, inl, inr, refl, ap, sym, ◌∙◌, true, false, ◌&&◌, leb, List,
  [], ◌∷◌, ◌++◌, length, drop, All, All-mono, arith, Bool-cases, if_cases,
}
use mpris_chroma.Prelude.Sort.{total, SameItems, length-total}
use mpris_chroma.Prelude.Int.{
  int_eq, int_eq_iff, int_leb, int_leb_refl, int_leb_total, int_leb_trans,
}
use mpris_chroma.Cover.Cache.{
  CacheLimits, CacheEntry, entry_leb, insert_entry, sort_entries, total_size, over_budget, victims,
}

-- `a` was used no later than `b`.
abbrev pub IsNoNewer : CacheEntry → CacheEntry → Type 0
IsNoNewer a b = int_leb a.mtime b.mtime ≡ true

-- Oldest first.
abbrev pub IsByAge : List CacheEntry → Type 0
IsByAge [] = Unit {0}
IsByAge (e ∷ es) = All (IsNoNewer e) es × IsByAge es

entry_leb-IsNoNewer : (a b : CacheEntry) → entry_leb a b ≡ true → IsNoNewer a b
unfolding entry_leb
entry_leb-IsNoNewer a b h = elim (Bool-cases (int_eq a.mtime b.mtime)) [
  | inl e ↦ rw (← (int_eq_iff a.mtime b.mtime).0 e) (int_leb_refl a.mtime)
  | inr f ↦ rw f at h
]

entry_leb_total : (a b : CacheEntry) → entry_leb a b ≡ false → IsNoNewer b a
unfolding entry_leb
entry_leb_total a b h = elim (Bool-cases (int_eq a.mtime b.mtime)) [
  | inl e ↦ rw ((int_eq_iff a.mtime b.mtime).0 e) (int_leb_refl b.mtime)
  | inr f ↦ int_leb_total a.mtime b.mtime (rw f at h)
]

All-insert_entry :
    (P : CacheEntry → Type 0) (x : CacheEntry) (ys : List CacheEntry)
    → P x
    → All P ys
    → All P (insert_entry x ys)
unfolding insert_entry
All-insert_entry P x [] p a = (p, tt)
All-insert_entry P x (y ∷ ys) p a =
    let rest = All-insert_entry P x ys p a.1 in
    if_cases (All P) (entry_leb x y) _ _ (λ _. (p, a)) (λ _. (a.0, rest))

insert_entry-IsByAge :
    (x : CacheEntry) (ys : List CacheEntry) → IsByAge ys → IsByAge (insert_entry x ys)
unfolding insert_entry
insert_entry-IsByAge x [] s = (tt, tt)
insert_entry-IsByAge x (y ∷ ys) s =
    let rest = insert_entry-IsByAge x ys s.1 in
    if_cases IsByAge (entry_leb x y) _ _
      (λ t.
        let xy = entry_leb-IsNoNewer x y t in
        ((xy, All-mono _ _ ys (λ z yz. int_leb_trans x.mtime y.mtime z.mtime xy yz) s.0), s))
      (λ f. (All-insert_entry (IsNoNewer y) x ys (entry_leb_total x y f) s.0, rest))

sort_entries-IsByAge : (es : List CacheEntry) → IsByAge (sort_entries es)
unfolding sort_entries
sort_entries-IsByAge [] = tt
sort_entries-IsByAge (e ∷ es) = insert_entry-IsByAge e (sort_entries es) (sort_entries-IsByAge es)

total-insert_entry :
    (f : CacheEntry → ℕ) (x : CacheEntry) (ys : List CacheEntry)
    → total f (insert_entry x ys) ≡ f x + total f ys
unfolding insert_entry
total-insert_entry f x [] = refl
total-insert_entry f x (y ∷ ys) =
    let rest = total-insert_entry f x ys in
    if_cases (λ l. total f l ≡ f x + total f (y ∷ ys)) (entry_leb x y) _ _ (λ _. refl)
      (λ _. omega (arith, rest))

-- Sorting neither loses an entry nor adds or alters one.
sort_entries-SameItems : (es : List CacheEntry) → SameItems (sort_entries es) es
unfolding sort_entries
sort_entries-SameItems [] f = refl
sort_entries-SameItems (e ∷ es) f =
    omega (arith, total-insert_entry f e (sort_entries es), sort_entries-SameItems es f)

total_size-total : (es : List CacheEntry) → total_size es ≡ total (λ (e : CacheEntry). e.size) es
total_size-total [] = refl
total_size-total (e ∷ es) = omega (arith, total_size-total es)

-- Both budgets hold for these entries.
abbrev pub IsWithin : CacheLimits → List CacheEntry → Type 0
IsWithin limits es = (total_size es ≤ limits.max_bytes) × (length es ≤ limits.max_entries)

-- The removed entries are the first of the list, the others are within the budgets, and they would
-- not be if any fewer had been removed.
pub record IsLeastCut (limits : CacheLimits) (es gone : List CacheEntry) : Type 0 where
  pub left : List CacheEntry
  pub whole : es ≡ gone ++ left
  pub within : IsWithin limits left
  pub least : (n : ℕ) → n < length gone → IsWithin limits (drop n es) → ⊥

over_budget-IsLeastCut :
    (limits : CacheLimits) (es : List CacheEntry) (total count : ℕ)
    → total ≡ total_size es
    → count ≡ length es
    → IsLeastCut limits es (over_budget limits es total count)
unfolding over_budget
over_budget-IsLeastCut limits [] total count p q = record {
  left = [];
  whole = refl;
  within = (omega arith, omega arith);
  least = λ n h w. omega arith;
}
over_budget-IsLeastCut limits (e ∷ es) total count p q =
    let rest =
      over_budget-IsLeastCut limits es (total - e.size) (count - 1) (omega arith) (omega arith) in
    if_cases (IsLeastCut limits (e ∷ es))
      (leb total limits.max_bytes && leb count limits.max_entries) _ _
      (λ t. record {
        left = e ∷ es;
        whole = refl;
        within = (ground arith, ground arith);
        least = λ n h w. omega arith;
      })
      (λ f. record {
        left = rest.left;
        whole = ap (◌∷◌ e) rest.whole;
        within = rest.within;
        least = not_before rest.least f;
      })
  where
    not_before :
        ((n : ℕ)
          → n < length (over_budget limits es (total - e.size) (count - 1))
          → IsWithin limits (drop n es)
          → ⊥)
        → (leb total limits.max_bytes && leb count limits.max_entries) ≡ false
        → (n : ℕ) → n < suc (length (over_budget limits es (total - e.size) (count - 1)))
        → IsWithin limits (drop n (e ∷ es))
        → ⊥
    not_before k f zero h w = ground arith
    not_before k f (suc n) h w = k n (omega (arith, h)) w

-- The entries that `evict` removes for the budgets are the least recently used of all candidates: the
-- candidates, each as it is and as often, are sorted oldest first; a first part of them goes, what
-- is left is within both budgets, and with any entry less removed it would not be.
pub victims_lem :
    (limits : CacheLimits) (entries : List CacheEntry)
    → IsByAge (sort_entries entries)
      × SameItems (sort_entries entries) entries
      × IsLeastCut limits (sort_entries entries) (victims limits entries)
unfolding victims
victims_lem limits entries =
    let sorted = sort_entries entries in
    let same = sort_entries-SameItems entries in
    let size : total_size entries ≡ total_size sorted =
      total_size-total entries ∙ sym (same (λ e. e.size)) ∙ sym (total_size-total sorted) in
    let count : length entries ≡ length sorted =
      length-total entries ∙ sym (same (λ _. 1)) ∙ sym (length-total sorted) in
    (
      sort_entries-IsByAge entries,
      same,
      over_budget-IsLeastCut limits sorted (total_size entries) (length entries) size count,
    )
