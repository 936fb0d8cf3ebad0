-- ===== src/Cover/Policy/Destination.antt =====
-- src/cover/policy.rs, `check_destination`: exactly which URLs pass, with which addresses.
use mpris_chroma.Prelude.{
  ℕ, ◌≡◌, ◌≢◌, ◌↔◌, inl, inr, refl, true, not, Option, none, some, List, [], ◌∷◌, map, arith, All,
  Bool-cases, Option-cases,
}
use mpris_chroma.Prelude.Text.{Str, codes, str_eq, str_eq_iff, is_empty}
use mpris_chroma.Prelude.Result.{Result, ok, err}
use mpris_chroma.Cover.{IoError}
use mpris_chroma.Cover.Policy.{
  IpAddr, SocketAddr, UrlHost, domain, address, UrlCrate, Texts, is_global, find, host_allowed,
  check_addrs, check_host, check_port, check_destination,
}

-- All that the policy asks of a URL, and the addresses it gives for it.
pub record IsChecked {Url : Type 0} ⦃u : UrlCrate Url⦄ ⦃t : Texts⦄ (url : Url) (domains : List Str)
    (dns : Str → Result IoError (List IpAddr)) (addrs : List SocketAddr) : Type 0 where
  pub scheme : u.scheme url ≡ codes "https"
  pub username : u.username url ≡ []
  pub password : u.password url ≡ none
  pub port : u.port url ≡ none
  pub name : Str
  pub host : u.host url ≡ some (domain name)
  pub allowed : host_allowed name domains ≡ true
  pub ips : List IpAddr
  pub looked_up : dns name ≡ ok ips
  pub found : ips ≢ []
  pub global : All (λ ip. is_global ip ≡ true) ips
  pub addresses : addrs ≡ map (λ ip. record { ip = ip; port = 443 }) ips

find-eq_none :
    (ips : List IpAddr)
    → (find (λ ip. not (is_global ip)) ips ≡ none) ↔ All (λ ip. is_global ip ≡ true) ips
find-eq_none [] = ((λ e. tt), (λ a. refl))
find-eq_none (ip ∷ ips) = ground (arith, find-eq_none ips)

module _ ⦃t : Texts⦄ where
  check_addrs_lem :
      (host : Str) (answer : Result IoError (List IpAddr)) (addrs : List SocketAddr)
      → check_addrs host answer ≡ ok addrs
      → (ips : List IpAddr) × (answer ≡ ok ips)
        × (ips ≢ [])
        × All (λ ip. is_global ip ≡ true) ips
        × (addrs ≡ map (λ ip. record { ip = ip; port = 443 }) ips)
  check_addrs_lem host (err e) addrs h = ground arith
  check_addrs_lem host (ok []) addrs h = ground arith
  check_addrs_lem host (ok (a ∷ rest)) addrs h =
      (a ∷ rest, refl, ground arith, ground (arith, find-eq_none (a ∷ rest)), ground arith)

  check_addrs-ok :
      (host : Str) (ips : List IpAddr)
      → ips ≢ []
      → All (λ ip. is_global ip ≡ true) ips
      → check_addrs host (ok ips) ≡ ok (map (λ ip. record { ip = ip; port = 443 }) ips)
  check_addrs-ok host [] some_ip all_global = absurd (some_ip refl)
  check_addrs-ok host (a ∷ rest) some_ip all_global =
      ground (arith, (find-eq_none (a ∷ rest)).1 all_global)

  module _ {Url : Type 0} ⦃u : UrlCrate Url⦄ (url : Url) (domains : List Str)
      (dns : Str → Result IoError (List IpAddr)) (addrs : List SocketAddr) where
    after_host :
        u.scheme url ≡ codes "https"
        → u.username url ≡ []
        → u.password url ≡ none
        → u.port url ≡ none
        → (o : Option UrlHost) → u.host url ≡ o
        → check_host o domains dns ≡ ok addrs
        → IsChecked url domains dns addrs
    after_host s n p q none e h = ground arith
    after_host s n p q (some (address ip)) e h = ground arith
    after_host s n p q (some (domain d)) e h = elim (Bool-cases (host_allowed d domains)) [
      | inr f ↦ absurd (ground (arith, f))
      | inl allowed ↦
          let (ips, looked_up, found, global, addresses) =
            check_addrs_lem d (dns d) addrs (rw allowed at h) in
          record {
            scheme = s;
            username = n;
            password = p;
            port = q;
            name = d;
            host = e;
            allowed = allowed;
            ips = ips;
            looked_up = looked_up;
            found = found;
            global = global;
            addresses = addresses;
          }
    ]

    after_port :
        u.scheme url ≡ codes "https"
        → u.username url ≡ []
        → u.password url ≡ none
        → (o : Option ℕ) → u.port url ≡ o
        → check_port o (check_host (u.host url) domains dns) ≡ ok addrs
        → IsChecked url domains dns addrs
    after_port s n p none e h = after_host s n p e (u.host url) refl h
    after_port s n p (some port) e h = ground arith

    is_empty-eq_nil : (s : Str) → is_empty s ≡ true → s ≡ []
    is_empty-eq_nil [] e = refl
    is_empty-eq_nil (c ∷ s) e = ground arith

    check_destination-IsChecked :
        check_destination url domains dns ≡ ok addrs → IsChecked url domains dns addrs
    unfolding check_destination
    check_destination-IsChecked h = elim (Bool-cases (str_eq (u.scheme url) (codes "https"))) [
      | inr f ↦ absurd (ground (arith, f))
      | inl s ↦ elim (Bool-cases (is_empty (u.username url))) [
        | inr f ↦ absurd (ground (arith, f, s))
        | inl n ↦ elim (Option-cases (u.password url)) [
          | inr (w, f) ↦ absurd (ground (arith, f, s, n))
          | inl p ↦
              after_port ((str_eq_iff _ _).0 s) (is_empty-eq_nil _ n) p (u.port url) refl
                (rw (s, n, p) at h)
        ]
      ]
    ]

    IsChecked-check_destination :
        IsChecked url domains dns addrs → check_destination url domains dns ≡ ok addrs
    unfolding check_destination
    IsChecked-check_destination c = rw (
      (str_eq_iff _ _).1 c.scheme,
      c.username,
      c.password,
      c.port,
      c.host,
      c.allowed,
      c.looked_up,
      check_addrs-ok c.name c.ips c.found c.global,
      c.addresses,
    )

    -- A URL passes exactly when it is https, names no user, no password and no port, its host is an
    -- allowed domain, and that domain is looked up to at least one address, all of them globally
    -- routable; the addresses given are then those that were checked, all of them, with port 443.
    pub check_destination_iff :
        (check_destination url domains dns ≡ ok addrs) ↔ IsChecked url domains dns addrs
    check_destination_iff = (check_destination-IsChecked, IsChecked-check_destination)
