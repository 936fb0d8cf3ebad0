-- ===== src/Cover/Policy.antt =====
-- src/cover/policy.rs: which destinations artwork may be fetched from. The `url` crate, Unicode
-- lower-casing and the texts of messages are parameters; a lookup is the resolver's answer.
pub mod Allowed
pub mod Destination
use mpris_chroma.Prelude.{
  ℕ, zero, suc, ◌+◌, ◌*◌, ◌-◌, ◌^◌, ◌%◌, Bool, true, false, not, ◌&&◌, ◌||◌, ◌==◌, ltb, leb, Option,
  none, some, List, [], ◌∷◌, ◌++◌, map, length, take, drop, any, all, is_some, if◌then◌else◌,
  bit_and,
}
use mpris_chroma.Prelude.Text.{Str, FilePath, codes, str_eq, is_empty, split, trim, decimal}
use mpris_chroma.Prelude.Result.{Result, ok, err}
use mpris_chroma.Cover.{CoverError, refused, IoError, from_io}

pub data IpAddr : Type 0 where
  v4 : ℕ → IpAddr
  v6 : ℕ → IpAddr

-- `SocketAddr::new(ip, port)`.
pub record SocketAddr : Type 0 where
  pub ip : IpAddr
  pub port : ℕ

-- `url::Host`, and what the source asks of the crate's `Url`; an error of the crate is its text.
pub data UrlHost : Type 0 where
  domain : Str → UrlHost
  address : IpAddr → UrlHost

pub record UrlCrate (Url : Type 0) : Type 0 where
  pub parse : Str → Result Str Url
  pub join : Url → Str → Result Str Url
  pub scheme : Url → Str
  pub username : Url → Str
  pub password : Url → Option Str
  pub port : Url → Option ℕ
  pub host : Url → Option UrlHost
  pub host_str : Url → Option Str
  pub to_file_path : Url → Option FilePath

-- `str::to_lowercase`, and the texts that `{:?}` and `{}` give inside messages.
pub record Texts : Type 0 where
  pub to_lowercase : Str → Str
  pub quoted : Str → Str
  pub host_text : Option UrlHost → Str
  pub ip_text : IpAddr → Str

abbrev pub default_art_domains : List Str
default_art_domains = codes "scdn.co" ∷ codes "spotifycdn.com" ∷ []

-- `strip_suffix`, and `ends_with` of a character.
unfoldable pub strip_suffix : Str → Str → Option Str
strip_suffix suffix s =
    let n = length s - length suffix in
    if leb (length suffix) (length s) && str_eq (drop n s) suffix then some (take n s) else none

unfoldable pub ends_with : ℕ → Str → Bool
ends_with c [] = false
ends_with c (a ∷ []) = a == c
ends_with c (a ∷ b ∷ s) = ends_with c (b ∷ s)

abbrev pub ends_with_dot : Option Str → Bool
ends_with_dot none = false
ends_with_dot (some rest) = ends_with b'.' rest

abbrev pub or_empty : Option Str → Str
or_empty none = []
or_empty (some s) = s

-- The bits of a mask of `w`, the first `prefix` set.
abbrev pub mask : ℕ → ℕ → ℕ
mask w prefix = if prefix == 0 then 0 else (2 ^ w - 1) * 2 ^ (w - prefix) % 2 ^ w

-- The number that groups of a base read as, the first the highest.
abbrev pub number : ℕ → ℕ → List ℕ → ℕ
number base acc [] = acc
number base acc (g ∷ gs) = number base (acc * base + g) gs

unfoldable pub v4_in : ℕ → List ℕ → ℕ → Bool
v4_in ip net prefix = bit_and ip (mask 32 prefix) == bit_and (number 256 0 net) (mask 32 prefix)

unfoldable pub v6_in : ℕ → List ℕ → ℕ → Bool
v6_in ip net prefix = bit_and ip (mask 128 prefix) == bit_and (number 65536 0 net) (mask 128 prefix)

abbrev pub non_global_v4 : List (List ℕ × ℕ)
non_global_v4 =
    (0 ∷ 0 ∷ 0 ∷ 0 ∷ [], 8)
    ∷ (10 ∷ 0 ∷ 0 ∷ 0 ∷ [], 8)
    ∷ (100 ∷ 64 ∷ 0 ∷ 0 ∷ [], 10)
    ∷ (127 ∷ 0 ∷ 0 ∷ 0 ∷ [], 8)
    ∷ (169 ∷ 254 ∷ 0 ∷ 0 ∷ [], 16)
    ∷ (172 ∷ 16 ∷ 0 ∷ 0 ∷ [], 12)
    ∷ (192 ∷ 0 ∷ 0 ∷ 0 ∷ [], 24)
    ∷ (192 ∷ 0 ∷ 2 ∷ 0 ∷ [], 24)
    ∷ (192 ∷ 88 ∷ 99 ∷ 0 ∷ [], 24)
    ∷ (192 ∷ 168 ∷ 0 ∷ 0 ∷ [], 16)
    ∷ (198 ∷ 18 ∷ 0 ∷ 0 ∷ [], 15)
    ∷ (198 ∷ 51 ∷ 100 ∷ 0 ∷ [], 24)
    ∷ (203 ∷ 0 ∷ 113 ∷ 0 ∷ [], 24)
    ∷ (224 ∷ 0 ∷ 0 ∷ 0 ∷ [], 4)
    ∷ (240 ∷ 0 ∷ 0 ∷ 0 ∷ [], 4)
    ∷ []

abbrev pub non_global_v6 : List (List ℕ × ℕ)
non_global_v6 =
    (0x2001 ∷ 0 ∷ 0 ∷ 0 ∷ 0 ∷ 0 ∷ 0 ∷ 0 ∷ [], 23)
    ∷ (0x2001 ∷ 0xdb8 ∷ 0 ∷ 0 ∷ 0 ∷ 0 ∷ 0 ∷ 0 ∷ [], 32)
    ∷ (0x2002 ∷ 0 ∷ 0 ∷ 0 ∷ 0 ∷ 0 ∷ 0 ∷ 0 ∷ [], 16)
    ∷ (0x3fff ∷ 0 ∷ 0 ∷ 0 ∷ 0 ∷ 0 ∷ 0 ∷ 0 ∷ [], 20)
    ∷ []

unfoldable pub is_global : IpAddr → Bool
is_global (v4 ip) = not (any (λ n. v4_in ip n.0 n.1) non_global_v4)
is_global (v6 ip) =
    v6_in ip (0x2000 ∷ 0 ∷ 0 ∷ 0 ∷ 0 ∷ 0 ∷ 0 ∷ 0 ∷ []) 3
    && not (any (λ n. v6_in ip n.0 n.1) non_global_v6)

-- `iter().find`.
abbrev pub find : {A : Type 0} → (A → Bool) → List A → Option A
find p [] = none
find p (x ∷ xs) = if p x then some x else find p xs

module _ ⦃t : Texts⦄ where
  abbrev pub add_domain : List Str → Str → List Str
  add_domain domains d =
      if not (is_empty d) && not (any (str_eq d) domains) then domains ++ d ∷ [] else domains

  abbrev pub add_domains : List Str → List Str → List Str
  add_domains domains [] = domains
  add_domains domains (d ∷ ds) = add_domains (add_domain domains (t.to_lowercase (trim d))) ds

  unfoldable pub art_domains_from : Option Str → List Str
  art_domains_from extra = add_domains default_art_domains (split b',' (or_empty extra))

  unfoldable pub host_allowed : Str → List Str → Bool
  host_allowed host domains =
      let h = t.to_lowercase host in
      any (λ d. str_eq h d || ends_with_dot (strip_suffix d h)) domains

  -- The addresses of an allowed host, once looked up.
  abbrev pub check_addrs : Str → Result IoError (List IpAddr) → Result CoverError (List SocketAddr)
  check_addrs host (err e) = err (from_io e)
  check_addrs host (ok []) = err (refused (codes "no addresses for " ++ host))
  check_addrs host (ok (a ∷ rest)) = elim (find (λ ip. not (is_global ip)) (a ∷ rest)) [
    | some bad ↦
        err (refused (((codes "non-global address " ++ t.ip_text bad) ++ codes " for ") ++ host))
    | none ↦ ok (map (λ ip. record { ip = ip; port = 443 }) (a ∷ rest))
  ]

  abbrev pub check_host :
      Option UrlHost
      → List Str
      → (Str → Result IoError (List IpAddr))
      → Result CoverError (List SocketAddr)
  check_host (some (domain d)) domains dns =
      if host_allowed d domains
      then check_addrs d (dns d)
      else err
          (refused ((codes "host " ++ t.host_text (some (domain d))) ++ codes " not allowlisted"))
  check_host other domains dns =
      err (refused ((codes "host " ++ t.host_text other) ++ codes " not allowlisted"))

  abbrev pub check_port :
      Option ℕ → Result CoverError (List SocketAddr) → Result CoverError (List SocketAddr)
  check_port (some port) next =
      err (refused ((codes "port " ++ decimal port) ++ codes " not permitted"))
  check_port none next = next

  unfoldable pub check_destination :
      {Url : Type 0} ⦃u : UrlCrate Url⦄
      → Url
      → List Str
      → (Str → Result IoError (List IpAddr))
      → Result CoverError (List SocketAddr)
  check_destination ⦃u⦄ url domains dns =
      if not (str_eq (u.scheme url) (codes "https"))
      then err (refused (codes "non-https scheme " ++ t.quoted (u.scheme url)))
      else if not (is_empty (u.username url)) || is_some (u.password url)
      then err (refused (codes "url userinfo not permitted"))
      else check_port (u.port url) (check_host (u.host url) domains dns)
