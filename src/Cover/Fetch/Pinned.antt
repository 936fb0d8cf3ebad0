-- ===== src/Cover/Fetch/Pinned.antt =====
-- src/cover/fetch.rs: what the transport is asked to connect to, over all redirects of a fetch.
use mpris_chroma.Prelude.{
  ℕ, zero, suc, ◌≡◌, refl, ap, ◌∙◌, Bool, true, false, not, ◌&&◌, ◌==◌, Option, some, is_some, List,
  [], ◌∷◌, ◌++◌, map, all, All, arith, if◌then◌else◌, if_else, ltb,
}
use mpris_chroma.Prelude.Text.{Str, codes, str_eq, str_eq_iff, decimal}
use mpris_chroma.Prelude.Result.{Result, ok, err}
use mpris_chroma.Cover.{CoverError, aborted, io, IoError, timeout}
use mpris_chroma.Cover.Policy.{
  IpAddr, SocketAddr, UrlHost, domain, UrlCrate, Texts, is_global, host_allowed, check_destination,
}
use mpris_chroma.Cover.Policy.Destination.{IsChecked, check_destination_iff}
use mpris_chroma.Cover.Fetch.{
  FetchEnv, Read, Response, unless_over, on_read, read_loop, read_body, is_success, is_redirect,
  declares_too_much, on_location, on_response, on_checked, hop, on_parsed, fetch,
}

-- An allowlisted domain, and addresses that are all globally routable, with port 443.
abbrev pub host_ok : ⦃t : Texts⦄ → Option UrlHost → List Str → Bool
host_ok (some (domain d)) domains = host_allowed d domains
host_ok other domains = false

abbrev pub address_ok : SocketAddr → Bool
address_ok a = is_global a.ip && a.port == 443

unfoldable pub may_connect :
    {Url : Type 0} ⦃u : UrlCrate Url⦄ ⦃t : Texts⦄ → Url → List Str → List SocketAddr → Bool
may_connect ⦃u⦄ url domains addrs =
    (str_eq (u.scheme url) (codes "https") && not (is_some (u.port url)))
    && (host_ok (u.host url) domains && all address_ok addrs)

-- A transport that refuses everything else.
abbrev pub pinned :
    {Url W : Type 0} ⦃u : UrlCrate Url⦄ ⦃t : Texts⦄ → FetchEnv Url W → FetchEnv Url W
pinned env = record env {
  get = λ url addrs w.
      if may_connect url env.domains addrs then env.get url addrs w else (w, err aborted);
}

all-address_ok :
    (ips : List IpAddr)
    → All (λ ip. is_global ip ≡ true) ips
    → all address_ok (map (λ ip. record { ip = ip; port = 443 }) ips) ≡ true
all-address_ok [] a = refl
all-address_ok (ip ∷ ips) a = ground (arith, a.0, all-address_ok ips a.1)

module _ {Url W : Type 0} ⦃u : UrlCrate Url⦄ ⦃t : Texts⦄ (env : FetchEnv Url W) where
  IsChecked-may_connect :
      (url : Url) (dns : Str → Result IoError (List IpAddr)) (addrs : List SocketAddr)
      → IsChecked url env.domains dns addrs
      → may_connect url env.domains addrs ≡ true
  unfolding may_connect
  IsChecked-may_connect url dns addrs c = ground (
    arith,
    (str_eq_iff _ _).1 c.scheme,
    c.port,
    ap (λ h. host_ok h env.domains) c.host ∙ c.allowed,
    ap (all address_ok) c.addresses ∙ all-address_ok c.ips c.global,
  )

  get-pinned :
      (url : Url) (w w1 : W) (addrs : List SocketAddr)
      → check_destination url env.domains (env.dns w) ≡ ok addrs
      → (pinned env).get url addrs w1 ≡ env.get url addrs w1
  get-pinned url w w1 addrs e =
      let c = (check_destination_iff url env.domains (env.dns w) addrs).0 e in
      rw (IsChecked-may_connect url (env.dns w) addrs c)

  read_loop-pinned :
      (reads : List Read) (deadline : ℕ) (out : List ℕ) (w : W)
      → read_loop (pinned env) reads deadline out w ≡ read_loop env reads deadline out w
  unfolding read_loop
  read_loop-pinned [] deadline out w = refl
  read_loop-pinned (read ∷ reads) deadline out w =
      let rest : read_loop (pinned env) reads deadline ≡ read_loop env reads deadline =
        λ i out1 w1. read_loop-pinned reads deadline out1 w1 i in
      ap (λ next. unless_over env deadline w (on_read env read out next)) rest

  read_body-pinned :
      (resp : Response) (deadline : ℕ) (w : W)
      → read_body (pinned env) resp deadline w ≡ read_body env resp deadline w
  unfolding read_body
  read_body-pinned resp deadline w =
      if_else (declares_too_much resp.content_length) _
        (λ _. read_loop-pinned resp.body deadline [] w)

  on_response-pinned :
      (url : Url) (deadline : ℕ) (next : Url → W → W × Result CoverError (List ℕ))
      (answer : W × Result CoverError Response)
      → on_response (pinned env) url deadline next answer ≡ on_response env url deadline next answer
  on_response-pinned url deadline next (w, err e) = refl
  on_response-pinned url deadline next (w, ok resp) =
      ap
        (λ x.
          if is_success resp.status
          then x
          else if is_redirect resp.status
          then on_location resp.status resp.location url next w
          else (w, err (io (codes "HTTP " ++ decimal resp.status))))
        (read_body-pinned resp deadline w)

  on_checked-pinned :
      (w : W) (url : Url) (deadline : ℕ) (next : Url → W → W × Result CoverError (List ℕ))
      (c : Result CoverError (List SocketAddr))
      → check_destination url env.domains (env.dns w) ≡ c
      → on_checked (pinned env) c url deadline next w ≡ on_checked env c url deadline next w
  on_checked-pinned w url deadline next (err e) h = refl
  on_checked-pinned w url deadline next (ok addrs) h =
      let w1 = (env.now w).0 in
      if_else (ltb deadline (env.now w).1) (w1, err timeout)
        λ _.
          ap (on_response (pinned env) url deadline next) (get-pinned url w w1 addrs h)
          ∙ on_response-pinned url deadline next (env.get url addrs w1)

  hop-pinned :
      (left deadline : ℕ) (url : Url) (w : W)
      → hop (pinned env) left deadline url w ≡ hop env left deadline url w
  unfolding hop
  hop-pinned zero deadline url w = refl
  hop-pinned (suc left) deadline url w =
      let c = check_destination url env.domains (env.dns w) in
      let rest : hop (pinned env) left deadline ≡ hop env left deadline =
        λ i url1 w1. hop-pinned left deadline url1 w1 i in
      ap (λ next. on_checked (pinned env) c url deadline next w) rest
      ∙ on_checked-pinned w url deadline (hop env left deadline) c refl

  on_parsed-pinned :
      (p : Result Str Url) (deadline : ℕ) (w : W)
      → on_parsed (pinned env) p deadline w ≡ on_parsed env p deadline w
  on_parsed-pinned (err why) deadline w = refl
  on_parsed-pinned (ok url) deadline w = hop-pinned _ deadline url w

  -- Whatever the servers redirect to and however often a name is looked up differently, the
  -- transport is only ever asked for an https URL without a port, with an allowlisted host, and for
  -- globally routable addresses at port 443: one that refuses anything else changes no fetch.
  pub fetch_pinned : (url : Str) (w : W) → fetch (pinned env) url w ≡ fetch env url w
  unfolding fetch
  fetch_pinned url w = on_parsed-pinned (u.parse url) _ _
