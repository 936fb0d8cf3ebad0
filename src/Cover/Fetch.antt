-- ===== src/Cover/Fetch.antt =====
-- src/cover/fetch.rs: the bounded download. The world `W` answers for the resolver, the transport,
-- the clock and the stop flag; the time a lookup takes shows at the next look at the clock; a body is the sequence of what its reads give, ended by `Ok(0)`.
pub mod Pinned
pub mod Bounds
use mpris_chroma.Prelude.{
  ℕ, zero, suc, ◌+◌, ◌-◌, ◌*◌, ◌^◌, Bool, true, false, ◌&&◌, ◌||◌, ◌==◌, ltb, leb, Option, none,
  some, List, [], ◌∷◌, ◌++◌, length, if◌then◌else◌, any,
}
use mpris_chroma.Prelude.Text.{Str, codes, trim, decimal}
use mpris_chroma.Prelude.Result.{Result, ok, err}
use mpris_chroma.Cover.{
  CoverError, refused, too_large, timeout, aborted, io, IoError, IoKind, timed_out, interrupted,
  other, from_io,
}
use mpris_chroma.Cover.Policy.{IpAddr, SocketAddr, UrlCrate, Texts, check_destination}

-- 20 s, in nanoseconds.
abbrev pub download_deadline : ℕ
download_deadline = 20_000_000_000

abbrev pub max_cover_bytes : ℕ
max_cover_bytes = 10 * 1024 * 1024

abbrev pub max_redirects : ℕ
max_redirects = 10

-- One call of `Read::read`: the bytes read, or an error.
abbrev pub Read : Type 0
Read = Result IoError (List ℕ)

pub record Response : Type 0 where
  pub status : ℕ
  pub location : Option Str
  pub content_length : Option Str
  pub body : List Read

pub record FetchEnv (Url : Type 0) (W : Type 0) : Type 0 where
  pub domains : List Str
  pub dns : W → Str → Result IoError (List IpAddr)
  pub get : Url → List SocketAddr → W → W × Result CoverError Response
  pub now : W → W × ℕ
  pub should_stop : W → W × Bool

-- `str::parse::<u64>`: an optional plus sign and at least one digit, within the range.
abbrev pub digit : ℕ → Option ℕ
digit c = if leb b'0' c && leb c b'9' then some (c - b'0') else none

abbrev pub push_digit : ℕ → Option ℕ → Option ℕ
push_digit acc none = none
push_digit acc (some d) = let n = acc * 10 + d in if ltb n (2 ^ 64) then some n else none

abbrev pub read_on : Option ℕ → (ℕ → Option ℕ) → Option ℕ
read_on none next = none
read_on (some n) next = next n

unfoldable pub parse_digits : Str → ℕ → Option ℕ
parse_digits [] acc = some acc
parse_digits (c ∷ s) acc = read_on (push_digit acc (digit c)) (parse_digits s)

unfoldable pub parse_u64 : Str → Option ℕ
parse_u64 [] = none
parse_u64 (c ∷ []) = parse_digits (c ∷ []) 0
parse_u64 (c ∷ d ∷ s) = if c == b'+' then parse_digits (d ∷ s) 0 else parse_digits (c ∷ d ∷ s) 0

-- A declared length that is well formed and over the cap.
abbrev pub over_cap : Option ℕ → Bool
over_cap none = false
over_cap (some n) = ltb max_cover_bytes n

abbrev pub declares_too_much : Option Str → Bool
declares_too_much none = false
declares_too_much (some declared) = over_cap (parse_u64 (trim declared))

-- A status of 200 to 299, and the redirects that are followed.
abbrev pub is_success : ℕ → Bool
is_success s = leb 200 s && leb s 299

abbrev pub is_redirect : ℕ → Bool
is_redirect s = any (λ r. s == r) (301 ∷ 302 ∷ 303 ∷ 307 ∷ 308 ∷ [])

module _ {Url W : Type 0} ⦃u : UrlCrate Url⦄ where
  -- The redirect's target, and what is done with it.
  abbrev pub on_join :
      Result Str Url
      → (Url → W → W × Result CoverError (List ℕ))
      → W
      → W × Result CoverError (List ℕ)
  on_join (err why) next w = (w, err (refused (codes "bad redirect: " ++ why)))
  on_join (ok url) next w = next url w

  abbrev pub on_location :
      ℕ
      → Option Str
      → Url
      → (Url → W → W × Result CoverError (List ℕ))
      → W
      → W × Result CoverError (List ℕ)
  on_location status none url next w =
      (w, err (io ((codes "HTTP " ++ decimal status) ++ codes " without Location")))
  on_location status (some location) url next w = on_join (u.join url location) next w

module _ {Url W : Type 0} (env : FetchEnv Url W) where
  -- The looks at the stop flag and at the clock before every read.
  abbrev pub unless_over :
      ℕ → W → (W → W × Result CoverError (List ℕ)) → W × Result CoverError (List ℕ)
  unless_over deadline w next =
      let (w1, stop) = env.should_stop w in
      if stop
      then (w1, err aborted)
      else let (w2, now) = env.now w1 in if ltb deadline now then (w2, err timeout) else next w2

  -- An interrupted read is made again.
  abbrev pub on_kind :
      IoKind
      → IoError
      → List ℕ
      → (List ℕ → W → W × Result CoverError (List ℕ))
      → W
      → W × Result CoverError (List ℕ)
  on_kind interrupted e out next w = next out w
  on_kind timed_out e out next w = (w, err (from_io e))
  on_kind other e out next w = (w, err (from_io e))

  abbrev pub on_read :
      Read
      → List ℕ
      → (List ℕ → W → W × Result CoverError (List ℕ))
      → W
      → W × Result CoverError (List ℕ)
  on_read (ok []) out next w = (w, ok out)
  on_read (ok (b ∷ bytes)) out next w =
      if ltb max_cover_bytes (length out + length (b ∷ bytes))
      then (w, err too_large)
      else next (out ++ b ∷ bytes) w
  on_read (err e) out next w = on_kind e.kind e out next w

  -- The loop of `read_body`, with the bytes read so far.
  unfoldable pub read_loop : List Read → ℕ → List ℕ → W → W × Result CoverError (List ℕ)
  read_loop [] deadline out w = unless_over deadline w λ w1. (w1, ok out)
  read_loop (read ∷ reads) deadline out w =
      unless_over deadline w (on_read read out (read_loop reads deadline))

  unfoldable pub read_body : Response → ℕ → W → W × Result CoverError (List ℕ)
  read_body resp deadline w =
      if declares_too_much resp.content_length
      then (w, err too_large)
      else read_loop resp.body deadline [] w

  module _ ⦃u : UrlCrate Url⦄ ⦃t : Texts⦄ where
    abbrev pub on_response :
        Url
        → ℕ
        → (Url → W → W × Result CoverError (List ℕ))
        → W × Result CoverError Response
        → W × Result CoverError (List ℕ)
    on_response url deadline next (w, err e) = (w, err e)
    on_response url deadline next (w, ok resp) =
        if is_success resp.status
        then read_body resp deadline w
        else if is_redirect resp.status
        then on_location resp.status resp.location url next w
        else (w, err (io (codes "HTTP " ++ decimal resp.status)))

    abbrev pub on_checked :
        Result CoverError (List SocketAddr)
        → Url
        → ℕ
        → (Url → W → W × Result CoverError (List ℕ))
        → W
        → W × Result CoverError (List ℕ)
    on_checked (err e) url deadline next w = (w, err e)
    on_checked (ok addrs) url deadline next w =
        let (w1, now) = env.now w in
        if ltb deadline now
        then (w1, err timeout)
        else on_response url deadline next (env.get url addrs w1)

    -- The loop over the hops, with the number of hops left.
    unfoldable pub hop : ℕ → ℕ → Url → W → W × Result CoverError (List ℕ)
    hop zero deadline url w = (w, err (io (codes "too many redirects")))
    hop (suc left) deadline url w =
        on_checked (check_destination url env.domains (env.dns w)) url deadline (hop left deadline)
          w

    abbrev pub on_parsed : Result Str Url → ℕ → W → W × Result CoverError (List ℕ)
    on_parsed (err why) deadline w = (w, err (refused (codes "bad url: " ++ why)))
    on_parsed (ok url) deadline w = hop (max_redirects + 1) deadline url w

    unfoldable pub fetch : Str → W → W × Result CoverError (List ℕ)
    fetch url w = let (w1, now) = env.now w in on_parsed (u.parse url) (now + download_deadline) w1
