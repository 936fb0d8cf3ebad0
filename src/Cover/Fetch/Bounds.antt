-- ===== src/Cover/Fetch/Bounds.antt =====
-- src/cover/fetch.rs: how much a fetch reads, and how many requests it makes.
use mpris_chroma.Prelude.{
  ℕ, zero, suc, ◌+◌, ◌≤◌, ◌≡◌, Option, none, some, List, [], ◌∷◌, ◌++◌, length, length-append,
  arith, ltb, if_cases,
}
use mpris_chroma.Prelude.Text.{Str}
use mpris_chroma.Prelude.Result.{Result, ok, err}
use mpris_chroma.Cover.{CoverError, IoError, IoKind, timed_out, interrupted, other}
use mpris_chroma.Cover.Policy.{SocketAddr, UrlCrate, Texts, check_destination}
use mpris_chroma.Cover.Fetch.{
  max_cover_bytes, max_redirects, download_deadline, FetchEnv, Read, Response, unless_over, on_kind,
  on_read, read_loop, read_body, is_success, is_redirect, declares_too_much, on_join, on_location,
  on_response, on_checked, hop, on_parsed, fetch,
}

-- `calls` counts the requests made of the transport.
pub record CountsGets {Url W : Type 0} (env : FetchEnv Url W) (calls : W → ℕ) : Type 0 where
  pub by_get :
      (url : Url) (addrs : List SocketAddr) (w : W) → calls (env.get url addrs w).0 ≡ suc (calls w)
  pub by_now : (w : W) → calls (env.now w).0 ≡ calls w
  pub by_should_stop : (w : W) → calls (env.should_stop w).0 ≡ calls w

module _ {Url W : Type 0} (env : FetchEnv Url W) (calls : W → ℕ) (law : CountsGets env calls) where
  -- At most `n` requests in all, and no more bytes than the cap.
  abbrev Fits : ℕ → W × Result CoverError (List ℕ) → Type 0
  Fits n out =
      (calls out.0 ≤ n) × ((bytes : List ℕ) → out.1 ≡ ok bytes → length bytes ≤ max_cover_bytes)

  fails : (n : ℕ) (w : W) (e : CoverError) → calls w ≤ n → Fits n (w, err e)
  fails n w e h = (h, λ bytes q. ground arith)

  unless_over-Fits :
      (n deadline : ℕ) (w : W) (next : W → W × Result CoverError (List ℕ))
      → calls w ≤ n
      → ((w1 : W) → calls w1 ≤ n → Fits n (next w1))
      → Fits n (unless_over env deadline w next)
  unless_over-Fits n deadline w next h k =
      let w1 = (env.should_stop w).0 in
      let h1 : calls w1 ≤ n = omega (arith, law.by_should_stop w) in
      let h2 : calls (env.now w1).0 ≤ n = omega (arith, law.by_now w1) in
      if_cases (Fits n) (env.should_stop w).1 _ _ (λ _. fails n w1 _ h1)
        (λ _.
          if_cases (Fits n) (ltb deadline (env.now w1).1) _ _ (λ _. fails n (env.now w1).0 _ h2)
            (λ _. k (env.now w1).0 h2))

  on_kind-Fits :
      (kind : IoKind) (e : IoError) (n : ℕ) (out : List ℕ)
      (next : List ℕ → W → W × Result CoverError (List ℕ)) (w : W)
      → calls w ≤ n
      → Fits n (next out w)
      → Fits n (on_kind env kind e out next w)
  on_kind-Fits interrupted e n out next w h k = k
  on_kind-Fits timed_out e n out next w h k = fails n w _ h
  on_kind-Fits other e n out next w h k = fails n w _ h

  on_read-Fits :
      (read : Read) (n : ℕ) (out : List ℕ) (next : List ℕ → W → W × Result CoverError (List ℕ))
      (w : W)
      → calls w ≤ n
      → length out ≤ max_cover_bytes
      → ((out1 : List ℕ) → length out1 ≤ max_cover_bytes → Fits n (next out1 w))
      → Fits n (on_read env read out next w)
  on_read-Fits (ok []) n out next w h o k = (h, λ bytes q. ground arith)
  on_read-Fits (ok (b ∷ bytes)) n out next w h o k =
      if_cases (Fits n) (ltb max_cover_bytes (length out + length (b ∷ bytes))) _ _
        (λ _. fails n w _ h)
        (λ f. k (out ++ b ∷ bytes) (ground (arith, length-append out (b ∷ bytes))))
  on_read-Fits (err e) n out next w h o k = on_kind-Fits e.kind e n out next w h (k out o)

  read_loop-Fits :
      (reads : List Read) (n deadline : ℕ) (out : List ℕ) (w : W)
      → calls w ≤ n
      → length out ≤ max_cover_bytes
      → Fits n (read_loop env reads deadline out w)
  unfolding read_loop
  read_loop-Fits [] n deadline out w h o =
      unless_over-Fits n deadline w (λ w1. (w1, ok out)) h (λ w1 h1. (h1, λ bytes q. ground arith))
  read_loop-Fits (read ∷ reads) n deadline out w h o = unless_over-Fits n deadline w _ h λ w1 h1.
      on_read-Fits read n out (read_loop env reads deadline) w1 h1 o
        (λ out1 o1. read_loop-Fits reads n deadline out1 w1 h1 o1)

  read_body-Fits :
      (resp : Response) (n deadline : ℕ) (w : W)
      → calls w ≤ n
      → Fits n (read_body env resp deadline w)
  unfolding read_body
  read_body-Fits resp n deadline w h =
      if_cases (Fits n) (declares_too_much resp.content_length) _ _ (λ _. fails n w _ h)
        (λ _. read_loop-Fits resp.body n deadline [] w h (omega arith))

  module _ ⦃u : UrlCrate Url⦄ ⦃t : Texts⦄ where
    on_join-Fits :
        (target : Result Str Url) (n : ℕ) (next : Url → W → W × Result CoverError (List ℕ)) (w : W)
        → calls w ≤ n
        → ((url : Url) → Fits n (next url w))
        → Fits n (on_join target next w)
    on_join-Fits (err why) n next w h k = fails n w _ h
    on_join-Fits (ok url) n next w h k = k url

    on_location-Fits :
        (status : ℕ) (location : Option Str) (url : Url) (n : ℕ)
        (next : Url → W → W × Result CoverError (List ℕ)) (w : W)
        → calls w ≤ n
        → ((url1 : Url) → Fits n (next url1 w))
        → Fits n (on_location status location url next w)
    on_location-Fits status none url n next w h k = fails n w _ h
    on_location-Fits status (some l) url n next w h k = on_join-Fits (u.join url l) n next w h k

    on_response-Fits :
        (url : Url) (n deadline : ℕ) (next : Url → W → W × Result CoverError (List ℕ))
        (answer : W × Result CoverError Response)
        → calls answer.0 ≤ n
        → ((url1 : Url) → Fits n (next url1 answer.0))
        → Fits n (on_response env url deadline next answer)
    on_response-Fits url n deadline next (w, err e) h k = fails n w e h
    on_response-Fits url n deadline next (w, ok resp) h k =
        if_cases (Fits n) (is_success resp.status) _ _ (λ _. read_body-Fits resp n deadline w h)
          (λ _.
            if_cases (Fits n) (is_redirect resp.status) _ _
              (λ _. on_location-Fits resp.status resp.location url n next w h k)
              (λ _. fails n w _ h))

    on_checked-Fits :
        (c : Result CoverError (List SocketAddr)) (url : Url) (left deadline : ℕ)
        (next : Url → W → W × Result CoverError (List ℕ)) (w : W)
        → ((url1 : Url) (w1 : W) → Fits (calls w1 + left) (next url1 w1))
        → Fits (calls w + suc left) (on_checked env c url deadline next w)
    on_checked-Fits (err e) url left deadline next w k = fails _ w e (omega arith)
    on_checked-Fits (ok addrs) url left deadline next w k =
        let w1 = (env.now w).0 in
        let answer = env.get url addrs w1 in
        let counted : calls answer.0 + left ≡ calls w + suc left =
          omega (arith, law.by_now w, law.by_get url addrs w1) in
        if_cases (Fits (calls w + suc left)) (ltb deadline (env.now w).1) _ _
          (λ _. fails _ w1 _ (omega (arith, law.by_now w)))
          (λ _. rw (← counted) (
            on_response-Fits url (calls answer.0 + left) deadline next answer (omega arith)
              (λ url1. k url1 answer.0)))

    hop-Fits :
        (left deadline : ℕ) (url : Url) (w : W)
        → Fits (calls w + left) (hop env left deadline url w)
    unfolding hop
    hop-Fits zero deadline url w = fails _ w _ (omega arith)
    hop-Fits (suc left) deadline url w =
        on_checked-Fits (check_destination url env.domains (env.dns w)) url left deadline
          (hop env left deadline) w (hop-Fits left deadline)

    on_parsed-Fits :
        (p : Result Str Url) (deadline : ℕ) (w : W)
        → Fits (calls w + (max_redirects + 1)) (on_parsed env p deadline w)
    on_parsed-Fits (err why) deadline w = fails _ w _ (omega arith)
    on_parsed-Fits (ok url) deadline w = hop-Fits (max_redirects + 1) deadline url w

    -- A fetch makes at most eleven requests, the first one and ten redirects, and what it returns is
    -- never longer than the cap, whatever lengths the servers declare and however they send a body.
    pub fetch_bounded :
        (url : Str) (w : W)
        → (calls (fetch env url w).0 ≤ calls w + 11)
          × ((bytes : List ℕ) → (fetch env url w).1 ≡ ok bytes → length bytes ≤ max_cover_bytes)
    unfolding fetch
    fetch_bounded url w =
        let k = on_parsed-Fits (u.parse url) ((env.now w).1 + download_deadline) (env.now w).0 in
        (omega (arith, k.0, law.by_now w), k.1)
