-- ===== src/Cover/Tests.antt =====
-- The destination policy and a download with a redirect, at concrete addresses.
use mpris_chroma.Prelude.{
  ℕ, zero, suc, ◌≤◌, ◌≡◌, ◌↔◌, refl, true, false, Option, none, some, List, [], ◌∷◌, length,
}
use mpris_chroma.Prelude.Text.{
  Str, codes, strip_prefix, split, str_eq, trim, trim_start, is_whitespace,
}
use mpris_chroma.Prelude.Result.{Result, ok, err}
use mpris_chroma.Cover.{IoError}
use mpris_chroma.Cover.Policy.{
  IpAddr, v4, v6, domain, UrlCrate, Texts, default_art_domains, strip_suffix, ends_with, v4_in,
  v6_in, is_global, art_domains_from, host_allowed, check_destination,
}
use mpris_chroma.Cover.Policy.Destination.{IsChecked, check_destination_iff}
use mpris_chroma.Cover.Fetch.{
  FetchEnv, Response, max_cover_bytes, read_loop, read_body, parse_u64, parse_digits, hop, fetch,
}
use mpris_chroma.Cover.Fetch.Pinned.{pinned, fetch_pinned}
use mpris_chroma.Cover.Fetch.Bounds.{CountsGets, fetch_bounded}

-- A scheme and a host, with the little of the parser that the tests need.
abbrev TestUrl : Type 0
TestUrl = Str × Str

abbrev first_piece : List Str → Str
first_piece [] = []
first_piece (p ∷ ps) = p

abbrev after_scheme : Option Str → Result Str TestUrl
after_scheme none = err (codes "relative URL without a base")
after_scheme (some rest) = ok (codes "https", first_piece (split b'/' rest))

abbrev parse : Str → Result Str TestUrl
parse s = after_scheme (strip_prefix (codes "https://") s)

instance abbrev test_crate : UrlCrate TestUrl
test_crate = record {
  parse = parse;
  join = λ base location. parse location;
  scheme = λ url. url.0;
  username = λ url. [];
  password = λ url. none;
  port = λ url. none;
  host = λ url. some (domain url.1);
  host_str = λ url. some url.1;
  to_file_path = λ url. none;
}

-- The hosts of the tests are in lower case already.
instance abbrev test_texts : Texts
test_texts = record {
  to_lowercase = λ s. s;
  quoted = λ s. s;
  host_text = λ h. [];
  ip_text = λ ip. [];
}

-- 8.8.8.8 and 10.0.0.1.
abbrev public_ip : IpAddr
public_ip = v4 134_744_072

abbrev private_ip : IpAddr
private_ip = v4 167_772_161

some_globals :
    (is_global public_ip ≡ true)
    × (is_global private_ip ≡ false)
    × (is_global (v4 2_887_778_303) ≡ false)
    × (is_global (v4 2_887_778_304) ≡ true)
    × (is_global (v6 0x2606_4700_0000_0000_0000_0000_0000_1111) ≡ true)
    × (is_global (v6 0xffff_0808_0808) ≡ false)
    × (is_global (v6 0x2001_0db8_0000_0000_0000_0000_0000_0001) ≡ false)
unfolding is_global v4_in v6_in
some_globals = (refl, refl, refl, refl, refl, refl, refl)

more_domains :
    art_domains_from (some (codes " example.org,scdn.co"))
    ≡ codes "scdn.co" ∷ codes "spotifycdn.com" ∷ codes "example.org" ∷ []
unfolding art_domains_from split trim trim_start is_whitespace str_eq
more_domains = refl

lookalike : host_allowed (codes "evilscdn.co") default_art_domains ≡ false
unfolding host_allowed str_eq strip_suffix ends_with
lookalike = refl

abbrev lookup : Str → Result IoError (List IpAddr)
lookup name = ok (public_ip ∷ [])

abbrev a_url : TestUrl
a_url = (codes "https", codes "i.scdn.co")

check_destination_iff_example :
    (check_destination {Url = TestUrl} a_url default_art_domains lookup
      ≡ ok (record { ip = public_ip; port = 443 } ∷ []))
    ↔ IsChecked {Url = TestUrl} a_url default_art_domains lookup
        (record { ip = public_ip; port = 443 } ∷ [])
check_destination_iff_example =
    check_destination_iff {Url = TestUrl} a_url default_art_domains lookup
      (record { ip = public_ip; port = 443 } ∷ [])

-- The first answer redirects, the second one is the picture. The world counts the requests.
abbrev answers : ℕ → Response
answers zero = record {
  status = 302;
  location = some (codes "https://i.scdn.co/b");
  content_length = none;
  body = [];
}
answers (suc n) = record {
  status = 200;
  location = none;
  content_length = some (codes "3");
  body = ok (1 ∷ 2 ∷ []) ∷ ok (3 ∷ []) ∷ [];
}

abbrev test_env : FetchEnv TestUrl ℕ
test_env = record {
  domains = default_art_domains;
  dns = λ w name. lookup name;
  get = λ url addrs w. (suc w, ok (answers w));
  now = λ w. (w, 0);
  should_stop = λ w. (w, false);
}

redirected : fetch test_env (codes "https://scdn.co/a") 0 ≡ (2, ok (1 ∷ 2 ∷ 3 ∷ []))
unfolding fetch hop check_destination host_allowed is_global v4_in str_eq strip_prefix split
    read_body read_loop parse_u64 parse_digits trim trim_start is_whitespace strip_suffix ends_with
redirected = refl

fetch_pinned_example :
    fetch (pinned test_env) (codes "https://scdn.co/a") 0
    ≡ fetch test_env (codes "https://scdn.co/a") 0
fetch_pinned_example = fetch_pinned test_env (codes "https://scdn.co/a") 0

test_env-CountsGets : CountsGets test_env (λ w. w)
test_env-CountsGets = record {
  by_get = λ url addrs w. refl;
  by_now = λ w. refl;
  by_should_stop = λ w. refl;
}

fetch_bounded_example :
    let out = fetch test_env (codes "https://scdn.co/a") 0 in
    (out.0 ≤ 11) × ((bytes : List ℕ) → out.1 ≡ ok bytes → length bytes ≤ max_cover_bytes)
fetch_bounded_example =
    fetch_bounded test_env (λ w. w) test_env-CountsGets (codes "https://scdn.co/a") 0
