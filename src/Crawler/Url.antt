-- ===== src/Crawler/Url.antt =====
-- `CrawlUrl`. What the `url` crate parses is read through its accessors, the fields of `Url`;
-- parsing and joining are parameters, and the setters that the source calls write one field.
use tech_atlas.Prelude.{
  ℕ, Bool, true, false, not, ◌||◌, ◌≡◌, ◌↔◌, Option, none, some, is_some, List, ◌++◌, if◌then◌else◌,
  Outcome, ok, err, ◌>>=◌, ◌>>◌, refuse_if, ok_or, arith, after_ok,
}
use tech_atlas.Prelude.Text.{Text, text, trim, is_empty, contains, eq_text, to_ascii_lowercase}

pub data Host : Type 0 where
  domain_host : Text → Host
  ip_host : Host

pub record Url : Type 0 where
  pub scheme : Text
  pub username : Text
  pub password : Option Text
  pub host : Option Host
  pub port : Option ℕ
  pub path : Text
  pub query : Option Text
  pub fragment : Option Text

pub data CrawlUrlError : Type 0 where
  empty_url invalid_url unsupported_scheme missing_host credentials_not_allowed fragment_not_allowed
        ip_literal_not_allowed localhost_not_allowed :
      CrawlUrlError

pub record UrlLibrary : Type 0 where
  pub parse_url : Text → Option Url
  pub join : Url → Text → Option Url

abbrev pub domain_of : Host → Outcome CrawlUrlError Text
domain_of (domain_host name) = ok name
domain_of ip_host = err ip_literal_not_allowed

abbrev pub is_web_scheme : Text → Bool
is_web_scheme scheme = eq_text scheme (text "http") || eq_text scheme (text "https")

abbrev pub is_localhost : Text → Bool
is_localhost name = eq_text (to_ascii_lowercase name) (text "localhost")

unfoldable pub from_url : Url → Outcome CrawlUrlError Url
from_url url = do
  refuse_if (not (is_web_scheme url.scheme)) unsupported_scheme
  refuse_if (not (is_empty url.username) || is_some url.password) credentials_not_allowed
  refuse_if (is_some url.fragment) fragment_not_allowed
  found ← ok_or url.host missing_host
  name ← domain_of found
  refuse_if (is_localhost name) localhost_not_allowed
  ok url

unfoldable pub parse_crawl_url : UrlLibrary → Text → Outcome CrawlUrlError Url
parse_crawl_url lib input =
    let trimmed = trim input in
    do
      refuse_if (is_empty trimmed) empty_url
      url ←
          ok_or
            (lib.parse_url
              (if contains trimmed (text "://") then trimmed else text "https://" ++ trimmed))
            invalid_url
      from_url url

-- `host()`: empty when the URL has none.
unfoldable pub host_name : Option Host → Text
host_name (some (domain_host name)) = name
host_name _ = List.[]

unfoldable pub robots_url : Url → Outcome CrawlUrlError Url
robots_url url = from_url (record url { path = text "/robots.txt"; query = none; fragment = none })

unfoldable pub redirect_target : UrlLibrary → Url → Text → Outcome CrawlUrlError Url
redirect_target lib url location = do
  target ← ok_or (lib.join url location) invalid_url
  from_url target

-- A URL that may be crawled: HTTP or HTTPS, a domain name other than localhost as its host, and
-- neither credentials nor a fragment.
pub record IsCrawlable (url : Url) : Type 0 where
  pub web : is_web_scheme url.scheme ≡ true
  pub anonymous : (is_empty url.username ≡ true) × (url.password ≡ none)
  pub whole : url.fragment ≡ none
  pub named : (name : Text) × (url.host ≡ some (domain_host name)) × (is_localhost name ≡ false)

named_host :
    (found : Option Host) (name : Text) {h : Host}
    → ok_or found missing_host ≡ ok h
    → domain_of h ≡ ok name
    → found ≡ some (domain_host name)
named_host (some (domain_host n)) name h k = ground arith
named_host (some ip_host) name h k = ground arith
named_host none name h k = cc

-- `from_url` accepts exactly the crawlable URLs and returns them as they are.
pub from_url_iff : (url v : Url) → (from_url url ≡ ok v) ↔ ((v ≡ url) × IsCrawlable url)
unfolding from_url
from_url_iff url v = (
  (λ h. after_ok (refuse_if (not (is_web_scheme url.scheme)) unsupported_scheme) _ h λ _ web h₁.
      after_ok
        (refuse_if (not (is_empty url.username) || is_some url.password) credentials_not_allowed) _
        h₁
        λ _ anonymous h₂.
          after_ok (refuse_if (is_some url.fragment) fragment_not_allowed) _ h₂ λ _ whole h₃.
            after_ok (ok_or url.host missing_host) _ h₃ λ found got h₄.
              after_ok (domain_of found) _ h₄ λ name named h₅.
                after_ok (refuse_if (is_localhost name) localhost_not_allowed) _ h₅ λ _ remote same.
                  (
                    ground arith,
                    record {
                      web = ground arith;
                      anonymous = ground arith;
                      whole = ground arith;
                      named = (name, named_host url.host name got named, ground arith);
                    },
                  )),
  λ h.
      let (name, named, remote) = h.1.named in
      rw (h.1.web, h.1.anonymous.0, h.1.anonymous.1, h.1.whole, named, remote) (ground arith),
)
