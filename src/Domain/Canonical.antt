-- ===== src/Domain/Canonical.antt =====
-- crates/models/src/lib.rs: canonical domain names. The url crate is read as in Crawler/Url: its
-- parser is a parameter.
use tech_atlas.Prelude.{
  Bool, not, ◌||◌, false, Option, none, some, is_some, [], ◌∷◌, ◌++◌, drop, ltb, if◌then◌else◌,
  Outcome, ok, err, ◌>>=◌, ◌>>◌, refuse_if, ok_or,
}
use tech_atlas.Prelude.Text.{
  Text, text, trim, is_empty, contains, starts_with, eq_text, strip_last, utf8_len,
}
use tech_atlas.Crawler.Url.{Url, Host, domain_host, ip_host, is_web_scheme}

pub data CanonicalDomainError : Type 0 where
  empty invalid_url unsupported_scheme credentials_not_allowed missing_host invalid_host
        ip_literal_not_allowed localhost_not_allowed too_long :
      CanonicalDomainError

-- `split_once("://")`: what follows the first occurrence.
abbrev pub after_separator : Text → Option Text
after_separator [] = none
after_separator (c ∷ s) =
    let later = after_separator s in
    if starts_with (c ∷ s) (text "://") then some (drop 2 s) else later

abbrev pub lacks_authority : Option Text → Bool
lacks_authority none = false
lacks_authority (some rest) =
    starts_with rest (text "/") || starts_with rest (text "?") || starts_with rest (text "#")

abbrev pub domain_of_host : Host → Outcome CanonicalDomainError Text
domain_of_host (domain_host name) = ok name
domain_of_host ip_host = err ip_literal_not_allowed

unfoldable pub parse_canonical : (Text → Option Url) → Text → Outcome CanonicalDomainError Text
parse_canonical parse_url input =
    let trimmed = trim input in
    do
      refuse_if (is_empty trimmed) empty
      refuse_if (lacks_authority (after_separator trimmed)) missing_host
      url ←
          ok_or
            (parse_url
              (if contains trimmed (text "://") then trimmed else text "https://" ++ trimmed))
            invalid_url
      refuse_if (not (is_web_scheme url.scheme)) unsupported_scheme
      refuse_if (not (is_empty url.username) || is_some url.password) credentials_not_allowed
      found ← ok_or url.host missing_host
      name ← domain_of_host found
      refuse_if (is_empty (strip_last 46 name)) invalid_host
      refuse_if (eq_text (strip_last 46 name) (text "localhost")) localhost_not_allowed
      refuse_if (ltb 253 (utf8_len (strip_last 46 name))) too_long
      ok (strip_last 46 name)
