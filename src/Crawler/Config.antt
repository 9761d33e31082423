-- ===== src/Crawler/Config.antt =====
-- The crawler's configuration and its validation.
use tech_atlas.Prelude.{
  ℕ, ◌*◌, Bool, true, false, not, ◌||◌, ◌≡◌, ◌↔◌, ◌<◌, ◌++◌, ◌==◌, Outcome, ok, ◌>>◌, refuse_if,
  arith,
}
use tech_atlas.Prelude.Text.{Text, text, trim, is_empty}
use tech_atlas.Prelude.Duration.{Duration, from_secs, is_zero}

pub record CrawlerConfig : Type 0 where
  pub user_agent : Text
  pub robots_user_agent : Text
  pub contact : Text
  pub connect_timeout : Duration
  pub read_timeout : Duration
  pub total_timeout : Duration
  pub dns_timeout : Duration
  pub dns_max_addresses : ℕ
  pub tls_timeout : Duration
  pub tls_max_addresses : ℕ
  pub max_redirects : ℕ
  pub max_response_bytes : ℕ
  pub politeness_delay : Duration

abbrev pub default_config : CrawlerConfig
default_config = record {
  user_agent = text "TechAtlas/0.1";
  robots_user_agent = text "TechAtlas";
  contact = text "mailto:ops@techatlas.invalid";
  connect_timeout = from_secs 5;
  read_timeout = from_secs 15;
  total_timeout = from_secs 30;
  dns_timeout = from_secs 5;
  dns_max_addresses = 16;
  tls_timeout = from_secs 5;
  tls_max_addresses = 4;
  max_redirects = 10;
  max_response_bytes = 10 * 1024 * 1024;
  politeness_delay = from_secs 1;
}

pub data CrawlerConfigError : Type 0 where
  empty_user_agent invalid_user_agent empty_robots_user_agent empty_contact zero_timeout
        zero_tls_address_limit zero_dns_address_limit zero_redirect_limit zero_body_limit
        zero_politeness_delay :
      CrawlerConfigError

abbrev pub full_user_agent : CrawlerConfig → Text
full_user_agent c = c.user_agent ++ text " (+" ++ c.contact ++ text ")"

abbrev pub some_timeout_zero : CrawlerConfig → Bool
some_timeout_zero c =
    is_zero c.connect_timeout
    || is_zero c.read_timeout
    || is_zero c.total_timeout
    || is_zero c.dns_timeout
    || is_zero c.tls_timeout

-- `is_header_value` is the HTTP library's `HeaderValue::from_str(..).is_ok()`.
unfoldable pub validate : (Text → Bool) → CrawlerConfig → Outcome CrawlerConfigError (Unit {0})
validate is_header_value c = do
  refuse_if (is_empty (trim c.user_agent)) empty_user_agent
  refuse_if (not (is_header_value (full_user_agent c))) invalid_user_agent
  refuse_if (is_empty (trim c.robots_user_agent)) empty_robots_user_agent
  refuse_if (is_empty (trim c.contact)) empty_contact
  refuse_if (some_timeout_zero c) zero_timeout
  refuse_if (c.max_redirects == 0) zero_redirect_limit
  refuse_if (c.tls_max_addresses == 0) zero_tls_address_limit
  refuse_if (c.dns_max_addresses == 0) zero_dns_address_limit
  refuse_if (c.max_response_bytes == 0) zero_body_limit
  refuse_if (is_zero c.politeness_delay) zero_politeness_delay
  ok tt

-- A configuration is accepted exactly when its texts are not blank, its user agent is a header
-- value, and none of its timeouts and limits is zero.
pub validate_iff :
    (is_header_value : Text → Bool) (c : CrawlerConfig)
    → (validate is_header_value c ≡ ok tt) ↔ (
        (is_empty (trim c.user_agent) ≡ false)
        × (is_header_value (full_user_agent c) ≡ true)
        × (is_empty (trim c.robots_user_agent) ≡ false)
        × (is_empty (trim c.contact) ≡ false)
        × (0 < c.connect_timeout)
        × (0 < c.read_timeout)
        × (0 < c.total_timeout)
        × (0 < c.dns_timeout)
        × (0 < c.tls_timeout)
        × (0 < c.max_redirects)
        × (0 < c.tls_max_addresses)
        × (0 < c.dns_max_addresses)
        × (0 < c.max_response_bytes)
        × (0 < c.politeness_delay))
unfolding validate
validate_iff is_header_value c = (λ h. ground arith, λ h. ground arith)
