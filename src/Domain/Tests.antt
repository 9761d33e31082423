-- ===== src/Domain/Tests.antt =====
-- Runs of Domain/Canonical, Domain/Listing and Domain/Creation on small tables.
use tech_atlas.Prelude.{
  filter, ℕ, ◌≡◌, refl, Option, none, some, List, [], ◌∷◌, ◌++◌, drop, String, ok, err, arith,
}
use tech_atlas.Prelude.Text.{
  Text, text, trim, to_ascii_lowercase, starts_with, eq_text, strip_last, contains, utf8_len,
}
use tech_atlas.Prelude.Text.Order.{text_before}
use tech_atlas.Prelude.Duration.{Duration}
use tech_atlas.Prelude.Sort.{sort_by}
use tech_atlas.Crawler.Url.{Url, domain_host}
use tech_atlas.Domain.Canonical.{parse_canonical, empty, missing_host, localhost_not_allowed}
use tech_atlas.Domain.Listing.{
  is_active, duplicate_domain, row_before, is_after, DomainListPage, active_rows, select_active,
  rows_to_domains, row_to_domain, page_of, list_active,
}
use tech_atlas.Domain.Pages.{remaining, listed_domains, list_active-remaining}
use tech_atlas.Domain.Rows.{same_domain}
use tech_atlas.Domain.Policy.{default_crawl_policy, medium_crawl_interval}
use tech_atlas.Domain.Order.{IsApart}
use tech_atlas.Domain.Creation.{
  DomainTables, new_row, new_policy_row, create_manual, create_with_audit, insert_domain,
  insert_event, find_active,
}
use tech_atlas.Domain.Found.{create_manual-find_active}
use tech_atlas.Scheduler.Tables.{DomainRow, check_policy}

-- A parser for `https://` and a bare host.
abbrev read_host : Text → Option Url
read_host input = some (record {
  scheme = text "https";
  username = [];
  password = none;
  host = some (domain_host (to_ascii_lowercase (drop 8 input)));
  port = none;
  path = text "/";
  query = none;
  fragment = none;
})

abbrev stored_domain : ℕ → String → Option ℕ → DomainRow
stored_domain id name archived_at = record {
  id = id;
  canonical_domain = text name;
  archived_at = archived_at;
}

abbrev stored_domains : List DomainRow
stored_domains =
    stored_domain 1 "c.net" none
    ∷ stored_domain 2 "a.org" none
    ∷ stored_domain 3 "b.com" (some 5)
    ∷ stored_domain 4 "b.io" none
    ∷ []

canonical_name : parse_canonical read_host (text " Example.COM. ") ≡ ok (text "example.com")
unfolding parse_canonical trim starts_with eq_text strip_last to_ascii_lowercase contains utf8_len
canonical_name = refl

canonical_empty : parse_canonical read_host (text "  ") ≡ err empty
unfolding parse_canonical trim starts_with eq_text strip_last to_ascii_lowercase contains utf8_len
canonical_empty = refl

canonical_no_host : parse_canonical read_host (text "https:///path") ≡ err missing_host
unfolding parse_canonical trim starts_with eq_text strip_last to_ascii_lowercase contains utf8_len
canonical_no_host = refl

canonical_localhost : parse_canonical read_host (text "localhost") ≡ err localhost_not_allowed
unfolding parse_canonical trim starts_with eq_text strip_last to_ascii_lowercase contains utf8_len
canonical_localhost = refl

first_page :
    list_active read_host none 2 stored_domains
    ≡ ok (record {
      domains =
          (record { id = 2; canonical_domain = text "a.org" })
          ∷ (record { id = 4; canonical_domain = text "b.io" })
          ∷ [];
      next_cursor = some (text "b.io");
    })
unfolding list_active select_active rows_to_domains row_to_domain page_of active_rows sort_by
    is_after row_before text_before parse_canonical trim starts_with eq_text strip_last
    to_ascii_lowercase contains utf8_len
first_page = refl

last_page :
    list_active read_host (some (text "b.io")) 2 stored_domains
    ≡ ok (record {
      domains = (record { id = 1; canonical_domain = text "c.net" }) ∷ [];
      next_cursor = none;
    })
unfolding list_active select_active rows_to_domains row_to_domain page_of active_rows sort_by
    is_after row_before text_before parse_canonical trim starts_with eq_text strip_last
    to_ascii_lowercase contains utf8_len
last_page = refl

list_active-remaining_example :
    (page : DomainListPage) × (list_active read_host none 2 stored_domains ≡ ok page)
    × (page.domains ++ remaining stored_domains page.next_cursor
        ≡ listed_domains (active_rows none stored_domains))
unfolding parse_canonical trim starts_with eq_text strip_last to_ascii_lowercase contains utf8_len
list_active-remaining_example =
    list_active-remaining read_host none 2 stored_domains (refl, (refl, (refl, (refl, tt))))
      ((refl, (refl, tt)), ((refl, tt), (tt, tt))) (omega arith) (omega arith)

abbrev same_text : Text → Text
same_text s = s

abbrev whole_interval : Duration → Option Duration
whole_interval d = some d

abbrev stored_tables : DomainTables
stored_tables = record { domains = stored_domains; policies = []; audit_events = [] }

-- `b.com` is archived, so its name is free.
abbrev created_tables : DomainTables
created_tables = record {
  domains = stored_domains ++ (new_row 9 (text "b.com") ∷ []);
  policies = new_policy_row 9 70 default_crawl_policy medium_crawl_interval ∷ [];
  audit_events =
      (record { actor_subject = text "admin"; action = text "domain.created"; domain_id = 9 }) ∷ [];
}

create_manual_duplicate :
    create_manual read_host same_text whole_interval default_crawl_policy 9 70
      (text "https://A.org.")
      (text "admin")
      stored_tables
    ≡ err duplicate_domain
unfolding create_manual create_with_audit insert_domain insert_event check_policy row_to_domain
    parse_canonical trim starts_with eq_text strip_last to_ascii_lowercase contains utf8_len
create_manual_duplicate = refl

create_manual-find_active_example :
    (find_active read_host (text "B.com") created_tables.domains
      ≡ ok (some (record { id = 9; canonical_domain = text "b.com" })))
    × (IsApart same_domain (filter is_active stored_domains)
        → IsApart same_domain (filter is_active created_tables.domains))
unfolding create_manual create_with_audit insert_domain insert_event check_policy row_to_domain
    parse_canonical trim starts_with eq_text strip_last to_ascii_lowercase contains utf8_len
create_manual-find_active_example =
    create_manual-find_active read_host same_text whole_interval default_crawl_policy 9 70
      (text "B.com") (text "admin") stored_tables
      (record { id = 9; canonical_domain = text "b.com" }) created_tables refl
