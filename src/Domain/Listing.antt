-- ===== src/Domain/Listing.antt =====
-- The pages of active domains: `list_active` of crates/database/src/domain_repository.rs and of
-- `DomainService` in crates/models/src/lib.rs.
use tech_atlas.Prelude.{
  ℕ, ◌+◌, ◌-◌, ◌^◌, Bool, true, not, ◌&&◌, Option, none, some, is_some, List, [], ◌∷◌, leb, ltb,
  if◌then◌else◌, filter, take, length, get_elem?, Outcome, ok, ◌>>=◌, ◌>>◌, refuse_if, map_err,
}
use tech_atlas.Prelude.Text.{Text}
use tech_atlas.Prelude.Text.Order.{text_before}
use tech_atlas.Prelude.Sort.{sort_by}
use tech_atlas.Crawler.Url.{Url}
use tech_atlas.Domain.Canonical.{CanonicalDomainError, parse_canonical}
use tech_atlas.Scheduler.Tables.{DomainRow}

pub data DomainRepositoryError : Type 0 where
  duplicate unavailable : DomainRepositoryError

pub data DomainServiceError : Type 0 where
  invalid_input : CanonicalDomainError → DomainServiceError
  duplicate_domain service_unavailable : DomainServiceError

-- `impl From<DomainRepositoryError> for DomainServiceError`
abbrev pub service_error : DomainRepositoryError → DomainServiceError
service_error duplicate = duplicate_domain
service_error unavailable = service_unavailable

pub record ManagedDomain : Type 0 where
  pub id : ℕ
  pub canonical_domain : Text

pub record DomainListPage : Type 0 where
  pub domains : List ManagedDomain
  pub next_cursor : Option Text

-- `$1::TEXT IS NULL OR canonical_domain > $1`
unfoldable pub is_after : Option Text → Text → Bool
is_after none name = true
is_after (some cursor) name = not (text_before name cursor)

abbrev pub is_active : DomainRow → Bool
is_active row = not (is_some row.archived_at)

-- The database's collation is not declared; names are compared by code points.
unfoldable pub row_before : DomainRow → DomainRow → Bool
row_before a b = text_before a.canonical_domain b.canonical_domain

-- The SELECT without its LIMIT.
unfoldable pub active_rows : Option Text → List DomainRow → List DomainRow
active_rows after rows =
    sort_by row_before (filter (λ row. is_active row && is_after after row.canonical_domain) rows)

abbrev pub cursor_of : Option ManagedDomain → Option Text
cursor_of none = none
cursor_of (some domain) = some domain.canonical_domain

unfoldable pub page_of : ℕ → List ManagedDomain → DomainListPage
page_of limit found = record {
  domains = take limit found;
  next_cursor = if ltb limit (length found) then cursor_of (get_elem? found (limit - 1)) else none;
}

module _ (parse_url : Text → Option Url) where
  unfoldable pub row_to_domain : DomainRow → Outcome DomainRepositoryError ManagedDomain
  row_to_domain row = do
    name ← map_err (λ e. unavailable) (parse_canonical parse_url row.canonical_domain)
    ok (record { id = row.id; canonical_domain = name })

  unfoldable pub rows_to_domains :
      List DomainRow → Outcome DomainRepositoryError (List ManagedDomain)
  rows_to_domains [] = ok []
  rows_to_domains (row ∷ rest) = do
    first ← row_to_domain row
    later ← rows_to_domains rest
    ok (first ∷ later)

  unfoldable pub select_active :
      Option Text → ℕ → List DomainRow → Outcome DomainRepositoryError (List ManagedDomain)
  select_active after limit rows = do
    refuse_if (leb (2 ^ 63) limit) unavailable
    rows_to_domains (take limit (active_rows after rows))

  unfoldable pub list_active :
      Option Text → ℕ → List DomainRow → Outcome DomainServiceError DomainListPage
  list_active after limit rows = do
    refuse_if (leb (2 ^ 64) (limit + 1)) service_unavailable
    found ← map_err service_error (select_active after (limit + 1) rows)
    ok (page_of limit found)
