-- ===== src/Domain/Creation.antt =====
-- The creation of domains and the search by name: `DomainService` of crates/models/src/lib.rs over
-- crates/database/src/domain_repository.rs. `lower` is PostgreSQL's, and `to_interval` is
-- `PgInterval::try_from`; identifiers and instants are generated by the database.
use tech_atlas.Prelude.{
  ℕ, Bool, true, not, ◌&&◌, ◌==◌, Option, none, some, List, [], ◌∷◌, ◌++◌, any, all, find, Outcome,
  ok, ◌>>=◌, ◌>>◌, refuse_if, ok_or, map_err,
}
use tech_atlas.Prelude.Text.{Text, text, is_empty, eq_text, starts_with, strip_last}
use tech_atlas.Prelude.Duration.{Duration}
use tech_atlas.Crawler.Url.{Url}
use tech_atlas.Domain.Canonical.{parse_canonical}
use tech_atlas.Domain.Policy.{CrawlPolicy}
use tech_atlas.Domain.Listing.{
  DomainRepositoryError, unavailable, duplicate, DomainServiceError, invalid_input, service_error,
  ManagedDomain, is_active, row_to_domain,
}
use tech_atlas.Scheduler.Tables.{DomainRow, PolicyRow, check_policy}

pub record NewDomain : Type 0 where
  pub canonical_domain : Text
  pub crawl_policy : CrawlPolicy

pub record AuditEvent : Type 0 where
  pub actor_subject : Text
  pub action : Text
  pub domain_id : ℕ

pub record DomainTables : Type 0 where
  pub domains : List DomainRow
  pub policies : List PolicyRow
  pub audit_events : List AuditEvent

-- `domains_canonical_domain_normalized`
abbrev pub is_normalized : (Text → Text) → Text → Bool
is_normalized lower name =
    eq_text name (lower name)
    && not (starts_with name (text " "))
    && eq_text name (strip_last 32 name)
    && not (is_empty name)

-- An active row of `domains_active_canonical_domain_key` with this name.
abbrev pub is_named : Text → DomainRow → Bool
is_named name row = is_active row && eq_text row.canonical_domain name

abbrev pub new_row : ℕ → Text → DomainRow
new_row id name = record { id = id; canonical_domain = name; archived_at = none }

-- The columns that the INSERT leaves out have their defaults.
abbrev pub new_policy_row : ℕ → ℕ → CrawlPolicy → Duration → PolicyRow
new_policy_row id now policy interval = record {
  domain_id = id;
  is_enabled = true;
  priority = policy.priority;
  desired_interval = interval;
  last_crawl_at = none;
  last_successful_crawl_at = none;
  next_crawl_at = none;
  consecutive_failure_count = 0;
  last_failure_at = none;
  terminal_failure_at = none;
  created_at = now;
  updated_at = now;
}

-- `CHECK (btrim(actor_subject) <> '')`
unfoldable pub insert_event :
    Text
    → ManagedDomain × DomainTables
    → Outcome DomainRepositoryError (ManagedDomain × DomainTables)
insert_event actor_subject (domain, tables) = do
  refuse_if (all (λ c. c == 32) actor_subject) unavailable
  ok (
    domain,
    record {
      domains = tables.domains;
      policies = tables.policies;
      audit_events =
          (record {
            actor_subject = actor_subject;
            action = text "domain.created";
            domain_id = domain.id;
          })
          ∷ tables.audit_events;
    },
  )

module _ (parse_url : Text → Option Url) where
  abbrev pub answer_row : Option DomainRow → Outcome DomainRepositoryError (Option ManagedDomain)
  answer_row none = ok none
  answer_row (some row) = do domain ← row_to_domain parse_url row; ok (some domain)

  unfoldable pub find_active_by_canonical :
      Text → List DomainRow → Outcome DomainRepositoryError (Option ManagedDomain)
  find_active_by_canonical name rows = answer_row (find (is_named name) rows)

  unfoldable pub find_active :
      Text → List DomainRow → Outcome DomainServiceError (Option ManagedDomain)
  find_active input rows = do
    name ← map_err invalid_input (parse_canonical parse_url input)
    map_err service_error (find_active_by_canonical name rows)

module _ (parse_url : Text → Option Url) (lower : Text → Text)
    (to_interval : Duration → Option Duration) where
  unfoldable pub insert_domain :
      ℕ
      → ℕ
      → NewDomain
      → DomainTables
      → Outcome DomainRepositoryError (ManagedDomain × DomainTables)
  insert_domain id now new tables = do
    interval ← ok_or (to_interval new.crawl_policy.desired_interval) unavailable
    refuse_if (not (is_normalized lower new.canonical_domain)) unavailable
    refuse_if (any (λ row. row.id == id) tables.domains) unavailable
    refuse_if (any (is_named new.canonical_domain) tables.domains) duplicate
    refuse_if (any (λ p. p.domain_id == id) tables.policies) unavailable
    refuse_if (not (check_policy (new_policy_row id now new.crawl_policy interval))) unavailable
    name ← map_err (λ e. unavailable) (parse_canonical parse_url new.canonical_domain)
    ok (
      record { id = id; canonical_domain = name },
      record {
        domains = tables.domains ++ (new_row id new.canonical_domain ∷ []);
        policies = tables.policies ++ (new_policy_row id now new.crawl_policy interval ∷ []);
        audit_events = tables.audit_events;
      },
    )

  unfoldable pub create_with_audit :
      ℕ
      → ℕ
      → NewDomain
      → Text
      → DomainTables
      → Outcome DomainRepositoryError (ManagedDomain × DomainTables)
  create_with_audit id now new actor_subject tables = do
    created ← insert_domain id now new tables
    insert_event actor_subject created

  unfoldable pub create :
      CrawlPolicy
      → ℕ
      → ℕ
      → Text
      → DomainTables
      → Outcome DomainServiceError (ManagedDomain × DomainTables)
  create policy id now input tables = do
    name ← map_err invalid_input (parse_canonical parse_url input)
    map_err service_error
        (insert_domain id now (record { canonical_domain = name; crawl_policy = policy }) tables)

  unfoldable pub create_manual :
      CrawlPolicy
      → ℕ
      → ℕ
      → Text
      → Text
      → DomainTables
      → Outcome DomainServiceError (ManagedDomain × DomainTables)
  create_manual policy id now input actor_subject tables = do
    name ← map_err invalid_input (parse_canonical parse_url input)
    map_err service_error (
        create_with_audit id now (record { canonical_domain = name; crawl_policy = policy })
          actor_subject tables)
