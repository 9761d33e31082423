-- ===== src/Domain/Found.antt =====
-- A domain that was created is found by its name.
use tech_atlas.Prelude.{
  ℕ, ◌≡◌, refl, subst, Bool, true, false, not, Option, some, List, [], ◌∷◌, ◌++◌, any, all, find,
  filter, All, ok, arith, after_ok, ok_or, refuse_if, map_err, ok-injective, ◌==◌, map_err-eq-ok,
  Bool-cases, inl, inr,
}
use tech_atlas.Prelude.Text.{Text, eq_text}
use tech_atlas.Prelude.Text.Equality.{eq_text_self}
use tech_atlas.Prelude.Duration.{Duration}
use tech_atlas.Crawler.Url.{Url}
use tech_atlas.Domain.Canonical.{parse_canonical}
use tech_atlas.Domain.Policy.{CrawlPolicy}
use tech_atlas.Domain.Listing.{
  invalid_input, service_error, unavailable, duplicate, ManagedDomain, is_active, row_to_domain,
}
use tech_atlas.Domain.Order.{IsApart}
use tech_atlas.Domain.Rows.{same_domain}
use tech_atlas.Domain.Creation.{
  NewDomain, DomainTables, is_named, is_normalized, new_policy_row, new_row, insert_domain,
  insert_event, create_with_audit, find_active_by_canonical, find_active, create_manual,
}
use tech_atlas.Scheduler.Tables.{DomainRow, check_policy}

module _ {ℓ} {A : Type ℓ} where
  find_last :
      (p : A → Bool) (xs : List A) (y : A)
      → any p xs ≡ false
      → p y ≡ true
      → find p (xs ++ (y ∷ [])) ≡ some y
  find_last p [] y none_named h = rw h refl
  find_last p (x ∷ xs) y none_named h = elim (Bool-cases (p x)) [
    | inl hit ↦ absurd (ground (arith, hit, none_named))
    | inr miss ↦ rw miss (find_last p xs y (ground (arith, miss, none_named)) h)
  ]

  All-filter_last {κ} :
      (P : A → Type κ) (p : A → Bool) (xs : List A) (y : A)
      → All P (filter p xs)
      → P y
      → All P (filter p (xs ++ (y ∷ [])))
  All-filter_last P p [] y h k = elim (Bool-cases (p y)) [
    | inl kept ↦ rw kept (k, tt)
    | inr dropped ↦ rw dropped tt
  ]
  All-filter_last P p (x ∷ xs) y h k = elim (Bool-cases (p x)) [
    | inl kept ↦
        let both : P x × All P (filter p xs) = (rw kept at h) in
        rw kept (both.0, All-filter_last P p xs y both.1 k)
    | inr dropped ↦
        let rest : All P (filter p xs) = (rw dropped at h) in
        rw dropped (All-filter_last P p xs y rest k)
  ]

-- Without an active row of its name, an active row may be added.
IsApart-new_row :
    (rows : List DomainRow) (id : ℕ) (name : Text)
    → any (is_named name) rows ≡ false
    → IsApart same_domain (filter is_active rows)
    → IsApart same_domain (filter is_active (rows ++ (new_row id name ∷ [])))
IsApart-new_row [] id name none_named apart = (tt, tt)
IsApart-new_row (row ∷ rest) id name none_named apart =
    let later : any (is_named name) rest ≡ false = ground (arith, none_named) in
    elim (Bool-cases (is_active row)) [
      | inl kept ↦
          let other : eq_text row.canonical_domain name ≡ false =
            ground (arith, kept, none_named) in
          let both : All (λ y. same_domain row y ≡ false) (filter is_active rest)
              × IsApart same_domain (filter is_active rest) =
            (rw kept at apart) in
          rw kept (
            All-filter_last (λ y. same_domain row y ≡ false) is_active rest (new_row id name) both.0
                other,
            IsApart-new_row rest id name later both.1,
          )
      | inr dropped ↦
          let others : IsApart same_domain (filter is_active rest) = (rw dropped at apart) in
          rw dropped (IsApart-new_row rest id name later others)
    ]

not_refused : {E : Type 0} (c : Bool) (e : E) {u : Unit {0}} → refuse_if c e ≡ ok u → c ≡ false
not_refused false e h = refl
not_refused true e h = absurd (cc h)

module _ (parse_url : Text → Option Url) (lower : Text → Text)
    (to_interval : Duration → Option Duration) where
  -- What the tables hold of a domain after its creation.
  IsFound : NewDomain → ManagedDomain → DomainTables → DomainTables → Type 0
  IsFound new domain before after =
      (find_active_by_canonical parse_url new.canonical_domain after.domains ≡ ok (some domain))
      × (IsApart same_domain (filter is_active before.domains)
          → IsApart same_domain (filter is_active after.domains))

  inserted :
      (id : ℕ) (name : Text) (new : NewDomain) (tables : DomainTables) (interval : Duration)
      (now : ℕ)
      → map_err (λ e. unavailable) (parse_canonical parse_url new.canonical_domain) ≡ ok name
      → any (is_named new.canonical_domain) tables.domains ≡ false
      → IsFound new
          (record { id = id; canonical_domain = name })
          tables
          (record {
            domains = tables.domains ++ (new_row id new.canonical_domain ∷ []);
            policies = tables.policies ++ (new_policy_row id now new.crawl_policy interval ∷ []);
            audit_events = tables.audit_events;
          })
  unfolding IsFound find_active_by_canonical row_to_domain
  inserted id name new tables interval now name_ok none_named = (
    rw
        (
          find_last (is_named new.canonical_domain) tables.domains (new_row id new.canonical_domain)
              none_named (eq_text_self new.canonical_domain),
          name_ok,
        )
        refl,
    IsApart-new_row tables.domains id new.canonical_domain none_named,
  )

  insert_domain-IsFound :
      (id now : ℕ) (new : NewDomain) (tables : DomainTables) (domain : ManagedDomain)
      (after : DomainTables)
      → insert_domain parse_url lower to_interval id now new tables ≡ ok (domain, after)
      → IsFound new domain tables after
  unfolding insert_domain
  insert_domain-IsFound id now new tables domain after h =
      after_ok (ok_or (to_interval new.crawl_policy.desired_interval) unavailable) _ h
        λ interval a h₁.
          after_ok (refuse_if (not (is_normalized lower new.canonical_domain)) unavailable) _ h₁
            λ b b_ok h₂.
              after_ok (refuse_if (any (λ row. row.id == id) tables.domains) unavailable) _ h₂
                λ c c_ok h₃.
                  after_ok
                    (refuse_if (any (is_named new.canonical_domain) tables.domains) duplicate) _ h₃
                    λ d d_ok h₄.
                      after_ok
                        (refuse_if (any (λ p. p.domain_id == id) tables.policies) unavailable) _ h₄
                        λ e e_ok h₅.
                          after_ok
                            (refuse_if
                              (not (check_policy (new_policy_row id now new.crawl_policy interval)))
                              unavailable)
                            _ h₅
                            λ f f_ok h₆.
                              after_ok
                                (map_err (λ e. unavailable)
                                  (parse_canonical parse_url new.canonical_domain))
                                _ h₆
                                λ name name_ok same.
                                  subst (λ r. IsFound new r.0 tables r.1) (ok-injective same)
                                    (inserted id name new tables interval now name_ok
                                      (not_refused _ duplicate d_ok))

  insert_event-IsFound :
      (new : NewDomain) (actor_subject : Text) (tables : DomainTables)
      (created : ManagedDomain × DomainTables) (domain : ManagedDomain) (after : DomainTables)
      → IsFound new created.0 tables created.1
      → insert_event actor_subject created ≡ ok (domain, after)
      → IsFound new domain tables after
  unfolding insert_event IsFound
  insert_event-IsFound new actor_subject tables (made, between) domain after found h =
      after_ok (refuse_if (all (λ c. c == 32) actor_subject) unavailable) _ h
        λ a a_ok same. subst (λ r. IsFound new r.0 tables r.1) (ok-injective same) found

-- A domain that an administrator has created is found under the input it was created from, and the
-- names of the active domains still differ when they differed before.
pub create_manual-find_active :
    (parse_url : Text → Option Url) (lower : Text → Text) (to_interval : Duration → Option Duration)
    (policy : CrawlPolicy) (id now : ℕ) (input actor_subject : Text) (tables : DomainTables)
    (domain : ManagedDomain) (after : DomainTables)
    → create_manual parse_url lower to_interval policy id now input actor_subject tables
      ≡ ok (domain, after)
    → (find_active parse_url input after.domains ≡ ok (some domain))
      × (IsApart same_domain (filter is_active tables.domains)
          → IsApart same_domain (filter is_active after.domains))
unfolding create_manual create_with_audit find_active IsFound
create_manual-find_active parse_url lower to_interval policy id now input actor_subject tables
      domain after h =
    after_ok (map_err invalid_input (parse_canonical parse_url input)) _ h λ name name_ok h₁.
      let new : NewDomain = record { canonical_domain = name; crawl_policy = policy } in
      let h₂ =
        map_err-eq-ok service_error
          (create_with_audit parse_url lower to_interval id now new actor_subject tables) h₁ in
      after_ok (insert_domain parse_url lower to_interval id now new tables) _ h₂
        λ created inserted_ok h₃.
          let found : IsFound parse_url lower to_interval new domain tables after =
            insert_event-IsFound parse_url lower to_interval new actor_subject tables created domain
              after
              (insert_domain-IsFound parse_url lower to_interval id now new tables created.0
                created.1 inserted_ok)
              h₃ in
          (rw (name_ok, found.0) refl, found.1)
