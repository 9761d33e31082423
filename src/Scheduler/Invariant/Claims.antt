-- ===== src/Scheduler/Invariant/Claims.antt =====
-- The worker's claim and the administrator's request keep the invariant.
use tech_atlas.Prelude.{
  ℕ, ◌≤◌, ◌≡◌, refl, Bool, true, false, not, Option, some, List, [], ◌∷◌, map, find, count, ok, inl,
  inr, Bool-cases, after_ok, ok_or, refuse_if, arith,
}
use tech_atlas.Prelude.Text.{Text}
use tech_atlas.CrawlJob.{CrawlJobV1}
use tech_atlas.Scheduler.Tables.{
  AttemptRow, Db, is_finished, is_active, running, Status, queued, succeeded, failed, cancelled,
}
use tech_atlas.Scheduler.Tables.Rows.{changed, count-changed_same, count-pos_of_find}
use tech_atlas.Scheduler.Repository.{not_found, unavailable, set_attempts, set_policies}
use tech_atlas.Scheduler.Repository.Effects.{
  transact-keeps, ok_or-eq-ok, set_attempts_lem, set_policies_lem,
}
use tech_atlas.Scheduler.Repository.Reserve.{active_of, for_domain}
use tech_atlas.Scheduler.Repository.Policies.{terminal_of, count-for_domain_update}
use tech_atlas.Scheduler.Repository.Finish.{has_id}
use tech_atlas.Scheduler.Worker.{
  ClaimedCrawlAttempt, claimable, domain_is, claimed_attempt, claim_body, claim_attempt,
}
use tech_atlas.Scheduler.Admin.{
  AdminOperationError, conflict, lift, requested_policy, requestable, request_body,
  request_domain_crawl,
}
use tech_atlas.Scheduler.Invariant.{IsConsistent}
use tech_atlas.Scheduler.Invariant.Commands.{commit-keeps, lift-eq-ok}

module _ {A : Type 0} (p chosen : A → Bool) (change : A → A) where
  count-unchosen :
      (xs : List A) → count chosen xs ≡ 0 → count p (map (changed chosen change) xs) ≡ count p xs
  count-unchosen [] h = refl
  count-unchosen (x ∷ xs) h = ground (arith, count-unchosen xs)

  -- Changing the only chosen row in a way that keeps its test keeps the count.
  count-changed_one :
      (q : A → Bool) (xs : List A) (a : A)
      → find q xs ≡ some a
      → chosen a ≡ true
      → count chosen xs ≤ 1
      → p (change a) ≡ p a
      → count p (map (changed chosen change) xs) ≡ count p xs
  count-changed_one q [] a h ca one same = cc
  count-changed_one q (x ∷ xs) a h ca one same = elim (Bool-cases (q x)) [
    | inl found ↦
        let here : x ≡ a = ground (arith, rw found at h) in
        let rest : count chosen xs ≡ 0 = ground (arith, rw here at one) in
        rw here (rw (ca, same, count-unchosen xs rest) refl)
    | inr later ↦
        let found = rw later at h in
        let left : chosen x ≡ false = ground (arith, count-pos_of_find chosen q xs found ca) in
        let few : count chosen xs ≤ 1 = omega (arith, rw left at one) in
        rw (left, count-changed_one q xs a found ca few same) refl
  ]

unfinished_active : (s : Status) → is_finished s ≡ false → is_active s ≡ true
unfolding is_finished is_active
unfinished_active queued h = refl
unfinished_active running h = refl
unfinished_active succeeded h = cc
unfinished_active failed h = cc
unfinished_active cancelled h = cc

claimed_same :
    (t d : ℕ) (a : AttemptRow)
    → is_finished a.status ≡ false
    → active_of d (claimed_attempt t a) ≡ active_of d a
unfolding active_of is_active
claimed_same t d a h = ground (arith, unfinished_active a.status h)

module _ (parse_domain : Text → Option Text) (job : CrawlJobV1) (started_at : ℕ) (db : Db)
    (unique : (i : ℕ) → count (has_id i) db.attempts ≤ 1) (c : IsConsistent db) where
  claim_body-IsConsistent :
      (claimed : ClaimedCrawlAttempt) (after : Db)
      → claim_body parse_domain job started_at db ≡ ok (claimed, after)
      → IsConsistent after
  unfolding claim_body
  claim_body-IsConsistent claimed after h =
      after_ok (ok_or (find (claimable job db.domains) db.attempts) not_found) _ h λ a got h₁.
        elim (Bool-cases (is_finished a.status)) [
          | inl over ↦
              let unchanged = (rw over at h₁) in
              let end : after ≡ db = ground (arith, unchanged) in rw end c
          | inr live ↦
              after_ok (ok_or (find (domain_is a.domain_id) db.domains) not_found) _ (rw live at h₁)
                λ row _ h₂.
                  after_ok (ok_or (parse_domain row.canonical_domain) unavailable) _ h₂ λ name _ h₃.
                    after_ok (set_attempts (has_id a.id) (claimed_attempt started_at) db) _ h₃
                      λ updated set same.
                        let end : after ≡ updated = ground arith in
                        let own : has_id a.id a ≡ true = ground arith in
                        rw (end, set_attempts_lem (has_id a.id) (claimed_attempt started_at) db set)
                          (record {
                            one_policy = c.one_policy;
                            one_active = λ d.
                                rw
                                  (count-changed_one (active_of d) (has_id a.id)
                                    (claimed_attempt started_at) (claimable job db.domains)
                                    db.attempts a (ok_or-eq-ok _ not_found got) own (unique a.id)
                                    (claimed_same started_at d a live))
                                  (c.one_active d);
                            settled = λ d.
                                rw
                                  (count-changed_one (active_of d) (has_id a.id)
                                    (claimed_attempt started_at) (claimable job db.domains)
                                    db.attempts a (ok_or-eq-ok _ not_found got) own (unique a.id)
                                    (claimed_same started_at d a live))
                                  (c.settled d);
                          })
        ]

-- Where the attempts' identifiers are unique, from consistent tables, a worker's claim leads to
-- consistent tables, whether it succeeds or fails.
pub claim_attempt-IsConsistent :
    (parse_domain : Text → Option Text) (job : CrawlJobV1) (started_at : ℕ) (db : Db)
    → ((i : ℕ) → count (has_id i) db.attempts ≤ 1)
    → IsConsistent db
    → IsConsistent (claim_attempt parse_domain job started_at db).1
unfolding claim_attempt
claim_attempt-IsConsistent parse_domain job started_at db unique c =
    transact-keeps IsConsistent (claim_body parse_domain job started_at) db c (λ claimed after h.
      claim_body-IsConsistent parse_domain job started_at db unique c claimed after h)

module _ (name : Text) (now : ℕ) (db : Db) (c : IsConsistent db) where
  request_body-IsConsistent :
      (after : Db) → request_body name now db ≡ ok (tt, after) → IsConsistent after
  unfolding request_body
  request_body-IsConsistent after h =
      after_ok
        (ok_or (find (requestable name db.domains) db.policies) AdminOperationError.not_found) _ h
        λ p _ h₁. after_ok (refuse_if (not p.is_enabled) conflict) _ h₁ λ _ _ h₂.
          after_ok (lift (set_policies (for_domain p.domain_id) (requested_policy now) db)) _ h₂
            λ updated set same.
              let end : after ≡ updated = ground arith in
              let rows =
                set_policies_lem (for_domain p.domain_id) (requested_policy now) db
                  (lift-eq-ok _ set) in
              rw (end, rows)
                (record {
                  one_policy = λ d.
                      rw
                        (count-for_domain_update p.domain_id (requested_policy now) (λ q. refl)
                          db.policies d)
                        (c.one_policy d);
                  one_active = c.one_active;
                  settled = λ d.
                      rw
                        (count-changed_same (terminal_of d) (for_domain p.domain_id)
                          (requested_policy now) db.policies (λ q e. refl))
                        (c.settled d);
                })

  -- From consistent tables, an administrator's request of a crawl leads to consistent tables,
  -- whether it succeeds or fails.
  pub request_domain_crawl-IsConsistent : IsConsistent (request_domain_crawl name now db).1
  unfolding request_domain_crawl
  request_domain_crawl-IsConsistent =
      commit-keeps IsConsistent (request_body name now) db c
        (λ _ after h. request_body-IsConsistent after h)
