-- ===== src/Scheduler/Requested.antt =====
-- What an administrator's request of a crawl leads to.
use tech_atlas.Prelude.{
  ℕ, ◌≡◌, refl, subst, ◌∙◌, Bool, true, false, not, ◌&&◌, ◌==◌, leb, some, List, [], ◌∷◌, map, find,
  any, ok, err, Outcome, after_ok, ok_or, refuse_if, arith, Bool-cases, inl, inr,
}
use tech_atlas.Prelude.Text.{Text}
use tech_atlas.Scheduler.Tables.{DomainRow, PolicyRow, Db}
use tech_atlas.Scheduler.Tables.Rows.{changed, find-passes}
use tech_atlas.Scheduler.Repository.{set_policies}
use tech_atlas.Scheduler.Repository.Effects.{set_policies_lem}
use tech_atlas.Scheduler.Repository.Reserve.{active_of, for_domain, live_domain, is_due}
use tech_atlas.Scheduler.Admin.{
  AdminOperationError, conflict, Reply, commit, lift, requested_policy, named_domain, requestable,
  request_body, request_domain_crawl,
}
use tech_atlas.Scheduler.Invariant.{IsConsistent}
use tech_atlas.Scheduler.Invariant.Claims.{request_domain_crawl-IsConsistent}
use tech_atlas.Scheduler.Invariant.Commands.{lift-eq-ok, option_value}

commit-eq-ok :
    {A : Type 0} (body : Db → Reply A) (db : Db) {a : A} {after : Db}
    → commit body db ≡ (ok a, after)
    → body db ≡ ok (a, after)
unfolding commit
commit-eq-ok {A} body db {a} {after} h = go (body db) h
  where
    go :
        (reply : Reply A)
        → (elim reply as (λ _. Outcome AdminOperationError A × Db) [
          | ok (b, db') ↦ (ok b, db')
          | err e ↦ (err e, db)
        ])
          ≡ (ok a, after)
        → reply ≡ ok (a, after)
    go (ok (b, db')) k = ground (arith, k)
    go (err e) k = absurd (cc k)

changed_test :
    {A : Type 0} (q chosen : A → Bool) (change : A → A) (x : A)
    → ((y : A) → q (change y) ≡ q y)
    → q (changed chosen change x) ≡ q x
changed_test q chosen change x keeps = ground (arith, keeps x)

-- A row that is found and chosen is found in its changed form.
find-changed :
    {A : Type 0} (q chosen : A → Bool) (change : A → A) (xs : List A) (a : A)
    → ((x : A) → q (change x) ≡ q x)
    → find q xs ≡ some a
    → chosen a ≡ true
    → find q (map (changed chosen change) xs) ≡ some (change a)
find-changed q chosen change [] a keeps h ca = cc
find-changed q chosen change (x ∷ xs) a keeps h ca = elim (Bool-cases (q x)) [
  | inl found ↦
      let same : x ≡ a = ground (arith, rw found at h) in
      let passes : q a ≡ true = (rw same at found) in rw same (rw (ca, keeps a, passes) refl)
  | inr later ↦
      let test : q (changed chosen change x) ≡ false =
        changed_test q chosen change x keeps ∙ later in
      let rest : find q xs ≡ some a = (rw later at h) in
      rw test (find-changed q chosen change xs a keeps rest ca)
]

live_of_named :
    (name : Text) (d : ℕ) (rows : List DomainRow)
    → any (λ row. row.id == d && named_domain name row) rows ≡ true
    → any (live_domain d) rows ≡ true
live_of_named name d [] h = cc
live_of_named name d (row ∷ rest) h = ground (arith, h, live_of_named name d rest)

-- From consistent tables, a crawl that was requested left consistent tables; it was requested of an
-- enabled policy of a live domain of that name, whose row then has the instant of the request as its
-- next crawl and its last update and is otherwise as before; and a reservation finds the row due
-- exactly from that instant on, while its domain has no active attempt and no other transaction
-- holds it.
pub request_domain_crawl-is_due :
    (name : Text) (now t : ℕ) (locked : ℕ → Bool) (db : Db) {after : Db}
    → IsConsistent db
    → request_domain_crawl name now db ≡ (ok tt, after)
    → IsConsistent after
      × ((p : PolicyRow) × (find (requestable name db.domains) db.policies ≡ some p)
          × (p.is_enabled ≡ true)
          × (find (requestable name after.domains) after.policies
              ≡ some (record p { next_crawl_at = some now; updated_at = now }))
          × (is_due locked t after (record p { next_crawl_at = some now; updated_at = now }) ≡ (
              leb now t
              && not (any (active_of p.domain_id) db.attempts)
              && not (locked p.domain_id))))
unfolding request_domain_crawl request_body requestable is_due
request_domain_crawl-is_due name now t locked db {after} c h =
    let kept : IsConsistent after =
      subst (λ r. IsConsistent r.1) h (request_domain_crawl-IsConsistent name now db c) in
    after_ok (ok_or (find (requestable name db.domains) db.policies) AdminOperationError.not_found)
      _ (commit-eq-ok (request_body name now) db h)
      λ p found h₁. after_ok (refuse_if (not p.is_enabled) conflict) _ h₁ λ _ enabled h₂.
        after_ok (lift (set_policies (for_domain p.domain_id) (requested_policy now) db)) _ h₂
          λ updated set same.
            let end : after ≡ updated = ground arith in
            let rows =
              set_policies_lem (for_domain p.domain_id) (requested_policy now) db
                (lift-eq-ok _ set) in
            let got = option_value _ AdminOperationError.not_found found in
            let on : p.is_enabled ≡ true = ground (arith, enabled) in
            let live =
              live_of_named name p.domain_id db.domains
                (find-passes (requestable name db.domains) db.policies got) in
            let own : for_domain p.domain_id p ≡ true = ground arith in
            (
              kept,
              (
                p,
                got,
                on,
                rw (end, rows)
                    (find-changed (requestable name db.domains) (for_domain p.domain_id)
                      (requested_policy now) db.policies p (λ x. refl) got own),
                rw (end, rows, live, on) (ground arith),
              ),
            )
