-- ===== src/Queue/Runs.antt =====
-- Inversion of runs that succeed.
use tech_atlas.Prelude.{
  ℕ, ◌≡◌, refl, ap, Option, none, some, ◌⊎◌, subst, sym, Outcome, ok, err, is_ok, Bool-cases, ◌∙◌,
  inl, inr,
}
use tech_atlas.Queue.{RedisStreamsConfigError}
use tech_atlas.Queue.Server.{
  invalid_configuration, CrawlJobQueueError, missing_pending_entry, PendingEntry, Server, Delivery,
  answered, lost_request, lost_reply, Network, Run, pure, continue, execute, counted, deliver,
  connection, create_group,
}
use tech_atlas.Queue.Streams.{of_config, some_or_fail, ensure_group}

-- Inversion of a run that succeeds.
pub failed_run :
    {B R : Type 0} (error : CrawlJobQueueError) (mid t : Server) (b : B)
    → ◌≡◌ {A = Outcome CrawlJobQueueError B × Server} (err error, mid) (ok b, t)
    → R
failed_run error mid t b h = absurd (cc (ap (λ r. is_ok r.0) h))

pub after_run :
    {A B R : Type 0} (first : Outcome CrawlJobQueueError A × Server) (next : A → Run B) {b : B}
    {t : Server}
    → continue first next ≡ (ok b, t)
    → ((a : A) (mid : Server) → first ≡ (ok a, mid) → next a mid ≡ (ok b, t) → R)
    → R
after_run (ok a, mid) next {b} {t} h goal = goal a mid refl h
after_run (err error, mid) next {b} {t} h goal = failed_run error mid t b h

pub execute_ok :
    {A : Type 0} (net : Network) (command : Run A) (s t : Server) {a : A}
    → execute net command s ≡ (ok a, t)
    → command (counted s) ≡ (ok a, t)
unfolding execute
execute_ok net command s t {a} h = sent (net s.calls) h
  where
    sent :
        (fate : Delivery)
        → deliver fate command (counted s) ≡ (ok a, t)
        → command (counted s) ≡ (ok a, t)
    sent answered k = k
    sent (lost_request error) k = failed_run error _ t a k
    sent (lost_reply error) k = failed_run error _ t a k

pub after_connection_ok :
    {A R : Type 0} (net : Network) (next : Run A) (s : Server) {b : A} {t : Server}
    → continue (connection net s) (λ _. next) ≡ (ok b, t)
    → (next (counted s) ≡ (ok b, t) → R)
    → R
unfolding connection
after_connection_ok net next s {b} {t} h goal =
    after_run (execute net (pure tt) s) (λ _. next) h
      λ a mid connected later. goal (
        subst (λ u. next u ≡ (ok b, t))
          (sym (ap (λ r. r.1) (execute_ok net (pure tt) s mid connected))) later)

pub same_answer :
    {A : Type 0} (a b : A) (s t : Server)
    → ◌≡◌ {A = Outcome CrawlJobQueueError A × Server} (ok a, s) (ok b, t)
    → a ≡ b
same_answer {A} a b s t h =
    let same : ◌≡◌ {A = Outcome CrawlJobQueueError A} (ok a) (ok b) = ap (λ r. r.0) h in cc same

pub times_found :
    (id times : ℕ) (found : Option PendingEntry) (s t : Server)
    → continue
        (some_or_fail found (missing_pending_entry id) s)
        (λ entry. pure entry.times_delivered)
      ≡ (ok times, t)
    → (p : PendingEntry) × (found ≡ some p) × (p.times_delivered ≡ times)
times_found id times none s t h = failed_run (missing_pending_entry id) s t times h
times_found id times (some p) s t h = (p, refl, same_answer p.times_delivered times s t h)

pub kept_to :
    {A : Type 0} (P : Server → Type 0) (r : Outcome CrawlJobQueueError A × Server) (a : A)
    (t : Server)
    → r ≡ (ok a, t)
    → P r.1
    → P t
kept_to P r a t h k = subst P (ap (λ x. x.1) h) k

pub still_there :
    {x y : Option PendingEntry} {p : PendingEntry} → (x ≡ none) ⊎ (x ≡ y) → x ≡ some p → y ≡ some p
still_there (inl gone) here = absurd (cc (gone, here))
still_there (inr same) here = sym same ∙ here

pub execute-pending :
    {A : Type 0} (net : Network) (command : Run A) (s : Server)
    → ((u : Server) → (command u).1.pending ≡ u.pending)
    → (execute net command s).1.pending ≡ s.pending
unfolding execute
execute-pending net command s h = sent (net s.calls)
  where
    sent : (fate : Delivery) → (deliver fate command (counted s)).1.pending ≡ s.pending
    sent answered = h (counted s)
    sent (lost_request error) = refl
    sent (lost_reply error) = h (counted s)

pub create_group-pending : (s : Server) → (create_group s).1.pending ≡ s.pending
unfolding create_group
create_group-pending s = elim (Bool-cases s.group_exists) [
  | inl there ↦ rw there refl
  | inr absent ↦ rw absent refl
]

pub ensure_group-pending :
    (net : Network) (s t : Server) → ensure_group net s ≡ (ok tt, t) → t.pending ≡ s.pending
unfolding ensure_group
ensure_group-pending net s t h = after_connection_ok net _ s h λ h₁.
    sym (ap (λ r. r.1.pending) h₁)
    ∙ execute-pending net create_group (counted s) create_group-pending

pub config_ok :
    {A : Type 0} (result : Outcome RedisStreamsConfigError A) (a : A) (s t : Server)
    → of_config result s ≡ (ok a, t)
    → s ≡ t
config_ok (ok b) a s t h = ap (λ r. r.1) h
config_ok (err error) a s t h = failed_run (invalid_configuration error) s t a h
