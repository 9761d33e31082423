-- ===== src/Scheduler/Repository/Policies.antt =====
-- How an UPDATE of one domain's policy changes the number of policies, and of failed ones.
use tech_atlas.Prelude.{ℕ, ◌≤◌, ◌≡◌, ◌≢◌, Bool, none, List, map, arith, count, ◌==◌, ◌&&◌, is_some}
use tech_atlas.Scheduler.Tables.{PolicyRow}
use tech_atlas.Scheduler.Tables.Rows.{
  changed, count-changed_same, count-changed_none, count-changed-le,
}
use tech_atlas.Scheduler.Repository.Reserve.{for_domain}

-- A policy of the domain that has failed for good.
abbrev pub terminal_of : ℕ → PolicyRow → Bool
terminal_of d p = p.domain_id == d && is_some p.terminal_failure_at

module _ (owner : ℕ) (change : PolicyRow → PolicyRow)
    (keeps : (p : PolicyRow) → (change p).domain_id ≡ p.domain_id) (ps : List PolicyRow) where
  pub count-for_domain_update :
      (d : ℕ)
      → count (for_domain d) (map (changed (for_domain owner) change) ps) ≡ count (for_domain d) ps
  count-for_domain_update d =
      count-changed_same (for_domain d) (for_domain owner) change ps (λ p h. rw (keeps p))

  -- Another domain's failed policies stay as they were.
  pub count-terminal_of_other :
      (d : ℕ)
      → owner ≢ d
      → count (terminal_of d) (map (changed (for_domain owner) change) ps)
        ≡ count (terminal_of d) ps
  count-terminal_of_other d other =
      count-changed_same (terminal_of d) (for_domain owner) change ps
        (λ p h. ground (arith, keeps p, other))

  -- A change that clears the failure leaves the domain without one.
  pub count-terminal_of_cleared :
      ((p : PolicyRow) → (change p).terminal_failure_at ≡ none)
      → count (terminal_of owner) (map (changed (for_domain owner) change) ps) ≡ 0
  count-terminal_of_cleared clears =
      count-changed_none (terminal_of owner) (for_domain owner) change ps
        (λ p h. ground (arith, clears p)) (λ p h. ground arith)

  pub count-terminal_of-le :
      ((p : PolicyRow) → (change p).terminal_failure_at ≡ none)
      → (d : ℕ)
      → count (terminal_of d) (map (changed (for_domain owner) change) ps)
        ≤ count (terminal_of d) ps
  count-terminal_of-le clears d =
      count-changed-le (terminal_of d) (for_domain owner) change ps
        (λ p h. ground (arith, clears p))
