-- ===== src/Queue/Deliveries.antt =====
-- What reclaiming answers: every entry that the server hands over is a job or a dead letter.
use tech_atlas.Prelude.{
  ℕ, false, ◌≡◌, refl, ap, some, List, [], ◌∷◌, find, map, is_some, subst, sym, ok, ◌∙◌, inr,
}
use tech_atlas.Queue.{RedisStreamsConfig, duration_millis}
use tech_atlas.Queue.Server.{
  is_pending, delivered_again, StreamEntry, Server, Network, execute, counted, xautoclaim,
}
use tech_atlas.Queue.Streams.{
  JobCodec, ReceivedCrawlJob, of_config, push_job, ensure_group, delivery_count, reclaim_entry,
  reclaim_each, reclaim_stale,
}
use tech_atlas.Queue.Loops.{reclaim_entry-Keeps, delivery_count-Keeps, reclaim_each-Keeps}
use tech_atlas.Queue.Runs.{
  after_run, execute_ok, after_connection_ok, same_answer, kept_to, still_there,
  ensure_group-pending, config_ok,
}
use tech_atlas.Queue.Pending.{
  IsListed, IsShrunk, counted-IsListed, counted-IsShrunk, dead_letter_script-IsListed,
  dead_letter_script-IsShrunk,
}
use tech_atlas.Queue.Entries.{AreSettled, delivery_count_lem, reclaim_entry_lem}

module _ (net : Network) (codec : JobCodec) (max_deliveries : ℕ) where
  reclaim_each-AreSettled :
      (start : Server) (entries : List StreamEntry) (s t : Server) (jobs : List ReceivedCrawlJob)
      → IsShrunk start s
      → reclaim_each net codec max_deliveries entries s ≡ (ok jobs, t)
      → AreSettled codec max_deliveries start.pending t.dead_letter_index entries jobs
  unfolding reclaim_each
  reclaim_each-AreSettled start [] s t jobs shrunk h = sym (same_answer [] jobs s t h)
  reclaim_each-AreSettled start (entry ∷ rest) s t jobs shrunk h =
      after_run (delivery_count net entry.id s) _ h λ times s₁ counted_it h₁.
        after_run (reclaim_entry net codec max_deliveries entry times s₁) _ h₁ λ job s₂ read h₂.
          after_run (reclaim_each net codec max_deliveries rest s₂) _ h₂ λ later s₃ done h₃.
            let (p, here, exact) =
              delivery_count_lem net codec max_deliveries entry.id times s s₁ counted_it in
            let (outcome, listed) =
              reclaim_entry_lem net codec max_deliveries entry times s₁ s₂ job read in
            let ended : s₃ ≡ t = ap (λ r. r.1) h₃ in
            let claimed : find (is_pending entry.id) start.pending ≡ some p =
              still_there (shrunk entry.id) here in
            let shrunk_on =
              kept_to (IsShrunk start) (reclaim_entry net codec max_deliveries entry times s₁) job
                s₂ read
                (reclaim_entry-Keeps (IsShrunk start) (counted-IsShrunk start)
                  (dead_letter_script-IsShrunk start) net codec max_deliveries entry times s₁
                  (kept_to (IsShrunk start) (delivery_count net entry.id s) times s₁ counted_it (
                    delivery_count-Keeps (IsShrunk start) (counted-IsShrunk start)
                      (dead_letter_script-IsShrunk start) net entry.id s shrunk))) in
            let listed_on : is_some job ≡ false → IsListed entry.id t = λ missing.
              subst (IsListed entry.id) ended (
                kept_to (IsListed entry.id) (reclaim_each net codec max_deliveries rest s₂) later s₃
                  done
                  (reclaim_each-Keeps (IsListed entry.id) (counted-IsListed entry.id)
                    (dead_letter_script-IsListed entry.id) net codec max_deliveries rest s₂
                    (listed missing))) in
            let same_jobs = same_answer (push_job job later) jobs s₃ t h₃ in
            (
              p,
              later,
              claimed,
              rw exact (rw (sym outcome) (sym same_jobs)),
              rw exact (rw (sym outcome) listed_on),
              subst
                  (λ u.
                    AreSettled codec max_deliveries start.pending u.dead_letter_index rest later)
                  ended (reclaim_each-AreSettled start rest s₂ s₃ later shrunk_on done),
            )

-- When reclaiming succeeds, each entry that the server hands over, in order, is pending, and its
-- delivery count, this delivery included, decides: below the limit and with a payload that can be
-- read, the entry is one of the returned jobs, with that count and its identifier as the receipt;
-- otherwise it is no job, and is in the index of the dead letters.
pub reclaim_stale-AreSettled :
    (net : Network) (codec : JobCodec) (config : RedisStreamsConfig) (picked : List StreamEntry)
    (s t : Server) (jobs : List ReceivedCrawlJob)
    → reclaim_stale net codec config picked s ≡ (ok jobs, t)
    → AreSettled codec config.max_deliveries
        (map (delivered_again picked) s.pending)
        t.dead_letter_index
        picked
        jobs
unfolding reclaim_stale xautoclaim
reclaim_stale-AreSettled net codec config picked s t jobs h =
    after_run (ensure_group net s) _ h λ _ s₁ grouped h₁. after_connection_ok net _ s₁ h₁ λ h₂.
      after_run (of_config (duration_millis config.claim_idle) (counted s₁)) _ h₂
        λ idle s₂ configured h₃.
          after_run (execute net (xautoclaim picked) s₂) _ h₃ λ entries s₃ asked h₄.
            let claim = execute_ok net (xautoclaim picked) s₂ s₃ asked in
            let same_entries = same_answer picked entries _ s₃ claim in
            let pending_then : s₃.pending ≡ map (delivered_again picked) s.pending =
              sym (ap (λ r. r.1.pending) claim)
              ∙ ap (λ u. map (delivered_again picked) u.pending)
                  (sym
                    (config_ok (duration_millis config.claim_idle) idle (counted s₁) s₂ configured))
              ∙ ap (map (delivered_again picked)) (ensure_group-pending net s s₁ grouped) in
            let settled =
              reclaim_each-AreSettled net codec config.max_deliveries s₃ entries s₃ t jobs
                (λ id. inr refl) h₄ in
            subst (λ q. AreSettled codec config.max_deliveries q t.dead_letter_index picked jobs)
              pending_then
              (subst
                (λ es.
                  AreSettled codec config.max_deliveries s₃.pending t.dead_letter_index es jobs)
                (sym same_entries) settled)
