-- ===== src/Queue/Entries.antt =====
-- What one claimed entry becomes.
use tech_atlas.Prelude.{
  ℕ, true, false, ◌≡◌, ap, Option, none, some, List, [], ◌∷◌, leb, if◌then◌else◌, any, find,
  is_some, subst, sym, ok, Bool-cases, ◌∙◌, inl, inr,
}
use tech_atlas.Prelude.Text.{Text}
use tech_atlas.CrawlJob.{CrawlJobV1}
use tech_atlas.Queue.Server.{
  is_pending, StreamEntry, PendingEntry, DeadLetterReason, delivery_limit_exceeded, invalid_payload,
  Server, Network, pure, continue, execute, counted, xpending, dead_letter_script,
}
use tech_atlas.Queue.Streams.{
  JobCodec, ReceivedCrawlJob, text_or_empty, push_job, dead_letter, delivery_count, decoded,
  received, decode_payload, decode_entry, reclaim_entry,
}
use tech_atlas.Queue.DeadLetters.{is_known}
use tech_atlas.Queue.Runs.{after_run, execute_ok, after_connection_ok, same_answer, times_found}
use tech_atlas.Queue.Pending.{IsListed, dead_letter_script_lists}

-- The job that an entry gives at a delivery count: none at the limit, or where it cannot be read.
abbrev pub read_payload : JobCodec → Option Text → Option CrawlJobV1
read_payload codec none = none
read_payload codec (some payload) = decoded codec payload

abbrev pub job_of : ℕ → ℕ → Option CrawlJobV1 → Option ReceivedCrawlJob
job_of id times none = none
job_of id times (some j) = some (record { receipt = id; job = j; delivery_count = times })

unfoldable pub delivery_of : JobCodec → ℕ → StreamEntry → ℕ → Option ReceivedCrawlJob
delivery_of codec max_deliveries entry times =
    if leb max_deliveries times
    then none
    else job_of entry.id times (read_payload codec entry.payload)

module _ (codec : JobCodec) (max_deliveries : ℕ) (pending : List PendingEntry)
    (index : List ℕ) where
  -- Each entry, in order, has a pending entry whose delivery count gives its job; without a job it
  -- is in the index of the dead letters.
  abbrev pub AreSettled : List StreamEntry → List ReceivedCrawlJob → Type 0
  AreSettled [] jobs = jobs ≡ []
  AreSettled (entry ∷ rest) jobs =
      (p : PendingEntry) × (later : List ReceivedCrawlJob) × (find (is_pending entry.id) pending
        ≡ some p)
      × (jobs ≡ push_job (delivery_of codec max_deliveries entry p.times_delivered) later)
      × (is_some (delivery_of codec max_deliveries entry p.times_delivered) ≡ false
          → any (is_known entry.id) index ≡ true)
      × AreSettled rest later

module _ (net : Network) (codec : JobCodec) (max_deliveries : ℕ) where
  pub delivery_count_lem :
      (id times : ℕ) (s t : Server)
      → delivery_count net id s ≡ (ok times, t)
      → (p : PendingEntry) × (find (is_pending id) s.pending ≡ some p) × (p.times_delivered ≡ times)
  unfolding delivery_count xpending
  delivery_count_lem id times s t h = after_connection_ok net _ s h λ h₁.
      after_run (execute net (xpending id) (counted s)) _ h₁ λ found mid asked h₂.
        let reply =
          same_answer (find (is_pending id) s.pending) found (counted (counted s)) mid
            (execute_ok net (xpending id) (counted s) mid asked) in
        let (p, there, count_of) = times_found id times found mid t h₂ in
        (p, reply ∙ there, count_of)

  dead_letter_lists :
      (id : ℕ) (payload : Text) (times : ℕ) (reason : DeadLetterReason) (s t : Server)
      → dead_letter net id payload times reason s ≡ (ok tt, t)
      → IsListed id t
  unfolding dead_letter
  dead_letter_lists id payload times reason s t h = after_connection_ok net _ s h λ h₁.
      after_run (execute net (dead_letter_script id payload times reason) (counted s)) _ h₁
        λ n mid ran h₂.
          subst (IsListed id)
            (ap (λ r. r.1)
                (execute_ok net (dead_letter_script id payload times reason) (counted s) mid ran)
              ∙ ap (λ r. r.1) h₂)
            (dead_letter_script_lists id payload times reason (counted (counted s)))

  -- A refused entry: no job, and its letter.
  refused_lists :
      (id : ℕ) (payload : Text) (times : ℕ) (reason : DeadLetterReason) (s t : Server)
      (job : Option ReceivedCrawlJob)
      → continue (dead_letter net id payload times reason s) (λ _. pure none) ≡ (ok job, t)
      → (job ≡ none) × (is_some job ≡ false → IsListed id t)
  refused_lists id payload times reason s t job h =
      after_run (dead_letter net id payload times reason s) (λ _. pure none) h
        λ _ mid written h₁. (
          sym (same_answer none job mid t h₁),
          λ _.
              subst (IsListed id) (ap (λ r. r.1) h₁)
                (dead_letter_lists id payload times reason s mid written),
        )

  decode_entry_lem :
      (entry : StreamEntry) (times : ℕ) (s t : Server) (job : Option ReceivedCrawlJob)
      → decode_entry net codec entry times s ≡ (ok job, t)
      → (job ≡ job_of entry.id times (read_payload codec entry.payload))
        × (is_some job ≡ false → IsListed entry.id t)
  unfolding decode_entry
  decode_entry_lem entry times s t job h = by_payload entry.payload h
    where
      by_job :
          (payload : Text) (j : Option CrawlJobV1)
          → received net codec entry.id times payload j s ≡ (ok job, t)
          → (job ≡ job_of entry.id times j) × (is_some job ≡ false → IsListed entry.id t)
      by_job payload none k = refused_lists entry.id payload times invalid_payload s t job k
      by_job payload (some j) k =
          let same =
            same_answer (some (record { receipt = entry.id; job = j; delivery_count = times })) job
              s t k in
          (sym same, λ none_left. absurd (cc (same, none_left)))

      by_payload :
          (payload : Option Text)
          → decode_payload net codec entry.id times payload s ≡ (ok job, t)
          → (job ≡ job_of entry.id times (read_payload codec payload))
            × (is_some job ≡ false → IsListed entry.id t)
      by_payload none k = refused_lists entry.id [] times invalid_payload s t job k
      by_payload (some payload) k = by_job payload (decoded codec payload) k

  pub reclaim_entry_lem :
      (entry : StreamEntry) (times : ℕ) (s t : Server) (job : Option ReceivedCrawlJob)
      → reclaim_entry net codec max_deliveries entry times s ≡ (ok job, t)
      → (job ≡ delivery_of codec max_deliveries entry times)
        × (is_some job ≡ false → IsListed entry.id t)
  unfolding reclaim_entry delivery_of
  reclaim_entry_lem entry times s t job h = elim (Bool-cases (leb max_deliveries times)) [
    | inl exhausted ↦ rw exhausted (
        refused_lists entry.id (text_or_empty entry.payload) times delivery_limit_exceeded s t job
          (rw exhausted at h))
    | inr allowed ↦ rw allowed (decode_entry_lem entry times s t job (rw allowed at h))
  ]
