-- ===== src/Queue/Loops.antt =====
-- What a property of the server needs to be kept by the loops over entries.
use tech_atlas.Prelude.{
  ℕ, Option, none, some, List, [], ◌∷◌, leb, Outcome, ok, err, Bool-cases, inl, inr,
}
use tech_atlas.Prelude.Text.{Text}
use tech_atlas.CrawlJob.{CrawlJobV1}
use tech_atlas.Queue.{RedisStreamsConfigError}
use tech_atlas.Queue.Server.{
  CrawlJobQueueError, missing_pending_entry, StreamEntry, DeadLetterReason, delivery_limit_exceeded,
  invalid_payload, Server, Delivery, answered, lost_request, lost_reply, Network, Run, pure,
  continue, ◌>>=◌, execute, counted, deliver, connection, xpending, dead_letter_script,
}
use tech_atlas.Queue.Streams.{
  JobCodec, ReceivedCrawlJob, of_config, some_or_fail, text_or_empty, dead_letter, delivery_count,
  decoded, received, decode_payload, decode_entry, receive_each, reclaim_entry, reclaim_each,
}

-- A computation that keeps a property of the server, also when it fails.
abbrev pub Keeps : (Server → Type 0) → {A : Type 0} → Run A → Type 0
Keeps P m = (s : Server) → P s → P (m s).1

-- A property that does not look at the number of calls, and that the dead-letter script keeps.
module _ (P : Server → Type 0) (ticks : (s : Server) → P s → P (counted s))
    (scripts : (id : ℕ) (payload : Text) (times : ℕ) (reason : DeadLetterReason)
      → Keeps P (dead_letter_script id payload times reason)) where
  pub continue-Keeps :
      {A B : Type 0} (first : Outcome CrawlJobQueueError A × Server) (next : A → Run B)
      → P first.1
      → ((a : A) → Keeps P (next a))
      → P (continue first next).1
  continue-Keeps (ok a, s) next h k = k a s h
  continue-Keeps (err error, s) next h k = h

  pub >>=-Keeps :
      {A B : Type 0} (m : Run A) (next : A → Run B)
      → Keeps P m
      → ((a : A) → Keeps P (next a))
      → Keeps P (m >>= next)
  >>=-Keeps m next h k s p = continue-Keeps (m s) next (h s p) k

  -- A call that may be lost keeps what its command keeps.
  pub execute-Keeps :
      {A : Type 0} (net : Network) (command : Run A)
      → Keeps P command
      → Keeps P (execute net command)
  unfolding execute
  execute-Keeps net command h s p = sent (net s.calls)
    where
      sent : (fate : Delivery) → P (deliver fate command (counted s)).1
      sent answered = h (counted s) (ticks s p)
      sent (lost_request error) = ticks s p
      sent (lost_reply error) = h (counted s) (ticks s p)

  pub some_or_fail-Keeps :
      {A : Type 0} (found : Option A) (error : CrawlJobQueueError)
      → Keeps P (some_or_fail found error)
  some_or_fail-Keeps none error s h = h
  some_or_fail-Keeps (some a) error s h = h

  pub of_config-Keeps :
      {A : Type 0} (result : Outcome RedisStreamsConfigError A) → Keeps P (of_config result)
  of_config-Keeps (ok a) s h = h
  of_config-Keeps (err error) s h = h

  module _ (net : Network) where
    pub connection-Keeps : Keeps P (connection net)
    unfolding connection
    connection-Keeps = execute-Keeps net (pure tt) λ s h. h

    pub after_connection :
        {A : Type 0} (next : Run A)
        → Keeps P next
        → (s : Server) → P s
        → P (continue (connection net s) (λ _. next)).1
    after_connection next k s h =
        continue-Keeps (connection net s) (λ _. next) (connection-Keeps s h) λ _. k

    pub dead_letter-Keeps :
        (id : ℕ) (payload : Text) (times : ℕ) (reason : DeadLetterReason)
        → Keeps P (dead_letter net id payload times reason)
    unfolding dead_letter
    dead_letter-Keeps id payload times reason = after_connection _ (
        >>=-Keeps (execute net (dead_letter_script id payload times reason)) (λ _. pure tt)
          (execute-Keeps net (dead_letter_script id payload times reason)
            (scripts id payload times reason))
          λ _ s h. h)

    pub delivery_count-Keeps : (id : ℕ) → Keeps P (delivery_count net id)
    unfolding delivery_count xpending
    delivery_count-Keeps id = after_connection _ (
        >>=-Keeps (execute net (xpending id)) _ (execute-Keeps net (xpending id) λ s h. h) λ found.
          >>=-Keeps (some_or_fail found (missing_pending_entry id)) _
            (some_or_fail-Keeps found (missing_pending_entry id)) λ _ s h. h)

    module _ (codec : JobCodec) where
      decode_entry-Keeps :
          (entry : StreamEntry) (times : ℕ) → Keeps P (decode_entry net codec entry times)
      unfolding decode_entry
      decode_entry-Keeps entry times = by_payload entry.payload
        where
          refused :
              (payload : Text)
              → Keeps P (
                  dead_letter net entry.id payload times invalid_payload >>= λ _.
                  pure {A = Option ReceivedCrawlJob} none)
          refused payload =
              >>=-Keeps (dead_letter net entry.id payload times invalid_payload) _
                (dead_letter-Keeps entry.id payload times invalid_payload) λ _ s h. h

          by_job :
              (payload : Text) (job : Option CrawlJobV1)
              → Keeps P (received net codec entry.id times payload job)
          by_job payload none = refused payload
          by_job payload (some job) = λ s h. h

          by_payload :
              (payload : Option Text) → Keeps P (decode_payload net codec entry.id times payload)
          by_payload none = refused []
          by_payload (some payload) = by_job payload (decoded codec payload)

      pub reclaim_entry-Keeps :
          (max_deliveries : ℕ) (entry : StreamEntry) (times : ℕ)
          → Keeps P (reclaim_entry net codec max_deliveries entry times)
      unfolding reclaim_entry
      reclaim_entry-Keeps max_deliveries entry times =
          elim (Bool-cases (leb max_deliveries times)) [
            | inl exhausted ↦ rw exhausted (
                >>=-Keeps
                  (dead_letter net entry.id (text_or_empty entry.payload) times
                    delivery_limit_exceeded)
                  _
                  (dead_letter-Keeps entry.id (text_or_empty entry.payload) times
                    delivery_limit_exceeded)
                  λ _ s h. h)
            | inr allowed ↦ rw allowed (decode_entry-Keeps entry times)
          ]

      pub receive_each-Keeps :
          (entries : List StreamEntry) → Keeps P (receive_each net codec entries)
      unfolding receive_each
      receive_each-Keeps [] = λ s h. h
      receive_each-Keeps (entry ∷ rest) =
          >>=-Keeps (decode_entry net codec entry 1) _ (decode_entry-Keeps entry 1)
            λ job. >>=-Keeps (receive_each net codec rest) _ (receive_each-Keeps rest) λ jobs s h. h

      pub reclaim_each-Keeps :
          (max_deliveries : ℕ) (entries : List StreamEntry)
          → Keeps P (reclaim_each net codec max_deliveries entries)
      unfolding reclaim_each
      reclaim_each-Keeps max_deliveries [] = λ s h. h
      reclaim_each-Keeps max_deliveries (entry ∷ rest) =
          >>=-Keeps (delivery_count net entry.id) _ (delivery_count-Keeps entry.id) λ times.
            >>=-Keeps (reclaim_entry net codec max_deliveries entry times) _
              (reclaim_entry-Keeps max_deliveries entry times)
              λ job.
                >>=-Keeps (reclaim_each net codec max_deliveries rest) _
                  (reclaim_each-Keeps max_deliveries rest) λ jobs s h. h
