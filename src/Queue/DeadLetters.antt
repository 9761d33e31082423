-- ===== src/Queue/DeadLetters.antt =====
-- An entry becomes a dead letter at most once, whatever the network loses.
use tech_atlas.Prelude.{
  ℕ, Bool, false, ◌≡◌, Option, none, some, List, [], ◌∷◌, ◌++◌, ◌==◌, if◌then◌else◌, any, count,
  count-append, arith, Bool-cases, inl, inr,
}
use tech_atlas.Prelude.Text.{Text}
use tech_atlas.CrawlJob.{CrawlJobV1, serialize}
use tech_atlas.Queue.{RedisStreamsConfig, duration_millis}
use tech_atlas.Queue.Server.{
  serialization, missing_published_entry_id, StreamEntry, DeadLetter, DeadLetterReason, Server,
  Network, execute, counted, connection, create_group, xack, xdel, xadd, xreadgroup, xautoclaim,
  dead_letter_script, letter,
}
use tech_atlas.Queue.Streams.{
  JobCodec, of_config, some_or_fail, ensure_group, deleted_one, after_acknowledgement, acknowledge,
  publish, receive, reclaim_stale,
}
use tech_atlas.Queue.Loops.{
  Keeps, continue-Keeps, >>=-Keeps, execute-Keeps, some_or_fail-Keeps, of_config-Keeps,
  connection-Keeps, after_connection, receive_each-Keeps, reclaim_each-Keeps,
}

-- Every entry of the index has one dead letter, and no other entry has any.
abbrev pub is_letter_of : ℕ → DeadLetter → Bool
is_letter_of id l = l.source_entry_id == id

abbrev pub is_known : ℕ → ℕ → Bool
is_known id known = known == id

abbrev pub HasOneLetterEach : List DeadLetter → List ℕ → Type 0
HasOneLetterEach letters index =
    (id : ℕ) → count (is_letter_of id) letters ≡ (if any (is_known id) index then 1 else 0)

unfoldable pub IsOnce : Server → Type 0
IsOnce s = HasOneLetterEach s.dead_letters s.dead_letter_index

counted-IsOnce : (s : Server) → IsOnce s → IsOnce (counted s)
unfolding IsOnce
counted-IsOnce s h = h

create_group-Keeps : Keeps IsOnce create_group
unfolding create_group IsOnce
create_group-Keeps s h = elim (Bool-cases s.group_exists) [
  | inl there ↦ rw there h
  | inr absent ↦ rw absent h
]

add_letter :
    (letters : List DeadLetter) (index : List ℕ) (id : ℕ) (payload : Text) (times : ℕ)
    (reason : DeadLetterReason)
    → any (is_known id) index ≡ false
    → HasOneLetterEach letters index
    → HasOneLetterEach (letters ++ (letter id payload times reason ∷ [])) (id ∷ index)
add_letter letters index id payload times reason fresh h other = elim (Bool-cases (id == other)) [
  | inl same ↦
      let equal : id ≡ other = ground arith in
      let new : any (is_known other) index ≡ false = rw equal at fresh in
      ground (
        arith,
        count-append (is_letter_of other) letters (letter id payload times reason ∷ []),
        h other,
      )
  | inr different ↦ ground (
    arith,
    count-append (is_letter_of other) letters (letter id payload times reason ∷ []),
    h other,
  )
]

dead_letter_script-Keeps :
    (id : ℕ) (payload : Text) (times : ℕ) (reason : DeadLetterReason)
    → Keeps IsOnce (dead_letter_script id payload times reason)
unfolding dead_letter_script xack IsOnce
dead_letter_script-Keeps id payload times reason s h =
    elim (Bool-cases (any (is_known id) s.dead_letter_index)) [
      | inl known ↦ rw known h
      | inr fresh ↦
          rw fresh (add_letter s.dead_letters s.dead_letter_index id payload times reason fresh h)
    ]

xadd-Keeps : (new_id : Option ℕ) (payload : Text) → Keeps IsOnce (xadd new_id payload)
unfolding xadd IsOnce
xadd-Keeps none payload s h = h
xadd-Keeps (some new_id) payload s h = h

module _ (net : Network) where
  ensure_group-Keeps : Keeps IsOnce (ensure_group net)
  unfolding ensure_group
  ensure_group-Keeps s h =
      continue-Keeps IsOnce counted-IsOnce dead_letter_script-Keeps (connection net s) _
        (connection-Keeps IsOnce counted-IsOnce dead_letter_script-Keeps net s h)
        λ _ t k.
          execute-Keeps IsOnce counted-IsOnce dead_letter_script-Keeps net create_group
            create_group-Keeps t k

  deleted_one-Keeps : (receipt deleted : ℕ) → Keeps IsOnce (deleted_one net receipt deleted)
  deleted_one-Keeps receipt deleted s h = elim (Bool-cases (deleted == 1)) [
    | inl one ↦ rw one h
    | inr other ↦ rw other h
  ]

  after_acknowledgement-Keeps :
      (receipt acknowledged : ℕ) → Keeps IsOnce (after_acknowledgement net receipt acknowledged)
  unfolding xdel IsOnce
  after_acknowledgement-Keeps receipt acknowledged s h = elim (Bool-cases (acknowledged == 1)) [
    | inl one ↦ rw one (
        >>=-Keeps IsOnce counted-IsOnce dead_letter_script-Keeps (execute net (xdel receipt))
          (deleted_one net receipt)
          (execute-Keeps IsOnce counted-IsOnce dead_letter_script-Keeps net (xdel receipt) λ t k. k)
          (deleted_one-Keeps receipt) s h)
    | inr other ↦ rw other h
  ]

  acknowledge-Keeps : (receipt : ℕ) → Keeps IsOnce (acknowledge net receipt)
  unfolding acknowledge xack IsOnce
  acknowledge-Keeps receipt =
      after_connection IsOnce counted-IsOnce dead_letter_script-Keeps net _ (
        >>=-Keeps IsOnce counted-IsOnce dead_letter_script-Keeps (execute net (xack receipt))
          (after_acknowledgement net receipt)
          (execute-Keeps IsOnce counted-IsOnce dead_letter_script-Keeps net (xack receipt) λ s h. h)
          (after_acknowledgement-Keeps receipt))

  module _ (codec : JobCodec) where
    publish-Keeps :
        (new_id : Option ℕ) (job : CrawlJobV1) → Keeps IsOnce (publish net codec new_id job)
    unfolding publish
    publish-Keeps new_id job =
        >>=-Keeps IsOnce counted-IsOnce dead_letter_script-Keeps
          (some_or_fail (codec.print_job (serialize job)) serialization) _
          (some_or_fail-Keeps IsOnce counted-IsOnce dead_letter_script-Keeps
            (codec.print_job (serialize job)) serialization)
          λ payload. after_connection IsOnce counted-IsOnce dead_letter_script-Keeps net _ (
            >>=-Keeps IsOnce counted-IsOnce dead_letter_script-Keeps
              (execute net (xadd new_id payload)) _
              (execute-Keeps IsOnce counted-IsOnce dead_letter_script-Keeps net
                (xadd new_id payload) (xadd-Keeps new_id payload))
              λ reply.
                some_or_fail-Keeps IsOnce counted-IsOnce dead_letter_script-Keeps reply
                  missing_published_entry_id)

    receive-Keeps :
        (config : RedisStreamsConfig) (picked : List StreamEntry)
        → Keeps IsOnce (receive net codec config picked)
    unfolding receive xreadgroup IsOnce
    receive-Keeps config picked s h =
        continue-Keeps IsOnce counted-IsOnce dead_letter_script-Keeps (ensure_group net s) _
          (ensure_group-Keeps s h)
          λ _.
            >>=-Keeps IsOnce counted-IsOnce dead_letter_script-Keeps
              (of_config (duration_millis config.read_block)) _
              (of_config-Keeps IsOnce counted-IsOnce dead_letter_script-Keeps
                (duration_millis config.read_block))
              λ _. after_connection IsOnce counted-IsOnce dead_letter_script-Keeps net _ (
                >>=-Keeps IsOnce counted-IsOnce dead_letter_script-Keeps
                  (execute net (xreadgroup picked)) _
                  (execute-Keeps IsOnce counted-IsOnce dead_letter_script-Keeps net
                    (xreadgroup picked) λ t k. k)
                  (receive_each-Keeps IsOnce counted-IsOnce dead_letter_script-Keeps net codec))

    reclaim_stale-Keeps :
        (config : RedisStreamsConfig) (picked : List StreamEntry)
        → Keeps IsOnce (reclaim_stale net codec config picked)
    unfolding reclaim_stale xautoclaim IsOnce
    reclaim_stale-Keeps config picked s h =
        continue-Keeps IsOnce counted-IsOnce dead_letter_script-Keeps (ensure_group net s) _
          (ensure_group-Keeps s h)
          λ _. after_connection IsOnce counted-IsOnce dead_letter_script-Keeps net _ (
            >>=-Keeps IsOnce counted-IsOnce dead_letter_script-Keeps
              (of_config (duration_millis config.claim_idle)) _
              (of_config-Keeps IsOnce counted-IsOnce dead_letter_script-Keeps
                (duration_millis config.claim_idle))
              λ _.
                >>=-Keeps IsOnce counted-IsOnce dead_letter_script-Keeps
                  (execute net (xautoclaim picked)) _
                  (execute-Keeps IsOnce counted-IsOnce dead_letter_script-Keeps net
                    (xautoclaim picked) λ t k. k)
                  (reclaim_each-Keeps IsOnce counted-IsOnce dead_letter_script-Keeps net codec
                    config.max_deliveries))

-- What a client of the queue may ask, with the entries that the server picks.
pub data QueueOperation : Type 0 where
  publishing : Option ℕ → CrawlJobV1 → QueueOperation
  receiving reclaiming : List StreamEntry → QueueOperation
  acknowledging : ℕ → QueueOperation

module _ (net : Network) (codec : JobCodec) (config : RedisStreamsConfig) where
  -- The server after one operation, which may have failed, and after several.
  abbrev apply : QueueOperation → Server → Server
  apply (publishing new_id job) s = (publish net codec new_id job s).1
  apply (receiving picked) s = (receive net codec config picked s).1
  apply (reclaiming picked) s = (reclaim_stale net codec config picked s).1
  apply (acknowledging receipt) s = (acknowledge net receipt s).1

  abbrev pub apply_all : List QueueOperation → Server → Server
  apply_all [] s = s
  apply_all (operation ∷ rest) s = apply_all rest (apply operation s)

  -- Whatever calls the network loses, before or after the server has run them, and whatever
  -- entries the server picks: after any sequence of publishing, receiving, reclaiming and
  -- acknowledging, each entry in the dead-letter index has exactly one dead letter and no other
  -- entry has any, if this held before.
  pub apply_all-IsOnce :
      (operations : List QueueOperation) (s : Server) → IsOnce s → IsOnce (apply_all operations s)
  apply_all-IsOnce [] s h = h
  apply_all-IsOnce (publishing new_id job ∷ rest) s h =
      apply_all-IsOnce rest (publish net codec new_id job s).1
        (publish-Keeps net codec new_id job s h)
  apply_all-IsOnce (receiving picked ∷ rest) s h =
      apply_all-IsOnce rest (receive net codec config picked s).1
        (receive-Keeps net codec config picked s h)
  apply_all-IsOnce (reclaiming picked ∷ rest) s h =
      apply_all-IsOnce rest (reclaim_stale net codec config picked s).1
        (reclaim_stale-Keeps net codec config picked s h)
  apply_all-IsOnce (acknowledging receipt ∷ rest) s h =
      apply_all-IsOnce rest (acknowledge net receipt s).1 (acknowledge-Keeps net receipt s h)
