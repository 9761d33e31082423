-- ===== src/Queue/Server.antt =====
-- Redis as the queue uses it: the stream, the pending entries of the consumer group, the stream and
-- the index of dead letters, with the commands as documented. An identifier of an entry is a number.
use tech_atlas.Prelude.{
  ℕ, ◌+◌, Bool, true, false, not, Option, none, some, List, [], ◌∷◌, ◌++◌, ◌==◌, if◌then◌else◌, any,
  filter, map, find, Outcome, ok, err,
}
use tech_atlas.Prelude.Text.{Text}
use tech_atlas.Queue.{RedisStreamsConfigError}

pub data CrawlJobQueueError : Type 0 where
  timed_out serialization missing_published_entry_id : CrawlJobQueueError
  -- Whether the code of the server's error is BUSYGROUP.
  unavailable : Bool → CrawlJobQueueError
  missing_pending_entry acknowledgement_missing : ℕ → CrawlJobQueueError
  invalid_configuration : RedisStreamsConfigError → CrawlJobQueueError

-- The payload of an entry: none where the field is missing or no text.
pub record StreamEntry : Type 0 where
  pub id : ℕ
  pub payload : Option Text

pub record PendingEntry : Type 0 where
  pub entry_id : ℕ
  pub times_delivered : ℕ

pub data DeadLetterReason : Type 0 where
  delivery_limit_exceeded invalid_payload : DeadLetterReason

pub record DeadLetter : Type 0 where
  pub source_entry_id : ℕ
  pub payload : Text
  pub delivery_count : ℕ
  pub reason : DeadLetterReason

pub record Server : Type 0 where
  pub group_exists : Bool
  pub stream : List StreamEntry
  pub pending : List PendingEntry
  pub dead_letters : List DeadLetter
  pub dead_letter_index : List ℕ
  -- The calls that were made so far.
  pub calls : ℕ

abbrev pub no_entries : Server
no_entries = record {
  group_exists = false;
  stream = [];
  pending = [];
  dead_letters = [];
  dead_letter_index = [];
  calls = 0;
}

-- What becomes of a call: it is answered, or it is lost before or after the server has run it.
pub data Delivery : Type 0 where
  answered : Delivery
  lost_request lost_reply : CrawlJobQueueError → Delivery

-- The fate of the n-th call.
abbrev pub Network : Type 0
Network = ℕ → Delivery

-- A computation of the client, with the server that it leaves.
abbrev pub Run : Type 0 → Type 0
Run A = Server → Outcome CrawlJobQueueError A × Server

abbrev pub pure : {A : Type 0} → A → Run A
pure a s = (ok a, s)

abbrev pub fail : {A : Type 0} → CrawlJobQueueError → Run A
fail error s = (err error, s)

abbrev pub continue :
    {A B : Type 0}
    → Outcome CrawlJobQueueError A × Server
    → (A → Run B)
    → Outcome CrawlJobQueueError B × Server
continue (ok a, s) next = next a s
continue (err error, s) next = (err error, s)

infixl 5 ◌>>=◌
abbrev pub ◌>>=◌ : {A B : Type 0} → Run A → (A → Run B) → Run B
(first >>= next) s = continue (first s) next

infixl 5 ◌>>◌
abbrev pub ◌>>◌ : {B : Type 0} → Run (Unit {0}) → Run B → Run B
(first >> next) s = continue (first s) (λ _. next)

abbrev pub counted : Server → Server
counted s = record s { calls = s.calls + 1 }

abbrev pub deliver : {A : Type 0} → Delivery → Run A → Run A
deliver answered command s = command s
deliver (lost_request error) command s = (err error, s)
deliver (lost_reply error) command s = (err error, (command s).1)

-- `execute`: one call.
unfoldable pub execute : {A : Type 0} → Network → Run A → Run A
execute net command s = deliver (net s.calls) command (counted s)

-- `connection`: a call without a command.
unfoldable pub connection : Network → Run (Unit {0})
connection net = execute net (pure tt)

-- XGROUP CREATE with MKSTREAM.
unfoldable pub create_group : Run (Unit {0})
create_group s =
    if s.group_exists
    then (err (unavailable true), s)
    else (ok tt, record s { group_exists = true })

abbrev pub is_pending : ℕ → PendingEntry → Bool
is_pending id p = p.entry_id == id

abbrev pub is_entry : ℕ → StreamEntry → Bool
is_entry id e = e.id == id

unfoldable pub without_pending : ℕ → List PendingEntry → List PendingEntry
without_pending id pending = filter (λ p. not (is_pending id p)) pending

-- XACK and XDEL of one entry: how many were there.
unfoldable pub xack : ℕ → Run ℕ
xack id s = (
  ok (if any (is_pending id) s.pending then 1 else 0),
  record s { pending = without_pending id s.pending },
)

unfoldable pub xdel : ℕ → Run ℕ
xdel id s = (
  ok (if any (is_entry id) s.stream then 1 else 0),
  record s { stream = filter (λ e. not (is_entry id e)) s.stream },
)

-- XADD; the server may answer no identifier.
unfoldable pub xadd : Option ℕ → Text → Run (Option ℕ)
xadd none payload s = (ok none, s)
xadd (some new_id) payload s = (
  ok (some new_id),
  record s { stream = s.stream ++ (record { id = new_id; payload = some payload } ∷ []) },
)

abbrev pub delivered_once : StreamEntry → PendingEntry
delivered_once e = record { entry_id = e.id; times_delivered = 1 }

-- XREADGROUP: the entries that the server picks become pending.
unfoldable pub xreadgroup : List StreamEntry → Run (List StreamEntry)
xreadgroup picked s = (ok picked, record s { pending = s.pending ++ map delivered_once picked })

abbrev pub delivered_again : List StreamEntry → PendingEntry → PendingEntry
delivered_again picked p =
    if any (is_entry p.entry_id) picked
    then record p { times_delivered = p.times_delivered + 1 }
    else p

-- XAUTOCLAIM: the entries that the server picks are delivered once more.
unfoldable pub xautoclaim : List StreamEntry → Run (List StreamEntry)
xautoclaim picked s = (ok picked, record s { pending = map (delivered_again picked) s.pending })

-- XPENDING of one entry.
unfoldable pub xpending : ℕ → Run (Option PendingEntry)
xpending id s = (ok (find (is_pending id) s.pending), s)

abbrev pub letter : ℕ → Text → ℕ → DeadLetterReason → DeadLetter
letter id text_of count why = record {
  source_entry_id = id;
  payload = text_of;
  delivery_count = count;
  reason = why;
}

-- The dead-letter script, which the server runs atomically.
unfoldable pub dead_letter_script : ℕ → Text → ℕ → DeadLetterReason → Run ℕ
dead_letter_script id payload count reason s = xack id (
    if any (λ known. known == id) s.dead_letter_index then s else record s {
      dead_letters = s.dead_letters ++ (letter id payload count reason ∷ []);
      dead_letter_index = id ∷ s.dead_letter_index;
    })
