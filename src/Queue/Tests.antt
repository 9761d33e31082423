-- ===== src/Queue/Tests.antt =====
-- The queue at a lost reply, an exhausted entry and a configuration.
use tech_atlas.Prelude.{
  ℕ, ◌>>=◌, ◌≡◌, refl, Option, none, some, List, [], ◌∷◌, if◌then◌else◌, ◌==◌, map, Outcome, ok,
  count, any, ltb, is_some, find, true, false, String,
}
use tech_atlas.Prelude.Text.{Text, text}
use tech_atlas.Prelude.Duration.{from_secs}
use tech_atlas.Queue.{
  RedisStreamsConfig, default_streams, with_stream_names, with_read_options, with_recovery_policy,
  duration_millis,
}
use tech_atlas.Queue.Server.{
  Server, StreamEntry, PendingEntry, Network, answered, lost_reply, timed_out, no_entries, letter,
  delivery_limit_exceeded, delivered_again,
}
use tech_atlas.Queue.Streams.{JobCodec, ReceivedCrawlJob, reclaim_stale}
use tech_atlas.Queue.DeadLetters.{
  IsOnce, QueueOperation, reclaiming, acknowledging, apply_all, apply_all-IsOnce,
}
use tech_atlas.Queue.Entries.{AreSettled}
use tech_atlas.Queue.Deliveries.{reclaim_stale-AreSettled}
use tech_atlas.Queue.Options.{IsUsable, builders-IsUsable}

-- A codec that reads nothing.
abbrev mute : JobCodec
mute = record { print_job = λ wire. none; parse_job = λ payload. none }

-- The reply of the sixth call is lost.
abbrev lossy : Network
lossy n = if n == 5 then lost_reply timed_out else answered

abbrev calm : Network
calm n = answered

abbrev entry : StreamEntry
entry = record { id = 7; payload = some (text "{}") }

abbrev busy : Server
busy = record {
  group_exists = true;
  stream = entry ∷ [];
  pending = record { entry_id = 7; times_delivered = 4 } ∷ [];
  dead_letters = [];
  dead_letter_index = [];
  calls = 0;
}

busy-IsOnce : IsOnce busy
unfolding IsOnce
busy-IsOnce id = refl

abbrev operations : List QueueOperation
operations = reclaiming (entry ∷ []) ∷ reclaiming (entry ∷ []) ∷ acknowledging 7 ∷ []

apply_all-IsOnce_example : IsOnce (apply_all lossy mute default_streams operations busy)
apply_all-IsOnce_example = apply_all-IsOnce lossy mute default_streams operations busy busy-IsOnce

abbrev afterwards : Server
afterwards = record {
  group_exists = true;
  stream = entry ∷ [];
  pending = [];
  dead_letters = letter 7 (text "{}") 5 delivery_limit_exceeded ∷ [];
  dead_letter_index = 7 ∷ [];
  calls = 8;
}

exhausted : reclaim_stale calm mute default_streams (entry ∷ []) busy ≡ (ok [], afterwards)
unfolding reclaim_stale tech_atlas.Queue.Streams.ensure_group tech_atlas.Queue.Server.connection
    tech_atlas.Queue.Server.execute tech_atlas.Queue.Server.create_group duration_millis
    tech_atlas.Queue.Server.xautoclaim tech_atlas.Queue.Streams.reclaim_each
    tech_atlas.Queue.Streams.delivery_count tech_atlas.Queue.Server.xpending
    tech_atlas.Queue.Streams.reclaim_entry tech_atlas.Queue.Streams.dead_letter
    tech_atlas.Queue.Server.dead_letter_script tech_atlas.Queue.Server.xack
    tech_atlas.Queue.Server.without_pending
exhausted = refl

reclaim_stale-AreSettled_example :
    AreSettled mute 5 (map (delivered_again (entry ∷ [])) busy.pending) (7 ∷ []) (entry ∷ []) []
reclaim_stale-AreSettled_example =
    reclaim_stale-AreSettled calm mute default_streams (entry ∷ []) busy afterwards [] exhausted

abbrev tuned : RedisStreamsConfig
tuned = record default_streams {
  stream_key = text "jobs";
  consumer_group = text "workers";
  dead_letter_stream_key = text "dead";
  dead_letter_index_key = text "index";
  batch_size = 20;
  max_deliveries = 3;
}

accepted :
    (do
      named ←
          with_stream_names
            (text " jobs ")
            (text "workers")
            (text "dead")
            (text "index")
            default_streams
      read ← with_read_options 20 (from_secs 1) (from_secs 5) named
      with_recovery_policy (from_secs 60) 3 read)
    ≡ ok tuned
unfolding with_stream_names tech_atlas.Queue.required_name tech_atlas.Prelude.Text.trim
    with_read_options with_recovery_policy
accepted = refl

builders-IsUsable_example : IsUsable tuned
builders-IsUsable_example =
    builders-IsUsable (text " jobs ") (text "workers") (text "dead") (text "index") 20 (from_secs 1)
      (from_secs 5) (from_secs 60) 3 tuned accepted
