-- ===== src/Examples/Loops.antt =====
-- The reconciler and the buffer of the ingest process at concrete inputs.
use controlai.Prelude.{
  ◌+◌, String, Bool, true, ◌≡◌, refl, ap, if◌then◌else◌, none, List, [], ◌∷◌, ◌++◌, map, ◌==◌,
  get_elem?, inl, inr,
}
use controlai.Store.Rows.{Tables}
use controlai.Store.Query.{ok, run}
use controlai.Store.States.{get_combined_hash, get_file_hash, select_file_hash}
use controlai.Store.RoundTrips.{quiet}
use controlai.Recon.Runtime
use controlai.Recon.Projects.{reconcile_project, containers_of, all_up}
use controlai.Recon.Ticks.{state_of, visit}
use controlai.Recon.Convergence.{calm, reconcile_project-converged, reconcile_project-records_hash}
use controlai.Recon.Retries.{must_wait, attempt, settled, visit-retries}
use controlai.Ingest.Codec.{Codecs, Decoded, decode_payload, decode_payload-Decoded}
use controlai.Ingest.Buffer.{
  Config, row_of, Message, TelemetryRow, columns_of, State, handle_message, take_batch, requeued,
  written_and_requeued, started, Reachable, on_message, on_flush, on_doubt, reach_start, reach_step,
  Sequential, seq_start, seq_message, seq_flush, seq_failed, TelemetryColumns,
}
use controlai.Ingest.Delivery.{count, count_all, flat, count_kept-Reachable, in_order-Sequential}
use controlai.Examples.Fixtures.{wanted, one_tenant, machine, conf}

records_hash_example :
    ((reconcile_project machine conf wanted "f" (calm machine conf 9 one_tenant [] [] none)).0
      ≡ none)
    × ((get_combined_hash wanted.project_id
          (reconcile_project machine conf wanted "f"
            (calm machine conf 9 one_tenant [] [] none)).1.db).0
        ≡ ok wanted.config_hash)
records_hash_example =
    reconcile_project-records_hash machine conf wanted "f" 9 one_tenant [] [] none (λ w. refl) refl
      refl

abbrev with_hash : Tables
with_hash = record one_tenant {
  actual_state_cache =
      record {
        project_id = "tnt_acme-ste_plant";
        file_path = "_combined";
        content_hash = "abc";
        updated_at = 1;
      }
      ∷ [];
}

hash_stored : (get_combined_hash wanted.project_id (quiet 9 with_hash)).0 ≡ ok wanted.config_hash
unfolding get_combined_hash get_file_hash select_file_hash run
hash_stored = refl

up_already :
    all_up machine conf (
      containers_of machine conf wanted.project_id
        (calm machine conf 9 with_hash (wanted.project_id ∷ []) [] none))
    ≡ true
unfolding containers_of
up_already = refl

converged_example :
    reconcile_project machine conf wanted "f"
      (calm machine conf 9 with_hash (wanted.project_id ∷ []) [] none)
    ≡ (none, calm machine conf 9 with_hash (wanted.project_id ∷ []) [] none)
converged_example =
    reconcile_project-converged machine conf wanted "f" 9 with_hash (wanted.project_id ∷ []) [] none
      refl up_already (inr hash_stored)

abbrev before : Runtime.State machine
before = calm machine conf 9 one_tenant [] [] none

abbrev no_trust : Runtime.State machine → Runtime.State machine
no_trust s = s

visit_example :
    (state_of "other" (visit machine conf no_trust wanted before).states ≡ (
      if wanted.project_id == "other"
      then if must_wait
          (machine.now before.world)
          (state_of wanted.project_id before.states).next_retry
        then state_of wanted.project_id before.states
        else settled machine conf no_trust
            (state_of wanted.project_id before.states)
            (attempt machine conf no_trust wanted before)
      else state_of "other" before.states))
    × ((visit machine conf no_trust wanted before).world ≡ (
        if must_wait
          (machine.now before.world)
          (state_of wanted.project_id before.states).next_retry
        then before.world
        else (attempt machine conf no_trust wanted before).1.world))
visit_example = visit-retries machine conf no_trust wanted "other" before

-- Payloads are texts; one of them is no JSON.
abbrev texts : Codecs
texts = record {
  Bytes = String;
  Map = String;
  Error = Unit;
  cbor_unmarshal = λ b. inr b;
  json_unmarshal = λ b. if b == "{" then inl tt else inr b;
  json_marshal = λ m. inr m;
}

decode_example : Decoded texts "json" "{" (decode_payload texts "json" "{")
decode_example = decode_payload-Decoded texts "json" "{"

abbrev ingest : Config
ingest = record { site_id = "ste_plant"; payload_codec = "json"; batch_size = 500 }

abbrev hot : Message texts
hot = record { parts = "t" ∷ "s" ∷ "dev" ∷ "temp" ∷ []; payload = "{}" }

abbrev first : State texts ingest
first = (handle_message texts ingest 1 hot (started texts ingest)).1

abbrev taken : State texts ingest
taken = take_batch texts ingest first

abbrev second : State texts ingest
second = (handle_message texts ingest 2 hot taken).1

-- The first message is in flight when the second one arrives, and its INSERT fails.
abbrev hot_batch : List (TelemetryRow texts)
hot_batch = row_of texts ingest 1 hot ∷ []

in_flight_first : second.in_flight ≡ hot_batch ∷ []
unfolding handle_message take_batch
in_flight_first = refl

no_flight : first.in_flight ≡ []
unfolding handle_message
no_flight = refl

second-Sequential : Sequential texts ingest second
second-Sequential =
    seq_message 2 hot taken
      (seq_flush first no_flight (seq_message 1 hot (started texts ingest) seq_start))

second-Reachable : Reachable texts ingest second
second-Reachable =
    reach_step
      (reach_step (reach_step reach_start (on_message 1 hot (started texts ingest)))
        (on_flush first))
      (on_message 2 hot taken)

-- The same, where the batch was committed all the same, so that it is in the table and in the ring.
abbrev doubled : State texts ingest
doubled = written_and_requeued texts ingest 0 hot_batch second

doubled-Reachable : Reachable texts ingest doubled
doubled-Reachable =
    reach_step second-Reachable
      (on_doubt 0 hot_batch second (ap (λ bs. get_elem? bs 0) in_flight_first))

no_doubt : (requeued texts ingest 0 hot_batch second).doubtful ≡ []
unfolding requeued handle_message take_batch
no_doubt = refl

abbrev is_hot : TelemetryColumns texts → Bool
is_hot r = r.metric == "temp"

count_kept_example :
    count is_hot doubled.table
      + count_all texts ingest is_hot doubled.in_flight
      + count is_hot (map (columns_of texts ingest) doubled.ring)
    ≡ count is_hot (map (columns_of texts ingest) doubled.received)
      + count_all texts ingest is_hot doubled.doubtful
count_kept_example = count_kept-Reachable texts ingest is_hot doubled doubled-Reachable

in_order_example :
    (requeued texts ingest 0 hot_batch second).table
      ++ (map (columns_of texts ingest) (flat (requeued texts ingest 0 hot_batch second).in_flight)
          ++ map (columns_of texts ingest) (requeued texts ingest 0 hot_batch second).ring)
    ≡ map (columns_of texts ingest) (requeued texts ingest 0 hot_batch second).received
in_order_example =
    in_order-Sequential texts ingest (requeued texts ingest 0 hot_batch second)
      (seq_failed hot_batch second in_flight_first second-Sequential) no_doubt
