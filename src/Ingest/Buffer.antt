-- ===== src/Ingest/Buffer.antt =====
-- services/ingest/main.go: `handleMessage`, `flushNow`, the ring and the INSERT. The handler of the
-- MQTT client, the ticker and the shutdown run at the same time; a step is what one of them does
-- under the mutex, or one INSERT. An INSERT is one statement, so it writes all of its rows or none. An
-- error of `Exec` does not say which: the connection or the context may end after the commit.
use controlai.Prelude.{
  ℕ, suc, zero, ◌≡◌, String, Bool, Option, none, some, List, [], ◌∷◌, ◌++◌, map, leb, length,
  get_elem?, if◌then◌else◌,
}
use controlai.Ingest.Codec.{Codecs, decode_payload}

-- The part of `ingestConfig` that the handler reads.
pub record Config : Type 0 where
  pub site_id : String
  pub payload_codec : String
  pub batch_size : ℕ

-- `strings.Split` is called on the topic; a message holds its answer.
pub record Message (c : Codecs) : Type 0 where
  pub parts : List String
  pub payload : c.Bytes

-- `telemetryRow`.
pub record TelemetryRow (c : Codecs) : Type 0 where
  pub time : ℕ
  pub site_id : String
  pub device_id : String
  pub metric : String
  pub payload : Option c.Bytes
  pub raw : c.Bytes
  pub is_json : Bool

-- The columns of `telemetry`.
pub record TelemetryColumns (c : Codecs) : Type 0 where
  pub time : ℕ
  pub site_id : String
  pub device_id : String
  pub metric : String
  pub payload : Option c.Bytes
  pub raw : c.Bytes

-- `if len(parts) >= 4`: the device and the metric.
abbrev pub address : List String → String × String
address (a ∷ b ∷ device ∷ metric ∷ rest) = (device, metric)
address parts = ("", "")

module _ (c : Codecs) (cfg : Config) where
  -- The row of `handleMessage`.
  unfoldable pub row_of : ℕ → Message c → TelemetryRow c
  row_of now m =
      let decoded = decode_payload c cfg.payload_codec m.payload in
      record {
        time = now;
        site_id = cfg.site_id;
        device_id = (address m.parts).0;
        metric = (address m.parts).1;
        payload = decoded.json_payload;
        raw = decoded.raw;
        is_json = decoded.is_json;
      }

  -- The arguments of a row for the INSERT: the payload is NULL unless `IsJSON`.
  unfoldable pub columns_of : TelemetryRow c → TelemetryColumns c
  columns_of r = record {
    time = r.time;
    site_id = r.site_id;
    device_id = r.device_id;
    metric = r.metric;
    payload = if r.is_json then r.payload else none;
    raw = r.raw;
  }

  -- The ring, the batches that calls of `flushNow` have taken and not yet written, the table, the rows of
  -- all messages so far, and the batches that were written although `Exec` reported an error.
  pub record State : Type 0 where
    pub ring : List (TelemetryRow c)
    pub in_flight : List (List (TelemetryRow c))
    pub table : List (TelemetryColumns c)
    pub received : List (TelemetryRow c)
    pub doubtful : List (List (TelemetryRow c))

  -- `ring = append(ring, row)`, and whether the size makes the handler flush.
  unfoldable pub handle_message : ℕ → Message c → State → Bool × State
  unfolding row_of
  handle_message now m s =
      let row = row_of now m in
      (
        leb cfg.batch_size (length (s.ring ++ row ∷ [])),
        record s { ring = s.ring ++ row ∷ []; received = s.received ++ row ∷ [] },
      )

  -- `flushNow` up to the INSERT: nothing where the ring is empty.
  abbrev pub take_with : List (TelemetryRow c) → State → State
  take_with [] s = s
  take_with (r ∷ rs) s = record s { ring = []; in_flight = (r ∷ rs) ∷ s.in_flight }

  unfoldable pub take_batch : State → State
  take_batch s = take_with s.ring s

  -- The end of `flushNow` for the i-th batch in flight: written, or put in front of the ring.
  abbrev pub without : ℕ → List (List (TelemetryRow c)) → List (List (TelemetryRow c))
  without i [] = []
  without zero (b ∷ bs) = bs
  without (suc i) (b ∷ bs) = b ∷ without i bs

  unfoldable pub written : ℕ → List (TelemetryRow c) → State → State
  written i batch s = record s {
    in_flight = without i s.in_flight;
    table = s.table ++ map columns_of batch;
  }

  unfoldable pub requeued : ℕ → List (TelemetryRow c) → State → State
  requeued i batch s = record s { in_flight = without i s.in_flight; ring = batch ++ s.ring }

  -- The end of `flushNow` where `Exec` reports an error after the commit.
  unfoldable pub written_and_requeued : ℕ → List (TelemetryRow c) → State → State
  unfolding requeued columns_of
  written_and_requeued i batch s = record (requeued i batch s) {
    table = s.table ++ map columns_of batch;
    doubtful = batch ∷ s.doubtful;
  }

  abbrev pub started : State
  started = record { ring = []; in_flight = []; table = []; received = []; doubtful = [] }

  pub data Step : State → State → Type 0 where
    on_message : (now : ℕ) (m : Message c) (s : State) → Step s (handle_message now m s).1
    on_flush : (s : State) → Step s (take_batch s)
    on_written :
        (i : ℕ) (batch : List (TelemetryRow c)) (s : State)
        → get_elem? s.in_flight i ≡ some batch
        → Step s (written i batch s)
    on_failed :
        (i : ℕ) (batch : List (TelemetryRow c)) (s : State)
        → get_elem? s.in_flight i ≡ some batch
        → Step s (requeued i batch s)
    on_doubt :
        (i : ℕ) (batch : List (TelemetryRow c)) (s : State)
        → get_elem? s.in_flight i ≡ some batch
        → Step s (written_and_requeued i batch s)

  pub data Reachable : State → Type 0 where
    reach_start : Reachable started
    reach_step : {s s' : State} → Reachable s → Step s s' → Reachable s'

  -- The same, where a call of `flushNow` starts only when no other is between its two halves.
  pub data Sequential : State → Type 0 where
    seq_start : Sequential started
    seq_message :
        (now : ℕ) (m : Message c) (s : State) → Sequential s → Sequential (handle_message now m s).1
    seq_flush : (s : State) → s.in_flight ≡ [] → Sequential s → Sequential (take_batch s)
    seq_written :
        (batch : List (TelemetryRow c)) (s : State)
        → s.in_flight ≡ batch ∷ []
        → Sequential s
        → Sequential (written 0 batch s)
    seq_failed :
        (batch : List (TelemetryRow c)) (s : State)
        → s.in_flight ≡ batch ∷ []
        → Sequential s
        → Sequential (requeued 0 batch s)
    seq_doubt :
        (batch : List (TelemetryRow c)) (s : State)
        → s.in_flight ≡ batch ∷ []
        → Sequential s
        → Sequential (written_and_requeued 0 batch s)
