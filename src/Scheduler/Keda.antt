-- ===== src/Scheduler/Keda.antt =====
-- server/src/adapters/keda.ts: demand for a warm spare, recorded for the autoscaler to read.
use control_deck.Prelude.{
  ℕ, ◌+◌, String, Bool, false, ◌==◌, if◌then◌else◌, ltb, Option, none, some, find, upsert,
}
use control_deck.Database.{ScaleSignalRow, Db}

-- The clients of `createKedaClient`.
pub data KedaClient : Type 0 where
  noop : KedaClient
  metrics : (debounce_ms : ℕ) → KedaClient

abbrev pub signal_of : String → ScaleSignalRow → Bool
signal_of model_id s = s.model_id == model_id

-- ON CONFLICT … WHERE requested_at < now() - debounce: a signal inside the window stays.
abbrev refresh_signal : ℕ → ℕ → ScaleSignalRow → ScaleSignalRow
refresh_signal debounce_ms now s =
    if ltb (s.requested_at + debounce_ms) now then record s { requested_at = now } else s

unfoldable pub request_scale_up : KedaClient → Db → String → ℕ → Db
request_scale_up KedaClient.noop db model_id now = db
request_scale_up (KedaClient.metrics debounce_ms) db model_id now = record db {
  scale_signals =
      upsert (signal_of model_id) (refresh_signal debounce_ms now)
        (record { model_id = model_id; requested_at = now }) db.scale_signals;
}

abbrev is_fresh : ℕ → ℕ → Option ScaleSignalRow → Bool
is_fresh within_ms now none = false
is_fresh within_ms now (some s) = ltb now (s.requested_at + within_ms)

-- MetricsKedaClient.wantsScaleUp
unfoldable pub wants_scale_up : Db → String → ℕ → ℕ → Bool
wants_scale_up db model_id within_ms now =
    is_fresh within_ms now (find (signal_of model_id) db.scale_signals)

-- `createKedaClient`, by the value of KEDA_ENABLED.
unfoldable pub create_keda_client : Option String → KedaClient
create_keda_client none = KedaClient.metrics 1000
create_keda_client (some v) = if v == "false" then KedaClient.noop else KedaClient.metrics 1000
