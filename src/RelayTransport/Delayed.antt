-- ===== src/RelayTransport/Delayed.antt =====
-- internal/relaytransport/delayed.go: the payload of a delayed heartbeat, and what the server accepts
-- as delayed telemetry. encoding/json is the record `EnvelopeJson`; the fields of a heartbeat and of a
-- log batch that the file does not read are values of `H` and `B`.
mod Acceptance
mod Examples
use mossward.Common.{
  ℕ, ◌≡◌, Bool, true, false, ◌||◌, ◌&&◌, not, Option, some, none, List, [], ◌∷◌, ltb, ◌==◌,
  if◌then◌else◌, length, Text, is_blank, byte_length, Time, is_zero, Result, ok, err, ◌>>=◌, ◌>>◌,
  reject_if, ℤ, pos, eq_ℤ,
}
use mossward.RelayTransport.Protocol.{MessageKind, agent_check_in, agent_log_batch, kind_eq}

-- `unknown` is any string that is none of the constants.
pub data AgentLogLevel : Type 0 where
  info warning error : AgentLogLevel
  unknown : Text → AgentLogLevel

pub record AgentLogRecord : Type 0 where
  pub generated_at : Time
  pub level : AgentLogLevel
  pub component : Text
  pub message : Text

pub record AgentCheckIn (H : Type 0) : Type 0 where
  pub schema_version : ℤ
  pub generated_at : Time
  pub rest : H

pub record DelayedTelemetryEnvelope (H B : Type 0) : Type 0 where
  pub schema_version : ℤ
  pub kind : MessageKind
  pub heartbeat : Option (AgentCheckIn H)
  pub agent_logs : List AgentLogRecord
  pub agent_log_batch : Option B

pub data TelemetryError : Type 0 where
  heartbeat_invalid marshal_failed size_invalid envelope_invalid kind_or_schema : TelemetryError
  logs_invalid record_invalid level_invalid unsupported_kind : TelemetryError

-- json.Marshal, and a strict decoder that refuses unknown fields and trailing data; what was encoded
-- is read back.
pub record EnvelopeJson (H B : Type 0) : Type 0 where
  pub marshal : DelayedTelemetryEnvelope H B → Option (List ℕ)
  pub decode : List ℕ → Option (DelayedTelemetryEnvelope H B)
  pub decode-marshal :
      (e : DelayedTelemetryEnvelope H B) (b : List ℕ) → marshal e ≡ some b → decode b ≡ some e

-- 3 << 20
abbrev pub maximum_delayed_heartbeat_bytes : ℕ
maximum_delayed_heartbeat_bytes = 3_145_728

abbrev pub or_error {ℓ} : {A : Type ℓ} → Option A → TelemetryError → Result TelemetryError A
or_error none e = err e
or_error (some a) e = ok a

abbrev pub is_some {ℓ} : {A : Type ℓ} → Option A → Bool
is_some none = false
is_some (some a) = true

-- The start of `enqueue`: the payload, within its limit.
unfoldable pub payload_within :
    {H B : Type 0}
    → EnvelopeJson H B
    → DelayedTelemetryEnvelope H B
    → ℕ
    → Result TelemetryError (List ℕ)
payload_within json e limit = do
  payload ← or_error (json.marshal e) marshal_failed
  reject_if (length payload == 0 || ltb limit (length payload)) size_invalid
  ok payload

abbrev pub heartbeat_envelope : {H B : Type 0} → AgentCheckIn H → DelayedTelemetryEnvelope H B
heartbeat_envelope c = record {
  schema_version = pos 1;
  kind = agent_check_in;
  heartbeat = some c;
  agent_logs = [];
  agent_log_batch = none;
}

-- EnqueueHeartbeat up to the payload that is sealed.
unfoldable pub heartbeat_payload :
    {H B : Type 0} → EnvelopeJson H B → AgentCheckIn H → ℕ → Result TelemetryError (List ℕ)
unfolding payload_within
heartbeat_payload json c sequence = do
  reject_if (not (eq_ℤ c.schema_version (pos 2)) || is_zero c.generated_at || sequence == 0)
      heartbeat_invalid
  payload_within json (heartbeat_envelope c) maximum_delayed_heartbeat_bytes

abbrev pub known_level : AgentLogLevel → Bool
known_level (unknown t) = false
known_level _ = true

unfoldable pub validate_legacy_agent_log_record : AgentLogRecord → Result TelemetryError (Unit {0})
validate_legacy_agent_log_record r = do
  reject_if
      (is_zero r.generated_at
        || is_blank r.component
        || ltb 100 (byte_length r.component)
        || is_blank r.message
        || ltb 2048 (byte_length r.message))
      record_invalid
  reject_if (not (known_level r.level)) level_invalid

unfoldable pub validate_records : List AgentLogRecord → Result TelemetryError (Unit {0})
unfolding validate_legacy_agent_log_record
validate_records [] = ok tt
validate_records (r ∷ rs) = do validate_legacy_agent_log_record r; validate_records rs

abbrev pub bad_heartbeat : {H : Type 0} → Option (AgentCheckIn H) → Bool
bad_heartbeat none = true
bad_heartbeat (some c) = not (eq_ℤ c.schema_version (pos 2)) || is_zero c.generated_at

-- The case of MessageAgentCheckIn.
abbrev pub check_heartbeat :
    {H B : Type 0}
    → DelayedTelemetryEnvelope H B
    → Result TelemetryError (DelayedTelemetryEnvelope H B)
check_heartbeat e = do
  reject_if
      (not (eq_ℤ e.schema_version (pos 1))
        || not (length e.agent_logs == 0)
        || is_some e.agent_log_batch
        || bad_heartbeat e.heartbeat)
      heartbeat_invalid
  ok e

-- The case of MessageAgentLogBatch: a compressed batch, or the records of the first version.
abbrev pub is_compressed : {H B : Type 0} → DelayedTelemetryEnvelope H B → Bool
is_compressed e =
    eq_ℤ e.schema_version (pos 2)
    && not (is_some e.heartbeat)
    && length e.agent_logs == 0
    && is_some e.agent_log_batch

abbrev pub check_records :
    {H B : Type 0}
    → DelayedTelemetryEnvelope H B
    → Result TelemetryError (DelayedTelemetryEnvelope H B)
check_records e = do
  reject_if
      (not (eq_ℤ e.schema_version (pos 1))
        || is_some e.heartbeat
        || is_some e.agent_log_batch
        || length e.agent_logs == 0
        || ltb 512 (length e.agent_logs))
      logs_invalid
  validate_records e.agent_logs
  ok e

abbrev pub check_kind :
    {H B : Type 0}
    → MessageKind
    → DelayedTelemetryEnvelope H B
    → Result TelemetryError (DelayedTelemetryEnvelope H B)
check_kind agent_check_in e = check_heartbeat e
check_kind agent_log_batch e = if is_compressed e then ok e else check_records e
check_kind _ e = err unsupported_kind

unfoldable pub decode_delayed_telemetry :
    {H B : Type 0}
    → EnvelopeJson H B
    → MessageKind
    → List ℕ
    → Result TelemetryError (DelayedTelemetryEnvelope H B)
unfolding validate_records
decode_delayed_telemetry json kind payload = do
  reject_if (length payload == 0 || ltb maximum_delayed_heartbeat_bytes (length payload))
      size_invalid
  e ← or_error (json.decode payload) envelope_invalid
  reject_if (not (kind_eq e.kind kind)) kind_or_schema
  check_kind kind e
