-- ===== src/RelayTransport/Delayed/Examples.antt =====
-- The theorems on internal/relaytransport/delayed.go at one heartbeat. `numbers` encodes a heartbeat
-- alone, as its versions and its time.
use mossward.Common.{
  ℕ, ◌≡◌, ◌≤◌, refl, subst, true, Option, some, none, List, [], ◌∷◌, arith, ok, ℤ, pos, negsuc,
}
use mossward.RelayTransport.Protocol.{
  MessageKind, agent_check_in, server_reply, agent_log_batch, integrity_alert, tamper_alert, other,
  kind_eq,
}
use mossward.RelayTransport.Delayed.{
  AgentLogRecord, AgentCheckIn, DelayedTelemetryEnvelope, EnvelopeJson, payload_within,
  heartbeat_envelope, heartbeat_payload, decode_delayed_telemetry,
}
use mossward.RelayTransport.Delayed.Acceptance.{
  decode-heartbeat_payload, Accepted, decode_delayed_telemetry-Accepted,
}

abbrev Heartbeat : Type 0
Heartbeat = AgentCheckIn (Unit {0})

abbrev Envelope : Type 0
Envelope = DelayedTelemetryEnvelope (Unit {0}) (Unit {0})

abbrev write_fields : ℤ → ℤ → ℕ → Option (List ℕ)
write_fields (pos v) (pos w) t = some (v ∷ w ∷ t ∷ [])
write_fields _ _ t = none

abbrev write :
    ℤ → MessageKind → Option Heartbeat → List AgentLogRecord → Option (Unit {0}) → Option (List ℕ)
write v agent_check_in (some c) [] none = write_fields v c.schema_version c.generated_at
write _ _ _ _ _ = none

abbrev heartbeat_at : ℕ → ℕ → Heartbeat
heartbeat_at w t = record { schema_version = pos w; generated_at = t; rest = tt }

abbrev read : List ℕ → Option Envelope
read (v ∷ w ∷ t ∷ []) = some (record {
  schema_version = pos v;
  kind = agent_check_in;
  heartbeat = some (heartbeat_at w t);
  agent_logs = [];
  agent_log_batch = none;
})
read _ = none

abbrev written : ℤ → ℤ → ℕ → Envelope
written v w t = record {
  schema_version = v;
  kind = agent_check_in;
  heartbeat = some (record { schema_version = w; generated_at = t; rest = tt });
  agent_logs = [];
  agent_log_batch = none;
}

read-write_fields :
    (v w : ℤ) (t : ℕ) (b : List ℕ) → write_fields v w t ≡ some b → read b ≡ some (written v w t)
read-write_fields (pos v) (pos w) t b e =
    let same : (v ∷ w ∷ t ∷ []) ≡ b = ground (arith, e) in
    subst (λ x. read x ≡ some (written (pos v) (pos w) t)) same refl
read-write_fields (pos v) (negsuc w) t b e = absurd (ground (arith, e))
read-write_fields (negsuc v) w t b e = absurd (ground (arith, e))

read-write :
    (v : ℤ) (k : MessageKind) (h : Option Heartbeat) (logs : List AgentLogRecord)
    (batch : Option (Unit {0})) (b : List ℕ)
    → write v k h logs batch ≡ some b
    → read b
      ≡ some (record {
        schema_version = v;
        kind = k;
        heartbeat = h;
        agent_logs = logs;
        agent_log_batch = batch;
      })
read-write v agent_check_in (some c) [] none b e =
    read-write_fields v c.schema_version c.generated_at b e
read-write v agent_check_in (some c) [] (some u) b e = absurd (ground (arith, e))
read-write v agent_check_in (some c) (r ∷ rs) batch b e = absurd (ground (arith, e))
read-write v agent_check_in none logs batch b e = absurd (ground (arith, e))
read-write v server_reply h logs batch b e = absurd (ground (arith, e))
read-write v agent_log_batch h logs batch b e = absurd (ground (arith, e))
read-write v integrity_alert h logs batch b e = absurd (ground (arith, e))
read-write v tamper_alert h logs batch b e = absurd (ground (arith, e))
read-write v (other t) h logs batch b e = absurd (ground (arith, e))

abbrev numbers : EnvelopeJson (Unit {0}) (Unit {0})
numbers = record {
  marshal = λ e. write e.schema_version e.kind e.heartbeat e.agent_logs e.agent_log_batch;
  decode = read;
  decode-marshal =
      λ e b h. read-write e.schema_version e.kind e.heartbeat e.agent_logs e.agent_log_batch b h;
}

makes : heartbeat_payload numbers (heartbeat_at 2 9) 4 ≡ ok (1 ∷ 2 ∷ 9 ∷ [])
unfolding heartbeat_payload payload_within
makes = refl

decode-heartbeat_payload_example :
    decode_delayed_telemetry numbers agent_check_in (1 ∷ 2 ∷ 9 ∷ [])
    ≡ ok (heartbeat_envelope (heartbeat_at 2 9))
decode-heartbeat_payload_example =
    decode-heartbeat_payload numbers (heartbeat_at 2 9) 4 (1 ∷ 2 ∷ 9 ∷ []) makes

abbrev accepted : Envelope
accepted = heartbeat_envelope (heartbeat_at 2 9)

accepts : decode_delayed_telemetry numbers agent_check_in (1 ∷ 2 ∷ 9 ∷ []) ≡ ok accepted
unfolding decode_delayed_telemetry
accepts = refl

decode_delayed_telemetry-Accepted_example :
    Accepted accepted agent_check_in
    × (kind_eq agent_check_in agent_check_in ≡ true)
    × (3 ≤ 3_145_728)
decode_delayed_telemetry-Accepted_example =
    decode_delayed_telemetry-Accepted numbers agent_check_in (1 ∷ 2 ∷ 9 ∷ []) accepted accepts
