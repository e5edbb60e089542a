-- ===== src/RelayTransport/Delayed/Acceptance.antt =====
-- internal/relaytransport/delayed.go: the server accepts what an agent enqueues, and what it accepts
-- has the shape of its kind.
use mossward.Common.{
  ℕ, ◌≡◌, ◌≤◌, refl, true, false, some, none, List, [], ◌∷◌, arith, length, Result-cases, ok, inl,
  inr, is_zero, Option-cases, Bool-cases, All, subst,
}
use mossward.RelayTransport.Protocol.{
  MessageKind, agent_check_in, server_reply, agent_log_batch, integrity_alert, tamper_alert, other,
  kind_eq,
}
use mossward.RelayTransport.Delayed.{
  AgentCheckIn, DelayedTelemetryEnvelope, EnvelopeJson, payload_within, heartbeat_envelope,
  heartbeat_payload, decode_delayed_telemetry, check_kind, check_heartbeat, check_records,
  is_compressed, AgentLogRecord, validate_legacy_agent_log_record, validate_records,
}

-- A heartbeat that EnqueueHeartbeat makes a payload of is what DecodeDelayedTelemetry reads from it.
pub decode-heartbeat_payload :
    {H B : Type 0} (json : EnvelopeJson H B) (c : AgentCheckIn H) (sequence : ℕ) (payload : List ℕ)
    → heartbeat_payload json c sequence ≡ ok payload
    → decode_delayed_telemetry json agent_check_in payload ≡ ok (heartbeat_envelope c)
unfolding heartbeat_payload decode_delayed_telemetry payload_within
decode-heartbeat_payload json c sequence payload h =
    elim (Option-cases (json.marshal (heartbeat_envelope c))) [
      | inl failed ↦ absurd (ground (arith, h, failed))
      | inr (b, made) ↦
          let same : b ≡ payload = ground (arith, h, made) in
          let back = json.decode-marshal (heartbeat_envelope c) b made in
          ground (arith, h, made, same, back)
    ]

abbrev IsRecord : AgentLogRecord → Type 0
IsRecord r = validate_legacy_agent_log_record r ≡ ok tt

-- The envelopes that the server takes: a heartbeat with its time, a compressed batch, or up to 512
-- records, each alone.
pub data Accepted {H B : Type 0} (e : DelayedTelemetryEnvelope H B) : MessageKind → Type 0 where
  a_heartbeat :
      (c : AgentCheckIn H)
      → e.heartbeat ≡ some c
      → is_zero c.generated_at ≡ false
      → e.agent_logs ≡ []
      → e.agent_log_batch ≡ none
      → Accepted e agent_check_in
  a_batch :
      (b : B)
      → e.agent_log_batch ≡ some b
      → e.heartbeat ≡ none
      → e.agent_logs ≡ []
      → Accepted e agent_log_batch
  some_records :
      All IsRecord e.agent_logs
      → 1 ≤ length e.agent_logs
      → length e.agent_logs ≤ 512
      → e.heartbeat ≡ none
      → e.agent_log_batch ≡ none
      → Accepted e agent_log_batch

validate_records-All : (rs : List AgentLogRecord) → validate_records rs ≡ ok tt → All IsRecord rs
unfolding validate_records
validate_records-All [] h = tt
validate_records-All (r ∷ rs) h = elim (Result-cases (validate_legacy_agent_log_record r)) [
  | inr (x, bad) ↦ absurd (ground (arith, bad, h))
  | inl (u, good) ↦ (good, validate_records-All rs (ground (arith, good, h)))
]

no_records : (rs : List AgentLogRecord) → length rs ≡ 0 → rs ≡ []
no_records [] h = refl
no_records (r ∷ rs) h = absurd (omega (arith, h))

check_heartbeat-Accepted :
    {H B : Type 0} (e out : DelayedTelemetryEnvelope H B)
    → check_heartbeat e ≡ ok out
    → Accepted e agent_check_in × (e ≡ out)
check_heartbeat-Accepted e out h = elim (Option-cases e.heartbeat) [
  | inl missing ↦ absurd (ground (arith, missing, h))
  | inr (c, found) ↦ elim (Option-cases e.agent_log_batch) [
    | inr (b, some_batch) ↦ absurd (ground (arith, some_batch, h))
    | inl no_batch ↦ (
      a_heartbeat c found (ground (arith, found, h))
          (no_records e.agent_logs (ground (arith, found, no_batch, h))) no_batch,
      ground (arith, found, no_batch, h),
    )
  ]
]

check_records-Accepted :
    {H B : Type 0} (e out : DelayedTelemetryEnvelope H B)
    → check_records e ≡ ok out
    → Accepted e agent_log_batch × (e ≡ out)
check_records-Accepted e out h = elim (Option-cases e.heartbeat) [
  | inr (c, found) ↦ absurd (ground (arith, found, h))
  | inl missing ↦ elim (Option-cases e.agent_log_batch) [
    | inr (b, some_batch) ↦ absurd (ground (arith, missing, some_batch, h))
    | inl no_batch ↦ elim (Result-cases (validate_records e.agent_logs)) [
      | inr (x, bad) ↦ absurd (ground (arith, missing, no_batch, bad, h))
      | inl (u, good) ↦ (
        some_records (validate_records-All e.agent_logs good) (ground (arith, missing, no_batch, h))
            (ground (arith, missing, no_batch, h)) missing no_batch,
        ground (arith, missing, no_batch, good, h),
      )
    ]
  ]
]

check_kind-Accepted :
    {H B : Type 0} (kind : MessageKind) (e out : DelayedTelemetryEnvelope H B)
    → check_kind kind e ≡ ok out
    → Accepted e kind × (e ≡ out)
check_kind-Accepted agent_check_in e out h = check_heartbeat-Accepted e out h
check_kind-Accepted server_reply e out h = absurd (ground (arith, h))
check_kind-Accepted agent_log_batch e out h = elim (Bool-cases (is_compressed e)) [
  | inr plain ↦ check_records-Accepted e out (ground (arith, plain, h))
  | inl packed ↦ elim (Option-cases e.agent_log_batch) [
    | inl no_batch ↦ absurd (ground (arith, no_batch, packed))
    | inr (b, found) ↦ elim (Option-cases e.heartbeat) [
      | inr (c, some_heartbeat) ↦ absurd (ground (arith, some_heartbeat, packed))
      | inl missing ↦ (
        a_batch b found missing (no_records e.agent_logs (ground (arith, packed))),
        ground (arith, packed, h),
      )
    ]
  ]
]
check_kind-Accepted integrity_alert e out h = absurd (ground (arith, h))
check_kind-Accepted tamper_alert e out h = absurd (ground (arith, h))
check_kind-Accepted (other t) e out h = absurd (ground (arith, h))

-- A payload that DecodeDelayedTelemetry accepts has at most 3 MiB and holds an envelope of the kind of
-- its frame, in a shape of that kind.
pub decode_delayed_telemetry-Accepted :
    {H B : Type 0} (json : EnvelopeJson H B) (kind : MessageKind) (payload : List ℕ)
    (e : DelayedTelemetryEnvelope H B)
    → decode_delayed_telemetry json kind payload ≡ ok e
    → Accepted e kind × (kind_eq e.kind kind ≡ true) × (length payload ≤ 3_145_728)
unfolding decode_delayed_telemetry
decode_delayed_telemetry-Accepted json kind payload e h =
    elim (Option-cases (json.decode payload)) [
      | inl failed ↦ absurd (ground (arith, failed, h))
      | inr (d, made) ↦
          let (accepted, same) = check_kind-Accepted kind d e (ground (arith, made, h)) in
          (
            subst (λ x. Accepted x kind) same accepted,
            ground (arith, made, h, same),
            ground (arith, made, h),
          )
    ]
