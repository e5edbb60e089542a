-- ===== src/RelayTransport/Queue/Examples.antt =====
-- The theorems on internal/relaytransport/queue.go at a queue of two frames.
use native.Mathlib.Decide.{ℕ_discrete}
use mossward.Common.{
  sym, ap, subst, ◌==◌, if◌then◌else◌, ℕ, ◌+◌, ◌≡◌, ◌≢◌, refl, true, false, Option, some, none,
  List, [], ◌∷◌, arith, length, Text, codes, text_eq, is_blank, Time, unix_epoch, unix_nano,
  unix_nano_sub, ok, pos,
}
use mossward.RelayTransport.Protocol.{
  Frame, validate_frame, agent_log_batch, tamper_alert, MessageKind, hex_decode,
  allowed_message_kind,
}
use mossward.RelayTransport.Queue.Rows.{exists, select_first, update_where, count_where, total_size}
use mossward.RelayTransport.Queue.Defs.{
  Queue, QueueLimits, QueueStats, Delivery, Json, Db, new_row, open_queue, enqueue, claim,
  acknowledge, priority_for_frame,
}
use mossward.RelayTransport.Queue.Invariant.{IsSound, claim-IsSound}
use mossward.RelayTransport.Queue.History.{opened, enqueues, History-IsSound}
use mossward.RelayTransport.Queue.Delivery.{
  Handed, claim-Handed, acknowledge_stale, acknowledge_delivered,
}
use mossward.RelayTransport.Queue.Exclusion.{start, lease_excludes}

abbrev zeros : ℕ → List ℕ
zeros ℕ.zero = []
zeros (ℕ.suc n) = 0 ∷ zeros n

abbrev log_id : Text
log_id = codes "00000000000000000000000000000001"

abbrev alert_id : Text
alert_id = codes "00000000000000000000000000000002"

abbrev frame_of : Text → MessageKind → Frame
frame_of id kind = record {
  protocol_version = pos 1;
  message_id = id;
  kind = kind;
  downstream_endpoint_id = codes "d";
  sender_id = codes "s";
  recipient_id = codes "r";
  recipient_key_id = codes "k";
  sequence = 1;
  created_at = unix_epoch + 1000;
  ephemeral_public_key = zeros 32;
  nonce = zeros 12;
  ciphertext = zeros 1;
  signature = zeros 64;
}

abbrev log_frame : Frame
log_frame = frame_of log_id agent_log_batch

abbrev alert_frame : Frame
alert_frame = frame_of alert_id tamper_alert

Frame-discrete : Discrete Frame
Frame-discrete = hlevel ℕ_discrete

abbrev encode_by {ℓ κ} : {A : Type ℓ} {B : Type κ} → Dec A → Dec B → Option (List ℕ)
encode_by (yes _) _ = some (1 ∷ [])
encode_by (no _) (yes _) = some (2 ∷ [])
encode_by (no _) (no _) = none

-- An encoding of the two frames.
encode_two : Frame → Option (List ℕ)
unfolding Frame-discrete ℕ_discrete
encode_two f = encode_by (Frame-discrete f log_frame) (Frame-discrete f alert_frame)

decode_two : List ℕ → Option Frame
decode_two [] = none
decode_two (n ∷ _) = if n == 1 then some log_frame else some alert_frame

decode-encode_by :
    (f : Frame) (b : List ℕ) (is_log : Dec (f ≡ log_frame)) (is_alert : Dec (f ≡ alert_frame))
    → encode_by is_log is_alert ≡ some b
    → decode_two b ≡ some f
unfolding decode_two
decode-encode_by f b (yes e) a h =
    let k : 1 ∷ [] ≡ b = ground arith in subst (λ x. decode_two x ≡ some f) k (ap some (sym e))
decode-encode_by f b (no n) (yes e) h =
    let k : 2 ∷ [] ≡ b = ground arith in subst (λ x. decode_two x ≡ some f) k (ap some (sym e))
decode-encode_by f b (no n) (no m) h = absurd (ground arith)

abbrev two_frames : Json
two_frames = record {
  marshal = encode_two;
  unmarshal = decode_two;
  unmarshal-marshal = λ f b.
      unfold encode_two in
      decode-encode_by f b (Frame-discrete f log_frame) (Frame-discrete f alert_frame);
}

abbrev up : Db
up c = true

abbrev limits : QueueLimits
limits = record { max_items = pos 2; max_bytes = pos 10; max_age = pos 5000 }

abbrev now : Time
now = unix_epoch + 2000

empty_queue : Queue
empty_queue = record { limits = limits; rows = [] }

two_queued : Queue
unfolding empty_queue new_row
two_queued = record {
  limits = limits;
  rows = new_row log_frame (1 ∷ []) ∷ new_row alert_frame (2 ∷ []) ∷ [];
}

empty-IsSound : IsSound two_frames empty_queue
unfolding empty_queue total_size
empty-IsSound = record {
  distinct = tt;
  stored = tt;
  items = omega arith;
  bytes = omega arith;
  small = omega arith;
}

two_queued-IsSound : IsSound two_frames two_queued
unfolding two_queued total_size exists text_eq decode_two priority_for_frame
two_queued-IsSound = record {
  distinct = (refl, (refl, tt));
  stored = (
    record {
      frame = log_frame;
      decodes = refl;
      same_id = refl;
      same_time = refl;
      by_kind = refl;
      sized = refl;
      leased = refl;
    },
    (
      record {
        frame = alert_frame;
        decodes = refl;
        same_id = refl;
        same_time = refl;
        by_kind = refl;
        sized = refl;
        leased = refl;
      },
      tt,
    ),
  );
  items = omega arith;
  bytes = omega arith;
  small = omega arith;
}

abbrev token : Text
token = codes "token"

abbrev alert_delivery : Delivery
alert_delivery = record {
  frame = alert_frame;
  token = token;
  attempt = 1;
  lease_until = unix_epoch + 2100;
}

-- The alert goes before the older log frame.
claims_alert : (claim two_frames up two_queued (some token) now (pos 100)).1 ≡ ok alert_delivery
unfolding unix_nano unix_nano_sub claim two_queued select_first count_where text_eq decode_two
    validate_frame hex_decode allowed_message_kind priority_for_frame
claims_alert = refl

after_claim : Queue
after_claim = (claim two_frames up two_queued (some token) now (pos 100)).0

History-IsSound_example : IsSound two_frames (enqueue two_frames up empty_queue log_frame now).0
unfolding empty_queue open_queue
History-IsSound_example =
    History-IsSound {l = limits} (omega arith) (enqueues up log_frame now (opened refl))

claim-Handed_example :
    Handed two_frames two_queued now
      (pos 100)
      alert_delivery
      (claim two_frames up two_queued (some token) now (pos 100)).0
claim-Handed_example =
    claim-Handed two_frames up two_queued (some token) now (pos 100) alert_delivery
      two_queued-IsSound claims_alert

-- A second claim before the lease is over gets the log frame.
abbrev log_delivery : Delivery
log_delivery = record {
  frame = log_frame;
  token = codes "other";
  attempt = 1;
  lease_until = unix_epoch + 2150;
}

claims_log :
    (claim two_frames up after_claim (some (codes "other")) (unix_epoch + 2050) (pos 100)).1
    ≡ ok log_delivery
unfolding unix_nano unix_nano_sub after_claim claim two_queued select_first update_where count_where
    text_eq decode_two validate_frame hex_decode allowed_message_kind priority_for_frame
claims_log = refl

lease_excludes_example : text_eq log_id alert_id ≡ false
unfolding after_claim
lease_excludes_example =
    lease_excludes two_frames up up two_queued after_claim (some token) (some (codes "other")) now
      (unix_epoch + 2050) (pos 100) (pos 100) alert_delivery log_delivery two_queued-IsSound
      claims_alert start (omega arith) (omega arith) (omega arith) claims_log

after_claim-IsSound : IsSound two_frames after_claim
unfolding after_claim
after_claim-IsSound =
    claim-IsSound two_frames up two_queued (some token) now (pos 100) two_queued-IsSound

acknowledge_stale_example :
    ((acknowledge up after_claim alert_id (codes "stale")).0.rows ≡ after_claim.rows)
    × ((acknowledge up after_claim alert_id (codes "stale")).1 ≢ ok tt)
unfolding after_claim text_eq
acknowledge_stale_example =
    acknowledge_stale up after_claim alert_id token (codes "stale") (unix_nano (unix_epoch + 2100))
      claim-Handed_example.held refl

acknowledge_delivered_example :
    let after = acknowledge up after_claim alert_id token in
    (after.1 ≡ ok tt)
    × (exists alert_id after.0.rows ≡ false)
    × (length after_claim.rows ≡ length after.0.rows + 1)
unfolding after_claim is_blank
acknowledge_delivered_example =
    acknowledge_delivered two_frames up after_claim alert_id token (unix_nano (unix_epoch + 2100))
      after_claim-IsSound claim-Handed_example.held claim-Handed_example.present refl refl refl refl

abbrev two_stats : QueueStats
two_stats = record {
  items = 2;
  bytes = 2;
  routine_items = 1;
  elevated_items = 0;
  critical_items = 1;
  leased_items = 0;
  oldest_frame = some (unix_epoch + 1000);
}
