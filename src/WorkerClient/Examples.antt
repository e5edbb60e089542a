-- ===== src/WorkerClient/Examples.antt =====
-- The theorems on internal/workerclient at small runs. `plain` seals nothing and keeps a time as the
-- one code point of its number.
use mossward.Common.{
  ℕ, ◌*◌, ◌≡◌, ◌≢◌, ◌<◌, ◌==◌, refl, subst, true, false, Option, some, none, List, [], ◌∷◌, arith,
  Text, codes, Time, ok, pos, if◌then◌else◌, byte_length, is_blank,
}
use mossward.WorkerClient.Outbox.{
  evidence, OutboxLimits, OutboxMessage, OutboxStats, Outbox, Sealing, Db, Round, enqueue,
  forward_pending, validate_outbox_message, outbox_aad, exists, total_size, new_row, no_room,
  enqueue_rows,
}
use mossward.WorkerClient.Outbox.Fifo.{IsOutbox, EnqueueView, enqueue-View}
use mossward.WorkerClient.Outbox.Forwarding.{
  Left, IsGood, forward_pending-Left, forward_pending_all,
}
use mossward.WorkerClient.Backpressure.{
  BackpressureState, default_backpressure_policy, Floats, ceil_div, InRange, elevated, backpressure,
  validate_backpressure_policy, maximum_percentage, rounded_up_percent,
}
use mossward.WorkerClient.Retry.{
  RetryScheduler, IsScheduler, exponential_delay, delay, double_delay, base_delay, Within,
  delay-Within,
}
use mossward.WorkerClient.ReplayLedger.{SignedWorkerJob, claim, has_job, same, claim_once}

abbrev read_time : Text → Option Time
read_time [] = none
read_time (t ∷ ts) = some t

abbrev plain : Sealing
plain = record {
  seal = λ nonce payload ad. payload;
  open_sealed = λ nonce ciphertext ad. some ciphertext;
  format_time = λ t. t ∷ [];
  parse_time = read_time;
  aad = λ id kind t. some [];
  open-seal = λ nonce payload ad. refl;
  parse-format = λ t. refl;
}

abbrev message : OutboxMessage
message = record { id = codes "m"; kind = evidence; payload = 7 ∷ []; created_at = 5 }

abbrev no_messages : Outbox
no_messages = record { limits = record { max_items = pos 2; max_bytes = pos 10 }; rows = [] }

abbrev up : Db
up c = true

abbrev nonce : Option (List ℕ)
nonce = some (1 ∷ [])

abbrev one_message : Outbox
one_message = record no_messages {
  rows =
      record {
        id = codes "m";
        kind = evidence;
        ciphertext = 7 ∷ [];
        nonce = 1 ∷ [];
        plaintext_size = 1;
        created_at = 5 ∷ [];
      }
      ∷ [];
}

no_messages-IsOutbox : IsOutbox plain no_messages []
unfolding total_size
no_messages-IsOutbox = record {
  contents = tt;
  distinct = tt;
  items = omega arith;
  bytes = omega arith;
  small = omega arith;
}

enqueues : enqueue plain up no_messages nonce message ≡ (one_message, ok tt)
unfolding enqueue enqueue_rows validate_outbox_message outbox_aad exists no_room total_size new_row
    byte_length is_blank
enqueues = refl

one_message-IsOutbox : IsOutbox plain one_message (message ∷ [])
one_message-IsOutbox =
    subst (EnqueueView plain no_messages [] message) enqueues
      (enqueue-View plain up no_messages nonce message [] no_messages-IsOutbox)

enqueue-View_example :
    EnqueueView plain no_messages [] message (enqueue plain up no_messages nonce message)
enqueue-View_example = enqueue-View plain up no_messages nonce message [] no_messages-IsOutbox

abbrev good : Round
good = record { is_cancelled = false; db = up; delivers = λ m. true }

abbrev good_rounds : ℕ → Round
good_rounds n = good

forward_pending-Left_example :
    (left : List OutboxMessage) × Left good_rounds 0
      (message ∷ [])
      (forward_pending plain good_rounds 3 one_message).1
      left
    × IsOutbox plain (forward_pending plain good_rounds 3 one_message).0 left
forward_pending-Left_example =
    forward_pending-Left plain good_rounds 3 one_message (message ∷ []) one_message-IsOutbox

good-IsGood : IsGood good
good-IsGood = record { runs = refl; up = λ c. refl; takes = λ m. refl }

forward_pending_all_example :
    let out = forward_pending plain good_rounds 3 one_message in
    (out.1 ≡ 1) × (out.2 ≡ none) × IsOutbox plain out.0 []
forward_pending_all_example =
    forward_pending_all plain good_rounds 3 one_message (message ∷ []) (λ n. good-IsGood)
      (omega arith) one_message-IsOutbox

abbrev exact : Floats
exact = record {
  ceil_percent = λ value maximum. ceil_div (value * 100) maximum;
  ceil_percent_exact = λ value maximum small positive small'. refl;
}

abbrev limits : OutboxLimits
limits = record { max_items = pos 10; max_bytes = pos 1000 }

abbrev eight_items : OutboxStats
eight_items = record { items = 8; bytes = 100 }

abbrev paused : BackpressureState
paused = record {
  pressure = elevated;
  usage_percent = 80;
  accept_new_jobs = false;
  forward_pending = true;
}

pauses : backpressure exact default_backpressure_policy limits eight_items ≡ ok paused
unfolding backpressure validate_backpressure_policy maximum_percentage rounded_up_percent
pauses = refl

eight_items-InRange : InRange limits eight_items
eight_items-InRange = record {
  items_positive = omega arith;
  items_small = omega arith;
  bytes_positive = omega arith;
  bytes_small = omega arith;
  few_items = omega arith;
  few_bytes = omega arith;
}

abbrev scheduler : RetryScheduler
scheduler = record { initial_delay = 1000; maximum_delay = 60_000; jitter_percent = 20 }

scheduler-IsScheduler : IsScheduler scheduler
scheduler-IsScheduler = record {
  positive = omega arith;
  ordered = omega arith;
  percent = omega arith;
}

-- A random source that always gives 0.
abbrev lowest : ℕ → Option ℕ
lowest bound = if bound == 0 then none else some 0

lowest_below : (bound r : ℕ) → lowest bound ≡ some r → r < bound
lowest_below bound r h = ground (arith, h)

delays : delay scheduler lowest (pos 4) (pos 0) ≡ ok (pos 8000)
unfolding delay exponential_delay double_delay
delays = refl

delay-Within_example : Within scheduler (base_delay scheduler 4 0) (pos 8000)
delay-Within_example =
    delay-Within scheduler lowest (pos 4) (pos 0) (pos 8000) scheduler-IsScheduler (omega arith)
      lowest_below delays

abbrev job : SignedWorkerJob
job = record {
  job_id = codes "j";
  worker_id = codes "w";
  expires_at = 9;
  key_id = codes "k";
  signature = codes "s";
}

abbrev no_digest : Text → List ℕ
no_digest t = []

claims_it : (claim no_digest (λ c. true) [] job 3).1 ≡ ok tt
unfolding claim has_job
claims_it = refl

claim_once_example :
    (claim no_digest (λ c. true) (claim no_digest (λ c. true) [] job 3).0 job 4).1 ≢ ok tt
claim_once_example =
    claim_once no_digest (λ c. true) (λ c. true) [] (claim no_digest (λ c. true) [] job 3).0 job job
      3 4 claims_it same refl
