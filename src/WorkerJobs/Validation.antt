-- ===== src/WorkerJobs/Validation.antt =====
-- internal/workerjob/validate.go: whether a job is inside the scope of its worker. net/netip is the
-- record `Addresses`.
use mossward.Common.{
  ℕ, ◌+◌, ◌-◌, ◌%◌, ◌≡◌, ◌↔◌, Bool, true, false, ◌||◌, ◌&&◌, not, Option, none, some, List, [], ◌∷◌,
  ltb, leb, ◌==◌, if◌then◌else◌, length, Text, text_eq, is_empty, byte_length, Time, is_zero,
  after_add, Result, ok, err, ◌>>=◌, ◌>>◌, reject_if, ℤ, pos, negsuc, ltb_ℤ, eq_ℤ,
}
use mossward.WorkerJobs.Jobs.{WorkerJob, WorkerJobResume, WorkerCheckpoint, is_pending}

pub record Addresses (A P : Type 0) : Type 0 where
  pub parse_addr : Text → Option A
  pub same_addr : A → A → Bool
  pub parse_prefix : Text → Option P
  pub contains : P → A → Bool
  pub same_addr_iff : (a b : A) → (same_addr a b ≡ true) ↔ (a ≡ b)

pub data EndpointStatus : Type 0 where
  active revoked : EndpointStatus
  other_status : Text → EndpointStatus

pub data WorkerHealth : Type 0 where
  healthy degraded : WorkerHealth
  other_health : Text → WorkerHealth

-- The fields that the package reads.
pub record ScannerWorker : Type 0 where
  pub id : Text
  pub site_id : Text
  pub status : EndpointStatus
  pub allowed_cidrs : List Text
  pub allowed_ports : List ℤ
  pub max_concurrent : ℤ
  pub rate_limit_per_second : ℤ
  pub expires_at : Time
  pub last_seen_at : Option Time
  pub capabilities : List Text
  pub available_concurrency : ℤ
  pub health : WorkerHealth
  pub dispatch_enabled : Bool

pub data JobError : Type 0 where
  bad_schema bad_identity bad_site bad_period not_active bad_concurrency bad_rate rate_exceeds :
      JobError
  no_target bad_network bad_target no_port bad_port bad_resume bad_checkpoint twice_checked :
      JobError
  no_capability bad_capability : JobError

abbrev pub is_active : EndpointStatus → Bool
is_active active = true
is_active _ = false

abbrev pub is_healthy : WorkerHealth → Bool
is_healthy healthy = true
is_healthy _ = false

-- `^[a-z0-9]+(?:-[a-z0-9]+)*$`; `start` says that no character of the present group was read.
unfoldable pub site_groups : Bool → Text → Bool
site_groups start [] = not start
site_groups start (c ∷ cs) =
    let next = site_groups (c == b'-') cs in
    if c == b'-'
    then not start && next
    else ((leb b'a' c && leb c b'z') || (leb b'0' c && leb c b'9')) && next

abbrev pub out_of_limit : Text → Bool
out_of_limit id = is_empty id || ltb 200 (byte_length id)

unfoldable pub valid_job_identities : WorkerJob → Bool
valid_job_identities j =
    not (out_of_limit j.id)
    && not (out_of_limit j.worker_id)
    && not (out_of_limit j.scan_id)
    && not (ltb 64 (byte_length j.site_id))

unfoldable pub validate_job_resources : WorkerJob → ScannerWorker → Result JobError (Unit {0})
validate_job_resources j w = do
  reject_if (ltb_ℤ j.max_concurrent (pos 1) || ltb_ℤ w.max_concurrent j.max_concurrent)
      bad_concurrency
  reject_if (ltb_ℤ j.rate_limit_per_second (pos 0) || ltb_ℤ (pos 1000) j.rate_limit_per_second)
      bad_rate
  reject_if
      (ltb_ℤ (pos 0) w.rate_limit_per_second
        && (eq_ℤ j.rate_limit_per_second (pos 0)
            || ltb_ℤ w.rate_limit_per_second j.rate_limit_per_second))
      rate_exceeds

abbrev pub or_job_error {ℓ} : {A : Type ℓ} → Option A → JobError → Result JobError A
or_job_error none e = err e
or_job_error (some a) e = ok a

module _ {A P : Type 0} (net : Addresses A P) where
  unfoldable pub parse_prefixes : List Text → Result JobError (List P)
  parse_prefixes [] = ok []
  parse_prefixes (t ∷ ts) = do
    p ← or_job_error (net.parse_prefix t) bad_network
    ps ← parse_prefixes ts
    ok (p ∷ ps)

  unfoldable pub address_allowed : A → List P → Bool
  address_allowed a [] = false
  address_allowed a (p ∷ ps) = net.contains p a || address_allowed a ps

  -- A map of addresses to true, as the list of its keys.
  unfoldable pub has_addr : List A → A → Bool
  has_addr [] a = false
  has_addr (b ∷ bs) a = net.same_addr b a || has_addr bs a

  unfoldable pub check_targets : List P → List A → List Text → Result JobError (Unit {0})
  check_targets prefixes seen [] = ok tt
  check_targets prefixes seen (t ∷ ts) = do
    a ← or_job_error (net.parse_addr t) bad_target
    reject_if (has_addr seen a || not (address_allowed a prefixes)) bad_target
    check_targets prefixes (a ∷ seen) ts

  unfoldable pub validate_job_targets : List Text → List Text → Result JobError (Unit {0})
  validate_job_targets targets allowed = do
    reject_if (length targets == 0) no_target
    prefixes ← parse_prefixes allowed
    check_targets prefixes [] targets

unfoldable pub has_port : List ℤ → ℤ → Bool
has_port [] p = false
has_port (q ∷ qs) p = eq_ℤ q p || has_port qs p

unfoldable pub check_ports : List ℤ → List ℤ → List ℤ → Result JobError (Unit {0})
check_ports allowed seen [] = ok tt
check_ports allowed seen (p ∷ ps) = do
  reject_if (not (has_port allowed p) || has_port seen p) bad_port
  check_ports allowed (p ∷ seen) ps

unfoldable pub validate_job_ports : List ℤ → List ℤ → Result JobError (Unit {0})
validate_job_ports ports allowed = do
  reject_if (length ports == 0) no_port
  check_ports allowed [] ports

unfoldable pub has_text : List Text → Text → Bool
has_text [] t = false
has_text (s ∷ ss) t = text_eq s t || has_text ss t

unfoldable pub check_capabilities : List Text → List Text → List Text → Result JobError (Unit {0})
check_capabilities reported seen [] = ok tt
check_capabilities reported seen (c ∷ cs) = do
  reject_if (not (has_text reported c) || has_text seen c) bad_capability
  check_capabilities reported (c ∷ seen) cs

unfoldable pub validate_job_capabilities : List Text → List Text → Result JobError (Unit {0})
validate_job_capabilities required reported = do
  reject_if (length required == 0) no_capability
  check_capabilities reported [] required

-- `uint16(port)`
abbrev pub uint16 : ℤ → ℕ
uint16 (pos n) = n % 65536
uint16 (negsuc n) = 65535 - n % 65536

module _ {A P : Type 0} (net : Addresses A P) where
  -- The map of targets; an address that does not parse is the zero Addr, `none`.
  abbrev pub same_parsed : Option A → Option A → Bool
  same_parsed none none = true
  same_parsed (some a) (some b) = net.same_addr a b
  same_parsed _ _ = false

  unfoldable pub is_target : List Text → A → Bool
  is_target [] a = false
  is_target (t ∷ ts) a = same_parsed (net.parse_addr t) (some a) || is_target ts a

  unfoldable pub was_checked : List (A × ℕ) → A → ℕ → Bool
  was_checked [] a p = false
  was_checked ((b, q) ∷ ks) a p = (net.same_addr b a && q == p) || was_checked ks a p

  unfoldable pub check_completed :
      List Text → List ℤ → List (A × ℕ) → List WorkerCheckpoint → Result JobError (Unit {0})
  check_completed targets ports seen [] = ok tt
  check_completed targets ports seen (c ∷ cs) = do
    a ← or_job_error (net.parse_addr c.address) bad_checkpoint
    reject_if (not (is_target targets a) || not (has_port ports c.port) || is_zero c.completed_at)
        bad_checkpoint
    reject_if (was_checked seen a (uint16 c.port)) twice_checked
    check_completed targets ports ((a, uint16 c.port) ∷ seen) cs

  abbrev pub check_resume : WorkerJob → Option WorkerJobResume → Result JobError (Unit {0})
  check_resume j none = ok tt
  check_resume j (some r) = do
    reject_if
        (is_empty r.previous_worker_id
          || text_eq r.previous_worker_id j.worker_id
          || r.next_evidence_sequence == 0)
        bad_resume
    check_completed j.targets j.ports [] r.completed

  -- Validate
  unfoldable pub validate_job : WorkerJob → ScannerWorker → Time → Result JobError (Unit {0})
  unfolding site_groups valid_job_identities validate_job_resources validate_job_targets
      validate_job_ports validate_job_capabilities check_completed
  validate_job j w now = do
    reject_if (not (eq_ℤ j.schema_version (pos 1)) || not (is_pending j.status)) bad_schema
    reject_if (not (valid_job_identities j) || not (text_eq j.worker_id w.id)) bad_identity
    reject_if
        (not (is_empty j.site_id)
          && (not (text_eq j.site_id w.site_id) || not (site_groups true j.site_id)))
        bad_site
    reject_if
        (after_add j.issued_at now (pos 60_000_000_000)
          || leb j.expires_at now
          || leb j.expires_at j.issued_at
          || ltb (j.issued_at + 86_400_000_000_000) j.expires_at)
        bad_period
    reject_if (not (is_active w.status) || leb w.expires_at now) not_active
    validate_job_resources j w
    validate_job_targets net j.targets w.allowed_cidrs
    validate_job_ports j.ports w.allowed_ports
    check_resume j j.resume
    validate_job_capabilities j.required_capabilities w.capabilities
