-- ===== src/WorkerJobs/Scope.antt =====
-- internal/workerjob/validate.go: what a job that passes validation may reach.
use mossward.Common.{
  ℕ, zero, suc, ◌+◌, ◌*◌, ◌<◌, ◌≤◌, ◌≡◌, ◌≢◌, true, some, List, [], ◌∷◌, arith, Text, text_eq, Time,
  inl, inr, Bool-cases, Option-cases, ok, Result-cases, All, length, ℤ, pos, ltb_ℤ, leb_ℤ,
}
use mossward.WorkerJobs.Jobs.{WorkerJob}
use mossward.WorkerJobs.Validation.{
  Addresses, ScannerWorker, validate_job, validate_job_targets, parse_prefixes, check_targets,
  address_allowed, validate_job_ports, check_ports, has_port, validate_job_resources, is_active,
  validate_job_capabilities, check_capabilities, has_text,
}

-- One of the networks holds the address.
pub data Covers {A P : Type 0} (net : Addresses A P) (a : A) : List Text → Type 0 where
  covers_here :
      {c : Text} {cs : List Text} (p : P)
      → net.parse_prefix c ≡ some p
      → net.contains p a ≡ true
      → Covers net a (c ∷ cs)
  covers_there : {c : Text} {cs : List Text} → Covers net a cs → Covers net a (c ∷ cs)

abbrev pub Reachable : {A P : Type 0} → Addresses A P → List Text → Text → Type 0
Reachable {A} net allowed t = (a : A) × (net.parse_addr t ≡ some a) × Covers net a allowed

-- A job inside the scope of a worker.
pub record InScope {A P : Type 0} (net : Addresses A P) (j : WorkerJob) (w : ScannerWorker)
    (now : Time) : Type 0 where
  pub targets : All (Reachable net w.allowed_cidrs) j.targets
  pub ports : All (λ p. has_port w.allowed_ports p ≡ true) j.ports
  pub capable : All (λ c. has_text w.capabilities c ≡ true) j.required_capabilities
  pub some_checks : length j.targets * length j.ports ≢ 0
  pub concurrency : leb_ℤ j.max_concurrent w.max_concurrent ≡ true
  pub rate :
      ltb_ℤ (pos 0) w.rate_limit_per_second ≡ true
      → (ltb_ℤ (pos 0) j.rate_limit_per_second ≡ true)
        × (leb_ℤ j.rate_limit_per_second w.rate_limit_per_second ≡ true)
  pub period : (now < j.expires_at) × (j.expires_at ≤ j.issued_at + 86_400_000_000_000)
  pub worker :
      (is_active w.status ≡ true) × (now < w.expires_at) × (text_eq j.worker_id w.id ≡ true)

module _ {A P : Type 0} (net : Addresses A P) where
  address_allowed-Covers :
      (a : A) (allowed : List Text) (ps : List P)
      → parse_prefixes net allowed ≡ ok ps
      → address_allowed net a ps ≡ true
      → Covers net a allowed
  unfolding parse_prefixes address_allowed
  address_allowed-Covers a [] ps e h = ground (arith, e, h)
  address_allowed-Covers a (c ∷ cs) ps e h = elim (Option-cases (net.parse_prefix c)) [
    | inl n ↦ ground (arith, n)
    | inr (p, f) ↦ elim (Result-cases (parse_prefixes net cs)) [
      | inr (x, g) ↦ ground (arith, f, g)
      | inl (qs, g) ↦ elim (Bool-cases (net.contains p a)) [
        | inl b ↦ covers_here p f b
        | inr b ↦ covers_there (address_allowed-Covers a cs qs g (ground (arith, f, g, b)))
      ]
    ]
  ]

  check_targets-Reachable :
      (allowed : List Text) (ps : List P) (seen : List A) (ts : List Text)
      → parse_prefixes net allowed ≡ ok ps
      → check_targets net ps seen ts ≡ ok tt
      → All (Reachable net allowed) ts
  unfolding check_targets
  check_targets-Reachable allowed ps seen [] e h = tt
  check_targets-Reachable allowed ps seen (t ∷ ts) e h = elim (Option-cases (net.parse_addr t)) [
    | inl n ↦ ground (arith, n)
    | inr (a, f) ↦ (
      (a, f, address_allowed-Covers a allowed ps e (ground (arith, f))),
      check_targets-Reachable allowed ps (a ∷ seen) ts e (ground (arith, f)),
    )
  ]

  validate_job_targets-Reachable :
      (ts allowed : List Text)
      → validate_job_targets net ts allowed ≡ ok tt
      → All (Reachable net allowed) ts × (length ts ≢ 0)
  unfolding validate_job_targets
  validate_job_targets-Reachable ts allowed h = elim (Result-cases (parse_prefixes net allowed)) [
    | inr (x, g) ↦ ground (arith, g)
    | inl (ps, g) ↦ (check_targets-Reachable allowed ps [] ts g (ground (arith, g)), ground arith)
  ]

check_ports-allowed :
    (allowed seen ps : List ℤ)
    → check_ports allowed seen ps ≡ ok tt
    → All (λ p. has_port allowed p ≡ true) ps
unfolding check_ports
check_ports-allowed allowed seen [] h = tt
check_ports-allowed allowed seen (p ∷ ps) h =
    (ground arith, check_ports-allowed allowed (p ∷ seen) ps (ground arith))

check_capabilities-reported :
    (reported seen cs : List Text)
    → check_capabilities reported seen cs ≡ ok tt
    → All (λ c. has_text reported c ≡ true) cs
unfolding check_capabilities
check_capabilities-reported reported seen [] h = tt
check_capabilities-reported reported seen (c ∷ cs) h =
    (ground arith, check_capabilities-reported reported (c ∷ seen) cs (ground arith))

product_nonzero : (m n : ℕ) → m ≢ 0 → n ≢ 0 → m * n ≢ 0
product_nonzero zero n h k = ground arith
product_nonzero (suc m) zero h k = ground arith
product_nonzero (suc m) (suc n) h k = ground arith

validate_job_ports-allowed :
    (ps allowed : List ℤ)
    → validate_job_ports ps allowed ≡ ok tt
    → All (λ p. has_port allowed p ≡ true) ps × (length ps ≢ 0)
unfolding validate_job_ports
validate_job_ports-allowed ps allowed h =
    (check_ports-allowed allowed [] ps (ground arith), ground arith)

validate_job_capabilities-reported :
    (cs reported : List Text)
    → validate_job_capabilities cs reported ≡ ok tt
    → All (λ c. has_text reported c ≡ true) cs
unfolding validate_job_capabilities
validate_job_capabilities-reported cs reported h =
    check_capabilities-reported reported [] cs (ground arith)

module _ {A P : Type 0} (net : Addresses A P) where
  record Passed (j : WorkerJob) (w : ScannerWorker) (now : Time) : Type 0 where
    resources : validate_job_resources j w ≡ ok tt
    targets : validate_job_targets net j.targets w.allowed_cidrs ≡ ok tt
    ports : validate_job_ports j.ports w.allowed_ports ≡ ok tt
    capabilities : validate_job_capabilities j.required_capabilities w.capabilities ≡ ok tt
    period : (now < j.expires_at) × (j.expires_at ≤ j.issued_at + 86_400_000_000_000)
    worker : (is_active w.status ≡ true) × (now < w.expires_at) × (text_eq j.worker_id w.id ≡ true)

  validate_job-Passed :
      (j : WorkerJob) (w : ScannerWorker) (now : Time)
      → validate_job net j w now ≡ ok tt
      → Passed j w now
  unfolding validate_job
  validate_job-Passed j w now e = ground arith

  -- A job that passes the validation for a worker is inside the worker's scope: each target is an address
  -- that a network of the worker holds, each port and capability is one of the worker's, there is a check
  -- to make, the concurrency and the rate are within the worker's limits, the job has not ended and lasts
  -- a day at most, and it is for this worker, which is active and has not expired.
  pub validate_job-InScope :
      (j : WorkerJob) (w : ScannerWorker) (now : Time)
      → validate_job net j w now ≡ ok tt
      → InScope net j w now
  unfolding validate_job_resources
  validate_job-InScope j w now e =
      let p = validate_job-Passed j w now e in
      let (t, n) = validate_job_targets-Reachable net j.targets w.allowed_cidrs p.targets in
      let (q, m) = validate_job_ports-allowed j.ports w.allowed_ports p.ports in
      record {
        targets = t;
        ports = q;
        capable =
            validate_job_capabilities-reported j.required_capabilities w.capabilities
              p.capabilities;
        some_checks = product_nonzero (length j.targets) (length j.ports) n m;
        concurrency = ground (arith, p.resources);
        rate = λ r. (ground (arith, p.resources), ground (arith, p.resources));
        period = p.period;
        worker = p.worker;
      }
