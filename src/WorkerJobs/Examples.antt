-- ===== src/WorkerJobs/Examples.antt =====
-- A history of one job, from its dispatch to its result, and what its operations answer.
use mossward.Common.{
  ℕ, ◌*◌, ◌≡◌, refl, true, false, none, some, List, [], ◌∷◌, ◌++◌, Text, codes, text_eq,
  text_eq_iff, text_less, Time, ok, pos, byte_length,
}
use mossward.WorkerJobs.Stamp.{stamp_less, fraction, fraction_digits}
use mossward.WorkerJobs.Jobs.{
  WorkerJob, JobRow, Calls, pending, succeeded, find_job, update_job, update_jobs,
}
use mossward.WorkerJobs.Leases.{
  create_job, create_rows, new_job, lease, lease_rows, maintained, expire_outlived, release_lapsed,
  oldest_pending, lease_row, waits,
}
use mossward.WorkerJobs.Quarantine.{
  quarantine_repeated_jobs, bury, is_dead, buried_scan, fail_buried,
}
use mossward.WorkerJobs.Evidence.{
  EvidenceBatch, record_evidence, evidence_rows, validate_evidence_sequence, record_checkpoints,
  find_batch, last_batch, has_checkpoint,
}
use mossward.WorkerJobs.Results.{
  Receipt, complete, completed_jobs, checkpoints_complete, checkpoint_count, find_result, has_final,
  complete_row,
}
use mossward.WorkerJobs.Validation.{
  Addresses, ScannerWorker, active, healthy, validate_job, site_groups, valid_job_identities,
  validate_job_resources, parse_prefixes, address_allowed, has_addr, check_targets,
  validate_job_targets, has_port, check_ports, validate_job_ports, has_text, check_capabilities,
  validate_job_capabilities,
}
use mossward.WorkerJobs.Dispatch.{
  Fleet, dispatch, job_for_worker, job_load, available_for_assignment, is_candidate, select_from,
  assign,
}
use mossward.WorkerJobs.History.{Op, dispatches, leases, records_evidence, completes, apply, run}
use mossward.WorkerJobs.Refinement.{history}
mod Theorems

-- Addresses as their texts, each network of one address.
abbrev plain_net : Addresses Text Text
plain_net = record {
  parse_addr = λ t. some t;
  same_addr = λ a b. text_eq a b;
  parse_prefix = λ t. some t;
  contains = λ p a. text_eq p a;
  same_addr_iff = text_eq_iff;
}

abbrev at_second : ℕ → Time
at_second n = n * 1_000_000_000

abbrev all_fine : Calls
all_fine c = true

abbrev host : Text
host = codes "10.0.0.1"

abbrev one_worker : ScannerWorker
one_worker = record {
  id = codes "w";
  site_id = [];
  status = active;
  allowed_cidrs = host ∷ [];
  allowed_ports = pos 80 ∷ [];
  max_concurrent = pos 4;
  rate_limit_per_second = pos 0;
  expires_at = at_second 9000;
  last_seen_at = some (at_second 10);
  capabilities = codes "tcp" ∷ [];
  available_concurrency = pos 4;
  health = healthy;
  dispatch_enabled = true;
}

abbrev one_job : WorkerJob
one_job = record {
  schema_version = pos 1;
  id = codes "j";
  worker_id = [];
  scan_id = codes "s";
  site_id = [];
  issued_at = at_second 9;
  expires_at = at_second 500;
  targets = host ∷ [];
  ports = pos 80 ∷ [];
  max_concurrent = pos 1;
  rate_limit_per_second = pos 5;
  required_capabilities = codes "tcp" ∷ [];
  resume = none;
  status = pending;
}

abbrev one_fleet : Fleet
one_fleet = record {
  settings = some true;
  workers = some (one_worker ∷ []);
  reads_loads = true;
  signs = λ j. true;
}

abbrev given_job : WorkerJob
given_job = job_for_worker one_job one_worker

abbrev token : Text
token = codes "h"

abbrev dispatched : List Op
dispatched = dispatches all_fine one_fleet one_job (at_second 10) ∷ []

abbrev leased_once : List Op
leased_once =
    dispatched ++ leases all_fine true (codes "w") token (at_second 11) (at_second 20) ∷ []

abbrev last_evidence : EvidenceBatch
last_evidence = record {
  id = codes "b";
  job_id = codes "j";
  worker_id = codes "w";
  scan_id = codes "s";
  sequence = 1;
  final = true;
  checkpoints = record { address = host; port = pos 80; completed_at = at_second 12 } ∷ [];
  encoded = codes "e";
}

abbrev with_evidence : List Op
with_evidence = leased_once ++ records_evidence all_fine last_evidence (at_second 12) ∷ []

abbrev one_receipt : Receipt
one_receipt = record {
  result_id = codes "r";
  job_id = codes "j";
  worker_id = codes "w";
  outcome = succeeded;
  completed_at = at_second 13;
}

abbrev finished : List Op
finished = with_evidence ++ completes all_fine one_receipt token (at_second 13) ∷ []

abbrev waiting_row : JobRow
waiting_row = new_job given_job (at_second 10)

abbrev leased_row : JobRow
leased_row = lease_row token (at_second 20) waiting_row

given_job_valid : validate_job plain_net given_job one_worker (at_second 10) ≡ ok tt
unfolding validate_job text_eq byte_length site_groups valid_job_identities validate_job_resources
    parse_prefixes address_allowed has_addr check_targets validate_job_targets has_port check_ports
    validate_job_ports has_text check_capabilities validate_job_capabilities
given_job_valid = refl

found_waiting : find_job (codes "j") (history plain_net dispatched).jobs ≡ some waiting_row
unfolding run apply dispatch assign select_from is_candidate available_for_assignment job_load
    create_job create_rows find_job new_job validate_job text_eq byte_length site_groups
    valid_job_identities validate_job_resources parse_prefixes address_allowed has_addr
    check_targets validate_job_targets has_port check_ports validate_job_ports has_text
    check_capabilities validate_job_capabilities
found_waiting = refl

waits_now : waits (codes "w") (at_second 11) waiting_row ≡ true
unfolding new_job text_eq stamp_less text_less fraction fraction_digits
waits_now = refl

found_leased : find_job (codes "j") (history plain_net leased_once).jobs ≡ some leased_row
unfolding run apply dispatch assign select_from is_candidate available_for_assignment job_load
    create_job create_rows find_job new_job validate_job text_eq byte_length site_groups
    valid_job_identities validate_job_resources parse_prefixes address_allowed has_addr
    check_targets validate_job_targets has_port check_ports validate_job_ports has_text
    check_capabilities validate_job_capabilities lease lease_rows maintained
    quarantine_repeated_jobs bury is_dead buried_scan fail_buried update_jobs update_job
    expire_outlived release_lapsed oldest_pending stamp_less text_less fraction fraction_digits
found_leased = refl

completed_ok :
    (complete all_fine (history plain_net with_evidence) one_receipt token (at_second 13)).1 ≡ ok tt
unfolding run apply dispatch assign select_from is_candidate available_for_assignment job_load
    create_job create_rows find_job new_job validate_job text_eq byte_length site_groups
    valid_job_identities validate_job_resources parse_prefixes address_allowed has_addr
    check_targets validate_job_targets has_port check_ports validate_job_ports has_text
    check_capabilities validate_job_capabilities lease lease_rows maintained
    quarantine_repeated_jobs bury is_dead buried_scan fail_buried update_jobs update_job
    expire_outlived release_lapsed oldest_pending stamp_less text_less fraction fraction_digits
    record_evidence evidence_rows validate_evidence_sequence record_checkpoints find_batch
    last_batch has_checkpoint complete completed_jobs checkpoints_complete checkpoint_count
    find_result has_final
completed_ok = refl

found_completed :
    find_job (codes "j") (history plain_net finished).jobs
    ≡ some (complete_row one_receipt leased_row)
unfolding run apply dispatch assign select_from is_candidate available_for_assignment job_load
    create_job create_rows find_job new_job validate_job text_eq byte_length site_groups
    valid_job_identities validate_job_resources parse_prefixes address_allowed has_addr
    check_targets validate_job_targets has_port check_ports validate_job_ports has_text
    check_capabilities validate_job_capabilities lease lease_rows maintained
    quarantine_repeated_jobs bury is_dead buried_scan fail_buried update_jobs update_job
    expire_outlived release_lapsed oldest_pending stamp_less text_less fraction fraction_digits
    record_evidence evidence_rows validate_evidence_sequence record_checkpoints find_batch
    last_batch has_checkpoint complete completed_jobs checkpoints_complete checkpoint_count
    find_result has_final
found_completed = refl

answers_none :
    (lease all_fine false
      (history plain_net leased_once)
      (codes "w")
      token
      (at_second 21)
      (at_second 30)).1
    ≡ ok none
unfolding lease lease_rows
answers_none = refl
