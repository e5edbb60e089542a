-- ===== src/WorkerJobs/Moves.antt =====
-- The states of one job as a machine: what may happen to its row at an instant `now`, in a transaction
-- that presents `token` or none. The well-formed rows, which the machine keeps.
use mossward.Common.{
  ◌/◌, ◌≤◌, ◌<◌, ◌≡◌, refl, sym, ap, text_eq_iff, text_eq_refl, ◌∙◌, subst, Bool, true, false, not,
  Option, none, some, List, arith, Text, Time,
}
use mossward.WorkerJobs.Stamp.{stamp_less, stamp_less_irrefl, stamp_less_within}
use mossward.WorkerJobs.Jobs.{
  WorkerJobStatus, pending, leased, canceled, expired, JobRow, DeadLetter, WorkerJob, is_pending,
  is_leased, lease_over, lease_runs, hash_is,
}
use mossward.WorkerJobs.Leases.{lease_row}
use mossward.WorkerJobs.Renewal.{holds_lease, renew_row}
use mossward.WorkerJobs.Quarantine.{is_dead, end_lease}
use mossward.WorkerJobs.Results.{Receipt, complete_row}
use mossward.WorkerJobs.Reassignment.{reassign_row}

abbrev pub is_live : WorkerJobStatus → Bool
is_live pending = true
is_live leased = true
is_live _ = false

-- A lease that runs, of a job that is still valid, and whose token is presented.
pub record Runs (now : Time) (token : Option Text) (r : JobRow) : Type 0 where
  pub hash : Text
  pub presented : token ≡ some hash
  pub held : r.lease_token_hash ≡ some hash
  pub under : is_leased r.status ≡ true
  pub lasting : lease_runs r.lease_expires_at now ≡ true
  pub valid : stamp_less now r.expires_at ≡ true

-- A lease that is over, of a job that is still valid, and that was leased less than three times.
pub record Over (now : Time) (r : JobRow) : Type 0 where
  pub under : is_leased r.status ≡ true
  pub over : lease_over r.lease_expires_at now ≡ true
  pub valid : stamp_less now r.expires_at ≡ true
  pub few : r.lease_attempt < 3

pub data Move (now : Time) (token : Option Text) : JobRow → JobRow → Type 0 where
  stays : {r : JobRow} → Move now token r r
  cancels :
      {r : JobRow}
      → is_leased r.status ≡ true
      → lease_over r.lease_expires_at now ≡ true
      → 3 ≤ r.lease_attempt
      → Move now token r (end_lease canceled r)
  times_out :
      {r : JobRow}
      → is_live r.status ≡ true
      → stamp_less now r.expires_at ≡ false
      → Move now token r (end_lease expired r)
  releases : {r : JobRow} → Over now r → Move now token r (end_lease pending r)
  hands_out :
      {r : JobRow} (hash : Text) (until : Time)
      → is_pending r.status ≡ true
      → stamp_less now r.expires_at ≡ true
      → Move now token r (lease_row hash until r)
  prolongs :
      {r : JobRow} (requested : Time) → Runs now token r → Move now token r (renew_row requested r)
  finishes :
      {r : JobRow} (receipt : Receipt)
      → Runs now token r
      → Move now token r (complete_row receipt r)
  moves_on :
      {r : JobRow} (j : WorkerJob) → j.id ≡ r.id → Over now r → Move now token r (reassign_row j r)
  chain : {r s t : JobRow} → Move now token r s → Move now token s t → Move now token r t

abbrev pub ends_within : Option Time → Time → Bool
ends_within none expires = true
ends_within (some t) expires = not (stamp_less expires t)

-- The end of a lease is not in a later second than the end of the job.
abbrev pub EndsBy : Option Time → Time → Type 0
EndsBy none expires = Unit {0}
EndsBy (some t) expires = t / 1_000_000_000 ≤ expires / 1_000_000_000

pub ends_within-EndsBy :
    (l : Option Time) (expires : Time) → ends_within l expires ≡ true → EndsBy l expires
unfolding stamp_less
ends_within-EndsBy none expires h = tt
ends_within-EndsBy (some t) expires h = ground (arith, h)

pub record RowSound (ds : List DeadLetter) (r : JobRow) : Type 0 where
  pub own_job : r.job.id ≡ r.id
  pub attempts : r.lease_attempt ≤ 3
  pub waiting : is_pending r.status ≡ true → r.lease_attempt < 3
  pub within : ends_within r.lease_expires_at r.expires_at ≡ true
  pub unleased : is_leased r.status ≡ false → r.lease_expires_at ≡ none
  pub buried : is_dead r.id ds ≡ true → is_live r.status ≡ false

-- A job that has ended stays as it is.
pub Move-ended :
    {now : Time} {token : Option Text} {r s : JobRow}
    → is_live r.status ≡ false
    → Move now token r s
    → s ≡ r
Move-ended e stays = refl
Move-ended e (cancels a b c) = ground arith
Move-ended e (times_out a b) = ground arith
Move-ended e (releases a) = ground arith
Move-ended e (hands_out hash until a b) = ground arith
Move-ended e (prolongs requested a) = ground arith
Move-ended e (finishes receipt a) = ground arith
Move-ended e (moves_on j a b) = ground arith
Move-ended e (chain a b) =
    let p = Move-ended e a in Move-ended (subst (λ q. is_live q.status ≡ false) (sym p) e) b ∙ p

abbrev pub presents : Option Text → Option Text → Bool
presents held none = false
presents held (some h) = hash_is held h

lease_within :
    (now : Time) (l : Option Time) (expires : Time)
    → lease_runs l now ≡ true
    → ends_within l expires ≡ true
    → stamp_less now expires ≡ true
lease_within now none e u w = ground arith
lease_within now (some t) e u w = stamp_less_within now t e u (ground arith)

hash_is-some : (o : Option Text) (h : Text) → hash_is o h ≡ true → o ≡ some h
hash_is-some none h e = ground arith
hash_is-some (some g) h e = ap some ((text_eq_iff g h).0 e)

-- What the condition of a renewal or a completion says.
pub holds_lease-Runs :
    (worker hash : Text) (now : Time) (r : JobRow)
    → holds_lease worker hash now r ≡ true
    → Runs now (some hash) r
holds_lease-Runs worker hash now r e = record {
  hash = hash;
  presented = refl;
  held = hash_is-some r.lease_token_hash hash (ground (arith, e));
  under = ground (arith, e);
  lasting = ground (arith, e);
  valid = ground (arith, e);
}

-- A lease that runs, and that the token is not for.
pub record Held (now : Time) (token : Option Text) (r : JobRow) : Type 0 where
  pub under : is_leased r.status ≡ true
  pub runs : lease_runs r.lease_expires_at now ≡ true
  pub within : ends_within r.lease_expires_at r.expires_at ≡ true
  pub foreign : presents r.lease_token_hash token ≡ false

pub Move-Held :
    {now : Time} {token : Option Text} {r s : JobRow}
    → Held now token r
    → Move now token r s
    → s ≡ r
Move-Held h stays = refl
Move-Held h (cancels a b c) = ground arith
Move-Held {now} h (times_out {r} a b) =
    ground (arith, lease_within now r.lease_expires_at r.expires_at h.runs h.within)
Move-Held h (releases a) = ground arith
Move-Held h (hands_out hash until a b) = ground arith
Move-Held h (prolongs {r} requested a) = ground (arith, a.presented, a.held, text_eq_refl a.hash)
Move-Held h (finishes {r} receipt a) = ground (arith, a.presented, a.held, text_eq_refl a.hash)
Move-Held h (moves_on j a b) = ground arith
Move-Held {now} {token} h (chain a b) =
    let p = Move-Held h a in Move-Held (subst (Held now token) (sym p) h) b ∙ p

pub RowSound-Move :
    {now : Time} {token : Option Text} {ds : List DeadLetter} {r s : JobRow}
    → RowSound ds r
    → Move now token r s
    → RowSound ds s
RowSound-Move h stays = h
RowSound-Move h (cancels a b c) = ground arith
RowSound-Move h (times_out a b) = ground arith
RowSound-Move h (releases a) = ground arith
RowSound-Move {r} h (hands_out hash until a b) = ground (arith, stamp_less_irrefl r.expires_at)
RowSound-Move {r} h (prolongs requested a) = ground (arith, stamp_less_irrefl r.expires_at)
RowSound-Move h (finishes receipt a) = ground arith
RowSound-Move h (moves_on j a b) = ground arith
RowSound-Move h (chain a b) = RowSound-Move (RowSound-Move h a) b
