-- ===== src/AgentUpdate/Confirmation.antt =====
-- internal/agentupdate/transaction.go: ConfirmHealthy commits in time, or leaves a rollback due.
use mossward.Common.{
  ◌≡◌, ◌≤◌, ◌↔◌, refl, Bool, true, false, arith, inl, inr, Text, text_eq, Time, before,
  Result-cases, ok, err, subst, ◌≢◌,
}
use mossward.AgentUpdate.Transaction.{
  committed, rollback_required, Transaction, missed_deadline, Files, Stored, validate,
  requires_rollback, read_content, load_transaction, content, maximum_transaction_bytes,
  save_transaction, confirm_healthy, is_awaiting,
}

-- The states that ConfirmHealthy writes keep a transaction valid.
validate-committed :
    {J : Type 0} (files : Files J) (t : Transaction)
    → validate files t ≡ ok tt
    → (validate files (record t { state = committed }) ≡ ok tt)
      × (validate files (record t { state = rollback_required }) ≡ ok tt)
unfolding validate
validate-committed files t h = (ground (arith, h), ground (arith, h))

load-valid :
    {J : Type 0} (files : Files J) (stored : Stored J) (t : Transaction)
    → load_transaction files stored ≡ ok t
    → validate files t ≡ ok tt
unfolding load_transaction
load-valid files stored t h = elim (Result-cases (read_content files stored)) [
  | inr (e, bad) ↦ absurd (ground (arith, bad, h))
  | inl (u, good) ↦ elim (Result-cases (validate files u)) [
    | inr (e, bad) ↦ absurd (ground (arith, good, bad, h))
    | inl (v, valid) ↦
        let same : u ≡ t = ground (arith, good, valid, h) in
        subst (λ x. validate files x ≡ ok tt) same valid
  ]
]

-- A transaction that was saved is the one that is loaded, where its text is within the limit.
save-load :
    {J : Type 0} (files : Files J) (stored : Stored J) (t : Transaction)
    → files.size (files.encode t) ≤ maximum_transaction_bytes
    → validate files t ≡ ok tt
    → (load_transaction files (save_transaction true files stored t).0 ≡ ok t)
      × ((save_transaction true files stored t).1 ≡ ok tt)
unfolding load_transaction save_transaction
save-load files stored t fits h = (
  rw (h, files.limit-whole maximum_transaction_bytes (files.encode t) fits, files.decode-encode t)
      (rw h refl),
  rw h refl,
)

save-content :
    {J : Type 0} (files : Files J) (stored : Stored J) (t : Transaction)
    → validate files t ≡ ok tt
    → save_transaction true files stored t ≡ (content (files.encode t), ok tt)
unfolding save_transaction
save-content files stored t h = rw h refl

save-fails :
    {J : Type 0} (files : Files J) (stored : Stored J) (t : Transaction)
    → validate files t ≡ ok tt
    → ((save_transaction false files stored t).0 ≡ stored)
      × ((save_transaction false files stored t).1 ≢ ok tt)
unfolding save_transaction
save-fails files stored t h = (rw h refl, λ e. ground (arith, h, e))

module _ {J : Type 0} (files : Files J) (stored : Stored J) (running : Text) (now : Time)
    (t : Transaction) (loads : load_transaction files stored ≡ ok t)
    (awaits : is_awaiting t.state ≡ true) where
  -- For an agent whose loaded transaction awaits its health, ConfirmHealthy succeeds exactly when the
  -- running version is the target, the deadline has not come, and the file can be written; then the
  -- file holds the encoded text of the transaction as committed.
  pub confirm_healthy_commits :
      (writes : Bool)
      → (((confirm_healthy writes files stored running now).1 ≡ ok tt) ↔ (
          (text_eq t.target_version running ≡ true)
          × (before now t.health_deadline ≡ true)
          × (writes ≡ true)))
        × ((confirm_healthy writes files stored running now).1 ≡ ok tt
            → (confirm_healthy writes files stored running now).0
              ≡ content (files.encode (record t { state = committed })))
  unfolding confirm_healthy
  confirm_healthy_commits true =
      let saved =
        save-content files stored (record t { state = committed })
          (validate-committed files t (load-valid files stored t loads)).0 in
      (
        (
          (λ e. (ground (arith, loads, awaits, e), ground (arith, loads, awaits, e), refl)),
          (λ h. ground (arith, loads, awaits, h, saved)),
        ),
        (λ e. ground (arith, loads, awaits, e, saved)),
      )
  confirm_healthy_commits false =
      let (kept, fails) =
        save-fails files stored (record t { state = committed })
          (validate-committed files t (load-valid files stored t loads)).0 in
      (
        (
          (λ e. absurd (ground (arith, loads, awaits, e, fails))),
          (λ h. absurd (ground (arith, h))),
        ),
        (λ e. absurd (ground (arith, loads, awaits, e, fails))),
      )

  -- For an agent whose loaded transaction awaits its health, when ConfirmHealthy succeeds and the
  -- text of the transaction as committed is within the limit on what is read, 16 KiB, the next load
  -- gives the transaction as committed, which never requires a rollback.
  pub confirm_healthy-load :
      (writes : Bool) (later : Time)
      → files.size (files.encode (record t { state = committed })) ≤ maximum_transaction_bytes
      → (confirm_healthy writes files stored running now).1 ≡ ok tt
      → (load_transaction files (confirm_healthy writes files stored running now).0
          ≡ ok (record t { state = committed }))
        × (requires_rollback (record t { state = committed }) later ≡ false)
  unfolding confirm_healthy requires_rollback
  confirm_healthy-load true later fits e =
      let (back, done) =
        save-load files stored (record t { state = committed }) fits
          (validate-committed files t (load-valid files stored t loads)).0 in
      (ground (arith, loads, awaits, e, back), refl)
  confirm_healthy-load false later fits e =
      let (kept, fails) =
        save-fails files stored (record t { state = committed })
          (validate-committed files t (load-valid files stored t loads)).0 in
      absurd (ground (arith, loads, awaits, e, fails))

  -- For an agent whose loaded transaction awaits its health, whose running version is the target, and
  -- whose transaction as one that requires a rollback has a text within the limit on what is read,
  -- 16 KiB: once the deadline has come, ConfirmHealthy reports that it was missed, and, whether or not the
  -- file can be written, the transaction that is loaded afterwards requires a rollback at that time
  -- and at every later one.
  pub confirm_healthy_missed :
      (writes : Bool) (later : Time)
      → files.size (files.encode (record t { state = rollback_required }))
        ≤ maximum_transaction_bytes
      → text_eq t.target_version running ≡ true
      → t.health_deadline ≤ now
      → now ≤ later
      → ((confirm_healthy writes files stored running now).1 ≡ err missed_deadline)
        × ((t' : Transaction) × (load_transaction files
                (confirm_healthy writes files stored running now).0
              ≡ ok t')
            × (requires_rollback t' later ≡ true))
  unfolding confirm_healthy requires_rollback
  confirm_healthy_missed true later fits same late after =
      let (back, done) =
        save-load files stored (record t { state = rollback_required }) fits
          (validate-committed files t (load-valid files stored t loads)).1 in
      (
        ground (arith, loads, awaits, same, late),
        (
          record t { state = rollback_required },
          ground (arith, loads, awaits, same, late, back),
          refl,
        ),
      )
  confirm_healthy_missed false later fits same late after =
      let (kept, fails) =
        save-fails files stored (record t { state = rollback_required })
          (validate-committed files t (load-valid files stored t loads)).1 in
      (
        ground (arith, loads, awaits, same, late),
        (t, ground (arith, loads, awaits, same, late, kept), ground (arith, awaits, late, after)),
      )
