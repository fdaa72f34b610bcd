-- ===== src/Platform/Bypass/Refused.antt =====
-- What a refused bypass request of src/worktree_review/platform/github/bypass.py leaves.
use worktree_review.Base.{
  String, Bool, true, false, Option, none, some, string_eq, option_eq, ◌≡◌, ◌≢◌, refl, arith,
}
use worktree_review.Base.Exec.{Result, ok, err}
use worktree_review.Core.Identity.{request_key_eq}
use worktree_review.Core.Report.{gate_state_eq}
use worktree_review.Platform.Bypass.{
  BypassRequest, BypassError, storage_unavailable, Snapshot, BypassHost,
}
use worktree_review.Platform.Bypass.Reason.{validate_bypass_reason}
use worktree_review.Platform.Bypass.Request.{
  checked_call, applied, apply_call, with_authority, with_snapshot, with_reason, request_bypass,
}
use worktree_review.Server.State.{
  BypassApplyResult, Store, Error, conflict, unsafe_payload, invalid_record, missing_key, Env,
}
use worktree_review.Server.State.Audit.{append_audit_event, record_audit_event}
use worktree_review.Server.State.Bypass.{BypassCall, apply_finding_bypass}
use worktree_review.Server.State.Bypass.Coverage.{conflict_writes_nothing}

-- The tables of the store are the same.
abbrev pub SameTables : Store → Store → Type 0
SameTables s t =
    (t.change_requests ≡ s.change_requests)
    × (t.attempts ≡ s.attempts)
    × (t.jobs ≡ s.jobs)
    × (t.bypasses ≡ s.bypasses)

abbrev Refuses : Store → Result BypassError BypassApplyResult × Store → Type 0
Refuses s (r, t) = (e : BypassError) → r ≡ err e → e ≢ storage_unavailable → SameTables s t

module _ (env : Env) (host : BypassHost) (request : BypassRequest) where
  applied-conflict :
      (call : BypassCall) (s : Store) (e : BypassError) (r : Result Error BypassApplyResult)
      → (apply_finding_bypass env call s).0 ≡ r
      → applied r ≡ err e
      → e ≢ storage_unavailable
      → (apply_finding_bypass env call s).1 ≡ s
  unfolding applied
  applied-conflict call s e (ok result) a h n = ground (arith, h)
  applied-conflict call s e (err (conflict c)) a h n = conflict_writes_nothing env call s c a
  applied-conflict call s e (err unsafe_payload) a h n = ground (arith, h, n)
  applied-conflict call s e (err invalid_record) a h n = ground (arith, h, n)
  applied-conflict call s e (err missing_key) a h n = ground (arith, h, n)

  apply_call-Refuses :
      (answer : Result String BypassCall) (s : Store)
      → Refuses s (apply_call env host request answer s)
  unfolding apply_call
  apply_call-Refuses (err refusal) s e h n = (refl, refl, refl, refl)
  apply_call-Refuses (ok call) s e h n =
      let same = applied-conflict call s e (apply_finding_bypass env call s).0 refl h n in
      rw (same) (refl, refl, refl, refl)

  with_authority-Refuses :
      (reason : String) (snapshot : Snapshot) (answer : Result String Bool) (s : Store)
      → Refuses s (with_authority env host request reason snapshot answer s)
  unfolding with_authority append_audit_event record_audit_event
  with_authority-Refuses reason snapshot (err failure) s e h n = (refl, refl, refl, refl)
  with_authority-Refuses reason snapshot (ok false) s e h n =
      (ground arith, ground arith, ground arith, ground arith)
  with_authority-Refuses reason snapshot (ok true) s e h n =
      apply_call-Refuses (checked_call host request reason snapshot s) s e h n

  with_snapshot-Refuses :
      (reason : String) (answer : Option Snapshot) (s : Store)
      → Refuses s (with_snapshot env host request reason answer s)
  unfolding with_snapshot
  with_snapshot-Refuses reason none s e h n = (refl, refl, refl, refl)
  with_snapshot-Refuses reason (some snapshot) s e h n =
      with_authority-Refuses reason snapshot
        (host.may_bypass snapshot.change_request request.actor_login) s e h n

  with_reason-Refuses :
      (answer : Result String String) (s : Store)
      → Refuses s (with_reason env host request answer s)
  unfolding with_reason
  with_reason-Refuses (err refusal) s e h n = (refl, refl, refl, refl)
  with_reason-Refuses (ok reason) s e h n =
      with_snapshot-Refuses reason (host.get_execution_snapshot request.attempt_id) s e h n

-- A bypass request that fails, unless it is the store that refuses the transaction after it began,
-- changes no change request, no Attempt, no job and no bypass.
pub refused_bypass_changes_nothing :
    (env : Env) (host : BypassHost) (request : BypassRequest) (s : Store) (e : BypassError)
    → (request_bypass env host request s).0 ≡ err e
    → e ≢ storage_unavailable
    → SameTables s (request_bypass env host request s).1
unfolding request_bypass
refused_bypass_changes_nothing env host request s =
    with_reason-Refuses env host request
      (validate_bypass_reason host.scrub_secret_content request.reason) s
