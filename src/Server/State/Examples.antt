-- ===== src/Server/State/Examples.antt =====
-- One change request, from its first webhook to a bypassed decision.
use worktree_review.Base.{
  ◌≤◌, ◌+◌, true, false, none, some, [], ◌∷◌, ◌≡◌, ◌≢◌, refl, arith, contains, all, min_by, max_by,
  ◌==◌, filter_by, string_eq, nat_eq, pair_eq, option_eq, option_dec,
}
use worktree_review.Base.Dict.{NodupKeys, get, put, map_values, values}
use worktree_review.Base.Exec.{ok, err}
use worktree_review.Core.Identity.{policy_version_eq, request_key_eq, review_identity_eq}
use worktree_review.Core.Report.{blocked, passed, gate_state_eq, gate_value}
use worktree_review.Server.State.{
  AttemptStatus, JobStatus, PublishResult, PublishDisposition, CheckIntent, conflict,
  unsafe_payload, not_current_standing, locator_eq, job_status_eq, ticked, now,
}
use worktree_review.Server.State.Audit.{record_audit_event}
use worktree_review.Server.State.Attempts.{
  authority, replayed, start_authoritative_attempt, start_new, supersede_prior, supersede_rows,
  supersede_queued_job, remember_delivery, new_rows, new_lease, get_delivery_attempt,
  record_review_identity, identity_matches_key,
}
use worktree_review.Server.State.Attempts.Delivery.{redelivery_starts_nothing}
use worktree_review.Server.State.Jobs.{
  claim_attempt_job, claim_rows, claim_queued, locator_for_attempt, mark_job_retryable,
  mark_running_retryable, finalize_attempt_job,
}
use worktree_review.Server.State.Jobs.Claims.{
  status_of_job, Claimed, claim_needs_authority, running_is_exclusive, ended_job_is_final,
}
use worktree_review.Server.State.Recovery.{
  recover_interrupted_jobs, recover_loop, recover_one, recover_retryable,
}
use worktree_review.Server.State.Recovery.Retries.{recovered_row, recovery_leaves_no_retryable}
use worktree_review.Server.State.Standing.{
  invalidate_bypasses, invalidate_loop, supersede_check_intents, enqueue_check_intent,
}
use worktree_review.Server.State.Publish.{
  publish_if_authoritative, publish_by_status, publish_standing, complete_job, inputs_match,
  identity_matches,
}
use worktree_review.Server.State.Publish.Decision.{
  decision_of, published_stands, lost_attempt_never_stands,
}
use worktree_review.Server.State.Bypass.{
  apply_finding_bypass, bypass_on, bypass_standing, grant_bypass, is_valid_call, settle_bypass,
  audit_transition, sync_bypass, active_bypass_fingerprints, remaining, new_bypass, check_payload,
}
use worktree_review.Server.State.Bypass.Coverage.{
  refused_event_leaves_bypass, Covered, bypass_decides_gate, conflict_writes_nothing,
}
use worktree_review.Server.State.CheckSync.{
  claim_standing_check_sync, claim_first, claim_intent, deliverable, newest_revisions,
  raise_revisions, revisions, is_candidate,
}
use worktree_review.Server.State.CheckSync.Newest.{not_newer, claimed_intent_is_newest}
use worktree_review.Server.State.Invariant.{standing_of}
use worktree_review.Server.State.Invariant.Standing.{Accepted}
use worktree_review.Server.State.Later.{next, here, claim, start}
use worktree_review.Server.State.Reach.{
  Reach, created, started, identified, claimed, published, bypassed, single_live_attempt,
  standing_is_published, active_bypass_stands,
}
use worktree_review.Server.State.Scenario.{
  env, a1, a2, cr, key, identity, s0, s1, s2, s3, s4, row, attempt, done, call, s5, bypass, granted,
  first_lease, waiting, working, busy, s2r, requeued_job, s3b, lost, second_row, ready, first_row,
  decision, refusing, sync,
}

s4-facts :
    (get s4.change_requests cr ≡ some row)
    × (get s4.attempts "a1" ≡ some attempt)
    × (get s4.jobs "a1" ≡ some done)
    × ((publish_if_authoritative env "a1" key (some identity) blocked s3).0 ≡ ok decision)
    × (is_valid_call call ≡ true)
    × (get s4.bypasses ("a1", "f1") ≡ none)
unfolding get put map_values filter_by start_authoritative_attempt start_new supersede_prior
    supersede_rows supersede_queued_job invalidate_bypasses invalidate_loop supersede_check_intents
    remember_delivery new_rows new_lease record_audit_event get_delivery_attempt claim_attempt_job
    claim_rows claim_queued mark_job_retryable mark_running_retryable locator_for_attempt
    recover_interrupted_jobs recover_loop recover_one recover_retryable record_review_identity
    identity_matches_key publish_if_authoritative publish_by_status publish_standing complete_job
    inputs_match identity_matches apply_finding_bypass bypass_on bypass_standing grant_bypass
    is_valid_call settle_bypass audit_transition sync_bypass enqueue_check_intent
    active_bypass_fingerprints remaining new_bypass check_payload string_eq nat_eq pair_eq option_eq
    option_dec locator_eq job_status_eq gate_state_eq policy_version_eq request_key_eq
    review_identity_eq gate_value claim_standing_check_sync claim_first claim_intent deliverable
    newest_revisions raise_revisions revisions is_candidate min_by max_by
s4-facts = (refl, refl, refl, refl, refl, refl)

s1-facts :
    (get s0.attempts "a1" ≡ none)
    × (Accepted (start_authoritative_attempt env "a1" 0 cr key none (some "d1") s0).0)
    × ((start_authoritative_attempt env "a1" 0 cr key none (some "d1") s0).0 ≡ ok first_lease)
    × (get s1.attempts "a1" ≡ some waiting)
unfolding get put map_values filter_by start_authoritative_attempt start_new supersede_prior
    supersede_rows supersede_queued_job invalidate_bypasses invalidate_loop supersede_check_intents
    remember_delivery new_rows new_lease record_audit_event get_delivery_attempt claim_attempt_job
    claim_rows claim_queued mark_job_retryable mark_running_retryable locator_for_attempt
    recover_interrupted_jobs recover_loop recover_one recover_retryable record_review_identity
    identity_matches_key publish_if_authoritative publish_by_status publish_standing complete_job
    inputs_match identity_matches apply_finding_bypass bypass_on bypass_standing grant_bypass
    is_valid_call settle_bypass audit_transition sync_bypass enqueue_check_intent
    active_bypass_fingerprints remaining new_bypass check_payload string_eq nat_eq pair_eq option_eq
    option_dec locator_eq job_status_eq gate_state_eq policy_version_eq request_key_eq
    review_identity_eq gate_value claim_standing_check_sync claim_first claim_intent deliverable
    newest_revisions raise_revisions revisions is_candidate min_by max_by
s1-facts = (refl, tt, refl, refl)

s5-facts :
    ((apply_finding_bypass env call s4).0 ≡ ok granted)
    × (get s5.bypasses ("a1", "f1") ≡ some bypass)
    × ((claim_standing_check_sync 10 30 s5).0 ≡ some sync)
unfolding get put map_values filter_by start_authoritative_attempt start_new supersede_prior
    supersede_rows supersede_queued_job invalidate_bypasses invalidate_loop supersede_check_intents
    remember_delivery new_rows new_lease record_audit_event get_delivery_attempt claim_attempt_job
    claim_rows claim_queued mark_job_retryable mark_running_retryable locator_for_attempt
    recover_interrupted_jobs recover_loop recover_one recover_retryable record_review_identity
    identity_matches_key publish_if_authoritative publish_by_status publish_standing complete_job
    inputs_match identity_matches apply_finding_bypass bypass_on bypass_standing grant_bypass
    is_valid_call settle_bypass audit_transition sync_bypass enqueue_check_intent
    active_bypass_fingerprints remaining new_bypass check_payload string_eq nat_eq pair_eq option_eq
    option_dec locator_eq job_status_eq gate_state_eq policy_version_eq request_key_eq
    review_identity_eq gate_value claim_standing_check_sync claim_first claim_intent deliverable
    newest_revisions raise_revisions revisions is_candidate min_by max_by
s5-facts = (refl, refl, refl)

s3-facts :
    ((apply_finding_bypass env call s3).0 ≡ err (conflict not_current_standing))
    × (get s3.attempts "a1" ≡ some ready)
    × (get s3.change_requests cr ≡ some first_row)
unfolding get put map_values filter_by start_authoritative_attempt start_new supersede_prior
    supersede_rows supersede_queued_job invalidate_bypasses invalidate_loop supersede_check_intents
    remember_delivery new_rows new_lease record_audit_event get_delivery_attempt claim_attempt_job
    claim_rows claim_queued mark_job_retryable mark_running_retryable locator_for_attempt
    recover_interrupted_jobs recover_loop recover_one recover_retryable record_review_identity
    identity_matches_key publish_if_authoritative publish_by_status publish_standing complete_job
    inputs_match identity_matches apply_finding_bypass bypass_on bypass_standing grant_bypass
    is_valid_call settle_bypass audit_transition sync_bypass enqueue_check_intent
    active_bypass_fingerprints remaining new_bypass check_payload string_eq nat_eq pair_eq option_eq
    option_dec locator_eq job_status_eq gate_state_eq policy_version_eq request_key_eq
    review_identity_eq gate_value claim_standing_check_sync claim_first claim_intent deliverable
    newest_revisions raise_revisions revisions is_candidate min_by max_by
s3-facts = (refl, refl, refl)

s2-facts :
    ((claim_attempt_job env "a1" s1).0 ≡ ok (some first_lease))
    × (get s2.attempts "a1" ≡ some working)
    × (get s2.jobs "a1" ≡ some busy)
    × (now s2 ≤ busy.updated_at + s2.lease_seconds)
unfolding get put map_values filter_by start_authoritative_attempt start_new supersede_prior
    supersede_rows supersede_queued_job invalidate_bypasses invalidate_loop supersede_check_intents
    remember_delivery new_rows new_lease record_audit_event get_delivery_attempt claim_attempt_job
    claim_rows claim_queued mark_job_retryable mark_running_retryable locator_for_attempt
    recover_interrupted_jobs recover_loop recover_one recover_retryable record_review_identity
    identity_matches_key publish_if_authoritative publish_by_status publish_standing complete_job
    inputs_match identity_matches apply_finding_bypass bypass_on bypass_standing grant_bypass
    is_valid_call settle_bypass audit_transition sync_bypass enqueue_check_intent
    active_bypass_fingerprints remaining new_bypass check_payload string_eq nat_eq pair_eq option_eq
    option_dec locator_eq job_status_eq gate_state_eq policy_version_eq request_key_eq
    review_identity_eq gate_value claim_standing_check_sync claim_first claim_intent deliverable
    newest_revisions raise_revisions revisions is_candidate min_by max_by
s2-facts = (refl, refl, refl, ground arith)

recovery-facts :
    ((recover_interrupted_jobs env 3 60 s2r).0
      ≡ ok (record { requeued = "a1" ∷ []; lease_recovered = []; exhausted = [] }))
    × (get (recover_interrupted_jobs env 3 60 s2r).1.jobs "a1" ≡ some requeued_job)
unfolding get put map_values filter_by start_authoritative_attempt start_new supersede_prior
    supersede_rows supersede_queued_job invalidate_bypasses invalidate_loop supersede_check_intents
    remember_delivery new_rows new_lease record_audit_event get_delivery_attempt claim_attempt_job
    claim_rows claim_queued mark_job_retryable mark_running_retryable locator_for_attempt
    recover_interrupted_jobs recover_loop recover_one recover_retryable record_review_identity
    identity_matches_key publish_if_authoritative publish_by_status publish_standing complete_job
    inputs_match identity_matches apply_finding_bypass bypass_on bypass_standing grant_bypass
    is_valid_call settle_bypass audit_transition sync_bypass enqueue_check_intent
    active_bypass_fingerprints remaining new_bypass check_payload string_eq nat_eq pair_eq option_eq
    option_dec locator_eq job_status_eq gate_state_eq policy_version_eq request_key_eq
    review_identity_eq gate_value claim_standing_check_sync claim_first claim_intent deliverable
    newest_revisions raise_revisions revisions is_candidate min_by max_by
recovery-facts = (refl, refl)

s3b-facts : (get s3b.attempts "a1" ≡ some lost) × (get s3b.change_requests cr ≡ some second_row)
unfolding get put map_values filter_by start_authoritative_attempt start_new supersede_prior
    supersede_rows supersede_queued_job invalidate_bypasses invalidate_loop supersede_check_intents
    remember_delivery new_rows new_lease record_audit_event get_delivery_attempt claim_attempt_job
    claim_rows claim_queued mark_job_retryable mark_running_retryable locator_for_attempt
    recover_interrupted_jobs recover_loop recover_one recover_retryable record_review_identity
    identity_matches_key publish_if_authoritative publish_by_status publish_standing complete_job
    inputs_match identity_matches apply_finding_bypass bypass_on bypass_standing grant_bypass
    is_valid_call settle_bypass audit_transition sync_bypass enqueue_check_intent
    active_bypass_fingerprints remaining new_bypass check_payload string_eq nat_eq pair_eq option_eq
    option_dec locator_eq job_status_eq gate_state_eq policy_version_eq request_key_eq
    review_identity_eq gate_value claim_standing_check_sync claim_first claim_intent deliverable
    newest_revisions raise_revisions revisions is_candidate min_by max_by
s3b-facts = (refl, refl)

abbrev s4-Reach : Reach env s4
s4-Reach = published "a1" key (some identity) blocked (
    identified "a1" identity (
      claimed "a1"
        (started "a1" 0 cr key none (some "d1") s1-facts.0 s1-facts.1 (created (λ n. n) 60))))

single_live_attempt_example : (a1 ≡ a1) × (authority (get s4.change_requests cr) ≡ some "a1")
single_live_attempt_example =
    single_live_attempt env s4 s4-Reach "a1" "a1" attempt attempt s4-facts.1 s4-facts.1 refl refl
      refl

standing_is_published_example :
    (a1 ≡ a1)
    × (AttemptStatus.published ≡ AttemptStatus.published)
    × (cr ≡ cr)
    × (key ≡ key)
    × (true ≡ true)
    × (true ≡ true)
standing_is_published_example =
    standing_is_published env s4 s4-Reach cr row "a1" attempt done s4-facts.0 refl s4-facts.1
      s4-facts.2

active_bypass_stands_example : standing_of (get s5.change_requests cr) ≡ some "a1"
active_bypass_stands_example =
    active_bypass_stands env s5 (bypassed call s4-Reach) ("a1", "f1") bypass s5-facts.1 refl

bypass_decides_gate_example : (some blocked ≡ some blocked) × Covered env call row granted s5
bypass_decides_gate_example =
    bypass_decides_gate env call s4 attempt row granted s4-facts.1 s4-facts.0 s5-facts.0 refl

conflict_writes_nothing_example : (apply_finding_bypass env call s3).1 ≡ s3
conflict_writes_nothing_example =
    conflict_writes_nothing env call s3 not_current_standing s3-facts.0

-- The first delivery comes again after its job was claimed and a second Attempt has started.
redelivery_starts_nothing_example :
    (start_authoritative_attempt env "a3" 3 cr key none (some "d1") s3b
      ≡ (ok (replayed first_lease), s3b))
    × (get_delivery_attempt 1 "d1" s3b ≡ (ok (some (replayed first_lease)), s3b))
redelivery_starts_nothing_example =
    redelivery_starts_nothing env "a1" 0 cr key none "d1" s0 s3b first_lease s1-facts.2
      (next (next here (claim "a1")) (start "a2" 0 cr key none none)) "a3" 3 cr key none refl

claim_needs_authority_example : Claimed "a1" s1 waiting first_lease s2
claim_needs_authority_example =
    claim_needs_authority env "a1" s1 waiting first_lease s1-facts.3 s2-facts.0

running_is_exclusive_example : claim_attempt_job env "a1" s2 ≡ (ok none, ticked s2)
running_is_exclusive_example =
    running_is_exclusive env "a1" s1 s2 waiting working busy first_lease s1-facts.3 s2-facts.0
      s2-facts.2 s2-facts.1 s2-facts.2 s2-facts.3

ended_job_is_final_example :
    (claim_attempt_job env "a1" s4 ≡ (ok none, s4))
    × (mark_job_retryable env "a1" "lost" s4 ≡ (ok tt, s4))
    × ((finalize_attempt_job env "a1" JobStatus.failed "late" s4).1 ≡ s4)
ended_job_is_final_example =
    ended_job_is_final env "a1" s4 done "lost" "late" JobStatus.failed s4-facts.2 refl

s2r-NodupKeys : NodupKeys s2r.jobs
unfolding get put map_values filter_by start_authoritative_attempt start_new supersede_prior
    supersede_rows supersede_queued_job invalidate_bypasses invalidate_loop supersede_check_intents
    remember_delivery new_rows new_lease record_audit_event get_delivery_attempt claim_attempt_job
    claim_rows claim_queued mark_job_retryable mark_running_retryable locator_for_attempt
    recover_interrupted_jobs recover_loop recover_one recover_retryable record_review_identity
    identity_matches_key publish_if_authoritative publish_by_status publish_standing complete_job
    inputs_match identity_matches apply_finding_bypass bypass_on bypass_standing grant_bypass
    is_valid_call settle_bypass audit_transition sync_bypass enqueue_check_intent
    active_bypass_fingerprints remaining new_bypass check_payload string_eq nat_eq pair_eq option_eq
    option_dec locator_eq job_status_eq gate_state_eq policy_version_eq request_key_eq
    review_identity_eq gate_value claim_standing_check_sync claim_first claim_intent deliverable
    newest_revisions raise_revisions revisions is_candidate min_by max_by
s2r-NodupKeys = (refl, tt)

recovery_leaves_no_retryable_example :
    (get (recover_interrupted_jobs env 3 60 s2r).1.jobs "a1"
      ≡ recovered_row 3 60 (now s2r) (get s2r.jobs "a1"))
    × (status_of_job (get (recover_interrupted_jobs env 3 60 s2r).1.jobs "a1")
        ≢ some JobStatus.retryable)
recovery_leaves_no_retryable_example =
    recovery_leaves_no_retryable env 3 60 s2r
      (record { requeued = "a1" ∷ []; lease_recovered = []; exhausted = [] }) "a1" s2r-NodupKeys
      recovery-facts.0

different : (a1 == a2) ≡ false
unfolding string_eq
different = refl

other_id : a2 ≢ a1
other_id h = ground (arith, different, h)

lost_attempt_never_stands_example :
    ((publish_if_authoritative env "a1" key none passed s3b).1.change_requests
      ≡ s3b.change_requests)
    × ((publish_if_authoritative env "a1" key none passed s3b).1.bypasses ≡ s3b.bypasses)
    × ((r : PublishResult)
        → (publish_if_authoritative env "a1" key none passed s3b).0 ≡ ok r
        → r.disposition ≡ PublishDisposition.superseded)
lost_attempt_never_stands_example =
    lost_attempt_never_stands env s3b "a1" key none passed lost second_row s3b-facts.0 s3b-facts.1
      other_id

published_stands_example :
    (a1 ≡ a1)
    × (key ≡ key)
    × (some blocked ≡ some blocked)
    × (decision_of (get s4.change_requests cr) ≡ some ("a1", some "a1", some blocked))
published_stands_example =
    published_stands env s3 "a1" key (some identity) blocked ready first_row s3-facts.1 s3-facts.2
      decision s4-facts.3 refl

refused_event_leaves_bypass_example :
    ((apply_finding_bypass refusing call s4).0 ≡ err unsafe_payload)
    × (contains (active_bypass_fingerprints "a1" (apply_finding_bypass refusing call s4).1) "f1"
        ≡ true)
    × ((apply_finding_bypass refusing call s4).1.change_requests ≡ s4.change_requests)
refused_event_leaves_bypass_example =
    refused_event_leaves_bypass refusing call s4 attempt row s4-facts.1 refl s4-facts.0 refl refl
      refl refl s4-facts.4 s4-facts.5 refl

claimed_intent_is_newest_example :
    (j : CheckIntent) × (sync ≡ claim_intent 10 30 j)
    × (is_candidate 10 j ≡ true)
    × (all (not_newer j.attempt_id j.standing_revision) (values s5.standing_check_intents) ≡ true)
    × (get (claim_standing_check_sync 10 30 s5).1.standing_check_intents j.intent_id ≡ some sync)
claimed_intent_is_newest_example = claimed_intent_is_newest 10 30 s5 sync s5-facts.2
