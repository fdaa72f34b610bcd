-- ===== src/Server/State/Later/Withdrawals.antt =====
-- Audit events, recoveries and withdrawals of src/worktree_review/server/state.py write no delivery.
use worktree_review.Base.{
  ℕ, ◌+◌, ◌&&◌, contains, String, Option, none, some, [], ◌∷◌, inl, inr, Bool-cases, Option-cases,
  ◌==◌, nat_eq, string_eq, pair_eq, ◌≡◌, refl, ◌∙◌, arith,
}
use worktree_review.Base.Dict.{Dict, get}
use worktree_review.Server.Json.{Fields}
use worktree_review.Base.Exec.{ok, bind-keeps}
use worktree_review.Server.State.{
  Attempt, BypassRecord, ChangeRequest, Job, JobRecoveryReport, Locator, Store, Env, locator_eq,
}
use worktree_review.Server.State.Audit.{record_audit_event}
use worktree_review.Server.State.Attempts.{supersede_queued_job, supersede_rows, supersede_prior}
use worktree_review.Server.State.Jobs.{job_event, locator_for_attempt}
use worktree_review.Server.State.Recovery.{
  fail_job, recover_retryable, recover_running, recover_one, recover_loop,
}
use worktree_review.Server.State.Standing.{
  invalidate_one, invalidate_loop, invalidate_bypasses, after_invalidation, invalidate_row,
  invalidate_standing_decision, invalidate_targets, supersede_check_intents, supersede_if_standing,
}

abbrev pub SameDeliveries : Store → Store → Type 0
SameDeliveries s t = t.delivery_attempts ≡ s.delivery_attempts

module _ (env : Env) where
  pub audit-SameDeliveries :
      (event_type : String) (cr : Locator) (id : Option String) (payload : Fields)
      (actor_id : Option ℕ) (actor_login : Option String) (s : Store)
      → SameDeliveries s (record_audit_event env event_type cr id payload actor_id actor_login s).1
  unfolding record_audit_event
  audit-SameDeliveries event_type cr id payload actor_id actor_login s = ground arith

  recover_one-SameDeliveries :
      (limit lease at : ℕ) (key : String) (j : Job) (report : JobRecoveryReport) (s : Store)
      → SameDeliveries s (recover_one env limit lease at key j report s).1
  unfolding recover_one recover_retryable recover_running fail_job job_event locator_for_attempt
      record_audit_event
  recover_one-SameDeliveries limit lease at key j report s = ground arith

  pub recover_loop-SameDeliveries :
      (limit lease at : ℕ) (entries : Dict String Job) (report : JobRecoveryReport) (s t : Store)
      → SameDeliveries s t
      → SameDeliveries s (recover_loop env limit lease at entries report t).1
  unfolding recover_loop
  recover_loop-SameDeliveries limit lease at [] report s t h = h
  recover_loop-SameDeliveries limit lease at ((key, j) ∷ rest) report s t h =
      let one = recover_one-SameDeliveries limit lease at key j report t ∙ h in
      bind-keeps (SameDeliveries s) (recover_one env limit lease at key j report)
        (recover_loop env limit lease at rest) t one
        (λ report'. recover_loop-SameDeliveries limit lease at rest report' s _ one)

  invalidate_one-SameDeliveries :
      (cr : Locator) (reason : String) (key : String × String) (r : BypassRecord) (s : Store)
      → SameDeliveries s (invalidate_one env cr reason key r s).1
  unfolding invalidate_one record_audit_event
  invalidate_one-SameDeliveries cr reason key r s = ground arith

  invalidate_loop-SameDeliveries :
      (cr : Locator) (reason : String) (entries : Dict (String × String) BypassRecord) (s t : Store)
      → SameDeliveries s t
      → SameDeliveries s (invalidate_loop env cr reason entries t).1
  unfolding invalidate_loop
  invalidate_loop-SameDeliveries cr reason [] s t h = h
  invalidate_loop-SameDeliveries cr reason ((key, r) ∷ rest) s t h =
      let one = invalidate_one-SameDeliveries cr reason key r t ∙ h in
      bind-keeps (SameDeliveries s) (invalidate_one env cr reason key r)
        (λ _. invalidate_loop env cr reason rest) t one
        (λ _. invalidate_loop-SameDeliveries cr reason rest s _ one)

  invalidate_bypasses-SameDeliveries :
      (cr : Locator) (reason : String) (s t : Store)
      → SameDeliveries s t
      → SameDeliveries s (invalidate_bypasses env cr reason t).1
  unfolding invalidate_bypasses
  invalidate_bypasses-SameDeliveries cr reason s t h =
      invalidate_loop-SameDeliveries cr reason t.bypasses s t h

  after_invalidation-SameDeliveries :
      (cr : Locator) (reason : String) (standing : Option String) (s t : Store)
      → SameDeliveries s t
      → SameDeliveries s (after_invalidation env cr reason standing t).1
  unfolding after_invalidation record_audit_event supersede_if_standing supersede_check_intents
  after_invalidation-SameDeliveries cr reason standing s t h = ground (arith, h)

  invalidate_row-SameDeliveries :
      (cr : Locator) (reason : String) (c : ChangeRequest) (s t : Store)
      → SameDeliveries s t
      → SameDeliveries s (invalidate_row env cr reason c t).1
  unfolding invalidate_row
  invalidate_row-SameDeliveries cr reason c s t h =
      let gone = invalidate_bypasses-SameDeliveries cr reason s _ h in
      bind-keeps (SameDeliveries s) (invalidate_bypasses env cr reason)
        (λ _. after_invalidation env cr reason c.standing_attempt_id) _ gone
        (λ _. after_invalidation-SameDeliveries cr reason c.standing_attempt_id s _ gone)

  pub withdraw-SameDeliveries :
      (cr : Locator) (reason : String) (s t : Store)
      → SameDeliveries s t
      → SameDeliveries s (invalidate_standing_decision env cr reason t).1
  unfolding invalidate_standing_decision
  withdraw-SameDeliveries cr reason s t h = elim (Option-cases (get t.change_requests cr)) [
    | inl n ↦ rw (n, invalidate_standing_decision) h
    | inr (c, e) ↦
        rw (e, invalidate_standing_decision) (invalidate_row-SameDeliveries cr reason c s t h)
  ]

  pub targets-SameDeliveries :
      (repository : String) (aliases : _) (reason : String) (rows : Dict Locator ChangeRequest)
      (count : ℕ) (s t : Store)
      → SameDeliveries s t
      → SameDeliveries s (invalidate_targets env repository aliases reason rows count t).1
  unfolding invalidate_targets
  targets-SameDeliveries repository aliases reason [] count s t h = h
  targets-SameDeliveries repository aliases reason ((cr, c) ∷ rest) count s t h =
      elim (Bool-cases (cr.repository == repository && contains aliases c.request_key.target_ref)) [
        | inr e ↦
            rw (e, invalidate_targets)
              (targets-SameDeliveries repository aliases reason rest count s t h)
        | inl e ↦
            let one = withdraw-SameDeliveries cr reason s t h in
            rw (e, invalidate_targets)
              (bind-keeps (SameDeliveries s) (invalidate_standing_decision env cr reason)
                (λ _. invalidate_targets env repository aliases reason rest (count + 1)) t one
                (λ _. targets-SameDeliveries repository aliases reason rest (count + 1) s _ one))
      ]

  supersede_rows-SameDeliveries :
      (id : String) (a : Attempt) (s : Store) → SameDeliveries s (supersede_rows id a s)
  unfolding supersede_rows supersede_queued_job
  supersede_rows-SameDeliveries id a s = ground arith

  intents-SameDeliveries :
      (id : String) (s t : Store)
      → SameDeliveries s t
      → SameDeliveries s (supersede_check_intents id t)
  unfolding supersede_check_intents
  intents-SameDeliveries id s t h = h

  pub supersede_prior-SameDeliveries :
      (cr : Locator) (prior : Option String) (s : Store)
      → SameDeliveries s (supersede_prior env cr prior s).1
  unfolding supersede_prior
  supersede_prior-SameDeliveries cr none s = refl
  supersede_prior-SameDeliveries cr (some id) s = elim (Option-cases (get s.attempts id)) [
    | inl n ↦ rw (n, supersede_prior) refl
    | inr (a, e) ↦
        let gone =
          invalidate_bypasses-SameDeliveries cr
            "new authoritative Attempt superseded the standing decision" s (supersede_rows id a s)
            (supersede_rows-SameDeliveries id a s) in
        rw (e, supersede_prior)
          (bind-keeps (SameDeliveries s)
            (invalidate_bypasses env cr
              "new authoritative Attempt superseded the standing decision")
            (λ _ t. (ok tt, supersede_check_intents id t)) (supersede_rows id a s) gone
            (λ _. intents-SameDeliveries id s _ gone))
  ]
