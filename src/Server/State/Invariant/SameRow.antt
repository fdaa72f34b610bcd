-- ===== src/Server/State/Invariant/SameRow.antt =====
-- Writes of a row of a change request that leave its authority and its standing Attempt, in
-- src/worktree_review/server/state.py.
use worktree_review.Base.{
  some, is_some, ◌≡◌, arith, ◌==◌, nat_eq, string_eq, option_eq, pair_eq, if◌then◌else◌,
}
use worktree_review.Base.Dict.{get, put, get-put, get-put_self}
use worktree_review.Core.Identity.{review_identity_eq}
use worktree_review.Core.Report.{gate_state_eq}
use worktree_review.Server.State.{ChangeRequest, Store, Locator, locator_eq}
use worktree_review.Server.State.Bypass.{set_change_request}
use worktree_review.Server.State.Invariant.{TablesFit, ActiveStand, IsConsistent, Kept}

-- Two rows that differ at most in the gate and the revision.
pub record SameRow (c c' : ChangeRequest) : Type 0 where
  pub authority : c'.authoritative_attempt_id ≡ c.authoritative_attempt_id
  pub key : c'.request_key ≡ c.request_key
  pub standing : c'.standing_attempt_id ≡ c.standing_attempt_id
  pub gate : is_some c'.standing_gate_state ≡ is_some c.standing_gate_state

-- The invariants, and the row of one change request.
abbrev pub Holds : Locator → ChangeRequest → Store → Type 0
Holds cr c s = Kept s × (get s.change_requests cr ≡ some c)

module _ (cr : Locator) (c c' : ChangeRequest) (e : SameRow c c') (s : Store)
    (h : Holds cr c s) where
  row_after :
      (x : Locator)
      → get (put s.change_requests cr c') x ≡ (if cr == x then some c' else get s.change_requests x)
  row_after x = get-put s.change_requests cr x c'

  pub set_change_request-Holds : Holds cr c' (set_change_request cr c' s)
  set_change_request-Holds = ((fit, stand), get-put_self s.change_requests cr c')
    where
      v : IsConsistent s
      v = h.0.0

      fit : TablesFit (put s.change_requests cr c') s.attempts s.jobs
      fit = record {
        authority_locator = λ x d p. ground (
          arith,
          row_after x,
          v.authority_locator x d,
          v.authority_locator cr c h.1,
          e.authority,
        );
        authority_key = λ x d p.
            ground (
              arith,
              row_after x,
              v.authority_key x d,
              v.authority_key cr c h.1,
              e.authority,
              e.key,
            );
        standing_authority = λ x d id p q. ground (
          arith,
          row_after x,
          v.standing_authority x d id,
          v.standing_authority cr c id h.1,
          e.authority,
          e.standing,
        );
        standing_published = λ x d id p q. ground (
          arith,
          row_after x,
          v.standing_published x d id,
          v.standing_published cr c id h.1,
          e.standing,
        );
        standing_gate = λ x d p.
            ground (
              arith,
              row_after x,
              v.standing_gate x d,
              v.standing_gate cr c h.1,
              e.standing,
              e.gate,
            );
        live_authority = λ id a p q.
            ground (arith, row_after a.change_request, v.live_authority id a p q, e.authority, h.1);
        has_row = λ id a p. ground (arith, row_after a.change_request, v.has_row id a);
        has_job = v.has_job;
        own_id = v.own_id;
        job_attempt = v.job_attempt;
        job_id = v.job_id;
        decided_job = v.decided_job;
        distinct_jobs = v.distinct_jobs;
      }

      stand : ActiveStand (put s.change_requests cr c') s.bypasses
      stand = record {
        active_standing = λ key r p a.
            ground
              (arith, h.0.1.active_standing key r p a, row_after r.change_request, e.standing, h.1);
        own_keys = h.0.1.own_keys;
      }
