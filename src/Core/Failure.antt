-- ===== src/Core/Failure.antt =====
-- The exceptions of a review: `WorktreeReviewError` of src/worktree_review/core/errors.py and others.
use worktree_review.Base.{String}

-- What may be raised: a `WorktreeReviewError` with its text, or another exception.
pub data Failure : Type 0 where
  review_error : String → Failure
  other_error : String → Failure
