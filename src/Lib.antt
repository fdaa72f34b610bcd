-- ===== src/Lib.antt =====
-- A model of the core of worktree-review: the authoritative attempt store behind the GitHub App, the
-- review pipeline with context gathering, the verification of findings, the gate and the budgeted
-- review dimensions, the audit log, the views of a review, and the command line and GitHub surfaces
-- in part.
--
-- How the parts interact. A webhook starts an Attempt in the store, which makes it the authoritative
-- one of its change request. A worker claims the Attempt's job and runs the pipeline: it builds the
-- merge candidate, prepares a Review Worktree, gathers the context, and stops with a report whose
-- gate is Error where a stage fails or the coverage is incomplete. The required dimensions run one by
-- one in the budget, their findings are verified against the Review Worktree and merged, and the
-- gate evaluator maps outcomes, coverage and findings to a gate state. Stage 9
-- publishes the gate state with a compare-and-set in the store: it stands only if the Attempt is
-- still authoritative. A bypass may then turn Blocked into Passed with bypass, a retry may start a
-- new Attempt, and check intents carry the standing decision to GitHub.
--
-- Which file models what:
--   Core/Identity, Core/Report     src/worktree_review/core/identity.py and core/report.py
--   Core/Findings, Core/Evidence   core/findings.py: data and ranks; records, `_records_for_span`,
--                                  `_grounded_record_for_span`; Evidence/Text the paths, line ranges
--                                  and quotes; Evidence/Verify `fingerprint_finding`,
--                                  `_verify_finding`, `_merge_duplicate_findings` and
--                                  `verify_and_deduplicate`
--   Core/Failure                   core/errors.py, and other exceptions
--   Core/Gate                      core/gate.py, `evaluate_gate`
--   Core/Budget, Core/Dimensions   core/provider.py (`apply_usage_price`, `preflight_budget`) and
--                                  core/dimension.py (`_run_one_dimension`,
--                                  `run_required_dimensions`)
--   Core/Context                   core/context.py: the globs, what cannot be reviewed, the items and
--                                  their coverage; Context/Gather `gather_context`
--   Core/Pipeline                  core/pipeline.py and the report of core/report.py: Pipeline/Run
--                                  `_complete_report`, Pipeline/Stages `run_review_pipeline` with one
--                                  function for what follows each stage. A run carries the progress
--                                  events and the life of the Review Worktree as a log.
--   Server/State                   server/state.py, the data and the fields of
--                                  `InMemoryAuthoritativeAttemptStore`; below it one file for each
--                                  group of methods: Audit, Standing, Attempts, Jobs, Recovery,
--                                  Publish, Bypass, CheckSync. A method is a function that takes the
--                                  store and gives a result, or what was raised, with the store
--                                  after it (Base/Exec). Audit/Queries, Audit/Cursor and Audit/Screen
--                                  are the audit queries and server/audit.py.
--   Server/State/Invariant         what holds between two methods, with a file for each group
--   Server/State/Reach             the stores that sequences of methods reach, where no start of an
--                                  Attempt and no withdrawal of a decision was refused an audit event
--   Server/State/Later             any sequence of method calls from a given store
--   Application                    application/lifecycle.py and application/views.py;
--                                  Application/Mapping application/mapping.py
--   Platform/ExitCode, Roles, Retry  platform/cli/exit_codes.py, platform/github/authz.py and
--                                  platform/github/retry.py
--   Platform/Bypass                platform/github/bypass.py: the data and the checks of a report;
--                                  Bypass/Reason `validate_bypass_reason`, Bypass/Request
--                                  `request_bypass` over the store
-- The theorems about a module are in the files of the folder of its name; the files named Examples
-- run the definitions on concrete inputs.
--
-- Bounds. Numbers are natural numbers; times count from an origin that the clock parameter fixes,
-- and money counts a least unit. No definition runs on fuel: loops are recursions on the lists and
-- texts that the code walks over.
--
-- What is a parameter. New identifiers, the clock, SHA-256, `model_dump_json`, the reading of Review
-- Worktree files, the provider's answers, the role lookup and the callbacks of the retry
-- coordinator; `fnmatch`, the UTF-8 codec, what git and the file system answer to context gathering,
-- and the construction of the merge candidate, the Review Worktree and the provider in the pipeline.
-- The bypass coordinator takes the secret scrubber, what the GitHub store holds of an Attempt, the
-- frozen policy and the digest of a risk snapshot. The store takes any payload screen, of which
-- Audit/Screen is the one of the code, and any scrubbing of job errors.
--
-- What is not modelled. The PostgreSQL store repeats the methods in SQL. The regular expressions of
-- the secret scrubber, the other GitHub clients of the store, the projections of coverage and usage,
-- the web surface and the CLI's input and output are left out; so are git, HTTP and the file system,
-- which are effects of other programs.
pub mod Base
pub mod Core
pub mod Server
pub mod Application
pub mod Platform
