-- ===== src/Platform/ExitCode.antt =====
-- src/worktree_review/platform/cli/exit_codes.py.
use worktree_review.Base.{ℕ, Option, none, some, ◌≡◌, ◌≢◌, ◌↔◌, arith}
use worktree_review.Core.Report.{GateState}

pub data CliExitCode : Type 0 where
  passed blocked error invalid_invocation : CliExitCode

-- The integer that the process returns.
unfoldable exit_status : CliExitCode → ℕ
exit_status CliExitCode.passed = 0
exit_status CliExitCode.blocked = 1
exit_status CliExitCode.error = 2
exit_status CliExitCode.invalid_invocation = 3

-- Nothing where the function raises `ValueError`.
unfoldable exit_code_for_gate_state : GateState → Option CliExitCode
exit_code_for_gate_state GateState.passed = some CliExitCode.passed
exit_code_for_gate_state GateState.blocked = some CliExitCode.blocked
exit_code_for_gate_state GateState.error = some CliExitCode.error
exit_code_for_gate_state GateState.passed_with_bypass = none
exit_code_for_gate_state _ = none

abbrev code_of : GateState → Option ℕ
code_of gate = elim (exit_code_for_gate_state gate) [ none ↦ none | some c ↦ some (exit_status c) ]

-- The CLI returns 0 for Passed alone, no two gate states share a code, and neither Passed with
-- bypass nor a gate state that is not final has one.
exit_codes_tell_gates_apart :
    (a b : GateState) (n : ℕ)
    → code_of a ≡ some n
    → code_of b ≡ some n
    → (a ≡ b) × (a ≢ GateState.passed_with_bypass) × ((n ≡ 0) ↔ (a ≡ GateState.passed))
unfolding exit_code_for_gate_state exit_status
exit_codes_tell_gates_apart a b n p q =
    (ground (arith, p, q), ground (arith, p), (ground (arith, p), ground (arith, p)))
