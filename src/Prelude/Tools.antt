-- ===== src/Prelude/Tools.antt =====
-- How a command line tool ends: its exit code, what it has printed, and what it complains about.
use accelsim_lite.Prelude.Text.{Text}
use Prim.Native.Nat.{ℕ}
use mathlib.Core.List.{[]}
use accelsim_lite.Prelude.Results.{Result, succeed, throw}

pub data Complaint (E : Type 0) : Type 0 where
  nothing_wrong wrong_usage : Complaint E
  failure : E → Complaint E

pub record ToolExit (E : Type 0) : Type 0 where
  pub exit_code : ℕ
  pub printed : Text
  pub complaint : Complaint E

-- A wrong number of arguments.
abbrev pub usage_error : {E : Type 0} → ToolExit E
usage_error = record { exit_code = 2; printed = []; complaint = wrong_usage }

-- `try` and `catch` around what is printed.
abbrev pub tool_exit : {E : Type 0} → Result E Text → ToolExit E
tool_exit (succeed text) = record { exit_code = 0; printed = text; complaint = nothing_wrong }
tool_exit (throw e) = record { exit_code = 1; printed = []; complaint = failure e }
