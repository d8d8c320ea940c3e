-- ===== src/Shared/Report.antt =====
-- The `match` that the entry points of the three programs share.
use solana_bridge_program.Common.{Option, none, some}
use solana_bridge_program.Runtime.{Bank, Result, ok, err, ProgramError, panicked}

-- What an entry point gives the runtime, and the error that it prints before.
pub record Reported : Type 0 where
  pub result : Result (Unit {0} × Bank)
  pub printed : Option ProgramError

-- A panic ends the program before the `match`.
unfoldable pub report : Result (Unit {0} × Bank) → Reported
report (ok r) = record { result = ok r; printed = none }
report (err panicked) = record { result = err panicked; printed = none }
report (err e) = record { result = err e; printed = some e }
