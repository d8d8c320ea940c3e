-- ===== src/Tests/Setup.antt =====
-- The theorem on the set-up of a commission admin, at a concrete one.
use solana_bridge_program.Common.{
  ◌≡◌, refl, List, [], ◌∷◌, replicate, bytes_eq, if◌then◌else◌, arith,
}
use solana_bridge_program.Runtime.{Bank, Result, ok, next_account_info, write_data}
use solana_bridge_program.Shared.Types.{
  CommissionToken as CommissionTokenKind, commission_admin_pda_seed, commission_token_eq,
}
use solana_bridge_program.Shared.Calls.{call_create_account}
use solana_bridge_program.Shared.Instructions.Commission.{CommissionTokenArg}
use solana_bridge_program.Commission.Tokens.{push_tokens}
use solana_bridge_program.Commission.Tokens.Fees.{fees, AreDistinct}
use solana_bridge_program.Commission.Access.{check_admin_key, read_commission_admin}
use solana_bridge_program.Commission.Handlers.{process_init_admin}
use solana_bridge_program.Commission.Replay.Table.{Represents}
use solana_bridge_program.Commission.Replay.Setup.{given, init_admin_refines}
use solana_bridge_program.Tests.Fees.{ledger_env, ledger_laws}
use solana_bridge_program.Tests.Ledger.{ledger_codec-IsLawful, write_ledger_takes}
use solana_bridge_program.Tests.Scene.{
  commission_program, commission_info, bridge_info, owner_info, other_info, accounts, after,
}

-- The accounts before the commission admin exists.
abbrev new_accounts : Bank
new_accounts k =
    if bytes_eq k commission_info.key
    then record { lamports = 0; data_bytes = []; owner = replicate 32 0 }
    else accounts 0 0 k

abbrev args : List CommissionTokenArg
args =
    record { token = CommissionTokenKind.native; amount = 5 }
    ∷ record { token = CommissionTokenKind.ft (replicate 32 13); amount = 8 }
    ∷ []

abbrev setup_run : Result (Unit {0} × Bank)
setup_run =
    process_init_admin ledger_env commission_program
      (commission_info ∷ bridge_info ∷ owner_info ∷ other_info ∷ other_info ∷ []) args new_accounts

setup_runs : setup_run ≡ ok (tt, after new_accounts setup_run)
unfolding process_init_admin check_admin_key commission_admin_pda_seed call_create_account
    read_commission_admin push_tokens bytes_eq next_account_info write_data
setup_runs = refl

args-AreDistinct : AreDistinct (given args)
unfolding commission_token_eq
args-AreDistinct = ((refl, tt), (tt, tt))

init_admin_refines_example :
    ((new_accounts commission_info.key).data_bytes ≡ [])
    × Represents ledger_env commission_program commission_info.key
        (after new_accounts setup_run)
        (fees (given args))
init_admin_refines_example =
    init_admin_refines ledger_env commission_program ledger_laws ledger_codec-IsLawful
      write_ledger_takes commission_info bridge_info owner_info other_info other_info [] args
      new_accounts (after new_accounts setup_run) args-AreDistinct
      ((tt, omega arith), ((refl, omega arith), tt)) (omega arith) setup_runs
