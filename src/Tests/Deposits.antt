-- ===== src/Tests/Deposits.antt =====
-- The theorems on deposits and on the validation, at concrete instructions.
use solana_bridge_program.Common.{
  ℕ, ◌≡◌, refl, none, some, [], ◌∷◌, Bytes, replicate, arith, bytes_eq, inl,
}
use solana_bridge_program.Runtime.{AccountInfo, Bank, Result, ok, err, into, next_account_info}
use solana_bridge_program.Shared.Error.{wrong_args_size}
use solana_bridge_program.Shared.Types.{TokenType, commission_admin_pda_seed}
use solana_bridge_program.Shared.Instructions.Bridge.{DepositNativeArgs, deposit_native}
use solana_bridge_program.Bridge.Access.{open_bridge_admin, check_seeds, read_bridge_admin}
use solana_bridge_program.Bridge.Charge.{charges, verify_commission_charged}
use solana_bridge_program.Bridge.Charge.Charged.{Charged, verify_commission_charged_sound}
use solana_bridge_program.Bridge.Deposit.{
  process_deposit_native, process_deposit_ft, process_deposit_nft,
}
use solana_bridge_program.Bridge.Deposit.Taken.{Admitted, deposit_native_sound}
use solana_bridge_program.Bridge.Processor.{dispatch}
use solana_bridge_program.Bridge.Processor.Dispatch.{
  zero_amount_rejected, long_destination_rejected,
}
use solana_bridge_program.Tests.Platform.{test_env}
use solana_bridge_program.Tests.Scene.{
  program, seeds, bridge_info, owner_info, other_info, sysvar_info, test_bridge_admin, mint_info,
  owner_token, bridge_token, handle, accounts, after,
}

abbrev native_run : Result (Unit {0} × Bank)
native_run =
    process_deposit_native test_env program
      (bridge_info ∷ owner_info ∷ other_info ∷ other_info ∷ sysvar_info ∷ []) seeds [] [] 7
      (accounts 0 7)

native_runs : native_run ≡ ok (tt, after (accounts 0 7) native_run)
unfolding process_deposit_native open_bridge_admin check_seeds read_bridge_admin
    verify_commission_charged charges bytes_eq next_account_info commission_admin_pda_seed
native_runs = refl

deposit_native_sound_example :
    Admitted test_env program seeds bridge_info sysvar_info TokenType.native 7 (accounts 0 7)
    × (test_env.invoke_signed
          (test_env.system_transfer owner_info.key bridge_info.key 7)
          (owner_info ∷ bridge_info ∷ [])
          []
          (accounts 0 7)
        ≡ ok (tt, after (accounts 0 7) native_run))
deposit_native_sound_example =
    deposit_native_sound test_env program seeds bridge_info owner_info other_info other_info
      sysvar_info [] [] [] 7 (accounts 0 7) (after (accounts 0 7) native_run) native_runs

abbrev ft_run : Result (Unit {0} × Bank)
ft_run =
    process_deposit_ft test_env program
      (bridge_info ∷ mint_info ∷ owner_token ∷ bridge_token ∷ owner_info ∷ other_info ∷ other_info
        ∷ other_info ∷ sysvar_info ∷ other_info ∷ [])
      seeds [] [] 8 none (accounts 1 8)

-- A wrapped token, of the seed of one byte.
abbrev wrapped_mint : AccountInfo
wrapped_mint = handle (255 ∷ 6 ∷ replicate 30 0)

abbrev wrapped_token : AccountInfo
wrapped_token = handle (test_env.get_associated_token_address seeds wrapped_mint.key)

abbrev nft_run : Result (Unit {0} × Bank)
nft_run =
    process_deposit_nft test_env program
      (bridge_info ∷ wrapped_mint ∷ owner_token ∷ wrapped_token ∷ owner_info ∷ other_info
        ∷ other_info ∷ other_info ∷ sysvar_info ∷ other_info ∷ [])
      seeds [] [] (some (6 ∷ [])) (accounts 2 1)

abbrev deposit_of : ℕ → Bytes → DepositNativeArgs
deposit_of amount network = record {
  amount = amount;
  network_to = network;
  receiver_address = [];
  seeds = seeds;
  bundle_data = none;
  bundle_seed = none;
}

zero_amount_rejected_example :
    dispatch test_env program [] (deposit_native (deposit_of 0 [])) (accounts 0 0)
    ≡ err (into wrong_args_size)
zero_amount_rejected_example =
    zero_amount_rejected test_env program [] (accounts 0 0) (deposit_native (deposit_of 0 [])) refl

long_destination_rejected_example :
    dispatch test_env program [] (deposit_native (deposit_of 5 (replicate 21 65))) (accounts 0 0)
    ≡ err (into wrong_args_size)
long_destination_rejected_example =
    long_destination_rejected test_env program [] (accounts 0 0)
      (deposit_native (deposit_of 5 (replicate 21 65))) (replicate 21 65) [] refl
      (inl (omega arith))

charge_passes :
    verify_commission_charged test_env bridge_info sysvar_info test_bridge_admin TokenType.ft 8
      (accounts 1 8)
    ≡ ok (tt, accounts 1 8)
unfolding verify_commission_charged charges bytes_eq commission_admin_pda_seed
charge_passes = refl

verify_commission_charged_sound_example :
    Charged test_env bridge_info sysvar_info test_bridge_admin TokenType.ft 8 (accounts 1 8)
    × (accounts 1 8 ≡ accounts 1 8)
verify_commission_charged_sound_example =
    verify_commission_charged_sound test_env bridge_info sysvar_info test_bridge_admin TokenType.ft
      8 (accounts 1 8) (accounts 1 8) charge_passes
