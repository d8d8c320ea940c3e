-- ===== src/Tests/Withdrawals.antt =====
-- The theorems on withdrawals, at concrete ones.
use mathlib.Core.Option.{some-injective}
use solana_bridge_program.Common.{
  ℕ, ◌∙◌, Option, ◌≡◌, ◌≢◌, ◌-◌, ltb, if◌then◌else◌, refl, none, some, List, [], ◌∷◌, ◌++◌, Bytes,
  replicate, arith, bytes_eq, length,
}
use solana_bridge_program.Runtime.{
  Pubkey, AccountInfo, Bank, Result, ok, write_data, next_account_info, checked_add,
}
use solana_bridge_program.Env.{Metadata}
use solana_bridge_program.Shared.Types.{TokenType, as_bytes}
use solana_bridge_program.Shared.Merkle.{
  merkle_loop, merkle_step, get_merkle_root, amount_bytes, bytes_leb,
}
use solana_bridge_program.Shared.Ecdsa.{verify_ecdsa_signature}
use solana_bridge_program.Shared.Calls.{call_create_account, call_create_associated_account}
use solana_bridge_program.Shared.Instructions.Bridge.{
  WithdrawArgs, withdraw_native, validate_withdraw,
}
use solana_bridge_program.Bridge.Content
use solana_bridge_program.Bridge.Access.{open_bridge_admin, check_seeds, read_bridge_admin}
use solana_bridge_program.Bridge.Token.{
  ensure_associated_account, call_mint_to, call_transfer_token,
}
use solana_bridge_program.Bridge.Mint.{mint_if_seeded}
use solana_bridge_program.Bridge.Record.{
  create_withdraw_account, init_withdraw_account, filled_withdraw,
}
use solana_bridge_program.Bridge.Withdraw.{
  process_withdraw_native, process_withdraw_ft, process_withdraw_nft, verify_content, sub_lamports,
  add_lamports, read_metadata, read_collection, trim_matches, trim_start, release_tokens,
  read_token_amount, mint_missing,
}
use solana_bridge_program.Bridge.Withdraw.Native.{Withdrawn, withdraw_native_sound}
use solana_bridge_program.Bridge.Withdraw.Tokens.{Released, withdraw_ft_sound}
use solana_bridge_program.Bridge.Processor.{dispatch}
use solana_bridge_program.Runtime.History.{here, others}
use solana_bridge_program.Bridge.Replay.{no_double_withdraw}
use solana_bridge_program.Tests.Platform.{test_env}
use solana_bridge_program.Tests.Accounts.{withdraw_codec-IsLawful}
use solana_bridge_program.Tests.Laws.{test_laws}
use solana_bridge_program.Tests.Scene.{
  program, seeds, bridge_info, owner_info, other_info, withdraw_info, mint_info, metadata_info,
  owner_token, bridge_token, origin, accounts, after,
}

abbrev path : List Bytes
path = replicate 32 77 ∷ []

abbrev signature_of : Content.TransferData → Bytes
signature_of transfer =
    let root =
      merkle_loop test_env
        (Content.hash test_env (Content.new origin owner_info.key program transfer)) path in
    root ++ root

abbrev native_run : Result (Unit {0} × Bank)
native_run =
    process_withdraw_native test_env program
      (bridge_info ∷ owner_info ∷ withdraw_info ∷ other_info ∷ other_info ∷ []) seeds
      (signature_of (Content.new_native_transfer 7)) 0 path origin 7 (accounts 0 0)

native_runs : native_run ≡ ok (tt, after (accounts 0 0) native_run)
unfolding process_withdraw_native open_bridge_admin check_seeds read_bridge_admin verify_content
    get_merkle_root verify_ecdsa_signature create_withdraw_account init_withdraw_account
    call_create_account sub_lamports add_lamports write_data bytes_eq next_account_info merkle_loop
    merkle_step Content.hash Content.message Content.new Content.get_operation amount_bytes
    bytes_leb checked_add
native_runs = refl

withdraw_native_sound_example :
    Withdrawn test_env program bridge_info owner_info withdraw_info other_info other_info [] seeds
      (signature_of (Content.new_native_transfer 7))
      0
      path
      origin
      7
      (accounts 0 0)
      (after (accounts 0 0) native_run)
withdraw_native_sound_example =
    withdraw_native_sound test_env program bridge_info owner_info withdraw_info other_info
      other_info [] seeds (signature_of (Content.new_native_transfer 7)) 0 path origin 7
      (accounts 0 0) (after (accounts 0 0) native_run) withdraw_codec-IsLawful
      (refl, refl, omega arith, λ k e. cc) (λ e. cc) native_runs

abbrev token_infos : List AccountInfo
token_infos =
    bridge_info ∷ mint_info ∷ metadata_info ∷ owner_info ∷ owner_token ∷ bridge_token
    ∷ withdraw_info ∷ other_info ∷ other_info ∷ other_info ∷ other_info ∷ other_info ∷ []

mint_size : (k : Pubkey) → some mint_info.key ≡ some k → length k ≡ 32
mint_size k e = rw (← some-injective mint_info.key k e) refl

abbrev ft_transfer : Content.TransferData
ft_transfer =
    Content.new_ft_transfer mint_info.key 150 (as_bytes "Gold") (as_bytes "GLD") (as_bytes "g") 6

abbrev ft_run : Result (Unit {0} × Bank)
ft_run =
    process_withdraw_ft test_env program token_infos seeds (signature_of ft_transfer) 0 path origin
      150 none none (accounts 0 0)

ft_runs : ft_run ≡ ok (tt, after (accounts 0 0) ft_run)
unfolding process_withdraw_ft open_bridge_admin check_seeds read_bridge_admin mint_if_seeded
    read_metadata read_collection trim_matches trim_start release_tokens ensure_associated_account
    call_create_associated_account read_token_amount mint_missing call_mint_to call_transfer_token
    verify_content get_merkle_root verify_ecdsa_signature create_withdraw_account
    init_withdraw_account call_create_account write_data bytes_eq next_account_info merkle_loop
    merkle_step Content.hash Content.message Content.new Content.get_operation amount_bytes
    bytes_leb
ft_runs = refl

withdraw_ft_sound_example :
    (minted : Bank) × (metadata : Metadata) × (decimals : ℕ) × (test_env.metadata_from_bytes
        (minted metadata_info.key).data_bytes
      ≡ ok metadata)
    × (test_env.unpack_mint (minted mint_info.key).data_bytes ≡ ok decimals)
    × Released test_env program bridge_info mint_info metadata_info owner_info owner_token
        bridge_token withdraw_info other_info other_info other_info other_info other_info [] seeds
        (signature_of ft_transfer)
        0
        path
        origin
        none
        none
        (Content.new_ft_transfer mint_info.key 150
          (trim_matches metadata.name)
          (trim_matches metadata.symbol)
          (trim_matches metadata.uri)
          decimals)
        (filled_withdraw TokenType.ft origin (some mint_info.key) 150 owner_info.key)
        150
        (λ held. if ltb held 150 then some (150 - held) else none)
        (accounts 0 0)
        minted
        (after (accounts 0 0) ft_run)
withdraw_ft_sound_example =
    withdraw_ft_sound test_env program bridge_info mint_info metadata_info owner_info owner_token
      bridge_token withdraw_info other_info other_info other_info other_info other_info [] seeds
      (signature_of ft_transfer) 0 path origin none none 150 (accounts 0 0)
      (after (accounts 0 0) ft_run) withdraw_codec-IsLawful (refl, refl, omega arith, mint_size)
      ft_runs

abbrev nft_transfer : Content.TransferData
nft_transfer =
    Content.new_nft_transfer mint_info.key none (as_bytes "Gold") (as_bytes "GLD") (as_bytes "g")

abbrev nft_run : Result (Unit {0} × Bank)
nft_run =
    process_withdraw_nft test_env program token_infos seeds (signature_of nft_transfer) 0 path
      origin none none (accounts 0 0)

abbrev native_args : WithdrawArgs
native_args = record {
  origin = origin;
  amount = 7;
  signature = signature_of (Content.new_native_transfer 7);
  recovery_id = 0;
  path = path;
  seeds = seeds;
  token_seed = none;
  signed_meta = none;
}

abbrev native_infos : List AccountInfo
native_infos = bridge_info ∷ owner_info ∷ withdraw_info ∷ other_info ∷ other_info ∷ []

native_dispatched :
    dispatch test_env program native_infos (withdraw_native native_args) (accounts 0 0) ≡ native_run
unfolding dispatch validate_withdraw
native_dispatched = refl

no_double_withdraw_example :
    dispatch test_env program native_infos
      (withdraw_native native_args)
      (after (accounts 0 0) native_run)
    ≢ ok (tt, after (accounts 0 0) native_run)
no_double_withdraw_example =
    no_double_withdraw test_env program (test_laws program) native_infos native_infos
      (withdraw_native native_args) (withdraw_native native_args) origin (accounts 0 0)
      (after (accounts 0 0) native_run) (after (accounts 0 0) native_run)
      (after (accounts 0 0) native_run) refl refl (native_dispatched ∙ native_runs)
      (others here (λ k u. (refl, refl)))
