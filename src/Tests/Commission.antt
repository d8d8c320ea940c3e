-- ===== src/Tests/Commission.antt =====
-- The theorems on the commission program, at concrete changes and a concrete withdrawal.
use solana_bridge_program.Common.{
  ℕ, ◌≡◌, refl, none, some, List, [], ◌∷◌, ◌++◌, Bytes, replicate, bytes_eq, Option,
}
use solana_bridge_program.Runtime.{
  Bank, Result, ok, next_account_info, write_data, checked_add, Pubkey,
}
use solana_bridge_program.Shared.Types.{
  CommissionToken as CommissionTokenKind, commission_admin_pda_seed, commission_token_eq,
}
use solana_bridge_program.Shared.Ecdsa.{verify_ecdsa_signature}
use solana_bridge_program.Shared.Merkle.{
  merkle_loop, merkle_step, get_merkle_root, amount_bytes, bytes_leb,
}
use solana_bridge_program.Shared.Instructions.Commission.{CommissionTokenArg}
use solana_bridge_program.Bridge.Access.{read_bridge_admin}
use solana_bridge_program.Commission.State.{
  CommissionToken, CommissionAdmin, OperationType, add_token, remove_token, update_token,
  withdraw_token, from_arg, operation_byte,
}
use solana_bridge_program.Commission.Content
use solana_bridge_program.Commission.Tokens.{check_token_is_acceptable, remove_first, update_first}
use solana_bridge_program.Commission.Tokens.Lookup.{NoneOf, check_first}
use solana_bridge_program.Commission.Access.{
  read_commission_admin, check_admin_key, open_commission_admin, open_signer, verify_content,
}
use solana_bridge_program.Commission.Access.Opened.{Opened}
use solana_bridge_program.Commission.Payments.{pay_token, call_transfer_native}
use solana_bridge_program.Commission.Handlers.{
  process_add_token, process_remove_token, process_update_token, process_withdraw,
}
use solana_bridge_program.Commission.Handlers.Changes.{
  Changed, add_token_sound, remove_token_sound, update_token_sound,
}
use solana_bridge_program.Commission.Handlers.Withdrawal.{
  Withdrawn, pay_and_count, request, withdraw_sound, withdraw_amount_unsigned,
}
use solana_bridge_program.Tests.Platform.{test_env}
use solana_bridge_program.Tests.Scene.{
  commission_program, commission_info, bridge_info, owner_info, other_info, accounts, after,
}

abbrev path : List Bytes
path = replicate 32 77 ∷ []

abbrev token : CommissionTokenArg
token = record { token = CommissionTokenKind.native; amount = 5 }

abbrev signature_of : OperationType → Option Pubkey → Bytes
signature_of operation receiver =
    let content = Content.new 0 receiver commission_program operation (from_arg token) in
    let root = merkle_loop test_env (Content.hash test_env content) path in root ++ root

abbrev add_run : Result (Unit {0} × Bank)
add_run =
    process_add_token test_env commission_program (commission_info ∷ bridge_info ∷ [])
      (signature_of add_token none) 0 path token (accounts 0 0)

add_runs : add_run ≡ ok (tt, after (accounts 0 0) add_run)
unfolding process_add_token open_commission_admin check_admin_key read_commission_admin
    commission_admin_pda_seed open_signer read_bridge_admin verify_content get_merkle_root
    verify_ecdsa_signature bytes_eq next_account_info write_data checked_add merkle_loop merkle_step
    bytes_leb amount_bytes Content.hash Content.message Content.new operation_byte
add_runs = refl

add_token_sound_example :
    Changed test_env commission_program commission_info bridge_info []
      (signature_of add_token none)
      0
      path
      token
      add_token
      (λ admin. admin.add_token_nonce)
      (λ admin nonce. record admin {
        add_token_nonce = nonce;
        acceptable_tokens = admin.acceptable_tokens ++ from_arg token ∷ [];
      })
      (accounts 0 0)
      (after (accounts 0 0) add_run)
add_token_sound_example =
    add_token_sound test_env commission_program commission_info bridge_info []
      (signature_of add_token none) 0 path token (accounts 0 0) (after (accounts 0 0) add_run)
      add_runs

abbrev remove_run : Result (Unit {0} × Bank)
remove_run =
    process_remove_token test_env commission_program (commission_info ∷ bridge_info ∷ [])
      (signature_of remove_token none) 0 path token (accounts 0 0)

remove_runs : remove_run ≡ ok (tt, after (accounts 0 0) remove_run)
unfolding process_remove_token open_commission_admin check_admin_key read_commission_admin
    commission_admin_pda_seed open_signer read_bridge_admin verify_content get_merkle_root
    verify_ecdsa_signature bytes_eq next_account_info write_data checked_add merkle_loop merkle_step
    bytes_leb amount_bytes Content.hash Content.message Content.new operation_byte
remove_runs = refl

remove_token_sound_example :
    Changed test_env commission_program commission_info bridge_info []
      (signature_of remove_token none)
      0
      path
      token
      remove_token
      (λ admin. admin.remove_token_nonce)
      (λ admin nonce. record admin {
        acceptable_tokens = remove_first (from_arg token) admin.acceptable_tokens;
        remove_token_nonce = nonce;
      })
      (accounts 0 0)
      (after (accounts 0 0) remove_run)
remove_token_sound_example =
    remove_token_sound test_env commission_program commission_info bridge_info []
      (signature_of remove_token none) 0 path token (accounts 0 0) (after (accounts 0 0) remove_run)
      remove_runs

abbrev update_run : Result (Unit {0} × Bank)
update_run =
    process_update_token test_env commission_program (commission_info ∷ bridge_info ∷ [])
      (signature_of update_token none) 0 path token (accounts 0 0)

update_runs : update_run ≡ ok (tt, after (accounts 0 0) update_run)
unfolding process_update_token open_commission_admin check_admin_key read_commission_admin
    commission_admin_pda_seed open_signer read_bridge_admin verify_content get_merkle_root
    verify_ecdsa_signature bytes_eq next_account_info write_data checked_add merkle_loop merkle_step
    bytes_leb amount_bytes Content.hash Content.message Content.new operation_byte
update_runs = refl

update_token_sound_example :
    Changed test_env commission_program commission_info bridge_info []
      (signature_of update_token none)
      0
      path
      token
      update_token
      (λ admin. admin.update_token_nonce)
      (λ admin nonce. record admin {
        acceptable_tokens = update_first (from_arg token) admin.acceptable_tokens;
        update_token_nonce = nonce;
      })
      (accounts 0 0)
      (after (accounts 0 0) update_run)
update_token_sound_example =
    update_token_sound test_env commission_program commission_info bridge_info []
      (signature_of update_token none) 0 path token (accounts 0 0) (after (accounts 0 0) update_run)
      update_runs

abbrev withdraw_run : Result (Unit {0} × Bank)
withdraw_run =
    process_withdraw test_env commission_program
      (commission_info ∷ bridge_info ∷ owner_info ∷ other_info ∷ other_info ∷ [])
      (signature_of withdraw_token (some owner_info.key)) 0 path token 40 (accounts 0 0)

withdraw_runs : withdraw_run ≡ ok (tt, after (accounts 0 0) withdraw_run)
unfolding process_withdraw pay_token call_transfer_native open_commission_admin check_admin_key
    read_commission_admin commission_admin_pda_seed open_signer read_bridge_admin verify_content
    get_merkle_root verify_ecdsa_signature bytes_eq next_account_info write_data checked_add
    merkle_loop merkle_step bytes_leb amount_bytes Content.hash Content.message Content.new
    operation_byte
withdraw_runs = refl

withdraw_sound_example :
    Withdrawn test_env commission_program commission_info bridge_info owner_info other_info
      other_info []
      (signature_of withdraw_token (some owner_info.key))
      0
      path
      token
      40
      (accounts 0 0)
      (after (accounts 0 0) withdraw_run)
withdraw_sound_example =
    withdraw_sound test_env commission_program commission_info bridge_info owner_info other_info
      other_info [] (signature_of withdraw_token (some owner_info.key)) 0 path token 40
      (accounts 0 0) (after (accounts 0 0) withdraw_run) withdraw_runs

withdraw_amount_unsigned_example :
    (admin : CommissionAdmin) × Opened test_env commission_program commission_info bridge_info
      (accounts 0 0)
      admin
    × (request test_env commission_program commission_info bridge_info owner_info other_info
          other_info []
          (signature_of withdraw_token (some owner_info.key))
          0
          path
          token
          9000
          (accounts 0 0)
        ≡ pay_and_count test_env commission_program commission_info bridge_info owner_info
            other_info other_info []
            (signature_of withdraw_token (some owner_info.key))
            0
            path
            token
            admin
            9000
            (accounts 0 0))
withdraw_amount_unsigned_example =
    withdraw_amount_unsigned test_env commission_program commission_info bridge_info owner_info
      other_info other_info [] (signature_of withdraw_token (some owner_info.key)) 0 path token 40
      9000 (accounts 0 0) (after (accounts 0 0) withdraw_run) withdraw_runs

abbrev sol : ℕ → CommissionToken
sol amount = record { token = CommissionTokenKind.native; amount = amount }

abbrev gold : ℕ → CommissionToken
gold amount = record { token = CommissionTokenKind.ft (1 ∷ []); amount = amount }

finds_gold :
    check_token_is_acceptable (sol 5 ∷ gold 3 ∷ []) (CommissionTokenKind.ft (1 ∷ [])) ≡ ok (gold 3)
unfolding check_token_is_acceptable commission_token_eq bytes_eq
finds_gold = refl

check_first_example :
    (before : List CommissionToken) × (after : List CommissionToken) × (sol 5 ∷ gold 3 ∷ []
      ≡ before ++ gold 3 ∷ after)
    × (CommissionTokenKind.ft (1 ∷ []) ≡ CommissionTokenKind.ft (1 ∷ []))
    × NoneOf (CommissionTokenKind.ft (1 ∷ [])) before
check_first_example =
    check_first (sol 5 ∷ gold 3 ∷ []) (CommissionTokenKind.ft (1 ∷ [])) (gold 3) finds_gold
