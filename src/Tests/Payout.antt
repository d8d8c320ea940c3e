-- ===== src/Tests/Payout.antt =====
-- A signed withdrawal of SOL that is not refused, at a concrete one.
use solana_bridge_program.Common.{
  ◌≡◌, ◌≤◌, refl, none, false, List, [], ◌∷◌, ◌++◌, Bytes, replicate, arith, bytes_eq,
}
use solana_bridge_program.Runtime.{Bank, Result, ok}
use solana_bridge_program.Shared.Types.{TokenType}
use solana_bridge_program.Shared.Merkle.{merkle_loop, merkle_step, amount_bytes, bytes_leb}
use solana_bridge_program.Shared.Calls.{call_create_account}
use solana_bridge_program.Bridge.State.{Withdraw, withdraw_size}
use solana_bridge_program.Bridge.Content
use solana_bridge_program.Bridge.Access.Opened.{Opened}
use solana_bridge_program.Bridge.Withdraw.{process_withdraw_native}
use solana_bridge_program.Bridge.Withdraw.Native.{Withdrawn}
use solana_bridge_program.Bridge.Withdraw.Signed.{IsSigned}
use solana_bridge_program.Bridge.Withdraw.Accepted.{IsFunded, signed_withdrawal_succeeds}
use solana_bridge_program.Tests.Platform.{test_env}
use solana_bridge_program.Tests.Accounts.{withdraw_codec-IsLawful}
use solana_bridge_program.Tests.Laws.{test_laws}
use solana_bridge_program.Tests.Scene.{
  program, seeds, bridge_info, owner_info, other_info, withdraw_info, origin, test_bridge_admin,
  accounts, after,
}

abbrev path : List Bytes
path = replicate 32 77 ∷ []

abbrev payout_signature : Bytes
payout_signature =
    let root =
      merkle_loop test_env
        (Content.hash test_env
          (Content.new origin owner_info.key program (Content.new_native_transfer 7)))
        path in
    root ++ root

abbrev creation : Result (Unit {0} × Bank)
creation =
    call_create_account test_env owner_info withdraw_info other_info other_info (withdraw_size 1)
      program (origin ∷ (255 ∷ []) ∷ []) (accounts 0 0)

abbrev funded : Bank
funded = after (accounts 0 0) creation

payout-IsFunded :
    IsFunded test_env program bridge_info owner_info withdraw_info other_info other_info [] seeds
      payout_signature 0 path origin 7
      (accounts 0 0)
      funded
unfolding call_create_account bytes_eq
payout-IsFunded = record {
  address = refl;
  created = refl;
  covered = omega arith;
  small = omega arith;
}

-- What the codec reads from zeros.
abbrev empty_record : Withdraw
empty_record = record {
  token_type = TokenType.native;
  mint = none;
  amount = 0;
  origin = replicate 32 0;
  receiver_address = replicate 32 0;
  is_initialized = false;
}

bridge-Opened : Opened test_env program seeds bridge_info (accounts 0 0) test_bridge_admin
unfolding bytes_eq
bridge-Opened = record { key = refl; stored = refl; initialized = refl }

payout-IsSigned :
    IsSigned test_env program origin owner_info.key
      (Content.new_native_transfer 7)
      path
      payout_signature
      0
      test_bridge_admin.public_key
unfolding merkle_loop merkle_step Content.hash Content.message Content.new Content.get_operation
    amount_bytes bytes_leb bytes_eq
payout-IsSigned = refl

payout_covered : 7 ≤ (accounts 0 0 bridge_info.key).lamports
unfolding bytes_eq
payout_covered = omega arith

signed_withdrawal_succeeds_example :
    (b' : Bank) × (process_withdraw_native test_env program
        (bridge_info ∷ owner_info ∷ withdraw_info ∷ other_info ∷ other_info ∷ [])
        seeds
        payout_signature
        0
        path
        origin
        7
        (accounts 0 0)
      ≡ ok (tt, b'))
    × Withdrawn test_env program bridge_info owner_info withdraw_info other_info other_info [] seeds
        payout_signature 0 path origin 7
        (accounts 0 0)
        b'
signed_withdrawal_succeeds_example =
    signed_withdrawal_succeeds test_env program bridge_info owner_info withdraw_info other_info
      other_info [] seeds payout_signature 0 path origin 7 test_bridge_admin empty_record
      (accounts 0 0) funded (test_laws program) refl refl (omega arith) withdraw_codec-IsLawful
      (refl, refl, omega arith, λ k e. cc) (λ e. cc) bridge-Opened payout-IsSigned payout_covered
      payout-IsFunded
