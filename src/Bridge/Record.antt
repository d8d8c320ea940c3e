-- ===== src/Bridge/Record.antt =====
-- The withdraw account of bridge/program/src/processor.rs: the record of a withdrawal that was made,
-- at the address of its origin.
use solana_bridge_program.Common.{ℕ, true, not, Option, [], ◌∷◌, Bytes, bytes_eq}
use solana_bridge_program.Runtime.{
  Pubkey, AccountInfo, M, account, require, from_option, borsh_io_error, write_data, ◌>>=◌, ◌>>◌,
}
use solana_bridge_program.Shared.Error.{wrong_nonce, already_in_use}
use solana_bridge_program.Shared.Types.{TokenType}
use solana_bridge_program.Env.{Env}
use solana_bridge_program.Shared.Calls.{call_create_account}
use solana_bridge_program.Bridge.State.{Withdraw, withdraw_size}

module _ (env : Env) where
  -- The address check and the creation of the account.
  unfoldable pub create_withdraw_account :
      Pubkey → Bytes → AccountInfo → AccountInfo → AccountInfo → AccountInfo → M (Unit {0})
  create_withdraw_account program_id origin owner_info withdraw_info rent_info system_program = do
    let found = env.find_program_address (origin ∷ []) program_id
    require (bytes_eq found.0 withdraw_info.key) wrong_nonce
    call_create_account env owner_info withdraw_info rent_info system_program
        (withdraw_size env.size_of_token_type) program_id (origin ∷ (found.1 ∷ []) ∷ [])

  -- The check that the account is new, and the record.
  unfoldable pub init_withdraw_account : AccountInfo → Withdraw → M (Unit {0})
  init_withdraw_account withdraw_info filled = do
    a ← account withdraw_info
    withdraw ← from_option (env.withdraw.deserialize a.data_bytes) borsh_io_error
    require (not withdraw.is_initialized) already_in_use
    write_data withdraw_info (env.withdraw.serialize filled)

abbrev pub filled_withdraw : TokenType → Bytes → Option Pubkey → ℕ → Pubkey → Withdraw
filled_withdraw token_type origin mint amount receiver = record {
  token_type = token_type;
  mint = mint;
  amount = amount;
  origin = origin;
  receiver_address = receiver;
  is_initialized = true;
}
