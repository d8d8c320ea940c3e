-- ===== src/Shared/Client/Bridge.antt =====
-- The builders of client instructions in lib/src/instructions/bridge.rs, which serialize the
-- instruction by `try_to_vec().unwrap()`.
pub mod Deposits
pub mod Withdrawals
use solana_bridge_program.Common.{ℕ, Option, true, false, List, [], ◌∷◌, Bytes}
use solana_bridge_program.Runtime.{Pubkey, Instruction}
use solana_bridge_program.Env.{Env}
use solana_bridge_program.Shared.Client.Accounts.{writable, readonly}
use solana_bridge_program.Shared.Instructions.Bridge.{BridgeInstruction, SignedMetadata}
unfoldable pub use Deposits.{deposit_native, deposit_ft, deposit_nft}
unfoldable pub use Withdrawals.{withdraw_native, withdraw_ft, withdraw_nft}

module _ (env : Env) where
  unfoldable pub initialize_admin : Pubkey → Pubkey → Pubkey → Pubkey → Bytes → Bytes → Instruction
  initialize_admin program_id bridge_admin fee_payer commission_program public_key seeds = record {
    program_id = program_id;
    accounts =
        writable bridge_admin false
        ∷ writable fee_payer true
        ∷ readonly env.system_program_id false
        ∷ readonly env.rent_id false
        ∷ [];
    data_bytes = env.bridge_instruction.serialize (
        BridgeInstruction.initialize_admin (record {
          public_key = public_key;
          seeds = seeds;
          commission_program = commission_program;
        }));
  }

  unfoldable pub transfer_ownership : Pubkey → Pubkey → Bytes → Bytes → ℕ → Bytes → Instruction
  transfer_ownership program_id bridge_admin signature new_public_key recovery_id seeds = record {
    program_id = program_id;
    accounts = writable bridge_admin false ∷ [];
    data_bytes = env.bridge_instruction.serialize (
        BridgeInstruction.transfer_ownership (record {
          signature = signature;
          new_public_key = new_public_key;
          seeds = seeds;
          recovery_id = recovery_id;
        }));
  }
