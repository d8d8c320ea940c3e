-- ===== src/Shared/Client/Bridge/Withdrawals.antt =====
-- The builders of withdrawals in lib/src/instructions/bridge.rs.
use solana_bridge_program.Common.{ℕ, Option, true, false, List, [], ◌∷◌, Bytes}
use solana_bridge_program.Runtime.{Pubkey, Instruction}
use solana_bridge_program.Env.{Env}
use solana_bridge_program.Shared.Client.Accounts.{writable, readonly}
use solana_bridge_program.Shared.Instructions.Bridge.{BridgeInstruction, SignedMetadata}

module _ (env : Env) where
  unfoldable pub withdraw_native :
      Pubkey
      → Pubkey
      → Pubkey
      → Pubkey
      → Bytes
      → Bytes
      → ℕ
      → Bytes
      → ℕ
      → List Bytes
      → Option Bytes
      → Option SignedMetadata
      → Instruction
  withdraw_native program_id bridge_admin owner withdraw seeds origin amount signature recovery_id
        path token_seed signed_meta =
      record {
        program_id = program_id;
        accounts =
            readonly bridge_admin false
            ∷ writable owner true
            ∷ writable withdraw false
            ∷ readonly env.spl_token_id false
            ∷ readonly env.system_program_id false
            ∷ readonly env.rent_id false
            ∷ [];
        data_bytes = env.bridge_instruction.serialize (
            BridgeInstruction.withdraw_native (record {
              origin = origin;
              amount = amount;
              signature = signature;
              recovery_id = recovery_id;
              path = path;
              seeds = seeds;
              token_seed = token_seed;
              signed_meta = signed_meta;
            }));
      }

  unfoldable pub withdraw_ft :
      Pubkey
      → Pubkey
      → Pubkey
      → Pubkey
      → Pubkey
      → Bytes
      → Bytes
      → ℕ
      → Bytes
      → ℕ
      → List Bytes
      → Option Bytes
      → Option SignedMetadata
      → Instruction
  withdraw_ft program_id bridge_admin mint owner withdraw seeds origin amount signature recovery_id
        path token_seed signed_meta =
      record {
        program_id = program_id;
        accounts =
            readonly bridge_admin false
            ∷ readonly mint false
            ∷ writable owner true
            ∷ writable (env.get_associated_token_address owner mint) false
            ∷ writable (env.get_associated_token_address bridge_admin mint) false
            ∷ writable withdraw false
            ∷ readonly env.spl_token_id false
            ∷ readonly env.system_program_id false
            ∷ readonly env.rent_id false
            ∷ readonly env.spl_associated_token_account_id false
            ∷ [];
        data_bytes = env.bridge_instruction.serialize (
            BridgeInstruction.withdraw_ft (record {
              origin = origin;
              amount = amount;
              signature = signature;
              recovery_id = recovery_id;
              path = path;
              seeds = seeds;
              token_seed = token_seed;
              signed_meta = signed_meta;
            }));
      }

  unfoldable pub withdraw_nft :
      Pubkey
      → Pubkey
      → Pubkey
      → Pubkey
      → Pubkey
      → Pubkey
      → Bytes
      → Bytes
      → ℕ
      → Bytes
      → ℕ
      → List Bytes
      → Option Bytes
      → Option SignedMetadata
      → Instruction
  withdraw_nft program_id bridge_admin mint metadata owner withdraw seeds origin amount signature
        recovery_id path token_seed signed_meta =
      record {
        program_id = program_id;
        accounts =
            readonly bridge_admin false
            ∷ writable mint false
            ∷ writable metadata false
            ∷ writable owner true
            ∷ writable (env.get_associated_token_address owner mint) false
            ∷ writable (env.get_associated_token_address bridge_admin mint) false
            ∷ writable withdraw false
            ∷ readonly env.spl_token_id false
            ∷ readonly env.system_program_id false
            ∷ readonly env.rent_id false
            ∷ readonly env.mpl_token_metadata_id false
            ∷ readonly env.spl_associated_token_account_id false
            ∷ [];
        data_bytes = env.bridge_instruction.serialize (
            BridgeInstruction.withdraw_nft (record {
              origin = origin;
              amount = amount;
              signature = signature;
              recovery_id = recovery_id;
              path = path;
              seeds = seeds;
              token_seed = token_seed;
              signed_meta = signed_meta;
            }));
      }
