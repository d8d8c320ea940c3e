-- ===== src/Shared/Client/Bridge/Deposits.antt =====
-- The builders of deposits in lib/src/instructions/bridge.rs.
use solana_bridge_program.Common.{ℕ, Option, true, false, [], ◌∷◌, Bytes}
use solana_bridge_program.Runtime.{Pubkey, Instruction}
use solana_bridge_program.Env.{Env}
use solana_bridge_program.Shared.Client.Accounts.{writable, readonly}
use solana_bridge_program.Shared.Instructions.Bridge.{BridgeInstruction}

module _ (env : Env) where
  unfoldable pub deposit_native :
      Pubkey
      → Pubkey
      → Pubkey
      → Bytes
      → Bytes
      → ℕ
      → Bytes
      → Option Bytes
      → Option Bytes
      → Instruction
  deposit_native program_id bridge_admin owner seeds network_to amount receiver_address bundle_data
        bundle_seed =
      record {
        program_id = program_id;
        accounts =
            writable bridge_admin false
            ∷ writable owner true
            ∷ readonly env.system_program_id false
            ∷ readonly env.rent_id false
            ∷ [];
        data_bytes = env.bridge_instruction.serialize (
            BridgeInstruction.deposit_native (record {
              amount = amount;
              network_to = network_to;
              receiver_address = receiver_address;
              seeds = seeds;
              bundle_data = bundle_data;
              bundle_seed = bundle_seed;
            }));
      }

  unfoldable pub deposit_ft :
      Pubkey
      → Pubkey
      → Pubkey
      → Pubkey
      → Bytes
      → Bytes
      → Bytes
      → ℕ
      → Option Bytes
      → Option Bytes
      → Option Bytes
      → Instruction
  deposit_ft program_id bridge_admin mint owner seeds network_to receiver_address amount token_seed
        bundle_data bundle_seed =
      record {
        program_id = program_id;
        accounts =
            readonly bridge_admin false
            ∷ writable mint false
            ∷ writable (env.get_associated_token_address owner mint) false
            ∷ writable (env.get_associated_token_address bridge_admin mint) false
            ∷ writable owner true
            ∷ readonly env.spl_token_id false
            ∷ readonly env.system_program_id false
            ∷ readonly env.rent_id false
            ∷ readonly env.spl_associated_token_account_id false
            ∷ [];
        data_bytes = env.bridge_instruction.serialize (
            BridgeInstruction.deposit_ft (record {
              amount = amount;
              network_to = network_to;
              receiver_address = receiver_address;
              seeds = seeds;
              token_seed = token_seed;
              bundle_data = bundle_data;
              bundle_seed = bundle_seed;
            }));
      }

  unfoldable pub deposit_nft :
      Pubkey
      → Pubkey
      → Pubkey
      → Pubkey
      → Bytes
      → Bytes
      → Bytes
      → Option Bytes
      → Option Bytes
      → Option Bytes
      → Instruction
  deposit_nft program_id bridge_admin mint owner seeds network_to receiver_address token_seed
        bundle_data bundle_seed =
      record {
        program_id = program_id;
        accounts =
            readonly bridge_admin false
            ∷ writable mint false
            ∷ writable (env.get_associated_token_address owner mint) false
            ∷ writable (env.get_associated_token_address bridge_admin mint) false
            ∷ writable owner true
            ∷ readonly env.spl_token_id false
            ∷ readonly env.system_program_id false
            ∷ readonly env.rent_id false
            ∷ readonly env.spl_associated_token_account_id false
            ∷ [];
        data_bytes = env.bridge_instruction.serialize (
            BridgeInstruction.deposit_nft (record {
              network_to = network_to;
              receiver_address = receiver_address;
              seeds = seeds;
              token_seed = token_seed;
              bundle_data = bundle_data;
              bundle_seed = bundle_seed;
            }));
      }
