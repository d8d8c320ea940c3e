-- ===== src/Shared/Client/Commission.antt =====
-- The builders of client instructions in lib/src/instructions/commission.rs.
use solana_bridge_program.Common.{ℕ, true, false, [], ◌∷◌}
use solana_bridge_program.Runtime.{Pubkey, Instruction}
use solana_bridge_program.Env.{Env}
use solana_bridge_program.Shared.Types.{CommissionToken, TokenType}
use solana_bridge_program.Shared.Client.Accounts.{writable, readonly}
use solana_bridge_program.Shared.Instructions.Commission.{CommissionInstruction}

module _ (env : Env) where
  unfoldable pub charge_commission_native :
      Pubkey → Pubkey → Pubkey → Pubkey → CommissionToken → TokenType → ℕ → Instruction
  charge_commission_native program_id commission_admin bridge_admin owner token deposit_token
        deposit_token_amount =
      record {
        program_id = program_id;
        accounts =
            writable commission_admin false
            ∷ readonly bridge_admin false
            ∷ writable owner true
            ∷ readonly env.system_program_id false
            ∷ readonly env.rent_id false
            ∷ readonly env.spl_token_id false
            ∷ [];
        data_bytes = env.commission_instruction.serialize (
            CommissionInstruction.charge_commission (record {
              token = token;
              deposit_token = deposit_token;
              deposit_token_amount = deposit_token_amount;
            }));
      }

  unfoldable pub charge_commission_ft :
      Pubkey → Pubkey → Pubkey → Pubkey → Pubkey → CommissionToken → TokenType → ℕ → Instruction
  charge_commission_ft program_id commission_admin bridge_admin owner mint token deposit_token
        deposit_token_amount =
      record {
        program_id = program_id;
        accounts =
            writable commission_admin false
            ∷ readonly bridge_admin false
            ∷ writable owner true
            ∷ readonly env.system_program_id false
            ∷ readonly env.rent_id false
            ∷ readonly env.spl_token_id false
            ∷ writable (env.get_associated_token_address owner mint) false
            ∷ writable (env.get_associated_token_address commission_admin mint) false
            ∷ readonly mint false
            ∷ [];
        data_bytes = env.commission_instruction.serialize (
            CommissionInstruction.charge_commission (record {
              token = token;
              deposit_token = deposit_token;
              deposit_token_amount = deposit_token_amount;
            }));
      }
