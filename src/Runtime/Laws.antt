-- ===== src/Runtime/Laws.antt =====
-- What the theorems assume of the Solana runtime.
use solana_bridge_program.Common.{ℕ, ◌≡◌, ◌<◌, List, [], Bytes, length, replicate}
use solana_bridge_program.Runtime.{Bank, AccountInfo, Pubkey, Instruction, ok}
use solana_bridge_program.Env.{Env}

-- The account belongs to the program and holds data.
pub record IsUsed (program_id k : Pubkey) (b : Bank) : Type 0 where
  pub owner : (b k).owner ≡ program_id
  pub filled : 0 < length (b k).data_bytes

-- What the runtime documents. A call of another program cannot change the owner or the data of an
-- account that the calling program owns; `create_account` fails where the new account has data, and
-- leaves it with the given owner and as many zero bytes as were asked for.
pub record RecordLaws (env : Env) (program_id : Pubkey) : Type 0 where
  pub owned_kept :
      (k : Pubkey) (ix : Instruction) (infos : List AccountInfo) (seeds : List (List Bytes))
      (b b' : Bank)
      → env.invoke_signed ix infos seeds b ≡ ok (tt, b')
      → IsUsed program_id k b
      → ((b' k).owner ≡ (b k).owner) × ((b' k).data_bytes ≡ (b k).data_bytes)
  pub create_fresh :
      (payer new owner : Pubkey) (lamports space : ℕ) (infos : List AccountInfo)
      (seeds : List (List Bytes)) (b b' : Bank)
      → env.invoke_signed (env.system_create_account payer new lamports space owner) infos seeds b
        ≡ ok (tt, b')
      → (b new).data_bytes ≡ []
  pub create_done :
      (payer new owner : Pubkey) (lamports space : ℕ) (infos : List AccountInfo)
      (seeds : List (List Bytes)) (b b' : Bank)
      → env.invoke_signed (env.system_create_account payer new lamports space owner) infos seeds b
        ≡ ok (tt, b')
      → ((b' new).owner ≡ owner) × ((b' new).data_bytes ≡ replicate space 0)
