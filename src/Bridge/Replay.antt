-- ===== src/Bridge/Replay.antt =====
-- An origin is withdrawn at most once: the account at the address of the origin is created by the
-- first withdrawal, nothing that happens later empties it, and a second creation fails.
pub mod Used
pub mod Held
pub mod Init
pub mod Admin
pub mod Program
use mathlib.Core.Option.{some-injective}
use solana_bridge_program.Common.{◌≡◌, ◌≢◌, none, some, Option, List, Bytes, arith}
use solana_bridge_program.Runtime.{Bank, AccountInfo, Pubkey, ok, lift, bind-ok}
use solana_bridge_program.Runtime.Keeps.{Keeps, Once, Once-second, Keeps-lift}
use solana_bridge_program.Runtime.History as Runtime
use solana_bridge_program.Env.{Env}
use solana_bridge_program.Shared.Instructions.Bridge.{
  BridgeInstruction, withdraw_native, withdraw_ft, withdraw_nft, validate_withdraw,
}
use solana_bridge_program.Bridge.Processor.{dispatch, process_instruction}
use solana_bridge_program.Bridge.Kept.Handlers.{process_instruction-Keeps}
use solana_bridge_program.Runtime.Laws.{RecordLaws, IsUsed}
use Used.{
  record_address, IsUsed-kept, written-IsUsed, withdraw_native-Once, withdraw_ft-Once,
  withdraw_nft-Once,
}

-- The origin of an instruction that withdraws.
abbrev pub withdraw_origin : BridgeInstruction → Option Bytes
withdraw_origin (withdraw_native args) = some args.origin
withdraw_origin (withdraw_ft args) = some args.origin
withdraw_origin (withdraw_nft args) = some args.origin
withdraw_origin _ = none

-- Instructions of the bridge that succeed, and steps of others.
abbrev pub History : Env → Pubkey → Bank → Bank → Type 0
History env program_id = Runtime.History program_id (process_instruction env program_id)

module _ (env : Env) (program_id : Pubkey) (laws : RecordLaws env program_id) where
  pub History-IsUsed :
      (k : Pubkey) {b c : Bank}
      → IsUsed program_id k b
      → History env program_id b c
      → IsUsed program_id k c
  History-IsUsed k =
      Runtime.History-kept (IsUsed program_id k)
        (λ infos input c d.
          (process_instruction-Keeps (IsUsed-kept env program_id laws k)
              (written-IsUsed env program_id laws k) program_id infos input).at
            c d tt)
        (λ c d quiet u.
          let same = quiet k u in record { owner = rw same.0 u.owner; filled = rw same.1 u.filled })

  dispatch-Once :
      (infos : List AccountInfo) (i : BridgeInstruction) (origin : Bytes)
      → withdraw_origin i ≡ some origin
      → Once
          (IsUsed program_id (record_address env program_id origin))
          (dispatch env program_id infos i)
  unfolding dispatch
  dispatch-Once infos (withdraw_native args) origin e = rw (← some-injective args.origin origin e) (
      Once-second (lift (validate_withdraw args)) _ (Keeps-lift (validate_withdraw args))
        (λ _. withdraw_native-Once env program_id laws infos _ _ _ _ _ _))
  dispatch-Once infos (withdraw_ft args) origin e = rw (← some-injective args.origin origin e) (
      Once-second (lift (validate_withdraw args)) _ (Keeps-lift (validate_withdraw args))
        (λ _. withdraw_ft-Once env program_id laws infos _ _ _ _ _ _ _ _))
  dispatch-Once infos (withdraw_nft args) origin e = rw (← some-injective args.origin origin e) (
      Once-second (lift (validate_withdraw args)) _ (Keeps-lift (validate_withdraw args))
        (λ _. withdraw_nft-Once env program_id laws infos _ _ _ _ _ _ _))
  dispatch-Once infos _ origin e = cc

  -- Once an origin was withdrawn, by any of the three instructions, no withdrawal of it succeeds
  -- again, whatever its kind, accounts, amount, signature and path, and whatever happened in
  -- between: any instructions of the bridge, and steps of others that leave the bridge's data
  -- alone. Assumed: the laws of the runtime (`RecordLaws`).
  pub no_double_withdraw :
      (infos infos' : List AccountInfo) (i j : BridgeInstruction) (origin : Bytes) (b b' c d : Bank)
      → withdraw_origin i ≡ some origin
      → withdraw_origin j ≡ some origin
      → dispatch env program_id infos i b ≡ ok (tt, b')
      → History env program_id b' c
      → dispatch env program_id infos' j c ≢ ok (tt, d)
  no_double_withdraw infos infos' i j origin b b' c d hi hj first h again =
      (dispatch-Once infos' j origin hj).fresh c d tt again
        (History-IsUsed _ ((dispatch-Once infos i origin hi).used b b' tt first) h)
