-- ===== src/Runtime/History.antt =====
-- What may happen to the accounts of a program between two of its instructions.
use solana_bridge_program.Common.{◌≡◌, List, Bytes}
use solana_bridge_program.Runtime.{Bank, AccountInfo, Pubkey, M, ok}
use solana_bridge_program.Runtime.Laws.{IsUsed}

-- A step of others leaves the data that the program owns alone.
abbrev pub IsForeign : Pubkey → Bank → Bank → Type 0
IsForeign program_id b b' =
    (k : Pubkey)
    → IsUsed program_id k b
    → ((b' k).owner ≡ (b k).owner) × ((b' k).data_bytes ≡ (b k).data_bytes)

-- Instructions of the program that succeed, and steps of others.
pub data History (program_id : Pubkey) (run : List AccountInfo → Bytes → M (Unit {0})) (b : Bank)
    : Bank → Type 0 where
  here : History program_id run b b
  own :
      {c d : Bank} (infos : List AccountInfo) (input : Bytes)
      → History program_id run b c
      → run infos input c ≡ ok (tt, d)
      → History program_id run b d
  others :
      {c d : Bank}
      → History program_id run b c
      → IsForeign program_id c d
      → History program_id run b d

-- What the program's instructions and the steps of others keep, a history keeps.
pub History-kept :
    {program_id : Pubkey} {run : List AccountInfo → Bytes → M (Unit {0})} (P : Bank → Type 0)
    → ((infos : List AccountInfo) (input : Bytes) (c d : Bank)
        → run infos input c ≡ ok (tt, d)
        → P c
        → P d)
    → ((c d : Bank) → IsForeign program_id c d → P c → P d)
    → {b c : Bank} → P b
    → History program_id run b c
    → P c
History-kept P ran foreign h here = h
History-kept P ran foreign h (own {c = m} {d = d} infos input past e) =
    ran infos input m d e (History-kept P ran foreign h past)
History-kept P ran foreign h (others {c = m} {d = d} past quiet) =
    foreign m d quiet (History-kept P ran foreign h past)
