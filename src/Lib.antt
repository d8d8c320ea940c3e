-- ===== src/Lib.antt =====
-- The Rarimo bridge on Solana: three programs and the library that they share, modelled as
-- functions on the accounts, with the theorems that make them correct.
--
-- The bridge program (bridge/program) takes deposits of SOL, fungible tokens and NFTs for other
-- networks, and releases them for withdrawals that the core signs. The commission program
-- (commission/program) is paid for a deposit by the instruction before it in the transaction, which
-- the bridge looks up. The upgrade program (upgrade/program) upgrades a program with a signature.
-- The shared library (lib) has the Merkle path, the signature check, the calls that create
-- accounts, the errors and the instructions.
--
-- Files and code, by the paths of the repository:
--   Runtime, Runtime/Store: the accounts (`Bank`), account handles, errors, and the actions (`M`)
--     that read and write accounts or fail; what a write leaves alone. Runtime/Keeps: predicates
--     that an action keeps. Runtime/Laws: what the theorems assume of the Solana runtime.
--     Runtime/History: what happens between two instructions of a program.
--   Env: what the programs use and do not implement, as parameters: solana_program, spl_token,
--     mpl_token_metadata and the Borsh codecs, with what Borsh documents (`IsLawful`).
--   Shared/Error, Shared/Types, Shared/Calls: lib/src/error.rs and lib/src/lib.rs.
--     Shared/Calls/Tokens: what the calls that move and mint tokens invoked.
--   Shared/Merkle, Shared/Ecdsa: lib/src/merkle.rs and lib/src/ecdsa.rs (`get_merkle_root`,
--     `amount_bytes`, `verify_ecdsa_signature`).
--   Shared/Instructions: lib/src/instructions, the arguments and `validate`. Shared/Client: the
--     functions there that build a client's instructions.
--   Bridge/State, Bridge/Content: bridge/program/src/state.rs and merkle.rs.
--   Bridge/Access, Admin, Token, Charge, Deposit, Record, Mint, Withdraw, Processor:
--     bridge/program/src/processor.rs, each handler under its own name (`process_deposit_ft` and so
--     on). The checks that several handlers write out again stand once (`open_bridge_admin`,
--     `ensure_associated_account`, `release_tokens`, `create_withdraw_account`).
--     Bridge/Withdraw/Release and Commission/Handlers/Payout: the payments of withdrawals, down to
--     the instructions that are invoked.
--   Bridge/Kept, Bridge/Replay: what every instruction of the bridge keeps, replay, and the bridge
--     admin through any instructions.
--     Bridge/Processor/Built, Accepted, Admission, Paid: the bridge with the client's builders, and
--     with the commission program.
--   Shared/Report and `Entrypoint` of each program: the entry points, with the error that is
--     printed.
--   Commission: commission/program/src. Upgrade: upgrade/program/src. Their child modules `Replay`
--     follow an admin account through any instructions; Commission/Tokens/Fees is the table of fees
--     that a list of tokens stands for.
--   Tests: a concrete platform that meets the assumed laws, and the theorems at concrete inputs.
--
-- Conventions. A string, an array and a key are lists of bytes; a theorem that needs a length
-- assumes it. A u64 is a number; `+ 1`, `- 1`, `+=` and `-=` fail with `panicked` on overflow,
-- which is what the `overflow-checks` in the programs' Cargo.toml ask for. Cargo reads profiles
-- from the root of the workspace only, which has none, so a release build without other settings
-- wraps instead; this differs only after 2^64 counts of a nonce, for the balance of a receiver at
-- 2^64, and for a deposit that is the first instruction, where the load of the instruction before
-- it fails all the same (the balance of the bridge is compared before it is lowered). The runtime
-- discards the transaction of a failing instruction, so an error carries no accounts. Two handles
-- of one key share the account. All recursion is structural, so there is no fuel.
--
-- Not modelled: the runtime's own checks after an instruction (ownership, balances, rent),
-- borrow errors of account data, compute limits and logs. `size_of` of an enum is a parameter.
-- The instructions of other programs are parameters on the keys and amounts that the code
-- passes; where a builder has more arguments than vary in the code, such as the token program's
-- id, they are left out.
pub mod Common
pub mod Runtime
pub mod Shared
pub mod Env
pub mod Bridge
pub mod Commission
pub mod Upgrade
mod Tests
