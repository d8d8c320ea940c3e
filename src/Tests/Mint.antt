-- ===== src/Tests/Mint.antt =====
-- The theorem on the mint of a wrapped token, at a concrete one.
use solana_bridge_program.Common.{some, [], ◌∷◌, replicate}
use solana_bridge_program.Runtime.{AccountInfo, Bank, Result}
use solana_bridge_program.Shared.Instructions.Bridge.{SignedMetadata}
use solana_bridge_program.Bridge.Mint.{try_mint_token_with_meta}
use solana_bridge_program.Bridge.Mint.Minted.{Minted}
use solana_bridge_program.Tests.Platform.{test_env}
use solana_bridge_program.Tests.Scene.{
  program, seeds, bridge_info, owner_info, other_info, metadata_info, handle, accounts,
}

-- The mint of the seed of one byte.
abbrev wrapped_mint : AccountInfo
wrapped_mint = handle (255 ∷ 6 ∷ replicate 30 0)

abbrev gold_meta : SignedMetadata
gold_meta = record { name = 71 ∷ []; symbol = 71 ∷ []; uri = 71 ∷ []; decimals = 6 }

abbrev mint_run : Result (Unit {0} × Bank)
mint_run =
    try_mint_token_with_meta test_env program bridge_info (6 ∷ []) (some gold_meta) wrapped_mint
      metadata_info owner_info other_info other_info seeds (accounts 0 0)
