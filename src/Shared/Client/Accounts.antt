-- ===== src/Shared/Client/Accounts.antt =====
-- The accounts of a client instruction, and the handles that the runtime makes of them.
use solana_bridge_program.Common.{Bool, true, false, List, [], ◌∷◌}
use solana_bridge_program.Runtime.{Pubkey, AccountMeta, AccountInfo}

-- `AccountMeta::new`
abbrev pub writable : Pubkey → Bool → AccountMeta
writable pubkey is_signer = record { pubkey = pubkey; is_signer = is_signer; is_writable = true }

-- `AccountMeta::new_readonly`
abbrev pub readonly : Pubkey → Bool → AccountMeta
readonly pubkey is_signer = record { pubkey = pubkey; is_signer = is_signer; is_writable = false }

abbrev pub handles : List AccountMeta → List AccountInfo
handles [] = []
handles (m ∷ metas) =
    record { key = m.pubkey; is_signer = m.is_signer; is_writable = m.is_writable } ∷ handles metas
