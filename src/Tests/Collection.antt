-- ===== src/Tests/Collection.antt =====
-- The theorem on the creation of a collection, on a platform whose calls without seeds succeed only
-- where the second handle signs.
use solana_bridge_program.Common.{
  ◌≢◌, refl, false, Bool, if◌then◌else◌, List, [], ◌∷◌, Bool-cases, inl, inr, arith, ap, ℕ, Bytes,
  ◌≡◌, true, bytes_eq,
}
use solana_bridge_program.Runtime.{AccountInfo, Pubkey, ok, err, external}
use solana_bridge_program.Shared.Instructions.Bridge.{SignedMetadata}
use solana_bridge_program.Env.{Env}
use solana_bridge_program.Runtime.{next_account_info}
use solana_bridge_program.Shared.Calls.{call_create_account}
use solana_bridge_program.Bridge.Access.{open_bridge_admin, check_seeds, read_bridge_admin}
use solana_bridge_program.Bridge.Mint.{process_create_collection}
use solana_bridge_program.Bridge.Mint.Collection.{
  NewAccountSigns, NoAddressSigns, collection_never_created,
}
use solana_bridge_program.Tests.Platform.{test_env}
use solana_bridge_program.Tests.Scene.{
  program, seeds, owner_info, other_info, metadata_info, accounts,
}

abbrev second_signs : List AccountInfo → Bool
second_signs (payer ∷ new ∷ infos) = new.is_signer
second_signs _ = false

abbrev signed_env : Env
signed_env = record test_env {
  solana = record test_env.solana {
    invoke_signed =
        λ ix infos signers b. if second_signs infos then ok (tt, b) else err (external 0);
  };
}

signed_env-NewAccountSigns : NewAccountSigns signed_env
signed_env-NewAccountSigns payer new system owner lamports space b b' e =
    elim (Bool-cases new.is_signer) [ inl signs ↦ signs | inr silent ↦ ground arith ]

-- The handles: only the payer signs, and the mint is the program's address for the seed.
abbrev silent : Pubkey → AccountInfo
silent k = record { key = k; is_signer = false; is_writable = true }

abbrev new_mint : AccountInfo
new_mint = silent (signed_env.find_program_address ((6 ∷ []) ∷ []) program).0

abbrev others : List AccountInfo
others =
    silent other_info.key
    ∷ silent other_info.key
    ∷ silent other_info.key
    ∷ silent other_info.key
    ∷ silent other_info.key
    ∷ []

abbrev handed : List AccountInfo
handed =
    silent seeds
    ∷ new_mint
    ∷ silent (signed_env.get_associated_token_address seeds new_mint.key)
    ∷ silent metadata_info.key
    ∷ owner_info
    ∷ others

abbrev first_byte : Bytes → ℕ
first_byte [] = 0
first_byte (x ∷ xs) = x

payer-derived :
    (seed : Bytes) → (signed_env.find_program_address (seed ∷ []) program).0 ≢ owner_info.key
payer-derived seed e = omega (arith, ap first_byte e)

others-NoAddressSigns : NoAddressSigns signed_env program others
others-NoAddressSigns =
    (λ seed e. refl, (λ seed e. refl, (λ seed e. refl, (λ seed e. refl, (λ seed e. refl, tt)))))

handed-NoAddressSigns : NoAddressSigns signed_env program handed
handed-NoAddressSigns = (
  λ seed e. refl,
  (
    λ seed e. refl,
    (
      λ seed e. refl,
      (λ seed e. refl, (λ seed e. absurd (payer-derived seed e), others-NoAddressSigns)),
    ),
  ),
)

abbrev collection_meta : SignedMetadata
collection_meta = record { name = 71 ∷ []; symbol = 71 ∷ []; uri = 71 ∷ []; decimals = 0 }

-- All checks pass, and the creation of the mint fails.
creation_fails :
    process_create_collection signed_env program handed seeds collection_meta
      (6 ∷ [])
      (accounts 0 0)
    ≡ err (external 0)
unfolding process_create_collection next_account_info open_bridge_admin check_seeds
    read_bridge_admin bytes_eq call_create_account
creation_fails = refl

collection_never_created_example :
    process_create_collection signed_env program handed seeds collection_meta
      (6 ∷ [])
      (accounts 0 0)
    ≢ ok (tt, accounts 0 0)
collection_never_created_example =
    collection_never_created signed_env signed_env-NewAccountSigns program handed seeds
      collection_meta (6 ∷ []) (accounts 0 0) (accounts 0 0) handed-NoAddressSigns
