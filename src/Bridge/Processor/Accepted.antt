-- ===== src/Bridge/Processor/Accepted.antt =====
-- The instructions that the client's builders build completely, and that the bridge accepts.
use solana_bridge_program.Common.{ℕ, ◌≤◌, ◌≡◌, refl, ◌∙◌, some, [], ◌∷◌, Bytes, true, false, length}
use solana_bridge_program.Runtime.{
  Pubkey, AccountInfo, Bank, ok, write_data, bind-step, lift, next_account_info,
}
use solana_bridge_program.Runtime.Store.{write_data-passes, write-read}
use solana_bridge_program.Env.{Env, IsLawful}
use solana_bridge_program.Shared.Client.Bridge as Client
use solana_bridge_program.Shared.Ecdsa.{verify_ecdsa_signature, verify_ecdsa_signature_iff}
use solana_bridge_program.Shared.Instructions.Bridge.{BridgeInstruction}
use solana_bridge_program.Bridge.State.{BridgeAdmin}
use solana_bridge_program.Bridge.Access.{open_bridge_admin}
use solana_bridge_program.Bridge.Access.Opened.{Opened, open_bridge_admin-passes}
use solana_bridge_program.Bridge.Admin.{process_transfer_ownership}
use solana_bridge_program.Bridge.Admin.Ownership.{IsSized, Holds}
use solana_bridge_program.Bridge.Processor.{dispatch}
use solana_bridge_program.Bridge.Processor.Built.{ReadsBack, execute, process_instruction-serialize}

module _ (env : Env) (program_id bridge_admin : Pubkey) (seeds new_public_key signature : Bytes)
    (recovery_id : ℕ) where
  abbrev admin_info : AccountInfo
  admin_info = record { key = bridge_admin; is_signer = false; is_writable = true }

  abbrev request : BridgeInstruction
  request = BridgeInstruction.transfer_ownership (record {
    new_public_key = new_public_key;
    signature = signature;
    recovery_id = recovery_id;
    seeds = seeds;
  })

  abbrev transferred : BridgeAdmin → BridgeAdmin
  transferred admin = record admin { public_key = new_public_key }

  process_transfer_ownership-passes :
      (admin : BridgeAdmin) (b : Bank)
      → Opened env program_id seeds admin_info b admin
      → env.secp256k1_recover (env.keccak new_public_key) recovery_id signature
        ≡ some admin.public_key
      → process_transfer_ownership env program_id
          (admin_info ∷ [])
          seeds
          new_public_key
          signature
          recovery_id
          b
        ≡ write_data admin_info (env.bridge_admin.serialize (transferred admin)) b
  unfolding process_transfer_ownership next_account_info
  process_transfer_ownership-passes admin b opened signed =
      let check =
        verify_ecdsa_signature env (env.keccak new_public_key) signature recovery_id
          admin.public_key in
      let checked =
        (verify_ecdsa_signature_iff env (env.keccak new_public_key) signature recovery_id
            admin.public_key).1
          signed in
      bind-step (open_bridge_admin env program_id seeds admin_info) _
        (open_bridge_admin-passes env program_id seeds admin_info opened)
      ∙ bind-step (lift check)
          (λ _. write_data admin_info (env.bridge_admin.serialize (transferred admin))) {b = b}
          {b' = b} (rw checked refl)

  -- A transfer of ownership that the client's builder builds succeeds, where the account of the
  -- seeds holds an initialised admin, the signature over the hash of the new key recovers that
  -- admin's key, and the account has room; afterwards the account holds the new key. Assumed: the
  -- codecs are lawful and the new key has 64 bytes.
  pub built_transfer_succeeds :
      (admin : BridgeAdmin) (b : Bank)
      → ReadsBack env request
      → IsLawful IsSized env.bridge_admin
      → length new_public_key ≡ 64
      → Opened env program_id seeds admin_info b admin
      → env.secp256k1_recover (env.keccak new_public_key) recovery_id signature
        ≡ some admin.public_key
      → length (env.bridge_admin.serialize (transferred admin)) ≤ length (b bridge_admin).data_bytes
      → (b' : Bank) × (execute env program_id
            (Client.transfer_ownership env program_id bridge_admin signature new_public_key
              recovery_id seeds)
            b
          ≡ ok (tt, b'))
        × Holds env admin_info b' (transferred admin)
  unfolding Client.transfer_ownership dispatch
  built_transfer_succeeds admin b reads law size opened signed room =
      let bytes = env.bridge_admin.serialize (transferred admin) in
      let (b', written) = write_data-passes admin_info bytes b room in
      let old = law.sized (b bridge_admin).data_bytes admin opened.stored in
      (
        b',
        process_instruction-serialize env program_id (admin_info ∷ []) request b reads
            ∙ process_transfer_ownership-passes admin b opened signed
            ∙ written,
        write-read env.bridge_admin IsSized admin_info (transferred admin) b b' law (size, old.1)
            written,
      )
