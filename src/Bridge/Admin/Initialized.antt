-- ===== src/Bridge/Admin/Initialized.antt =====
-- The creation of the bridge admin.
use solana_bridge_program.Common.{◌≡◌, refl, true, not, List, [], ◌∷◌, Bytes, length, subst, ◌∙◌}
use solana_bridge_program.Runtime.{
  Pubkey, AccountInfo, Bank, ok, write_data, bind-ok, require, require-ok,
}
use solana_bridge_program.Runtime.Store.{OnlyData, write_data-ok, write-read}
use solana_bridge_program.Shared.Error.{already_in_use}
use solana_bridge_program.Shared.Calls.{call_create_account}
use solana_bridge_program.Shared.Calls.Created.{call_create_account_fresh}
use solana_bridge_program.Env.{Env, IsLawful}
use solana_bridge_program.Bridge.State.{BridgeAdmin, bridge_admin_size}
use solana_bridge_program.Bridge.Access.{read_bridge_admin, check_seeds}
use solana_bridge_program.Bridge.Access.Opened.{Opened, check_seeds-ok, read_bridge_admin-ok}
use solana_bridge_program.Bridge.Admin.{process_init_admin}
use solana_bridge_program.Bridge.Admin.Ownership.{IsSized}
use solana_bridge_program.Runtime.Laws.{RecordLaws}

module _ (env : Env) (program_id : Pubkey) (info payer system rent : AccountInfo)
    (rest : List AccountInfo) (seeds public_key : Bytes) (commission_program : Pubkey) where
  abbrev initial : BridgeAdmin
  initial = record {
    public_key = public_key;
    commission_program = commission_program;
    is_initialized = true;
  }

  -- What an initialisation from `b` to `b'` was and did. `created` is the state after the account
  -- was created.
  pub record Initialized (b b' : Bank) : Type 0 where
    pub fresh : (b info.key).data_bytes ≡ []
    pub created : Bank
    pub creation :
        call_create_account env payer info rent system bridge_admin_size program_id (seeds ∷ []) b
        ≡ ok (tt, created)
    pub opened : Opened env program_id seeds info b' initial
    pub only : OnlyData info.key created b'

  -- An initialisation of the bridge succeeds only on the program's address for the seeds, and only
  -- where the account held no data. Afterwards the account holds the given key
  -- and commission program, initialised, so that the checks of the other instructions find it.
  -- Assumed: the laws of the runtime (`RecordLaws`), a lawful codec of the admin, and the sizes of
  -- the key and the commission program.
  pub init_admin_sound :
      (b b' : Bank)
      → RecordLaws env program_id
      → IsLawful IsSized env.bridge_admin
      → length public_key ≡ 64
      → length commission_program ≡ 32
      → process_init_admin env program_id
          (info ∷ payer ∷ system ∷ rent ∷ rest)
          seeds
          public_key
          commission_program
          b
        ≡ ok (tt, b')
      → Initialized b b'
  unfolding process_init_admin
  init_admin_sound b b' laws law key_size program_size e =
      let (_, b1, e1, f1) = bind-ok (check_seeds env program_id seeds info) _ {b = b} e in
      let (b1-b, _, made) = check_seeds-ok env program_id seeds info e1 in
      let create =
        call_create_account env payer info rent system bridge_admin_size program_id (seeds ∷ []) in
      let (_, b2, e2, f2) = bind-ok create _ f1 in
      let creation = subst (λ (c : Bank). create c ≡ ok (tt, b2)) b1-b e2 in
      let (admin, b3, e3, f3) = bind-ok (read_bridge_admin env info) _ f2 in
      let (b3-b2, _) = read_bridge_admin-ok env program_id seeds info e3 in
      let test = not admin.is_initialized in
      let (_, b4, e4, f4) = bind-ok (require test already_in_use) _ f3 in
      let (_, b4-b3) = require-ok test already_in_use e4 in
      let bytes = env.bridge_admin.serialize initial in
      let written =
        subst (λ (c : Bank). write_data info bytes c ≡ ok (tt, b')) (b4-b3 ∙ b3-b2) f4 in
      record {
        fresh =
            call_create_account_fresh env payer info rent system bridge_admin_size program_id seeds
              [] b b2 program_id laws creation;
        created = b2;
        creation = creation;
        opened = record {
          key = made;
          stored =
              write-read env.bridge_admin IsSized info initial b2 b' law (key_size, program_size)
                written;
          initialized = refl;
        };
        only = (write_data-ok info bytes {b = b2} written).2;
      }
