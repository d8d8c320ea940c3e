-- ===== src/Commission/Handlers/Changes.antt =====
-- What the signed changes of the commission admin do.
use solana_bridge_program.Common.{
  ℕ, ◌+◌, ◌<◌, ◌≡◌, none, List, [], ◌∷◌, ◌++◌, Bytes, length, drop, subst,
}
use solana_bridge_program.Runtime.{
  Pubkey, AccountInfo, Bank, M, ok, write_data, checked_add, checked_add-ok, u64_mod, bind-ok,
  ◌>>=◌,
}
use solana_bridge_program.Runtime.Store.{OnlyData, write_data-ok}
use solana_bridge_program.Shared.Instructions.Commission.{CommissionTokenArg}
use solana_bridge_program.Env.{Env}
use solana_bridge_program.Commission.State.{
  CommissionAdmin, OperationType, add_token, remove_token, update_token, from_arg,
}
use solana_bridge_program.Commission.Content
use solana_bridge_program.Commission.Tokens.{remove_first, update_first}
use solana_bridge_program.Commission.Access.{open_commission_admin}
use solana_bridge_program.Commission.Access.Opened.{
  Opened, Signed, authorise, open_commission_admin-ok, authorise-ok,
}
use solana_bridge_program.Commission.Handlers.{
  process_add_token, process_remove_token, process_update_token,
}

-- The account starts with the bytes of the admin, and from `b` only its data changed.
pub record Stored (env : Env) (info : AccountInfo) (admin : CommissionAdmin) (b b' : Bank)
    : Type 0 where
  pub rest : Bytes
  pub data_bytes : (b' info.key).data_bytes ≡ env.commission_admin.serialize admin ++ rest
  pub only : OnlyData info.key b b'

module _ (env : Env) (program_id : Pubkey) (info bridge_info : AccountInfo)
    (rest : List AccountInfo) (signature : Bytes) (recovery_id : ℕ) (path : List Bytes)
    (token : CommissionTokenArg) where
  -- The count of the nonce and the write at the end of the handlers.
  abbrev pub finish : ℕ → (ℕ → CommissionAdmin) → M (Unit {0})
  finish nonce changed = do
    next ← checked_add nonce 1
    write_data info (env.commission_admin.serialize (changed next))

  pub finish-ok :
      (nonce : ℕ) (changed : ℕ → CommissionAdmin) (b b' : Bank)
      → finish nonce changed b ≡ ok (tt, b')
      → (nonce + 1 < u64_mod) × Stored env info (changed (nonce + 1)) b b'
  finish-ok nonce changed b b' e =
      let (next, b1, e1, f1) = bind-ok (checked_add nonce 1) _ {b = b} e in
      let (is_next, small, b1-b) = checked_add-ok nonce 1 e1 in
      let bytes = env.commission_admin.serialize (changed (nonce + 1)) in
      let written =
        subst (λ (c : Bank). write_data info bytes c ≡ ok (tt, b')) b1-b
          (subst
            (λ (n : ℕ).
              write_data info (env.commission_admin.serialize (changed n)) b1 ≡ ok (tt, b'))
            is_next f1) in
      let (room, written_bytes, only) = write_data-ok info bytes {b = b} written in
      (
        small,
        record {
          rest = drop (length bytes) (b info.key).data_bytes;
          data_bytes = written_bytes;
          only = only;
        },
      )

  -- A change of the acceptable tokens that was authorised over the nonce of its kind.
  abbrev change :
      OperationType → (CommissionAdmin → ℕ) → (CommissionAdmin → ℕ → CommissionAdmin) → M (Unit {0})
  change operation nonce changed = do
    (key, admin) ← open_commission_admin env program_id info bridge_info
    authorise env bridge_info (Content.new (nonce admin) none program_id operation (from_arg token))
        path signature recovery_id (finish (nonce admin) (changed admin))

  -- What such a change from `b` to `b'` was and did.
  pub record Changed (operation : OperationType) (nonce : CommissionAdmin → ℕ)
      (changed : CommissionAdmin → ℕ → CommissionAdmin) (b b' : Bank) : Type 0 where
    pub admin : CommissionAdmin
    pub opened : Opened env program_id info bridge_info b admin
    pub signed :
        Signed env bridge_info b
          (Content.new (nonce admin) none program_id operation (from_arg token))
          path
          signature
          recovery_id
    pub no_overflow : nonce admin + 1 < u64_mod
    pub stored : Stored env info (changed admin (nonce admin + 1)) b b'

  change-ok :
      (operation : OperationType) (nonce : CommissionAdmin → ℕ)
      (changed : CommissionAdmin → ℕ → CommissionAdmin) (b b' : Bank)
      → change operation nonce changed b ≡ ok (tt, b')
      → Changed operation nonce changed b b'
  change-ok operation nonce changed b b' e =
      let ((key, admin), b1, e1, f1) =
        bind-ok (open_commission_admin env program_id info bridge_info) _ {b = b} e in
      let (b1-b, _, opened) = open_commission_admin-ok env program_id info bridge_info e1 in
      let content = Content.new (nonce admin) none program_id operation (from_arg token) in
      let rest = finish (nonce admin) (changed admin) in
      let (signed, f2) = authorise-ok env bridge_info content path signature recovery_id rest b b' (
        subst
          (λ (c : Bank).
            authorise env bridge_info content path signature recovery_id rest c ≡ ok (tt, b'))
          b1-b f1) in
      let (small, stored) = finish-ok (nonce admin) (changed admin) b b' f2 in
      record {
        admin = admin;
        opened = opened;
        signed = signed;
        no_overflow = small;
        stored = stored;
      }

  -- Adding a token succeeds only with a signature of the bridge's key over the token and the add
  -- nonce; the account then starts with the bytes of the admin with the token at the end of its
  -- list and the nonce one higher, and nothing but its data changed.
  pub add_token_sound :
      (b b' : Bank)
      → process_add_token env program_id
          (info ∷ bridge_info ∷ rest)
          signature
          recovery_id
          path
          token
          b
        ≡ ok (tt, b')
      → Changed add_token
          (λ admin. admin.add_token_nonce)
          (λ admin nonce. record admin {
            add_token_nonce = nonce;
            acceptable_tokens = admin.acceptable_tokens ++ from_arg token ∷ [];
          })
          b
          b'
  unfolding process_add_token
  add_token_sound b b' e = change-ok _ _ _ b b' e

  -- Removing a token succeeds only with a signature of the bridge's key over the token, its amount
  -- and the remove nonce; the account then starts with the bytes of the admin without the first
  -- entry that equals the token, if there is one, and with the nonce one higher, and nothing but
  -- its data changed.
  pub remove_token_sound :
      (b b' : Bank)
      → process_remove_token env program_id
          (info ∷ bridge_info ∷ rest)
          signature
          recovery_id
          path
          token
          b
        ≡ ok (tt, b')
      → Changed remove_token
          (λ admin. admin.remove_token_nonce)
          (λ admin nonce. record admin {
            acceptable_tokens = remove_first (from_arg token) admin.acceptable_tokens;
            remove_token_nonce = nonce;
          })
          b
          b'
  unfolding process_remove_token
  remove_token_sound b b' e = change-ok _ _ _ b b' e

  -- Updating a token succeeds only with a signature of the bridge's key over the token, its amount
  -- and the update nonce; the account then starts with the bytes of the admin with the amount in
  -- the first entry of the token, if there is one, and with the nonce one higher, and nothing but
  -- its data changed.
  pub update_token_sound :
      (b b' : Bank)
      → process_update_token env program_id
          (info ∷ bridge_info ∷ rest)
          signature
          recovery_id
          path
          token
          b
        ≡ ok (tt, b')
      → Changed update_token
          (λ admin. admin.update_token_nonce)
          (λ admin nonce. record admin {
            acceptable_tokens = update_first (from_arg token) admin.acceptable_tokens;
            update_token_nonce = nonce;
          })
          b
          b'
  unfolding process_update_token
  update_token_sound b b' e = change-ok _ _ _ b b' e
