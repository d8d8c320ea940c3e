-- ===== src/Commission/Replay/Setup.antt =====
-- A new commission admin stands for the table of the fees that it is given.
use solana_bridge_program.Common.{
  ℕ, ◌≤◌, ◌≡◌, refl, true, not, List, [], ◌∷◌, ◌++◌, length, length-replicate, arith, ap, sym, ◌∙◌,
  subst, append_assoc,
}
use mathlib.Core.List.{append-nil}
use solana_bridge_program.Runtime.{
  Pubkey, AccountInfo, Bank, ok, bind-ok, require, require-ok, write_data,
}
use solana_bridge_program.Runtime.Store.{write_data-ok, write-read}
use solana_bridge_program.Runtime.Laws.{RecordLaws}
use solana_bridge_program.Env.{Env, IsLawful}
use solana_bridge_program.Shared.Error.{already_in_use}
use solana_bridge_program.Shared.Calls.{call_create_account}
use solana_bridge_program.Shared.Calls.Created.{call_create_account_done, call_create_account_fresh}
use solana_bridge_program.Shared.Instructions.Commission.{CommissionTokenArg}
use solana_bridge_program.Commission.State.{
  CommissionToken, CommissionAdmin, from_arg, max_admin_size,
}
use solana_bridge_program.Commission.Tokens.{push_tokens}
use solana_bridge_program.Commission.Tokens.Fees.{fees, AreDistinct}
use solana_bridge_program.Commission.Access.{admin_seeds, check_admin_key, read_commission_admin}
use solana_bridge_program.Commission.Access.Opened.{check_admin_key-ok, read_commission_admin-ok}
use solana_bridge_program.Commission.Handlers.{process_init_admin}
use solana_bridge_program.Commission.Replay.Sized.{AreSized, IsSized, TakesBytes}
use solana_bridge_program.Commission.Replay.Admin.{max_permitted_data_length}
use solana_bridge_program.Commission.Replay.Table.{Represents}

abbrev pub given : List CommissionTokenArg → List CommissionToken
given [] = []
given (t ∷ args) = from_arg t ∷ given args

push_tokens-given :
    (tokens : List CommissionToken) (args : List CommissionTokenArg)
    → push_tokens tokens args ≡ tokens ++ given args
unfolding push_tokens
push_tokens-given tokens [] = sym (append-nil tokens)
push_tokens-given tokens (t ∷ args) =
    push_tokens-given (tokens ++ from_arg t ∷ []) args
    ∙ append_assoc tokens (from_arg t ∷ []) (given args)

module _ (env : Env) (program_id : Pubkey) (laws : RecordLaws env program_id)
    (law : IsLawful IsSized env.commission_admin) (takes : TakesBytes env)
    (info bridge_info payer system rent : AccountInfo) (rest : List AccountInfo)
    (args : List CommissionTokenArg) where
  abbrev size : ℕ
  size = max_admin_size env.size_of_commission_token

  abbrev filled : CommissionAdmin → CommissionAdmin
  filled admin = record admin { acceptable_tokens = given args; is_initialized = true }

  -- The admin is read back from an account of the size that holds it.
  filled-IsSized :
      (admin : CommissionAdmin)
      → IsSized admin
      → AreSized (given args)
      → length (env.commission_admin.serialize (filled admin)) ≤ max_permitted_data_length
      → IsSized (filled admin)
  filled-IsSized admin old sized small = record {
    tokens = sized;
    tokens_length = omega (arith, takes (filled admin), small);
    add_nonce = old.add_nonce;
    update_nonce = old.update_nonce;
    remove_nonce = old.remove_nonce;
    withdraw_nonce = old.withdraw_nonce;
  }

  -- Setting up the commission admin of a bridge succeeds only on an account that is then new, and
  -- makes it stand for the table of the given fees. Assumed: no token is given twice, the given
  -- tokens have their sizes, the account's size is within the 10 MiB of the runtime, the laws of the
  -- runtime (`RecordLaws`), and a lawful codec of the admin that gives each token at least a byte.
  pub init_admin_refines :
      (b b' : Bank)
      → AreDistinct (given args)
      → AreSized (given args)
      → size ≤ max_permitted_data_length
      → process_init_admin env program_id (info ∷ bridge_info ∷ payer ∷ system ∷ rent ∷ rest) args b
        ≡ ok (tt, b')
      → ((b info.key).data_bytes ≡ []) × Represents env program_id info.key b' (fees (given args))
  unfolding process_init_admin
  init_admin_refines b b' distinct sized small e =
      let (key, b1, e1, f1) =
        bind-ok (check_admin_key env program_id info bridge_info) _ {b = b} e in
      let (b1-b, _, _) = check_admin_key-ok env program_id info bridge_info e1 in
      let create =
        call_create_account env payer info rent system size program_id
          (admin_seeds env bridge_info) in
      let (_, b2, e2, f2) = bind-ok create _ f1 in
      let made = subst (λ (c : Bank). create c ≡ ok (tt, b2)) b1-b e2 in
      let fresh =
        call_create_account_fresh env payer info rent system size program_id _ _ b b2 program_id
          laws made in
      let (owner, zeros) =
        call_create_account_done env payer info rent system size program_id _ _ b b2 program_id laws
          made in
      let (admin, b3, e3, f3) = bind-ok (read_commission_admin env info) _ f2 in
      let (b3-b2, stored) = read_commission_admin-ok env info e3 in
      let test = not admin.is_initialized in
      let (_, b4, e4, f4) = bind-ok (require test already_in_use) _ f3 in
      let (_, b4-b3) = require-ok test already_in_use e4 in
      let new = filled admin in
      let written : write_data info (env.commission_admin.serialize new) b2 ≡ ok (tt, b') =
        subst
          (λ (list : List CommissionToken).
            write_data info
              (env.commission_admin.serialize
                (record admin { acceptable_tokens = list; is_initialized = true }))
              b2
            ≡ ok (tt, b'))
          (push_tokens-given [] args)
          (subst
            (λ (c : Bank).
              write_data info
                (env.commission_admin.serialize
                  (record admin { acceptable_tokens = push_tokens [] args; is_initialized = true }))
                c
              ≡ ok (tt, b'))
            (b4-b3 ∙ b3-b2) f4) in
      let (room, _, only) =
        write_data-ok info (env.commission_admin.serialize new) {b = b2} written in
      let length_zeros = ap length zeros ∙ length-replicate {A = ℕ} size 0 in
      let old = law.sized (b2 info.key).data_bytes admin stored in
      let new-IsSized = filled-IsSized admin old sized (omega (arith, room, length_zeros, small)) in
      (
        fresh,
        record {
          used = record {
            owner = only.owner ∙ owner;
            filled = omega (arith, only.size, length_zeros);
          };
          bounded = omega (arith, only.size, length_zeros, small);
          admin = new;
          stored = write-read env.commission_admin IsSized info new b2 b' law new-IsSized written;
          distinct = distinct;
          stands_for = λ k. refl;
        },
      )
