-- ===== src/Commission/Replay/Table.antt =====
-- A commission admin as a table of fees, which the signed handlers change as they should.
use solana_bridge_program.Common.{
  ℕ, ◌≤◌, ◌≡◌, refl, true, subst, some, List, ◌∷◌, Bytes, length, arith, ap, sym, ◌∙◌,
}
use mathlib.Core.Option.{some-injective}
use solana_bridge_program.Runtime.{Pubkey, AccountInfo, Bank, M, ok, next_account_info}
use solana_bridge_program.Runtime.Laws.{RecordLaws, IsUsed}
use solana_bridge_program.Env.{Env, IsLawful}
use solana_bridge_program.Shared.Types.{CommissionToken as CommissionTokenKind}
use solana_bridge_program.Shared.Instructions.Commission.{CommissionTokenArg}
use solana_bridge_program.Commission.State.{
  CommissionToken, CommissionAdmin, OperationType, add_token, remove_token, update_token,
  withdraw_token, from_arg,
}
use solana_bridge_program.Commission.Tokens.Fees.{
  Fees, fees, apply_operation, change_tokens, AreDistinct, operation_refines,
}
use solana_bridge_program.Commission.Tokens.Fees.Distinct.{IsFresh, operation-AreDistinct}
use solana_bridge_program.Commission.Handlers.{
  process_add_token, process_remove_token, process_update_token, process_withdraw,
}
use solana_bridge_program.Commission.Handlers.Changes.{
  Stored, add_token_sound, remove_token_sound, update_token_sound,
}
use solana_bridge_program.Commission.Handlers.Withdrawal.{withdraw_sound}
use solana_bridge_program.Commission.Replay.Sized.{IsSized, IsSizedToken, TakesBytes}
use solana_bridge_program.Commission.Replay.Admin.{
  Held, Follows, max_permitted_data_length, written_back,
}
use solana_bridge_program.Commission.Replay.Follows.{
  added-Follows, removed-Follows, updated-Follows, withdrawn-Follows,
}
use solana_bridge_program.Commission.Replay.Changes.{
  add_token-Held, remove_token-Held, update_token-Held, withdraw-Held,
}

-- The account holds an admin whose list has one entry for each token, and stands for the table.
pub record Represents (env : Env) (program_id k : Pubkey) (b : Bank) (table : Fees) : Type 0 where
  pub used : IsUsed program_id k b
  pub admin : CommissionAdmin
  pub stored : env.commission_admin.deserialize (b k).data_bytes ≡ some admin
  pub bounded : length (b k).data_bytes ≤ max_permitted_data_length
  pub distinct : AreDistinct admin.acceptable_tokens
  pub stands_for : (token : CommissionTokenKind) → fees admin.acceptable_tokens token ≡ table token

-- An operation depends on the entries of the table only.
apply_operation-pointwise :
    (operation : OperationType) (t : CommissionToken) (f g : Fees) (k : CommissionTokenKind)
    → f k ≡ g k
    → apply_operation operation t f k ≡ apply_operation operation t g k
unfolding apply_operation
apply_operation-pointwise add_token t f g k e = rw e refl
apply_operation-pointwise remove_token t f g k e = rw e refl
apply_operation-pointwise update_token t f g k e = rw e refl
apply_operation-pointwise withdraw_token t f g k e = e

IsFresh-pointwise :
    (operation : OperationType) (t : CommissionToken) (f g : Fees)
    → ((k : CommissionTokenKind) → f k ≡ g k)
    → IsFresh operation t g
    → IsFresh operation t f
IsFresh-pointwise add_token t f g same fresh = same t.token ∙ fresh
IsFresh-pointwise remove_token t f g same fresh = tt
IsFresh-pointwise update_token t f g same fresh = tt
IsFresh-pointwise withdraw_token t f g same fresh = tt

module _ (env : Env) (program_id : Pubkey) (laws : RecordLaws env program_id)
    (law : IsLawful IsSized env.commission_admin) (takes : TakesBytes env)
    (info bridge_info : AccountInfo) (signature : Bytes) (recovery_id : ℕ) (path : List Bytes)
    (token : CommissionTokenArg) (amount : ℕ) where
  -- The handler of an operation.
  abbrev pub request : OperationType → List AccountInfo → M (Unit {0})
  request add_token infos = process_add_token env program_id infos signature recovery_id path token
  request remove_token infos =
      process_remove_token env program_id infos signature recovery_id path token
  request update_token infos =
      process_update_token env program_id infos signature recovery_id path token
  request withdraw_token infos =
      process_withdraw env program_id infos signature recovery_id path token amount

  Represents-Held :
      (table : Fees) (b : Bank) (a : CommissionAdmin)
      → env.commission_admin.deserialize (b info.key).data_bytes ≡ some a
      → a.is_initialized ≡ true
      → Represents env program_id info.key b table
      → Held env program_id info.key a b
  Represents-Held table b a stored initialized r = record {
    used = r.used;
    bounded = r.bounded;
    admin = a;
    stored = stored;
    initialized = initialized;
    least = ground arith;
  }

  -- A write of the changed tokens changes the table.
  changed-Represents :
      (operation : OperationType) (table : Fees) (before new : CommissionAdmin) (b m b' : Bank)
      → env.commission_admin.deserialize (b info.key).data_bytes ≡ some before
      → new.acceptable_tokens ≡ change_tokens operation (from_arg token) before.acceptable_tokens
      → Stored env info new m b'
      → Follows before new
      → Held env program_id info.key before b'
      → IsFresh operation (from_arg token) table
      → Represents env program_id info.key b table
      → Represents env program_id info.key b' (apply_operation operation (from_arg token) table)
  changed-Represents operation table before new b m b' was tokens stored follows held fresh r =
      let t = from_arg token in
      let same = some-injective r.admin before (sym r.stored ∙ was) in
      let distinct =
        subst (λ (a : CommissionAdmin). AreDistinct a.acceptable_tokens) same r.distinct in
      let stands_for : (k : CommissionTokenKind) → fees before.acceptable_tokens k ≡ table k =
        λ k. sym (ap (λ (a : CommissionAdmin). fees a.acceptable_tokens k) same) ∙ r.stands_for k in
      let fresh' =
        IsFresh-pointwise operation t (fees before.acceptable_tokens) table stands_for fresh in
      record {
        used = held.used;
        bounded = held.bounded;
        admin = new;
        stored =
            written_back env program_id info.key before laws law takes info before new m b' stored
              follows (omega (arith, held.bounded, stored.only.size));
        distinct =
            rw tokens (operation-AreDistinct operation t before.acceptable_tokens distinct fresh');
        stands_for = λ k.
            ap (λ list. fees list k) tokens
            ∙ operation_refines operation t before.acceptable_tokens k distinct
            ∙ apply_operation-pointwise operation t (fees before.acceptable_tokens) table k
                (stands_for k);
      }

  -- The table that a commission admin stands for refines its list of tokens: where a signed
  -- operation succeeds (an addition, removal or update of a token, or a withdrawal), the account
  -- stands for the table that the operation makes of the one before, and still has one entry for
  -- each token. Assumed: an added token has no fee yet, the token argument has its sizes, the laws
  -- of the runtime (`RecordLaws`), and a lawful codec of the admin that gives each token at least a
  -- byte.
  pub signed_operations_refine :
      (operation : OperationType) (rest : List AccountInfo) (table : Fees) (b b' : Bank)
      → IsSizedToken (from_arg token)
      → IsFresh operation (from_arg token) table
      → Represents env program_id info.key b table
      → request operation (info ∷ bridge_info ∷ rest) b ≡ ok (tt, b')
      → Represents env program_id info.key b' (apply_operation operation (from_arg token) table)
  unfolding change_tokens process_withdraw next_account_info
  signed_operations_refine add_token rest table b b' sized fresh r e =
      let c =
        add_token_sound env program_id info bridge_info rest signature recovery_id path token b b'
          e in
      let s = law.sized (b info.key).data_bytes c.admin c.opened.stored in
      let before = Represents-Held table b c.admin c.opened.stored c.opened.initialized r in
      let held =
        add_token-Held env program_id info.key c.admin laws law takes signature recovery_id path
          token b b' (info ∷ bridge_info ∷ rest) sized e before in
      changed-Represents add_token table c.admin _ b b b' c.opened.stored refl c.stored
        (added-Follows c.admin s c.opened.initialized (from_arg token) sized c.no_overflow) held
        fresh r
  signed_operations_refine remove_token rest table b b' sized fresh r e =
      let c =
        remove_token_sound env program_id info bridge_info rest signature recovery_id path token b
          b' e in
      let s = law.sized (b info.key).data_bytes c.admin c.opened.stored in
      let before = Represents-Held table b c.admin c.opened.stored c.opened.initialized r in
      let held =
        remove_token-Held env program_id info.key c.admin laws law takes signature recovery_id path
          token b b' (info ∷ bridge_info ∷ rest) e before in
      changed-Represents remove_token table c.admin _ b b b' c.opened.stored refl c.stored
        (removed-Follows c.admin s c.opened.initialized (from_arg token) c.no_overflow) held fresh r
  signed_operations_refine update_token rest table b b' sized fresh r e =
      let c =
        update_token_sound env program_id info bridge_info rest signature recovery_id path token b
          b' e in
      let s = law.sized (b info.key).data_bytes c.admin c.opened.stored in
      let before = Represents-Held table b c.admin c.opened.stored c.opened.initialized r in
      let held =
        update_token-Held env program_id info.key c.admin laws law takes signature recovery_id path
          token b b' (info ∷ bridge_info ∷ rest) sized e before in
      changed-Represents update_token table c.admin _ b b b' c.opened.stored refl c.stored
        (updated-Follows c.admin s c.opened.initialized (from_arg token) sized c.no_overflow) held
        fresh r
  signed_operations_refine withdraw_token (to ∷ system ∷ rent ∷ rest) table b b' sized fresh r e =
      let c =
        withdraw_sound env program_id info bridge_info to system rent rest signature recovery_id
          path token amount b b' e in
      let s = law.sized (b info.key).data_bytes c.admin c.opened.stored in
      let before = Represents-Held table b c.admin c.opened.stored c.opened.initialized r in
      let held =
        withdraw-Held env program_id info.key c.admin laws law takes signature recovery_id path
          token b b' (info ∷ bridge_info ∷ to ∷ system ∷ rent ∷ rest) amount e before in
      changed-Represents withdraw_token table c.admin _ b c.paid b' c.opened.stored refl c.stored
        (withdrawn-Follows c.admin s c.opened.initialized c.no_overflow) held fresh r
  signed_operations_refine withdraw_token _ table b b' sized fresh r e = cc
