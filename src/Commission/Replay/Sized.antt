-- ===== src/Commission/Replay/Sized.antt =====
-- The sizes of the fields of a commission admin, which the changes of its tokens keep.
use solana_bridge_program.Common.{
  ◌≤◌, ◌<◌, ◌≡◌, ◌^◌, List, [], ◌∷◌, ◌++◌, length, Bool-cases, inl, inr,
}
use solana_bridge_program.Runtime.{u64_mod}
use solana_bridge_program.Env.{Env}
use solana_bridge_program.Shared.Types.{CommissionToken as CommissionTokenKind, commission_token_eq}
use solana_bridge_program.Commission.State.{CommissionToken, CommissionAdmin}
use solana_bridge_program.Commission.Tokens.{token_eq, remove_first, update_first}

abbrev pub IsSizedKind : CommissionTokenKind → Type 0
IsSizedKind CommissionTokenKind.native = Unit {0}
IsSizedKind (CommissionTokenKind.ft mint) = length mint ≡ 32
IsSizedKind (CommissionTokenKind.nft mint) = length mint ≡ 32

abbrev pub IsSizedToken : CommissionToken → Type 0
IsSizedToken t = IsSizedKind t.token × (t.amount < u64_mod)

abbrev pub AreSized : List CommissionToken → Type 0
AreSized [] = Unit {0}
AreSized (t ∷ list) = IsSizedToken t × AreSized list

-- The sizes of the fields: a vector has a 32-bit length.
pub record IsSized (a : CommissionAdmin) : Type 0 where
  pub tokens : AreSized a.acceptable_tokens
  pub tokens_length : length a.acceptable_tokens < 2 ^ 32
  pub add_nonce : a.add_token_nonce < u64_mod
  pub update_nonce : a.update_token_nonce < u64_mod
  pub remove_nonce : a.remove_token_nonce < u64_mod
  pub withdraw_nonce : a.withdraw_token_nonce < u64_mod

-- What Borsh documents of an admin's bytes: every token takes some.
abbrev pub TakesBytes : Env → Type 0
TakesBytes env =
    (a : CommissionAdmin) → length a.acceptable_tokens ≤ length (env.commission_admin.serialize a)

pub AreSized-append :
    (xs ys : List CommissionToken) → AreSized xs → AreSized ys → AreSized (xs ++ ys)
AreSized-append [] ys hx hy = hy
AreSized-append (x ∷ xs) ys hx hy = (hx.0, AreSized-append xs ys hx.1 hy)

pub remove_first-AreSized :
    (t : CommissionToken) (list : List CommissionToken)
    → AreSized list
    → AreSized (remove_first t list)
unfolding remove_first
remove_first-AreSized t [] h = tt
remove_first-AreSized t (l ∷ list) h = elim (Bool-cases (token_eq l t)) [
  | inl same ↦ rw same h.1
  | inr other ↦ rw other (h.0, remove_first-AreSized t list h.1)
]

pub update_first-AreSized :
    (t : CommissionToken) (list : List CommissionToken)
    → IsSizedToken t
    → AreSized list
    → AreSized (update_first t list)
unfolding update_first
update_first-AreSized t [] ht h = tt
update_first-AreSized t (l ∷ list) ht h = elim (Bool-cases (commission_token_eq l.token t.token)) [
  | inl same ↦ rw same ((h.0.0, ht.1), h.1)
  | inr other ↦ rw other (h.0, update_first-AreSized t list ht h.1)
]
