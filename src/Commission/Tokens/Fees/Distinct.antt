-- ===== src/Commission/Tokens/Fees/Distinct.antt =====
-- The operations of the commission program keep one entry for each acceptable token.
use solana_bridge_program.Common.{
  ◌≡◌, false, Bool-cases, inl, inr, none, List, [], ◌∷◌, ◌++◌, arith, ap,
}
use solana_bridge_program.Shared.Types.{CommissionToken as CommissionTokenKind, commission_token_eq}
use solana_bridge_program.Commission.State.{
  CommissionToken, OperationType, add_token, remove_token, update_token, withdraw_token,
}
use solana_bridge_program.Commission.Tokens.{
  token_eq, check_token_is_acceptable, remove_first, update_first,
}
use solana_bridge_program.Commission.Tokens.Lookup.{
  NoneOf, commission_token_eq→≡, commission_token_eq_refl,
}
use solana_bridge_program.Commission.Tokens.Fees.{Fees, fees, AreDistinct, change_tokens}

-- An addition is of a token that has no fee.
abbrev pub IsFresh : OperationType → CommissionToken → Fees → Type 0
IsFresh add_token t table = table t.token ≡ none
IsFresh _ t table = Unit {0}

append-NoneOf :
    (k : CommissionTokenKind) (list : List CommissionToken) (t : CommissionToken)
    → NoneOf k list
    → commission_token_eq t.token k ≡ false
    → NoneOf k (list ++ t ∷ [])
append-NoneOf k [] t h apart = (apart, tt)
append-NoneOf k (l ∷ list) t h apart = (h.0, append-NoneOf k list t h.1 apart)

remove_first-NoneOf :
    (k : CommissionTokenKind) (t : CommissionToken) (list : List CommissionToken)
    → NoneOf k list
    → NoneOf k (remove_first t list)
unfolding remove_first
remove_first-NoneOf k t [] h = tt
remove_first-NoneOf k t (l ∷ list) h = elim (Bool-cases (token_eq l t)) [
  | inl same ↦ rw same h.1
  | inr other ↦ rw other (h.0, remove_first-NoneOf k t list h.1)
]

update_first-NoneOf :
    (k : CommissionTokenKind) (t : CommissionToken) (list : List CommissionToken)
    → NoneOf k list
    → NoneOf k (update_first t list)
unfolding update_first
update_first-NoneOf k t [] h = tt
update_first-NoneOf k t (l ∷ list) h = elim (Bool-cases (commission_token_eq l.token t.token)) [
  | inl same ↦ rw same h
  | inr other ↦ rw other (h.0, update_first-NoneOf k t list h.1)
]

apart_sym :
    (a b : CommissionTokenKind) → commission_token_eq a b ≡ false → commission_token_eq b a ≡ false
apart_sym a b apart = elim (Bool-cases (commission_token_eq b a)) [
  | inl same ↦
      let is = ap (commission_token_eq a) (commission_token_eq→≡ b a same) in
      absurd (ground (arith, is, commission_token_eq_refl a))
  | inr other ↦ other
]

append-AreDistinct :
    (t : CommissionToken) (list : List CommissionToken)
    → AreDistinct list
    → fees list t.token ≡ none
    → AreDistinct (list ++ t ∷ [])
unfolding fees check_token_is_acceptable
append-AreDistinct t [] distinct fresh = (tt, tt)
append-AreDistinct t (l ∷ list) distinct fresh =
    elim (Bool-cases (commission_token_eq l.token t.token)) [
      | inl same ↦ absurd (ground arith)
      | inr other ↦ (
        append-NoneOf l.token list t distinct.0 (apart_sym l.token t.token other),
        append-AreDistinct t list distinct.1 (ground arith),
      )
    ]

remove_first-AreDistinct :
    (t : CommissionToken) (list : List CommissionToken)
    → AreDistinct list
    → AreDistinct (remove_first t list)
unfolding remove_first
remove_first-AreDistinct t [] distinct = tt
remove_first-AreDistinct t (l ∷ list) distinct = elim (Bool-cases (token_eq l t)) [
  | inl same ↦ rw same distinct.1
  | inr other ↦
      rw other
        (remove_first-NoneOf l.token t list distinct.0, remove_first-AreDistinct t list distinct.1)
]

update_first-AreDistinct :
    (t : CommissionToken) (list : List CommissionToken)
    → AreDistinct list
    → AreDistinct (update_first t list)
unfolding update_first
update_first-AreDistinct t [] distinct = tt
update_first-AreDistinct t (l ∷ list) distinct =
    elim (Bool-cases (commission_token_eq l.token t.token)) [
      | inl same ↦ rw same distinct
      | inr other ↦ rw other (
        update_first-NoneOf l.token t list distinct.0,
        update_first-AreDistinct t list distinct.1,
      )
    ]

-- A list without a second entry of a token stays one where only tokens that have no fee are added.
pub operation-AreDistinct :
    (operation : OperationType) (t : CommissionToken) (list : List CommissionToken)
    → AreDistinct list
    → IsFresh operation t (fees list)
    → AreDistinct (change_tokens operation t list)
unfolding change_tokens
operation-AreDistinct add_token t list distinct fresh = append-AreDistinct t list distinct fresh
operation-AreDistinct remove_token t list distinct fresh = remove_first-AreDistinct t list distinct
operation-AreDistinct update_token t list distinct fresh = update_first-AreDistinct t list distinct
operation-AreDistinct withdraw_token t list distinct fresh = distinct
