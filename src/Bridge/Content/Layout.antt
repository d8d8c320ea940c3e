-- ===== src/Bridge/Content/Layout.antt =====
-- Which withdrawals the signed message tells apart.
use solana_bridge_program.Common.{
  ℕ, ◌<◌, ◌^◌, ◌≡◌, Bytes, length, ◌++◌, append_assoc, append-nil, append-injective, [], ◌∷◌, ◌∙◌,
  sym, ap, refl,
}
use solana_bridge_program.Shared.Types.{solana_network}
use solana_bridge_program.Shared.Merkle.{amount_bytes}
use solana_bridge_program.Shared.Merkle.Amount.{length-amount_bytes, amount_bytes_injective}
use solana_bridge_program.Bridge.Content.{
  new, message, new_native_transfer, new_ft_transfer, get_operation,
}

native_operation : (a : ℕ) → get_operation (new_native_transfer a) ≡ amount_bytes a
unfolding get_operation
native_operation a = append-nil (amount_bytes a)

length-native : (a : ℕ) → length (get_operation (new_native_transfer a)) ≡ 32
length-native a = ap length (native_operation a) ∙ length-amount_bytes a

-- Two SOL withdrawals of 64-bit amounts, with origins and receivers of 32 bytes, have one message
-- only if they agree in the amount, the origin, the receiver and the program.
pub native_message_injective :
    (origin origin' receiver receiver' program program' : Bytes) (amount amount' : ℕ)
    → length origin ≡ 32
    → length origin' ≡ 32
    → length receiver ≡ 32
    → length receiver' ≡ 32
    → amount < 2 ^ 64
    → amount' < 2 ^ 64
    → message (new origin receiver program (new_native_transfer amount))
      ≡ message (new origin' receiver' program' (new_native_transfer amount'))
    → (amount ≡ amount') × (origin ≡ origin') × (receiver ≡ receiver') × (program ≡ program')
unfolding message new
native_message_injective o o' r r' p p' a a' ho ho' hr hr' ha ha' e =
    let (same_operation, e1) =
      append-injective (get_operation (new_native_transfer a))
        (get_operation (new_native_transfer a')) _ _ (length-native a ∙ sym (length-native a')) e in
    let (same_origin, e2) = append-injective o o' _ _ (ho ∙ sym ho') e1 in
    let (_, e3) = append-injective solana_network solana_network _ _ refl e2 in
    let (same_receiver, same_program) = append-injective r r' p p' (hr ∙ sym hr') e3 in
    let same_amount = sym (native_operation a) ∙ same_operation ∙ native_operation a' in
    (amount_bytes_injective a a' ha ha' same_amount, same_origin, same_receiver, same_program)

-- The message of a fungible token does not tell where its name ends and its address begins: bytes
-- moved from the start of the address to the end of the name leave the message as it is.
pub ft_message_ambiguous :
    (origin receiver program mint name moved uri symbol : Bytes) (amount decimals : ℕ)
    → message (
        new origin receiver program
          (new_ft_transfer mint amount (name ++ moved) symbol uri decimals))
      ≡ message (
          new origin receiver program
            (new_ft_transfer mint amount name symbol (moved ++ uri) decimals))
unfolding message new get_operation
ft_message_ambiguous origin receiver program mint name moved uri symbol amount decimals =
    let rest = amount_bytes amount ++ (symbol ++ decimals ∷ []) in
    ap (λ (x : Bytes). (mint ++ x) ++ (origin ++ (solana_network ++ (receiver ++ program))))
      (append_assoc name moved (uri ++ rest)
        ∙ ap (λ (x : Bytes). name ++ x) (sym (append_assoc moved uri rest)))
