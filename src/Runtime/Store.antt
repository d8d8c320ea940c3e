-- ===== src/Runtime/Store.antt =====
-- Reading accounts after they were written.
use solana_bridge_program.Common.{
  ◌≤◌, ◌≡◌, ◌≢◌, refl, arith, some, ◌++◌, Bytes, length, drop, bytes_eq, bytes_eq_refl, bytes_eq→≡,
  Bool-cases, Bytes-cases, inl, inr, ap, ◌∙◌, length-append, length-drop,
}
use solana_bridge_program.Runtime.{Pubkey, Account, AccountInfo, Bank, ok, set_account, write_data}
use solana_bridge_program.Env.{Borsh, IsLawful}

pub set_account_self : (k : Pubkey) (a : Account) (b : Bank) → set_account k a b k ≡ a
set_account_self k a b = ground (arith, bytes_eq_refl k)

pub set_account_ne : (k j : Pubkey) (a : Account) (b : Bank) → j ≢ k → set_account k a b j ≡ b j
set_account_ne k j a b ne = elim (Bool-cases (bytes_eq k j)) [
  | inl same ↦ absurd (ne (cc (bytes_eq→≡ k j same)))
  | inr other ↦ ground arith
]

-- From `b` to `b'` only the data of the account at `k` changed, and not its size.
pub record OnlyData (k : Pubkey) (b b' : Bank) : Type 0 where
  pub elsewhere : (j : Pubkey) → j ≢ k → b' j ≡ b j
  pub lamports : (b' k).lamports ≡ (b k).lamports
  pub owner : (b' k).owner ≡ (b k).owner
  pub size : length (b' k).data_bytes ≡ length (b k).data_bytes

-- A write that succeeds found room, and put the bytes before what stood behind them.
pub write_data-ok :
    (info : AccountInfo) (bytes : Bytes) {b b' : Bank}
    → write_data info bytes b ≡ ok (tt, b')
    → (length bytes ≤ length (b info.key).data_bytes)
      × ((b' info.key).data_bytes ≡ bytes ++ drop (length bytes) (b info.key).data_bytes)
      × OnlyData info.key b b'
unfolding write_data
write_data-ok info bytes {b} {b'} e =
    let new : Account = record (b info.key) {
      data_bytes = bytes ++ drop (length bytes) (b info.key).data_bytes;
    } in
    let written : b' ≡ set_account info.key new b = ground arith in
    let self = set_account_self info.key new b in
    let old = (b info.key).data_bytes in
    let room : length bytes ≤ length old = ground arith in
    let length_new : length (bytes ++ drop (length bytes) old) ≡ length old =
      omega
        (arith, length-append bytes (drop (length bytes) old), length-drop (length bytes) old) in
    (
      room,
      ap (λ (c : Bank). (c info.key).data_bytes) written ∙ ap (λ (a : Account). a.data_bytes) self,
      record {
        elsewhere = λ j ne. ap (λ (c : Bank). c j) written ∙ set_account_ne info.key j new b ne;
        lamports =
            ap (λ (c : Bank). (c info.key).lamports) written
            ∙ ap (λ (a : Account). a.lamports) self;
        owner = ap (λ (c : Bank). (c info.key).owner) written ∙ ap (λ (a : Account). a.owner) self;
        size =
            ap (λ (c : Bank). length (c info.key).data_bytes) written
            ∙ ap (λ (a : Account). length a.data_bytes) self
            ∙ length_new;
      },
    )

-- A value that was serialized into an account is read back from it.
pub write-read :
    {A : Type 0} (c : Borsh A) (IsSized : A → Type 0) (info : AccountInfo) (x : A) (b b' : Bank)
    → IsLawful IsSized c
    → IsSized x
    → write_data info (c.serialize x) b ≡ ok (tt, b')
    → c.deserialize (b' info.key).data_bytes ≡ some x
write-read c IsSized info x b b' law sized e =
    let (room, bytes, only) = write_data-ok info (c.serialize x) e in
    ap c.deserialize bytes
    ∙ law.round_trip x (drop (length (c.serialize x)) (b info.key).data_bytes) sized

-- The owner and the size of the data of every account are as before.
pub record SameShape (b b' : Bank) : Type 0 where
  pub owner : (k : Pubkey) → (b' k).owner ≡ (b k).owner
  pub size : (k : Pubkey) → length (b' k).data_bytes ≡ length (b k).data_bytes

-- One account was replaced by one of the same shape.
pub SameShape-set :
    (k : Pubkey) (a : Account) (b b' : Bank)
    → b' ≡ set_account k a b
    → a.owner ≡ (b k).owner
    → length a.data_bytes ≡ length (b k).data_bytes
    → SameShape b b'
SameShape-set k a b b' e owner size = record {
  owner = λ j. elim (Bytes-cases j k) [
    | inl same ↦ rw (e, same, set_account_self k a b) owner
    | inr other ↦ rw (e, set_account_ne k j a b other) refl
  ];
  size = λ j. elim (Bytes-cases j k) [
    | inl same ↦ rw (e, same, set_account_self k a b) size
    | inr other ↦ rw (e, set_account_ne k j a b other) refl
  ];
}

pub write_data-SameShape :
    (info : AccountInfo) (bytes : Bytes) {b b' : Bank}
    → write_data info bytes b ≡ ok (tt, b')
    → SameShape b b'
unfolding write_data
write_data-SameShape info bytes {b} {b'} e =
    let old = (b info.key).data_bytes in
    let (room, _, _) = write_data-ok info bytes {b = b} {b' = b'} e in
    SameShape-set info.key (record (b info.key) { data_bytes = bytes ++ drop (length bytes) old }) b
      b' (ground arith) refl
      (omega (arith, length-append bytes (drop (length bytes) old), length-drop (length bytes) old))

pub OnlyData-lamports :
    (k : Pubkey) {b b' : Bank} → OnlyData k b b' → (j : Pubkey) → (b' j).lamports ≡ (b j).lamports
OnlyData-lamports k {b} {b'} only j = elim (Bytes-cases j k) [
  | inl same ↦ rw same only.lamports
  | inr other ↦ ap (λ (a : Account). a.lamports) (only.elsewhere j other)
]

-- A write that has room succeeds.
pub write_data-passes :
    (info : AccountInfo) (bytes : Bytes) (b : Bank)
    → length bytes ≤ length (b info.key).data_bytes
    → (b' : Bank) × (write_data info bytes b ≡ ok (tt, b'))
unfolding write_data
write_data-passes info bytes b room =
    let old = (b info.key).data_bytes in
    (
      set_account info.key (record (b info.key) { data_bytes = bytes ++ drop (length bytes) old })
          b,
      ground arith,
    )
