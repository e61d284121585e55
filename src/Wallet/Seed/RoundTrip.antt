-- ===== src/Wallet/Seed/RoundTrip.antt =====
-- What was encrypted is decrypted again.
use mathlib.Core.List.{append_assoc}
use web3_blitz.Base.{
  ℕ, ◌+◌, ◌*◌, ◌/◌, ◌%◌, ◌<◌, ◌≤◌, ◌≡◌, refl, sym, ◌∙◌, ap, inl, inr, true, ◌&&◌, Option, none,
  some, [], ◌∷◌, ◌++◌, arith, length, take, leb, map, if◌then◌else◌, Option-cases,
}
use web3_blitz.Wallet.Seed.{
  Bytes, drop, hex_value, hex_digit, pair_value, cons_byte, decode_hex, encode_hex, Crypto, ok,
  encrypt_seed, decrypt_seed,
}

-- The digit in lower case.
abbrev pub lower : ℕ → ℕ
lower c = if leb b'A' c && leb c b'F' then c + 32 else c

digit_lem : (c n : ℕ) → hex_value c ≡ some n → (n < 16) × (hex_digit n ≡ lower c)
digit_lem c n h = ground arith

pair_lem :
    (c d b : ℕ)
    → pair_value (hex_value c) (hex_value d) ≡ some b
    → (hex_digit (b / 16) ≡ lower c) × (hex_digit (b % 16) ≡ lower d)
pair_lem c d b h = elim (Option-cases (hex_value c)) [
  | inl e ↦ cc (rw e at h)
  | inr (m, e) ↦ elim (Option-cases (hex_value d)) [
    | inl e' ↦ cc (rw e' at (rw e at h))
    | inr (n, e') ↦
        let (small, first) = digit_lem c m e in
        let (small', second) = digit_lem d n e' in
        let whole : m * 16 + n ≡ b = ground arith in
        let high : b / 16 ≡ m = omega arith in
        let low : b % 16 ≡ n = omega arith in (rw high first, rw low second)
  ]
]

cons_inv :
    (x : Option ℕ) (y : Option Bytes) {b : Bytes}
    → cons_byte x y ≡ some b
    → (v : ℕ) × (r : Bytes) × (x ≡ some v) × (y ≡ some r) × (b ≡ v ∷ r)
cons_inv none y h = cc
cons_inv (some v) none h = cc
cons_inv (some v) (some r) h = (v, r, refl, refl, cc)

encode-decode : (s : Bytes) {b : Bytes} → decode_hex s ≡ some b → encode_hex b ≡ map lower s
unfolding decode_hex encode_hex
encode-decode [] {b} h = let e : b ≡ [] = cc in rw e refl
encode-decode (c ∷ []) h = cc
encode-decode (c ∷ d ∷ s) {b} h =
    let (v, r, pair, rest, whole) =
      cons_inv (pair_value (hex_value c) (hex_value d)) (decode_hex s) h in
    let (high, low) = pair_lem c d v pair in
    rw whole (ground (arith, high, low, encode-decode s rest))

take-append : (xs ys : Bytes) (n : ℕ) → length xs ≡ n → take n (xs ++ ys) ≡ xs
take-append [] ys n h = rw (← h) refl
take-append (x ∷ xs) ys n h =
    rw (← h) (ap (λ (t : Bytes). x ∷ t) (take-append xs ys (length xs) refl))

drop-append : (xs ys : Bytes) (n : ℕ) → length xs ≡ n → drop n (xs ++ ys) ≡ ys
drop-append [] ys n h = rw (← h) refl
drop-append (x ∷ xs) ys n h = rw (← h) (drop-append xs ys (length xs) refl)

length-append : (xs ys : Bytes) → length (xs ++ ys) ≡ length xs + length ys
length-append [] ys = omega arith
length-append (x ∷ xs) ys = omega (arith, length-append xs ys)

-- For a passphrase whose key the cipher takes, with a salt of 32 bytes and a nonce of 12, a seed in
-- hexadecimal digits is encrypted, and the file decrypts under the same passphrase to the same
-- digits, in lower case. Of GCM it is assumed that opening undoes sealing, and that what is sealed
-- is not empty.
pub decrypt_seed-encrypt_seed :
    (crypto : Crypto) (salt nonce seed_hex passphrase : Bytes) {seed : Bytes}
    → ((k n p : Bytes) → crypto.open' k n (crypto.seal k n p) ≡ some p)
    → ((k n p : Bytes) → 1 ≤ length (crypto.seal k n p))
    → length salt ≡ 32
    → length nonce ≡ 12
    → crypto.takes (crypto.id_key passphrase salt) ≡ true
    → decode_hex seed_hex ≡ some seed
    → (file : Bytes) × (encrypt_seed crypto (some salt) (some nonce) seed_hex passphrase ≡ ok file)
      × (decrypt_seed crypto (some file) passphrase ≡ ok (map lower seed_hex))
unfolding encrypt_seed decrypt_seed
decrypt_seed-encrypt_seed crypto salt nonce seed_hex passphrase {seed} opens tag sl nl takes
      digits =
    let key = crypto.id_key passphrase salt in
    let sealed = crypto.seal key nonce seed in
    let file = salt ++ (nonce ++ sealed) in
    let after_salt : drop 32 file ≡ nonce ++ sealed = drop-append salt (nonce ++ sealed) 32 sl in
    let long : leb 45 (length file) ≡ true = ground (
      arith,
      length-append salt (nonce ++ sealed),
      length-append nonce sealed,
      tag key nonce seed,
    ) in
    let body : drop 44 file ≡ sealed =
      ap (drop 44) (sym (append_assoc salt nonce sealed))
      ∙ drop-append (salt ++ nonce) sealed 44 (omega (arith, length-append salt nonce)) in
    (
      file,
      rw (digits, takes) refl,
      rw long (
          rw (take-append salt (nonce ++ sealed) 32 sl) (
            rw takes (
              rw after_salt (
                rw (take-append nonce sealed 12 nl)
                  (rw body (rw (opens key nonce seed) (ap ok (encode-decode seed_hex digits)))))))),
    )
