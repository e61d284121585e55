-- ===== src/Wallet/Hd/Opened.antt =====
-- The wallet that is opened from a file, and the keys of a branch.
use web3_blitz.Base.{
  ℕ, ◌≤◌, ◌≡◌, refl, true, some, List, [], ◌∷◌, ◌++◌, arith, length, map, Option-cases, inl, inr,
}
use web3_blitz.Wallet.Seed.{Bytes, hex_value, decode_hex, Crypto, ok, encrypt_seed}
use web3_blitz.Wallet.Seed.RoundTrip.{lower, decrypt_seed-encrypt_seed}
use web3_blitz.Wallet.Hd.{Bip32, new_hd_wallet, new_hd_wallet_from_encrypted, below, derive_from}

hex_value-lower : (c : ℕ) → hex_value (lower c) ≡ hex_value c
hex_value-lower c = ground arith

-- The case of the digits does not matter.
decode_hex-lower : (s : Bytes) → decode_hex (map lower s) ≡ decode_hex s
unfolding decode_hex
decode_hex-lower [] = refl
decode_hex-lower (c ∷ []) = refl
decode_hex-lower (c ∷ d ∷ s) =
    rw (hex_value-lower c) (rw (hex_value-lower d) (rw (decode_hex-lower s) refl))

module _ (bip32 : Bip32) where
  -- The keys of a longer path are those below the key of its beginning.
  derive_from-append :
      (ns ms : List ℕ) (key : bip32.Key)
      → derive_from bip32 (ns ++ ms) key
        ≡ below bip32 (derive_from bip32 ns key) (derive_from bip32 ms)
  unfolding derive_from
  derive_from-append [] ms key = refl
  derive_from-append (n ∷ ns) ms key = elim (Option-cases (bip32.new_child_key key n)) [
    | inl e ↦ rw e refl
    | inr (child, e) ↦ rw e (derive_from-append ns ms child)
  ]

  -- For a passphrase whose key the cipher takes, with a salt of 32 bytes and a nonce of 12: a seed in
  -- hexadecimal digits, in either case, is encrypted, and from the file the same passphrase opens the
  -- same wallet as the seed itself, or ends with the same error. Of GCM it is assumed that opening
  -- undoes sealing, and that what is sealed is not empty.
  pub new_hd_wallet-encrypt_seed :
      (crypto : Crypto) (salt nonce seed_hex passphrase : Bytes) {seed : Bytes}
      → ((k n p : Bytes) → crypto.open' k n (crypto.seal k n p) ≡ some p)
      → ((k n p : Bytes) → 1 ≤ length (crypto.seal k n p))
      → length salt ≡ 32
      → length nonce ≡ 12
      → crypto.takes (crypto.id_key passphrase salt) ≡ true
      → decode_hex seed_hex ≡ some seed
      → (file : Bytes) × (encrypt_seed crypto (some salt) (some nonce) seed_hex passphrase
          ≡ ok file)
        × (new_hd_wallet_from_encrypted bip32 crypto true (some file) passphrase
            ≡ new_hd_wallet bip32 seed_hex)
  unfolding new_hd_wallet_from_encrypted new_hd_wallet
  new_hd_wallet-encrypt_seed crypto salt nonce seed_hex passphrase opens tag sl nl takes digits =
      let (file, sealed, opened) =
        decrypt_seed-encrypt_seed crypto salt nonce seed_hex passphrase opens tag sl nl takes
          digits in
      (file, sealed, rw opened (rw (decode_hex-lower seed_hex) refl))
