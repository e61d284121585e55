-- ===== src/Wallet/Seed/Hash.antt =====
-- internal/wallet/core/rotation.go and seed.go: the hashes of seeds and passphrases. SHA-256 is not code of
-- the repository.
use web3_blitz.Base.{◌≡◌, ◌↔◌, refl, Bool, true, Option, none, some, [], ◌∷◌, arith}
use web3_blitz.Mail.{text_eq}
use web3_blitz.Wallet.Seed.{Bytes, encode_hex}

module _ (sum256 : Bytes → Bytes) where
  -- `GenerateRandomSeed`, with what `rand.Read` gives.
  unfoldable generate_random_seed : Option Bytes → Option Bytes
  generate_random_seed none = none
  generate_random_seed (some bytes) = some (encode_hex bytes)

  -- `PublishSeedHash`.
  unfoldable publish_seed_hash : Bytes → Bytes
  publish_seed_hash seed_hex = encode_hex (sum256 seed_hex)

  -- `VerifySeedHash`.
  unfoldable verify_seed_hash : Bytes → Bytes → Bool
  verify_seed_hash seed_hex published = text_eq (encode_hex (sum256 seed_hex)) published

  -- `DerivePassphraseHash`.
  unfoldable derive_passphrase_hash : Bytes → Bytes
  derive_passphrase_hash passphrase = encode_hex (sum256 passphrase)

text_eq-true : (s t : Bytes) → text_eq s t ≡ true → s ≡ t
unfolding text_eq
text_eq-true [] [] h = refl
text_eq-true (c ∷ s) (d ∷ t) h =
    let first : c ≡ d = ground arith in let rest = text_eq-true s t (ground arith) in cc
text_eq-true [] (d ∷ t) h = cc
text_eq-true (c ∷ s) [] h = cc

text_eq_refl : (s : Bytes) → text_eq s s ≡ true
unfolding text_eq
text_eq_refl [] = refl
text_eq_refl (c ∷ s) = ground (arith, text_eq_refl s)

-- A seed passes the check against exactly the hash that is published for it.
verify-publish :
    (sum256 : Bytes → Bytes) (seed_hex published : Bytes)
    → (verify_seed_hash sum256 seed_hex published ≡ true)
      ↔ (publish_seed_hash sum256 seed_hex ≡ published)
unfolding verify_seed_hash publish_seed_hash
verify-publish sum256 seed_hex published =
    (λ h. text_eq-true _ published h, λ e. rw e (text_eq_refl published))
