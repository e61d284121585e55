-- ===== src/Wallet/Seed.antt =====
-- internal/wallet/core/seed.go: the encrypted file of the seed, and reading its passphrase.
-- A text is the list of its bytes.
pub mod RoundTrip
pub mod Terminal
pub mod Hash
use web3_blitz.Base.{
  ℕ, zero, suc, ◌+◌, ◌-◌, ◌*◌, ◌/◌, ◌%◌, Bool, true, false, ◌&&◌, Option, none, some, List, [], ◌∷◌,
  ◌++◌, ltb, leb, if◌then◌else◌,
}
use web3_blitz.Base.{length, take}

abbrev pub Bytes : Type 0
Bytes = List ℕ

abbrev drop : ℕ → Bytes → Bytes
drop zero s = s
drop (suc n) [] = []
drop (suc n) (c ∷ s) = drop n s

-- A digit of `hex.DecodeString`, in either case.
abbrev pub hex_value : ℕ → Option ℕ
hex_value c =
    if leb b'0' c && leb c b'9'
    then some (c - b'0')
    else if leb b'a' c && leb c b'f'
    then some (c - b'a' + 10)
    else if leb b'A' c && leb c b'F'
    then some (c - b'A' + 10)
    else none

abbrev pair_value : Option ℕ → Option ℕ → Option ℕ
pair_value (some h) (some l) = some (h * 16 + l)
pair_value _ _ = none

abbrev cons_byte : Option ℕ → Option Bytes → Option Bytes
cons_byte (some b) (some s) = some (b ∷ s)
cons_byte _ _ = none

-- `hex.DecodeString`; an odd digit at the end is an error.
unfoldable pub decode_hex : Bytes → Option Bytes
decode_hex [] = some []
decode_hex (c ∷ []) = none
decode_hex (c ∷ d ∷ s) = cons_byte (pair_value (hex_value c) (hex_value d)) (decode_hex s)

abbrev hex_digit : ℕ → ℕ
hex_digit n = if ltb n 10 then n + b'0' else n - 10 + b'a'

-- `hex.EncodeToString`.
unfoldable pub encode_hex : Bytes → Bytes
encode_hex [] = []
encode_hex (b ∷ s) = hex_digit (b / 16) ∷ hex_digit (b % 16) ∷ encode_hex s

-- argon2, AES and GCM, which are not code of the repository: the key of a passphrase and a salt,
-- whether `aes.NewCipher` and `cipher.NewGCM` take the key, and sealing and opening by a key and a
-- nonce.
pub record Crypto : Type 0 where
  pub id_key : Bytes → Bytes → Bytes
  pub takes : Bytes → Bool
  pub seal : Bytes → Bytes → Bytes → Bytes
  pub open' : Bytes → Bytes → Bytes → Option Bytes

pub data SeedError : Type 0 where
  not_hex random_failed cipher_failed unreadable bad_format not_decrypted : SeedError
  no_input empty_passphrase missing_file bad_seed : SeedError

pub data SeedResult (A : Type 0) : Type 0 where
  ok : A → SeedResult A
  fail : SeedError → SeedResult A

infixl 5 ◌>>=◌
abbrev pub ◌>>=◌ : {A B : Type 0} → SeedResult A → (A → SeedResult B) → SeedResult B
ok a >>= f = f a
fail e >>= f = fail e

abbrev pub or_fail : {A : Type 0} → Option A → SeedError → SeedResult A
or_fail none e = fail e
or_fail (some a) e = ok a

abbrev pub need : Bool → SeedError → SeedResult (Unit {0})
need true e = ok tt
need false e = fail e

module _ (crypto : Crypto) where
  -- `EncryptSeed`, with what `rand.Read` gives for the salt and for the nonce.
  pub encrypt_seed : Option Bytes → Option Bytes → Bytes → Bytes → SeedResult Bytes
  encrypt_seed salt_read nonce_read seed_hex passphrase = do
    seed ← or_fail (decode_hex seed_hex) not_hex
    salt ← or_fail salt_read random_failed
    let key = crypto.id_key passphrase salt
    _ ← need (crypto.takes key) cipher_failed
    nonce ← or_fail nonce_read random_failed
    ok (salt ++ (nonce ++ crypto.seal key nonce seed))

  -- `DecryptSeedFile`, with what the file holds.
  unfoldable pub decrypt_seed : Option Bytes → Bytes → SeedResult Bytes
  decrypt_seed file passphrase = do
    stored ← or_fail file unreadable
    _ ← need (leb 45 (length stored)) bad_format
    let salt = take 32 stored
    let nonce = take 12 (drop 32 stored)
    let key = crypto.id_key passphrase salt
    _ ← need (crypto.takes key) cipher_failed
    plain ← or_fail (crypto.open' key nonce (drop 44 stored)) not_decrypted
    ok (encode_hex plain)
