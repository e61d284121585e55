-- ===== src/Wallet/Hd.antt =====
-- internal/wallet/core/hd.go: the wallet of a seed, and the keys below its master key.
pub mod Opened
use web3_blitz.Base.{ℕ, Bool, Option, none, some, List, [], ◌∷◌, String}
use web3_blitz.Wallet.Address.{parse_path}
use web3_blitz.Wallet.Seed.{
  Bytes, decode_hex, Crypto, SeedResult, ◌>>=◌, or_fail, need, not_hex, missing_file, bad_seed,
  decrypt_seed,
}

-- go-bip32, which is not code of the repository.
pub record Bip32 : Type 1 where
  pub Key : Type 0
  pub new_master_key : Bytes → Option Key
  pub new_child_key : Key → ℕ → Option Key

module _ (bip32 : Bip32) where
  -- `NewHDWallet`: the master key.
  pub new_hd_wallet : Bytes → SeedResult bip32.Key
  new_hd_wallet seed_hex = do
    seed ← or_fail (decode_hex seed_hex) not_hex
    or_fail (bip32.new_master_key seed) bad_seed

  -- `NewHDWalletFromEncrypted`, with whether the file exists and what it holds.
  pub new_hd_wallet_from_encrypted : Crypto → Bool → Option Bytes → Bytes → SeedResult bip32.Key
  new_hd_wallet_from_encrypted crypto exists file passphrase = do
    _ ← need exists missing_file
    seed_hex ← decrypt_seed crypto file passphrase
    new_hd_wallet seed_hex

  abbrev pub below : Option bip32.Key → (bip32.Key → Option bip32.Key) → Option bip32.Key
  below none f = none
  below (some k) f = f k

  -- `derivePathFromMaster`, from the numbers of the path.
  unfoldable pub derive_from : List ℕ → bip32.Key → Option bip32.Key
  derive_from [] key = some key
  derive_from (n ∷ ns) key = below (bip32.new_child_key key n) (derive_from ns)

  -- `DerivePath`.
  unfoldable pub derive_path : String → bip32.Key → Option bip32.Key
  derive_path path master = derive_from (parse_path path) master
