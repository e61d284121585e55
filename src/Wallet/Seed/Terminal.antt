-- ===== src/Wallet/Seed/Terminal.antt =====
-- `ReadPassphrase`, with the limit of core dumps around the reading.
use web3_blitz.Base.{
  ℕ, ◌≤◌, ◌≡◌, Bool, true, false, ◌&&◌, ◌||◌, Option, none, some, List, [], ◌∷◌, ◌++◌, leb, arith,
  if◌then◌else◌,
}
use web3_blitz.Wallet.Seed.{Bytes, SeedResult, ok, fail, no_input, empty_passphrase}

-- `syscall.Rlimit`.
pub record Rlimit : Type 0 where
  pub cur : ℕ
  pub max : ℕ

-- The limit RLIMIT_CORE of the process, whether it may raise the upper bound of a limit
-- (CAP_SYS_RESOURCE), and the limits in force at each reading of a passphrase.
pub record Process : Type 0 where
  pub core : Rlimit
  pub is_privileged : Bool
  pub read_under : List Rlimit

-- setrlimit as the system documents it; the program drops its error.
unfoldable setrlimit : Rlimit → Process → Process
setrlimit l p =
    if leb l.cur l.max && (leb l.max p.core.max || p.is_privileged)
    then record p { core = l }
    else p

abbrev pub no_core : Rlimit
no_core = record { cur = 0; max = 0 }

-- A call of getrlimit that fails leaves zeros.
abbrev old_limit : Bool → Process → Rlimit
old_limit true p = p.core
old_limit false p = no_core

abbrev passphrase_of : Option Bytes → SeedResult Bytes
passphrase_of none = fail no_input
passphrase_of (some []) = fail empty_passphrase
passphrase_of (some (c ∷ s)) = ok (c ∷ s)

abbrev read_password : Process → Process
read_password p = record p { read_under = p.read_under ++ p.core ∷ [] }

-- From the terminal: `got` says whether getrlimit has answered, `typed` what was typed.
unfoldable read_typed : Bool → Option Bytes → Process → SeedResult Bytes × Process
read_typed got typed p =
    (passphrase_of typed, setrlimit (old_limit got p) (read_password (setrlimit no_core p)))

-- `ReadPassphrase`: the environment comes first.
pub read_passphrase : Bytes → Bool → Option Bytes → Process → SeedResult Bytes × Process
read_passphrase [] got typed p = read_typed got typed p
read_passphrase (c ∷ s) got typed p = (ok (c ∷ s), p)

-- A passphrase from the terminal is read while core dumps are off, whatever is typed. Afterwards a
-- privileged process whose limit was read has its old limit back; in a process without privileges
-- the upper bound stays at 0, so the old limit is lost.
pub read_passphrase_limits :
    (got : Bool) (typed : Option Bytes) (p : Process)
    → p.core.cur ≤ p.core.max
    → let p' = (read_passphrase [] got typed p).1 in
      (p'.read_under ≡ p.read_under ++ no_core ∷ [])
      × (p.is_privileged ≡ true → got ≡ true → p'.core ≡ p.core)
      × (p.is_privileged ≡ false → p'.core.max ≡ 0)
unfolding read_passphrase read_typed setrlimit
read_passphrase_limits true typed p h = (ground arith, λ k g. ground arith, λ k. ground arith)
read_passphrase_limits false typed p h = (ground arith, λ k g. cc, λ k. ground arith)
