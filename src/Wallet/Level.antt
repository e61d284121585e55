-- ===== src/Wallet/Level.antt =====
-- internal/wallet/core/confirm.go: `checkAndUpgradeLevel`, which the checker starts for the user of a
-- deposit that it has confirmed. It reads a total and logs a level; it writes nothing.
use web3_blitz.Base.{ℕ, ◌*◌, ◌^◌, ◌≤◌, Bool, Option, none, some, leb, arith, if◌then◌else◌}
use web3_blitz.Db.Models.{btc, Tables}
use web3_blitz.Db.Deposits.{get_total_deposit_by_user_id_and_chain}

-- One BTC, in the unit of the rows.
abbrev one_btc : ℕ
one_btc = 10 ^ 8

-- The level that a total of confirmed deposits suggests.
abbrev suggested_level : ℕ → ℕ
suggested_level total =
    if leb (50 * one_btc) total
    then 3
    else if leb (10 * one_btc) total
    then 2
    else if leb one_btc total
    then 1
    else 0

abbrev with_total : ℕ → Option ℕ → Option (ℕ × ℕ × ℕ)
with_total user none = none
with_total user (some total) = some (user, total, suggested_level total)

-- What is logged: the user, the total and the level; nothing when the query fails.
unfoldable check_and_upgrade_level : Bool → ℕ → Tables → Option (ℕ × ℕ × ℕ)
check_and_upgrade_level answers user t =
    with_total user (if answers then get_total_deposit_by_user_id_and_chain user btc t else none)

-- A user with more confirmed deposits is never suggested a lower level, and no level is above 3, the
-- highest that `UpgradeUser` takes.
suggested_level_mono :
    (m n : ℕ) → m ≤ n → (suggested_level m ≤ suggested_level n) × (suggested_level n ≤ 3)
suggested_level_mono m n h = (ground arith, ground arith)
