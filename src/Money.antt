-- ===== src/Money.antt =====
-- Amounts. A float64 amount in BTC or ETH is modelled as an exact count of 10^-18 coins (a wei, for
-- ETH), which is finer than any amount that the chains or the database hold; a NUMERIC(20,8) value
-- is a count of 10^-8 coins.
use web3_blitz.Base.{ℕ, ◌+◌, ◌*◌, ◌/◌}

abbrev pub coin : ℕ
coin = 1000000000000000000

abbrev pub unit8 : ℕ
unit8 = 10000000000

-- `fmt.Sscanf(s, "%f", &f)` of a NUMERIC(20,8) column.
abbrev pub scan : ℕ → ℕ
scan u = u * unit8

-- `fmt.Sprintf("%.8f", f)`: the nearest count of 10^-8, half up.
unfoldable pub sprintf8 : ℕ → ℕ
sprintf8 a = (a + 5000000000) / unit8
