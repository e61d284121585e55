-- ===== src/Wallet/Confirm.antt =====
-- internal/wallet/core/confirm.go: `check`, which confirms the deposits that are deep enough.
pub mod Outcome
pub mod Complete
pub mod Kept
use web3_blitz.Base.{ℕ, ◌+◌, Bool, false, Option, none, some, List, [], ◌∷◌, leb, if◌then◌else◌}
use web3_blitz.Code.{internal}
use web3_blitz.Db.Models.{Chain, btc, eth, other, Deposit}
use web3_blitz.Db.Deposits.{list_unconfirmed_deposits, update_deposit_confirmed}
use web3_blitz.Effects.{
  World, Reply, ok, fail, ◌>>◌, try_read, ignore_write, emit, deposit_confirmed,
}

abbrev btc_required_confirms : ℕ
btc_required_confirms = 6

abbrev eth_required_confirms : ℕ
eth_required_confirms = 12

-- The heights that the two nodes report: `none` when a node does not answer.
pub record Heights : Type 0 where
  pub btc_height : Option ℕ
  pub eth_height : Option ℕ

-- A node that does not answer leaves the height at 0.
abbrev or_zero : Option ℕ → ℕ
or_zero none = 0
or_zero (some h) = h

-- The height from which a deposit counts as confirmed, or `none` for a chain without a case, and
-- whether the chain has come so far: `currentHeight - d.Height >= required`.
abbrev pub is_deep : Heights → Chain → ℕ → Bool
is_deep h btc height = leb (height + btc_required_confirms) (or_zero h.btc_height)
is_deep h eth height = leb (height + eth_required_confirms) (or_zero h.eth_height)
is_deep h (other c) height = false

-- One turn of the loop; the update of a deposit that fails is left to the next run.
unfoldable pub confirm_row : Heights → Deposit → World → World
confirm_row h d w =
    if is_deep h d.chain d.height
    then ((emit (deposit_confirmed d.chain) >> ignore_write (update_deposit_confirmed d.id)) w).1
    else w

unfoldable pub confirm_rows : Heights → List Deposit → World → World
confirm_rows h [] w = w
confirm_rows h (d ∷ ds) w = confirm_rows h ds (confirm_row h d w)

-- After the query for the unconfirmed deposits.
unfoldable pub confirm_listed : Heights → Reply (List Deposit) × World → World
confirm_listed h (ok ds, w) = confirm_rows h ds w
confirm_listed h (fail c, w) = w

unfoldable pub check : Heights → World → World
check h w = confirm_listed h (try_read internal list_unconfirmed_deposits w)
