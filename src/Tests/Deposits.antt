-- ===== src/Tests/Deposits.antt =====
-- Deposits at concrete records and heights.
use web3_blitz.Base.{◌≡◌, ◌⊎◌, refl, true, false, some, none, [], ◌∷◌, ◌*◌, has_row, Each}
use web3_blitz.Db.Models.{eth}
use web3_blitz.Effects.{World}
use web3_blitz.Money.{coin}
use web3_blitz.Wallet.Consume.{DepositRecord, consume, consume_all}
use web3_blitz.Wallet.Consume.Outcome.{
  IsInserted, IsBuried, IsUnique, IsNew, consume_outcome, consume_all-IsUnique,
}
use web3_blitz.Wallet.Confirm.{Heights, check}
use web3_blitz.Wallet.Confirm.Outcome.{IsDeep, HasKeys, Confirms, check-Confirms}
use web3_blitz.Wallet.Confirm.Complete.{check_complete}
use web3_blitz.Tests.Data.{world, tables}

abbrev pub payment : DepositRecord
payment = record {
  tx_id = "0xee";
  address = "0xmine";
  user_id = 7;
  amount = 3 * coin;
  height = 100;
  confirmed = false;
  chain = eth;
}

consume_outcome_example :
    IsInserted payment world.tables (consume "ETH_deposit" payment world).tables
    ⊎ IsBuried "ETH_deposit" payment world (consume "ETH_deposit" payment world).tables
consume_outcome_example = consume_outcome "ETH_deposit" payment world

-- The table has one row.
world-IsUnique : IsUnique world.tables.deposits
unfolding has_row
world-IsUnique = (refl, tt)

consume_all-IsUnique_example :
    IsUnique (consume_all "ETH_deposit" (payment ∷ payment ∷ []) world).tables.deposits
consume_all-IsUnique_example =
    consume_all-IsUnique "ETH_deposit" (payment ∷ payment ∷ []) world world-IsUnique

-- The database is out of reach for two queries.
abbrev down : World
down = record world { outages = true ∷ true ∷ false ∷ [] }

payment-IsNew : IsNew "0xee" world.tables.deposits
unfolding has_row
payment-IsNew = refl

-- One row waits for its twelve blocks.
abbrev waiting : World
waiting = record world {
  tables = record tables {
    deposits =
        record {
          id = 2;
          tx_id = "0xee";
          address = "0xmine";
          user_id = 7;
          amount = 300000000;
          height = 100;
          confirmed = 0;
          chain = eth;
        }
        ∷ [];
  };
}

abbrev heights : Heights
heights = record { btc_height = none; eth_height = some 112 }

waiting-HasKeys : HasKeys waiting.tables.deposits
waiting-HasKeys = ((λ e. refl, tt), tt)

check-Confirms_example :
    Each (Confirms heights) waiting.tables.deposits (check heights waiting).tables.deposits
check-Confirms_example = check-Confirms heights waiting waiting-HasKeys

check_complete_example :
    Each
      (λ x y. x.confirmed ≡ 0 → IsDeep heights x.chain x.height → y.confirmed ≡ 1)
      waiting.tables.deposits
      (check heights waiting).tables.deposits
check_complete_example = check_complete heights waiting refl
