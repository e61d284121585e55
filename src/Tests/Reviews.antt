-- ===== src/Tests/Reviews.antt =====
-- Reviews at concrete rows: an approval, a broadcast that fails, and a rejection.
use web3_blitz.Base.{◌≡◌, ◌*◌, ◌⊎◌, refl, some, none, [], ◌∷◌, select, find_row}
use web3_blitz.Base.Int.{ℤ, pos}
use web3_blitz.Code.{ErrorCode}
use web3_blitz.Db.Models.{eth, pending, completed, rejected, Withdrawal}
use web3_blitz.Db.Withdrawals.{list_pending_withdrawals}
use web3_blitz.Effects.{World, ok, fail, try_read, ignore_write}
use web3_blitz.Money.{coin}
use web3_blitz.Wallet.Withdraw.{eth_withdraw, eth_send}
use web3_blitz.Api.Request.{Method, Request}
use web3_blitz.Api.Withdraw.{broadcast_withdrawal, broadcast_result}
use web3_blitz.Api.Review.{
  ReviewReply, Reviewed, reviewed, need_pending, approve_result, approve_withdrawal, RejectBody,
  reject_withdrawal,
}
use web3_blitz.Api.Review.Outcome.{IsReviewed, IsSettled, reject_outcome}
use web3_blitz.Tests.Data.{lost, tables, world, admin}

abbrev pub row : Withdrawal
row = record {
  id = 1;
  tx_id = none;
  address = "0xto";
  user_id = 7;
  amount = 200000000;
  fee = 0;
  status = pending;
  chain = eth;
  created_at = 900;
}

abbrev pub one_pending : World
one_pending = record world { tables = record tables { withdrawals = row ∷ []; withdrawal_seq = 2 } }

abbrev pub approval : Request ℤ
approval = record { method = Method.post; claims = some admin; body = some (pos 1) }

abbrev approved : ReviewReply
approved = record { id = 1; tx_id = some "0xaa"; status = completed }

-- The node takes the transaction and its answer is lost: the row is failed, the payment is made.
approve_lost :
    (approve_withdrawal lost approval one_pending).1.sent
    ≡ record { chain = eth; to = "0xto"; value = 2 * coin; tx_id = "0xaa" } ∷ []
unfolding approve_withdrawal reviewed need_pending try_read list_pending_withdrawals
    broadcast_withdrawal broadcast_result eth_withdraw eth_send approve_result ignore_write select
    find_row
approve_lost = refl

abbrev pub rejecting : Request RejectBody
rejecting = record {
  method = Method.post;
  claims = some admin;
  body = some (record { id = pos 1; reason = "" });
}

reject_outcome_example :
    ((reject_withdrawal rejecting one_pending).1.sent ≡ [])
    × ((((reject_withdrawal rejecting one_pending).1.tables ≡ one_pending.tables)
          × ((c : ErrorCode) × ((reject_withdrawal rejecting one_pending).0 ≡ fail c)))
        ⊎ ((x : Reviewed RejectBody) × IsReviewed (λ b. b.id) rejecting one_pending.tables x
            × ((reject_withdrawal rejecting one_pending).0
                ≡ ok (record { id = x.row.id; tx_id = none; status = rejected }))
            × IsSettled x one_pending (reject_withdrawal rejecting one_pending).1.tables))
reject_outcome_example = reject_outcome rejecting one_pending
