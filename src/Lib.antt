-- ===== src/Lib.antt =====
-- The wallet service blitz: a custodial wallet for BTC and ETH with an HTTP interface, a PostgreSQL
-- database, locks in etcd, and clients of bitcoind and geth.
--
-- The parts and their files.
--   Code: internal/code, the error codes with their numbers, HTTP statuses and messages.
--   Db: internal/db. `Db.Models` has a record for each row of models.go and `Tables` for the
--     database; `Db.Deposits`, `Db.Withdrawals`, `Db.Users` and `Db.Tokens` have a function for each
--     query of queries.sql.go, named as the query, with the constraints of the migrations: `none`
--     is a query that returns an error (no row, or a constraint that refuses).
--   Effects: what a request reads and writes (`World`) and the monad of the handlers (`Action`): a
--     reply or an error code, with the state after it. `try_read` and `try_write` are queries whose
--     error ends the handler, `ignore_write` one whose error is dropped. A query may fail in any
--     place: the list `outages` says which of the next queries do, and a theorem holds for all such
--     lists unless it says that the database answers.
--   Money: amounts, and writing them to eight decimals.
--   Api: internal/api and internal/auth. `Api.Withdraw` is the handler `Withdraw` with its lock
--     (internal/lock) and `broadcastWithdrawal`, `Api.Review` the handlers of pending withdrawals,
--     `Api.Ledger` any sequence of these requests with time passing and outages in between, and in
--     `Api.Ledger.Race` two reviews whose parts interleave;
--     `Api.Auth` is api/auth.go, `Api.Tokens` auth/auth.go, `Api.Access` the middleware, `Api.Mux`
--     the table of routes of mux.go, `Api.RateLimit` ratelimit.go, `Api.Admin` admin.go and
--     `Api.Wallets` the handlers of wallet.go that generate an address or only read.
--   Wallet: internal/wallet. `Wallet.Node` is what one call gets from the nodes and from the
--     libraries of the chains; `Wallet.Withdraw` signs and broadcasts; `Wallet.Address` and
--     `Wallet.Registry` make and keep the deposit addresses; `Wallet.Watch` scans the chains for
--     payments; `Wallet.Consume` is the loop of cmd/wallet-service/main.go that writes them;
--     `Wallet.Confirm` is `ConfirmChecker.check`, `Wallet.Level` what it logs of a user's level, and
--     `Wallet.Election` the election of the checker that runs it, a step relation over the checkers
--     of several processes and one etcd; `Wallet.Pipeline` has the turns of watchers, consumers,
--     checker and requests for addresses, over one state; `Wallet.Reconcile` is reconcile/, the
--     comparison of the rows with the chains; `Wallet.Sweep` moves the surplus to cold storage;
--     `Wallet.Rotation` is the plan of branches of core/rotation.go; `Wallet.Seed` is core/seed.go,
--     the encrypted file of the seed and the reading of its passphrase, with the hashes of seeds;
--     `Wallet.Hd` is core/hd.go, the wallet that is opened from that file; `Wallet.Clients` has the
--     network, the hot key and the balances of btc/ and eth/.
--   Custody: these turns and the requests of `Api.Ledger` in any order, the whole service.
--   Codegen: tools/codegen. `Codegen.Values` is `genDecl`, `Codegen.Comment` the matching of
--     `ParseComment`, `Codegen.Output` the text of `generate` and `generateDocs`; `Codegen.Table`
--     has the comments of internal/code/code.go.
--   Mail: internal/email, the mail for a new password and the conversation with the SMTP server.
--   Audit: internal/audit, the events of the audit log. Config: internal/config, the clients that
--     are replaced while the service runs. Start: cmd/wallet-service/main.go, what is checked before
--     the service serves.
--   Base: names, list functions, Boolean tests and integers that the files share.
--   Tests: the theorems at concrete inputs.
--
-- How they interact. A watcher puts payments to registered addresses into a channel, the consumer
-- writes them as unconfirmed deposits, the checker confirms them; the handlers compare confirmed
-- deposits with withdrawals, take the lock in etcd and call a wallet, whose node keeps what was
-- broadcast (`World.sent`). The routes put middleware before the handlers.
--
-- Requests at the same time. net/http runs the handlers concurrently, and only `Withdraw` holds a
-- lock. A sequence of requests, or of requests and turns of the loops, takes each as one step, so what
-- is shown of sequences is shown of runs in which none comes between the queries of another. It does
-- not carry over to reviews that run at the same time: `Api.Ledger.Race` has the steps of two.
--
-- Bounds. Loops are recursion on their lists, on the number of blocks or attempts that are left, or,
-- for the digits of a number n, on n + 1 steps, which are enough since each divides by ten. A
-- float64 amount is an exact count of 10^-18 coins and a float64 number of tokens an exact count of
-- 10^-10: rounding of float64 is not modelled. In the checks of the balance and of the daily limit
-- it can decide where amounts meet within some 10^-9 coins, so what says that a withdrawal is
-- answered for certain asks for a margin. Ids and heights are unbounded numbers; the index of a
-- user's address and the numbers of a path are taken modulo 2^32. The channel of a watcher holds
-- 100 records.
--
-- A node that returns an error for a transaction may have taken it all the same: `Wallet.Node` says
-- whether it has, and `World.sent` is what the nodes have taken.
--
-- Code outside the repository is a parameter: the answers of the nodes and of the database, etcd with
-- its leases (a record of operations and laws), argon2, GCM and SHA-256, go-bip32, the JWT library,
-- the SMTP server, and the syntax trees of go/ast. Where characters matter, a text is the list of
-- its code points or bytes.
--
-- Not modelled: HTTP and JSON (a request is its method, its claims and its decoded body), the text
-- of the other messages, logging and the metrics' export, the lease's expiry while a withdrawal's
-- lock is held (a key that a Revoke has left is dropped between requests), go/format, and the other
-- parts that do input and output only or call libraries.
pub mod Base
pub mod Code
pub mod Codegen
pub mod Db
pub mod Effects
pub mod Money
pub mod Mail
pub mod Audit
pub mod Config
pub mod Start
pub mod Wallet
pub mod Api
pub mod Custody
pub mod Tests
