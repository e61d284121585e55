-- ===== src/Db.antt =====
-- internal/db: the tables of migrations/*.up.sql, the row types of models.go and the queries of
-- queries.sql.go, each as a function on the tables.
pub mod Models
pub mod Deposits
pub mod Withdrawals
pub mod Users
pub mod Tokens
