-- ===== src/Db/Models.antt =====
-- internal/db/models.go: the rows, with the tables of internal/db/migrations.
-- Rows stand in the order in which they were inserted. A NUMERIC(20,8) column is the number of
-- units of 10^-8; a user id printed into a TEXT column is the number itself.
use web3_blitz.Base.{ℕ, String, Bool, true, false, Option, List, str_eq}
use web3_blitz.Base.Int.{ℤ}

-- A TEXT column that holds a chain: "btc", "eth", or any other text.
pub data Chain : Type 0 where
  btc eth : Chain
  other : String → Chain

abbrev pub chain_eq : Chain → Chain → Bool
chain_eq btc btc = true
chain_eq eth eth = true
chain_eq (other s) (other t) = str_eq s t
chain_eq _ _ = false

-- The texts that the program writes into withdrawals.status.
pub data Status : Type 0 where
  pending completed failed rejected : Status

abbrev pub status_eq : Status → Status → Bool
status_eq pending pending = true
status_eq completed completed = true
status_eq failed failed = true
status_eq rejected rejected = true
status_eq _ _ = false

pub record Deposit : Type 0 where
  pub id : ℕ
  pub tx_id : String
  pub address : String
  pub user_id : ℕ
  pub amount : ℕ
  pub height : ℕ
  pub confirmed : ℕ
  pub chain : Chain

pub record Withdrawal : Type 0 where
  pub id : ℕ
  pub tx_id : Option String
  pub address : String
  pub user_id : ℕ
  pub amount : ℕ
  pub fee : ℕ
  pub status : Status
  pub chain : Chain
  pub created_at : ℕ

pub record DepositAddress : Type 0 where
  pub id : ℕ
  pub user_id : ℕ
  pub address : String
  pub chain : Chain
  pub path : String

pub record User : Type 0 where
  pub id : ℕ
  pub level : ℕ
  pub username : String
  pub email : String
  pub password : String

pub record RefreshToken : Type 0 where
  pub id : ℕ
  pub user_id : ℕ
  pub token : String
  pub expires_at : ℕ
  pub revoked : Bool

pub record PasswordResetToken : Type 0 where
  pub id : ℕ
  pub user_id : ℕ
  pub token : String
  pub expires_at : ℕ
  pub used : Bool

-- The limits are signed: an administrator may store any NUMERIC.
pub record WithdrawalLimit : Type 0 where
  pub id : ℕ
  pub level : ℕ
  pub level_name : String
  pub btc_daily : ℤ
  pub eth_daily : ℤ

pub record CreateDepositParams : Type 0 where
  pub tx_id : String
  pub address : String
  pub user_id : ℕ
  pub amount : ℕ
  pub height : ℕ
  pub confirmed : ℕ
  pub chain : Chain

-- The payload is the JSON of the parameters of the failed insert.
pub record DeadLetter : Type 0 where
  pub id : ℕ
  pub kind : String
  pub payload : CreateDepositParams
  pub retries : ℕ
  pub resolved : Bool

pub record Role : Type 0 where
  pub id : ℕ
  pub name : String

pub record Permission : Type 0 where
  pub id : ℕ
  pub name : String

pub record RolePermission : Type 0 where
  pub role_id : ℕ
  pub permission_id : ℕ

pub record UserRole : Type 0 where
  pub user_id : ℕ
  pub role_id : ℕ

-- The database: the tables, and the next value of each BIGSERIAL sequence.
pub record Tables : Type 0 where
  pub deposits : List Deposit
  pub withdrawals : List Withdrawal
  pub deposit_addresses : List DepositAddress
  pub users : List User
  pub refresh_tokens : List RefreshToken
  pub reset_tokens : List PasswordResetToken
  pub limits : List WithdrawalLimit
  pub dead_letters : List DeadLetter
  pub roles : List Role
  pub permissions : List Permission
  pub role_permissions : List RolePermission
  pub user_roles : List UserRole
  pub deposit_seq : ℕ
  pub withdrawal_seq : ℕ
  pub address_seq : ℕ
  pub user_seq : ℕ
  pub refresh_seq : ℕ
  pub reset_seq : ℕ
  pub dead_letter_seq : ℕ
