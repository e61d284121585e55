-- ===== src/Code.antt =====
-- internal/code/code.go and code_generated.go: the error codes, their numbers, HTTP statuses and
-- messages.
use web3_blitz.Base.{ℕ, String}

-- The constants in the order of the three `const` blocks.
pub data ErrorCode : Type 0 where
  unknown invalid_arg unauthorized forbidden not_found internal deadline_exceeded : ErrorCode
  user_already_exists user_not_found user_password_wrong user_token_invalid : ErrorCode
  user_refresh_token_invalid : ErrorCode
  wallet_chain_not_supported wallet_address_invalid wallet_insufficient_balance : ErrorCode
  wallet_daily_limit_exceeded wallet_duplicate_withdraw wallet_broadcast_failed : ErrorCode
  wallet_pending_review wallet_invalid_status : ErrorCode

-- `iota + 100000`, `iota + 101000` and `iota + 102000`.
pub number : ErrorCode → ℕ
number unknown = 100000
number invalid_arg = 100001
number unauthorized = 100002
number forbidden = 100003
number not_found = 100004
number internal = 100005
number deadline_exceeded = 100006
number user_already_exists = 101000
number user_not_found = 101001
number user_password_wrong = 101002
number user_token_invalid = 101003
number user_refresh_token_invalid = 101004
number wallet_chain_not_supported = 102000
number wallet_address_invalid = 102001
number wallet_insufficient_balance = 102002
number wallet_daily_limit_exceeded = 102003
number wallet_duplicate_withdraw = 102004
number wallet_broadcast_failed = 102005
number wallet_pending_review = 102006
number wallet_invalid_status = 102007

-- `HTTPStatus`; the last clause is `default`.
unfoldable pub http_status : ErrorCode → ℕ
http_status invalid_arg = 400
http_status wallet_chain_not_supported = 400
http_status wallet_address_invalid = 400
http_status wallet_insufficient_balance = 400
http_status wallet_daily_limit_exceeded = 400
http_status wallet_invalid_status = 400
http_status unauthorized = 401
http_status user_password_wrong = 401
http_status user_token_invalid = 401
http_status user_refresh_token_invalid = 401
http_status forbidden = 403
http_status not_found = 404
http_status user_not_found = 404
http_status wallet_pending_review = 202
http_status deadline_exceeded = 408
http_status user_already_exists = 409
http_status wallet_duplicate_withdraw = 429
http_status _ = 500

-- `Message`.
unfoldable pub message : ErrorCode → String
message unknown = "Internal server error"
message invalid_arg = "Invalid argument"
message unauthorized = "Unauthorized"
message forbidden = "Forbidden"
message not_found = "Not found"
message internal = "Internal server error"
message deadline_exceeded = "Deadline exceeded"
message user_already_exists = "User already exists"
message user_not_found = "User not found"
message user_password_wrong = "Username or password is wrong"
message user_token_invalid = "Token is invalid or expired"
message user_refresh_token_invalid = "Refresh token is invalid or expired"
message wallet_chain_not_supported = "Chain not supported"
message wallet_address_invalid = "Invalid wallet address"
message wallet_insufficient_balance = "Insufficient balance"
message wallet_daily_limit_exceeded = "Daily withdrawal limit exceeded"
message wallet_duplicate_withdraw = "Duplicate withdrawal request"
message wallet_broadcast_failed = "Transaction broadcast failed"
message wallet_pending_review = "Withdrawal submitted, pending admin review"
message wallet_invalid_status = "Invalid withdrawal status for this operation"
