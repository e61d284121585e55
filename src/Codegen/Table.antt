-- ===== src/Codegen/Table.antt =====
-- internal/code/code.go against internal/code/code_generated.go: the comments of the constants, and
-- the table that the service answers with.
use web3_blitz.Base.{◌≡◌, refl, Option, none, some, String}
use web3_blitz.Code.{
  ErrorCode, unknown, invalid_arg, unauthorized, forbidden, not_found, internal, deadline_exceeded,
  user_already_exists, user_not_found, user_password_wrong, user_token_invalid,
  user_refresh_token_invalid, wallet_chain_not_supported, wallet_address_invalid,
  wallet_insufficient_balance, wallet_daily_limit_exceeded, wallet_duplicate_withdraw,
  wallet_broadcast_failed, wallet_pending_review, wallet_invalid_status, http_status, message,
}
use web3_blitz.Codegen.{Text, text}
use web3_blitz.Codegen.Values.{chosen_comment}
use web3_blitz.Codegen.Comment.{
  drop_spaces, past, description, after_colon, after_dash, match_here, find_match, parse_comment,
}
use web3_blitz.Codegen.Output.{decimal, decimal_from}

-- The comment on the line of a constant.
pub line : ErrorCode → String
line unknown = "ErrUnknown - 500: Internal server error.\n"
line invalid_arg = "ErrInvalidArg - 400: Invalid argument.\n"
line unauthorized = "ErrUnauthorized - 401: Unauthorized.\n"
line forbidden = "ErrForbidden - 403: Forbidden.\n"
line not_found = "ErrNotFound - 404: Not found.\n"
line internal = "ErrInternal - 500: Internal server error.\n"
line deadline_exceeded = "ErrDeadlineExceeded - 408: Deadline exceeded.\n"
line user_already_exists = "ErrUserAlreadyExists - 409: User already exists.\n"
line user_not_found = "ErrUserNotFound - 404: User not found.\n"
line user_password_wrong = "ErrUserPasswordWrong - 401: Username or password is wrong.\n"
line user_token_invalid = "ErrUserTokenInvalid - 401: Token is invalid or expired.\n"
line user_refresh_token_invalid =
    "ErrUserRefreshTokenInvalid - 401: Refresh token is invalid or expired.\n"
line wallet_chain_not_supported = "ErrWalletChainNotSupported - 400: Chain not supported.\n"
line wallet_address_invalid = "ErrWalletAddressInvalid - 400: Invalid wallet address.\n"
line wallet_insufficient_balance = "ErrWalletInsufficientBalance - 400: Insufficient balance.\n"
line wallet_daily_limit_exceeded =
    "ErrWalletDailyLimitExceeded - 400: Daily withdrawal limit exceeded.\n"
line wallet_duplicate_withdraw = "ErrWalletDuplicateWithdraw - 429: Duplicate withdrawal request.\n"
line wallet_broadcast_failed = "ErrWalletBroadcastFailed - 500: Transaction broadcast failed.\n"
line wallet_pending_review =
    "ErrWalletPendingReview - 202: Withdrawal submitted, pending admin review.\n"
line wallet_invalid_status =
    "ErrWalletInvalidStatus - 400: Invalid withdrawal status for this operation.\n"

-- The comment above a constant: the first of each block has one.
abbrev pub doc : ErrorCode → Option Text
doc unknown = some (text "通用错误\n")
doc user_already_exists = some (text "用户相关\n")
doc wallet_chain_not_supported = some (text "钱包相关\n")
doc _ = none

-- The comment that `genDecl` keeps.
pub comment : ErrorCode → Text
comment c = chosen_comment (doc c) (some (1, text (line c)))

-- What the service answers with.
abbrev pub answered : ErrorCode → Text × Text
answered c = (decimal (http_status c), text (message c))

-- What the generator would write for a constant.
abbrev pub regenerated : ErrorCode → Text × Text
regenerated user_already_exists = (text "500", text "Internal server error")
regenerated wallet_chain_not_supported = (text "500", text "Internal server error")
regenerated c = answered c

-- For every error code, the comment on its line in code.go reads as the status that `HTTPStatus`
-- gives and the text that `Message` gives. But `genDecl` prefers the comment above a constant: from
-- what it keeps, `ParseComment` gives the same for all but two codes, and status 500 with "Internal
-- server error" for ErrUserAlreadyExists and ErrWalletChainNotSupported.
pub table_lem :
    (c : ErrorCode)
    → (parse_comment (text (line c)) ≡ answered c) × (parse_comment (comment c) ≡ regenerated c)
unfolding parse_comment find_match match_here after_dash past after_colon description drop_spaces
    decimal_from line comment http_status message
table_lem unknown = (refl, refl)
table_lem invalid_arg = (refl, refl)
table_lem unauthorized = (refl, refl)
table_lem forbidden = (refl, refl)
table_lem not_found = (refl, refl)
table_lem internal = (refl, refl)
table_lem deadline_exceeded = (refl, refl)
table_lem user_already_exists = (refl, refl)
table_lem user_not_found = (refl, refl)
table_lem user_password_wrong = (refl, refl)
table_lem user_token_invalid = (refl, refl)
table_lem user_refresh_token_invalid = (refl, refl)
table_lem wallet_chain_not_supported = (refl, refl)
table_lem wallet_address_invalid = (refl, refl)
table_lem wallet_insufficient_balance = (refl, refl)
table_lem wallet_daily_limit_exceeded = (refl, refl)
table_lem wallet_duplicate_withdraw = (refl, refl)
table_lem wallet_broadcast_failed = (refl, refl)
table_lem wallet_pending_review = (refl, refl)
table_lem wallet_invalid_status = (refl, refl)
