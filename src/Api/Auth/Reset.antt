-- ===== src/Api/Auth/Reset.antt =====
-- Password resets: what an answered one has changed, and that its token and the user's sessions end.
use Prim.Native.String.{len}
use web3_blitz.Base.{◌≤◌, ◌≡◌, some, String, arith, find_row}
use web3_blitz.Code.{ErrorCode}
use web3_blitz.Db.Models.{Tables}
use web3_blitz.Db.Users.{update_user_password}
use web3_blitz.Db.Tokens.{is_usable, mark_password_reset_token_used, revoke_all_user_refresh_tokens}
use web3_blitz.Effects.{World, fail, try_read, try_write, ignore_write}
use web3_blitz.Api.Request.{Method, Request}
use web3_blitz.Api.Auth.{AuthEnv, ResetBody, ResetGrant, grant_reset, write_reset, reset_password}

-- The tables after a reset for which every query was answered.
abbrev reset_done : ResetGrant → Tables → Tables
reset_done g t =
    (revoke_all_user_refresh_tokens g.row.user_id
      (mark_password_reset_token_used g.token
        (update_user_password g.hashed g.row.user_id t).1).1).1

-- What a reset has found before it writes.
pub record IsGranted (env : AuthEnv) (r : Request ResetBody) (w : World) (g : ResetGrant)
    : Type 0 where
  pub body : ResetBody
  pub is_post : r.method ≡ Method.post
  pub has_body : r.body ≡ some body
  pub token : g.token ≡ body.token
  pub long : 8 ≤ len body.password
  pub usable : find_row (is_usable w.now g.token) w.tables.reset_tokens ≡ some g.row
  pub hash : env.hash_password body.password ≡ some g.hashed

grant_reset-quiet :
    (env : AuthEnv) (r : Request ResetBody) (w : World)
    → (grant_reset env r w).1 ≡ record w { outages = (grant_reset env r w).1.outages }
unfolding grant_reset try_read
grant_reset-quiet env r w = ground arith

-- A reset that is refused, also one whose first update fails, has changed no table.
reset_password-fail :
    (env : AuthEnv) (r : Request ResetBody) (w : World) {c : ErrorCode}
    → (reset_password env r w).0 ≡ fail c
    → (reset_password env r w).1.tables ≡ w.tables
unfolding reset_password write_reset try_write ignore_write update_user_password
reset_password-fail env r w h = ground (arith, grant_reset-quiet env r w)
