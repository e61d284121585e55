-- ===== src/Api/Auth/Forgot.antt =====
-- `ForgotPassword`: what it tells about an address.
use web3_blitz.Base.{◌≡◌, inl, inr, false, some, none, String, str_eq, arith, Option-cases}
use web3_blitz.Code.{internal}
use web3_blitz.Db.Models.{User}
use web3_blitz.Db.Users.{get_user_by_email}
use web3_blitz.Effects.{World, ok, fail, after_query}
use web3_blitz.Api.Request.{Method, Request}
use web3_blitz.Api.Auth.{AuthEnv, read_maybe, forgot_password}

-- A well-formed request for an address without an account is answered with success, and changes
-- nothing but the database's answer that it uses up.
forgot_password_unknown :
    (env : AuthEnv) (r : Request String) (w : World) (email : String)
    → r.method ≡ Method.post
    → r.body ≡ some email
    → str_eq email "" ≡ false
    → get_user_by_email email w.tables ≡ none
    → forgot_password env r w ≡ (ok tt, record w { outages = after_query w.outages })
unfolding forgot_password read_maybe
forgot_password_unknown env r w email m b e u = simp (m, b, e) (ground (arith, u))

-- An internal error of the request tells that the address has an account: only then are a token and
-- a mail made, which can fail.
pub forgot_password-fail :
    (env : AuthEnv) (r : Request String) (w : World)
    → (forgot_password env r w).0 ≡ fail internal
    → (email : String) × (u : User) × (r.body ≡ some email)
      × (get_user_by_email email w.tables ≡ some u)
unfolding forgot_password read_maybe
forgot_password-fail env r w h = elim (Option-cases r.body) [
  | inl e ↦ absurd (ground arith)
  | inr (email, e) ↦ elim (Option-cases (get_user_by_email email w.tables)) [
    | inl f ↦ absurd (ground arith)
    | inr (u, f) ↦ (email, u, e, f)
  ]
]
