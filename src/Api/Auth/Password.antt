-- ===== src/Api/Auth/Password.antt =====
-- Which passwords are accepted, and which accounts are made.
use Prim.Native.Char.{Char}
use Prim.Native.String.{len}
use web3_blitz.Base.{
  ◌≡◌, ◌≤◌, inl, inr, ◌∙◌, Bool, true, false, ◌||◌, ◌&&◌, String, str_eq, some, arith, ◌∷◌, [],
  ◌++◌, has_row, Option-cases,
}
use web3_blitz.Db.Models.{User}
use web3_blitz.Db.Users.{create_user}
use web3_blitz.Effects.{World, ok, try_write}
use web3_blitz.Api.Request.{Method, Request}
use web3_blitz.Api.Auth.{
  AuthEnv, Credentials, is_letter, is_digit, scan_password, has_letter_and_digit, register,
}

-- Some character of the text meets the test.
abbrev has_char : (Char → Bool) → String → Bool
has_char p String.[] = false
has_char p (String.◌∷◌ c s) = p c || has_char p s

scan_password_lem :
    (a b : Bool) (s : String)
    → scan_password a b s ≡ (a || has_char is_letter s) && (b || has_char is_digit s)
unfolding scan_password
scan_password_lem a b String.[] = ground arith
scan_password_lem a b (String.◌∷◌ c s) =
    scan_password_lem (is_letter c || a) (is_digit c || b) s ∙ ground arith

-- The loop over the password with its two flags decides whether some character is an ASCII letter
-- and some character is an ASCII digit.
has_letter_and_digit_lem :
    (s : String) → has_letter_and_digit s ≡ has_char is_letter s && has_char is_digit s
unfolding has_letter_and_digit
has_letter_and_digit_lem s = scan_password_lem false false s

-- A registration that is answered had an email that no user has as name or email, and a password of
-- at least eight bytes with a letter and a digit; it has appended one user of level 0, whose name
-- and email are the email and whose password column is the hash, and changed no other row.
register-ok :
    (env : AuthEnv) (r : Request Credentials) (w : World) {u : User}
    → (register env r w).0 ≡ ok u
    → (b : Credentials) × (r.method ≡ Method.post)
      × (r.body ≡ some b)
      × (8 ≤ len b.password)
      × (has_char is_letter b.password ≡ true)
      × (has_char is_digit b.password ≡ true)
      × (has_row (λ v. str_eq v.username b.email || str_eq v.email b.email) w.tables.users ≡ false)
      × (u.level ≡ 0)
      × (u.username ≡ b.email)
      × (u.email ≡ b.email)
      × (env.hash_password b.password ≡ some u.password)
      × ((register env r w).1.tables ≡ record w.tables {
        users = w.tables.users ++ u ∷ [];
        user_seq = (register env r w).1.tables.user_seq;
      })
unfolding register try_write create_user
register-ok env r w {u} h = elim (Option-cases r.body) [
  | inl e ↦ absurd (ground arith)
  | inr (b, e) ↦
      let strong = has_letter_and_digit_lem b.password in
      elim (Option-cases (env.hash_password b.password)) [
        | inl f ↦ absurd (ground arith)
        | inr (p, f) ↦ (
          b,
          ground arith,
          e,
          ground arith,
          ground (arith, strong),
          ground (arith, strong),
          ground arith,
          ground arith,
          ground arith,
          ground arith,
          ground arith,
          ground arith,
        )
      ]
]
