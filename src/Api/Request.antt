-- ===== src/Api/Request.antt =====
-- What a handler sees of an HTTP request: its method, the claims that JWTMiddleware put into its
-- context, and its decoded body (`none` when `json.Decode` fails).
use web3_blitz.Base.{ℕ, Bool, true, false, Option, none, some, String, if◌then◌else◌}
use web3_blitz.Code.{invalid_arg, unauthorized}
use web3_blitz.Effects.{Action, fail, ok}

pub data Method : Type 0 where
  get post put : Method
  other_method : String → Method

abbrev method_eq : Method → Method → Bool
method_eq Method.get Method.get = true
method_eq Method.post Method.post = true
method_eq Method.put Method.put = true
method_eq _ _ = false

pub record Claims : Type 0 where
  pub user_id : ℕ
  pub username : String

pub record Request (B : Type 0) : Type 0 where
  pub method : Method
  pub claims : Option Claims
  pub body : Option B

-- `if r.Method != m { Fail(w, code.ErrInvalidArg); return }`
abbrev pub need_method : {B : Type 0} → Method → Request B → Action (Unit {0})
need_method m r w = (if method_eq r.method m then ok tt else fail invalid_arg, w)

-- `if err := json.NewDecoder(r.Body).Decode(&req); err != nil { Fail(w, code.ErrInvalidArg); ... }`
abbrev pub need_body : {B : Type 0} → Request B → Action B
need_body r w = (elim r.body [ none ↦ fail invalid_arg | some b ↦ ok b ], w)

-- `claims := auth.GetClaims(r); if claims == nil { Fail(w, code.ErrUnauthorized); return }`
abbrev pub need_claims : {B : Type 0} → Request B → Action Claims
need_claims r w = (elim r.claims [ none ↦ fail unauthorized | some c ↦ ok c ], w)
