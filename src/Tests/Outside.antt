-- ===== src/Tests/Outside.antt =====
-- Seed files, mail and the route table at concrete inputs.
use web3_blitz.Base.{
  ℕ, List, ◌≡◌, refl, find_row, has_row, select, true, false, Option, none, some, [], ◌∷◌, ◌++◌,
  String, arith,
}
use web3_blitz.Effects.{ok, try_read, World, Action}
use web3_blitz.Api.Request.{Claims}
use web3_blitz.Api.Access.{
  replied, jwt_middleware, split_n, rbac_middleware, rbac_result, has_permission,
}
use web3_blitz.Db.Users.{get_user_permissions}
use web3_blitz.Api.Mux.{Operation, Route, routes, route_at, dispatch}
use web3_blitz.Api.Mux.Guards.{IsAllowed, needs, dispatch_lem}
use web3_blitz.Codegen.{text}
use web3_blitz.Wallet.Seed.{Bytes, Crypto, decode_hex, encrypt_seed, decrypt_seed}
use web3_blitz.Wallet.Address.{parse_path, parse_from}
use web3_blitz.Wallet.Hd.{
  Bip32, new_hd_wallet, new_hd_wallet_from_encrypted, derive_from, derive_path,
}
use web3_blitz.Wallet.Hd.Opened.{new_hd_wallet-encrypt_seed}
use web3_blitz.Wallet.Seed.Terminal.{Process, no_core, read_passphrase, read_passphrase_limits}
use web3_blitz.Mail.{
  Mailer, Server, has_break, text_eq, message, reset_body, send_tls, send, header_of, reset_subject,
  send_reset_email,
}
use web3_blitz.Mail.Header.{header_lines, send_reset_email_lem}
use web3_blitz.Tests.Data.{world, admin}

-- A stand-in for GCM: a tag of one byte before the seed, and a test of the tag.
abbrev untag : Bytes → Option Bytes
untag [] = none
untag (c ∷ s) = some s

abbrev crypto : Crypto
crypto = record {
  id_key = λ p s. p;
  takes = λ k. true;
  seal = λ k n p. 0 ∷ p;
  open' = λ k n c. untag c;
}

abbrev salt : Bytes
salt = text "0123456789abcdef0123456789abcdef"

abbrev nonce : Bytes
nonce = text "0123456789ab"

digits : decode_hex (text "0aFF") ≡ some (10 ∷ 255 ∷ [])
unfolding decode_hex
digits = refl

-- A stand-in for go-bip32: a key is the list of its numbers.
abbrev bip32 : Bip32
bip32 = record {
  Key = List ℕ;
  new_master_key = λ seed. some seed;
  new_child_key = λ k n. some (k ++ n ∷ []);
}

derived : derive_path bip32 "m/44'/5" (1 ∷ []) ≡ some (1 ∷ 2147483692 ∷ 5 ∷ [])
unfolding derive_path derive_from parse_path parse_from
derived = refl

new_hd_wallet-encrypt_seed_example :
    (file : Bytes) × (encrypt_seed crypto (some salt) (some nonce) (text "0aFF") (text "pw")
      ≡ web3_blitz.Wallet.Seed.SeedResult.ok file)
    × (new_hd_wallet_from_encrypted bip32 crypto true (some file) (text "pw")
        ≡ new_hd_wallet bip32 (text "0aFF"))
new_hd_wallet-encrypt_seed_example =
    new_hd_wallet-encrypt_seed bip32 crypto salt nonce (text "0aFF") (text "pw") (λ k n p. refl)
      (λ k n p. omega arith) refl refl refl digits

abbrev process : Process
process = record {
  core = record { cur = 1000; max = 2000 };
  is_privileged = false;
  read_under = [];
}

read_passphrase_limits_example :
    ((read_passphrase [] true (some (text "pw")) process).1.read_under ≡ [] ++ no_core ∷ [])
    × (false ≡ true
        → true ≡ true
        → (read_passphrase [] true (some (text "pw")) process).1.core ≡ process.core)
    × (false ≡ false → (read_passphrase [] true (some (text "pw")) process).1.core.max ≡ 0)
read_passphrase_limits_example =
    read_passphrase_limits true (some (text "pw")) process (omega arith)

-- A file that is too short is no seed file.
short_file :
    decrypt_seed crypto (some (text "short")) (text "pw")
    ≡ web3_blitz.Wallet.Seed.SeedResult.fail web3_blitz.Wallet.Seed.SeedError.bad_format
unfolding decrypt_seed
short_file = refl

abbrev mailer : Mailer
mailer = record {
  host = text "smtp";
  port = text "465";
  username = text "u";
  password = text "p";
  from = text "blitz@x";
  frontend_url = text "http://f";
}

abbrev server : Server
server = record {
  dial = true;
  greets = true;
  auth = true;
  mail = true;
  rcpt = true;
  opens = true;
  prints = true;
  close = true;
  quit = true;
}

mail_sent :
    (send_reset_email server mailer (text "ann@x") (text "t0")).1
    ≡ some (message mailer (text "ann@x") reset_subject (reset_body mailer (text "t0")))
unfolding send_reset_email send send_tls text_eq has_break
mail_sent = refl

send_reset_email_lem_example :
    header_lines (message mailer (text "ann@x") reset_subject (reset_body mailer (text "t0")))
    ≡ header_of mailer (text "ann@x") reset_subject
send_reset_email_lem_example =
    send_reset_email_lem server mailer (text "ann@x") (text "t0") mail_sent

-- The server refuses the message, and `send` returns nil all the same.
mail_lost :
    send_reset_email (record server { close = false }) mailer (text "ann@x") (text "t0")
    ≡ (true, none)
unfolding send_reset_email send send_tls text_eq has_break
mail_lost = refl

-- An address with a line break is refused before anything is sent.
mail_injected : (send_reset_email server mailer (text "ann@x\r\nBcc: all") (text "t0")).0 ≡ false
unfolding send_reset_email send send_tls text_eq has_break
mail_injected = refl

abbrev parse : String → Option Claims
parse t = some admin

abbrev answer : Operation → Option Claims → Action String
answer op c w = (ok "done", w)

abbrev route : Route
route = record {
  path = "/api/v1/users";
  jwt = true;
  permission = some "user:read";
  limiter = none;
  operation = Operation.list_users;
}

-- User 1 has the role 2, which has the permission 3.
abbrev allowed : World
allowed = record world {
  tables = record world.tables {
    permissions = record { id = 3; name = "user:read" } ∷ [];
    role_permissions = record { role_id = 2; permission_id = 3 } ∷ [];
    user_roles = record { user_id = 1; role_id = 2 } ∷ [];
  };
}

route_found : route_at "/api/v1/users" ≡ some route
unfolding route_at routes find_row
route_found = refl

dispatched : (dispatch parse "Bearer abc" (λ l. true) answer route allowed).0 ≡ replied (ok "done")
unfolding dispatch jwt_middleware split_n rbac_middleware rbac_result has_permission
    get_user_permissions try_read has_row select
dispatched = refl

dispatch_lem_example : IsAllowed parse "Bearer abc" (needs Operation.list_users) allowed
dispatch_lem_example =
    dispatch_lem parse "Bearer abc" (λ l. true) answer "/api/v1/users" allowed route_found
      dispatched
