-- ===== src/Mail.antt =====
-- internal/email/email.go: the mail with the link for a new password. A text is the list of its
-- code points.
pub mod Header
use web3_blitz.Base.{
  ℕ, Bool, true, false, not, ◌&&◌, ◌||◌, Option, none, some, List, [], ◌∷◌, ◌++◌, String, ◌==◌,
  if◌then◌else◌,
}
use web3_blitz.Codegen.{Text, text}

pub record Mailer : Type 0 where
  pub host : Text
  pub port : Text
  pub username : Text
  pub password : Text
  pub from : Text
  pub frontend_url : Text

abbrev pub or_default : Text → Text → Text
or_default [] default = default
or_default (c ∷ s) default = c ∷ s

-- `NewMailer`; `env` gives an empty text for a variable that is not set.
unfoldable new_mailer : (String → Text) → Mailer
new_mailer env = record {
  host = or_default (env "SMTP_HOST") (text "smtp.gmail.com");
  port = or_default (env "SMTP_PORT") (text "465");
  username = env "SMTP_USER";
  password = env "SMTP_PASS";
  from = env "SMTP_FROM";
  frontend_url = or_default (env "FRONTEND_URL") (text "http://localhost:5173");
}

abbrev crlf : Text
crlf = 13 ∷ 10 ∷ []

-- `strings.Join`.
abbrev join : List Text → Text → Text
join [] sep = []
join (t ∷ []) sep = t
join (t ∷ u ∷ ts) sep = t ++ (sep ++ join (u ∷ ts) sep)

abbrev pub header_of : Mailer → Text → Text → List Text
header_of m to subject =
    (text "From: " ++ m.from)
    ∷ (text "To: " ++ to)
    ∷ (text "Subject: " ++ subject)
    ∷ text "MIME-Version: 1.0"
    ∷ text "Content-Type: text/plain; charset=UTF-8"
    ∷ []

unfoldable pub message : Mailer → Text → Text → Text → Text
message m to subject body = join (header_of m to subject ++ [] ∷ body ∷ []) crlf

-- What net/smtp documents: MAIL and RCPT refuse an address with a line break in it.
unfoldable pub has_break : Text → Bool
has_break [] = false
has_break (c ∷ s) = c == 13 || c == 10 || has_break s

-- The answers of the server and of the network, in the order of the calls; `close` is the answer to
-- the whole message, which comes when the writer is closed.
pub record Server : Type 0 where
  pub dial : Bool
  pub greets : Bool
  pub auth : Bool
  pub mail : Bool
  pub rcpt : Bool
  pub opens : Bool
  pub prints : Bool
  pub close : Bool
  pub quit : Bool

-- Whether nil is returned, and what has been delivered.
abbrev Delivery : Type 0
Delivery = Bool × Option Text

-- Port 465. The writer is closed by a `defer`, whose error is dropped.
unfoldable pub send_tls : Server → Mailer → Text → Text → Delivery
send_tls s m to msg =
    if s.dial
      && s.greets
      && s.auth
      && not (has_break m.from)
      && s.mail
      && not (has_break to)
      && s.rcpt
      && s.opens
    then (s.prints, if s.prints && s.close then some msg else none)
    else (false, none)

-- Any other port: `smtp.SendMail`, which returns the errors of the closing and of QUIT too.
unfoldable pub send_mail : Server → Mailer → Text → Text → Delivery
send_mail s m to msg =
    if not (has_break m.from)
      && not (has_break to)
      && s.dial
      && s.greets
      && s.auth
      && s.mail
      && s.rcpt
      && s.opens
      && s.prints
      && s.close
    then (s.quit, some msg)
    else (false, none)

unfoldable pub text_eq : Text → Text → Bool
text_eq [] [] = true
text_eq (c ∷ s) (d ∷ t) = c == d && text_eq s t
text_eq _ _ = false

-- `send`.
unfoldable pub send : Server → Mailer → Text → Text → Text → Delivery
send s m to subject body =
    let msg = message m to subject body in
    if text_eq m.port (text "465") then send_tls s m to msg else send_mail s m to msg

abbrev pub reset_subject : Text
reset_subject = text "BLITZ - 密码重置"

pub reset_body : Mailer → Text → Text
reset_body m token =
    text "您好，\r\n\r\n您已请求重置密码。请点击以下链接完成重置（链接 30 分钟内有效）：\r\n\r\n"
    ++ (m.frontend_url
        ++ (text "/reset-password?token="
            ++ (token ++ text "\r\n\r\n如果您没有请求重置密码，请忽略此邮件。\r\n\r\n— BLITZ 团队")))

-- `SendResetEmail`.
unfoldable pub send_reset_email : Server → Mailer → Text → Text → Delivery
send_reset_email s m to token = send s m to reset_subject (reset_body m token)
