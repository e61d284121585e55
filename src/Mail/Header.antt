-- ===== src/Mail/Header.antt =====
-- What a mail that is delivered looks like.
use mathlib.Core.List.{append-nil, append_assoc}
use web3_blitz.Base.{
  ℕ, ◌≡◌, refl, ◌∙◌, ap, Bool, true, false, ◌&&◌, some, List, [], ◌∷◌, ◌++◌, ◌==◌, arith, All,
  if◌then◌else◌,
}
use web3_blitz.Codegen.{Text, text}
use web3_blitz.Mail.{
  Mailer, crlf, join, header_of, message, has_break, Server, send_tls, send_mail, send,
  reset_subject, reset_body, send_reset_email,
}

abbrev is_empty : Text → Bool
is_empty [] = true
is_empty (c ∷ s) = false

-- The lines before the first empty line, as a reader of the mail finds them; `acc` is what has been
-- read of the line.
unfoldable pub header_from : Text → Text → List Text
header_from acc [] = acc ∷ []
header_from acc (c ∷ []) = (acc ++ c ∷ []) ∷ []
header_from acc (c ∷ d ∷ s) =
    let further = header_from (acc ++ c ∷ []) (d ∷ s) in
    let fresh = header_from [] s in
    if c == 13 && d == 10 then (if is_empty acc then [] else acc ∷ fresh) else further

abbrev pub header_lines : Text → List Text
header_lines msg = header_from [] msg

read_char :
    (acc : Text) (c d : ℕ) (s : Text)
    → (c == 13) ≡ false
    → header_from acc (c ∷ d ∷ s) ≡ header_from (acc ++ c ∷ []) (d ∷ s)
unfolding header_from
read_char acc c d s h = rw h refl

-- A line without a break is read to its end.
read_line :
    (acc line rest : Text)
    → has_break line ≡ false
    → header_from acc (line ++ 13 ∷ 10 ∷ rest) ≡ header_from (acc ++ line) (13 ∷ 10 ∷ rest)
unfolding has_break
read_line acc [] rest h = rw (append-nil acc) refl
read_line acc (c ∷ []) rest h = read_char acc c 13 (10 ∷ rest) (ground arith)
read_line acc (c ∷ d ∷ line) rest h =
    read_char acc c d (line ++ 13 ∷ 10 ∷ rest) (ground arith)
    ∙ read_line (acc ++ c ∷ []) (d ∷ line) rest (ground arith)
    ∙ ap (λ (t : Text). header_from t (13 ∷ 10 ∷ rest)) (append_assoc acc (c ∷ []) (d ∷ line))

-- A line that is not empty is one of the header, and reading goes on after it.
read_header :
    (c : ℕ) (line rest : Text)
    → has_break (c ∷ line) ≡ false
    → header_from [] ((c ∷ line) ++ 13 ∷ 10 ∷ rest) ≡ (c ∷ line) ∷ header_from [] rest
unfolding header_from
read_header c line rest h = read_line [] (c ∷ line) rest h

has_break-append :
    (s t : Text) → has_break s ≡ false → has_break t ≡ false → has_break (s ++ t) ≡ false
unfolding has_break
has_break-append [] t h k = k
has_break-append (c ∷ s) t h k = ground (arith, has_break-append s t (ground arith) k)

-- A line of a header.
abbrev IsLine : Text → Type 0
IsLine [] = ⊥
IsLine (c ∷ s) = has_break (c ∷ s) ≡ false

join_lem :
    (ls : List Text) (body : Text)
    → All IsLine ls
    → header_lines (join (ls ++ [] ∷ body ∷ []) crlf) ≡ ls
join_lem [] body h = unfold header_from in refl
join_lem ([] ∷ ls) body h = elim h.0 [ ]
join_lem ((c ∷ s) ∷ []) body h =
    read_header c s (13 ∷ 10 ∷ body) h.0 ∙ ap (λ (t : List Text). (c ∷ s) ∷ t) (join_lem [] body tt)
join_lem ((c ∷ s) ∷ l ∷ ls) body h =
    read_header c s (join (l ∷ (ls ++ [] ∷ body ∷ [])) crlf) h.0
    ∙ ap (λ (t : List Text). (c ∷ s) ∷ t) (join_lem (l ∷ ls) body h.1)

message_lem :
    (m : Mailer) (to subject body : Text)
    → has_break m.from ≡ false
    → has_break to ≡ false
    → has_break subject ≡ false
    → header_lines (message m to subject body) ≡ header_of m to subject
unfolding message
message_lem m to subject body hf ht hs =
    let line1 = has_break-append (text "From: ") m.from (unfold has_break in refl) hf in
    let line2 = has_break-append (text "To: ") to (unfold has_break in refl) ht in
    let line3 = has_break-append (text "Subject: ") subject (unfold has_break in refl) hs in
    join_lem (header_of m to subject) body
      (line1, (line2, (line3, (unfold has_break in refl, (unfold has_break in refl, tt)))))

send-breaks :
    (s : Server) (m : Mailer) (to subject body : Text) {msg : Text}
    → (send s m to subject body).1 ≡ some msg
    → (msg ≡ message m to subject body) × (has_break m.from ≡ false) × (has_break to ≡ false)
unfolding send send_tls send_mail
send-breaks s m to subject body h = ground arith

-- Whatever address a user has registered and whatever the server answers: a mail that is delivered
-- has, before its first empty line, exactly the five lines of the header, with the address as the
-- whole of the line To; so no address adds a line.
pub send_reset_email_lem :
    (s : Server) (m : Mailer) (to token : Text) {msg : Text}
    → (send_reset_email s m to token).1 ≡ some msg
    → header_lines msg ≡ header_of m to reset_subject
unfolding send_reset_email
send_reset_email_lem s m to token h =
    let (same, from, to_line) = send-breaks s m to reset_subject (reset_body m token) h in
    rw same
      (message_lem m to reset_subject (reset_body m token) from to_line (unfold has_break in refl))
