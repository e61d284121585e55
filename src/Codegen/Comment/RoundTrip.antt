-- ===== src/Codegen/Comment/RoundTrip.antt =====
-- A comment in the documented form is read back as its status and its description.
use web3_blitz.Base.{
  Bool-cases, inl, inr, ℕ, ◌≡◌, refl, true, false, none, some, [], ◌∷◌, ◌++◌, ◌==◌, arith, All,
}
use web3_blitz.Codegen.{Text}
use web3_blitz.Codegen.Comment.{
  is_digit, is_upper, is_word, is_space, newline, drop_spaces, past, description, after_colon,
  after_dash, match_here, find_match, parse_comment,
}

-- `<name> - <status>: <description>.`, and the newlines that `Text` leaves at the end.
abbrev pub comment_of : Text → ℕ → ℕ → ℕ → Text → Text → Text
comment_of name a b c desc rest =
    name ++ b' ' ∷ b'-' ∷ b' ' ∷ a ∷ b ∷ c ∷ b':' ∷ b' ' ∷ (desc ++ b'.' ∷ rest)

abbrev Words : Text → Type 0
Words s = All (λ c. is_word c ≡ true) s

abbrev Newlines : Text → Type 0
Newlines s = All (λ c. (c == newline) ≡ true) s

-- One line that begins with a capital letter.
abbrev IsSentence : Text → Type 0
IsSentence [] = ⊥
IsSentence (c ∷ s) = (is_upper c ≡ true) × All (λ d. (d == newline) ≡ false) s

Newlines-drop : (s : Text) → Newlines s → drop_spaces s ≡ []
unfolding drop_spaces
Newlines-drop [] h = refl
Newlines-drop (c ∷ s) h = ground (arith, Newlines-drop s h.1)

Newlines-description : (s : Text) → Newlines s → description s ≡ none
unfolding description past
Newlines-description [] h = refl
Newlines-description (c ∷ s) h = rw h.0 (rw (Newlines-drop (c ∷ s) h) refl)

-- A character that is no white space is not dropped.
drop-other : (c : ℕ) (s : Text) → is_space c ≡ false → drop_spaces (c ∷ s) ≡ c ∷ s
unfolding drop_spaces
drop-other c s h = rw h refl

description_lem :
    (d rest : Text)
    → All (λ c. (c == newline) ≡ false) d
    → Newlines rest
    → description (d ++ b'.' ∷ rest) ≡ some d
unfolding description past
description_lem [] rest h k = rw (Newlines-description rest k) (rw (drop-other b'.' rest refl) refl)
description_lem (c ∷ d) rest h k = rw h.0 (rw (description_lem d rest h.1 k) refl)

word-other : (c : ℕ) → is_word c ≡ true → (is_space c ≡ false) × ((c == b'-') ≡ false)
word-other c h = ground arith

digit-other : (c : ℕ) → is_digit c ≡ true → is_space c ≡ false
digit-other c h = ground arith

upper-other : (c : ℕ) → is_upper c ≡ true → is_space c ≡ false
upper-other c h = ground arith

space-drop : (s : Text) → drop_spaces (b' ' ∷ s) ≡ drop_spaces s
unfolding drop_spaces
space-drop s = refl

colon_lem :
    (u : ℕ) (d rest : Text)
    → is_upper u ≡ true
    → All (λ c. (c == newline) ≡ false) d
    → Newlines rest
    → after_colon (b' ' ∷ u ∷ (d ++ b'.' ∷ rest)) ≡ some (u ∷ d)
unfolding after_colon
colon_lem u d rest h k l = rw (space-drop (u ∷ (d ++ b'.' ∷ rest))) (
    rw (drop-other u (d ++ b'.' ∷ rest) (upper-other u h))
      (rw h (rw (description_lem d rest k l) refl)))

-- A word character that is followed by another one begins no match.
word-word : (c d : ℕ) (s : Text) → is_word d ≡ true → match_here (c ∷ d ∷ s) ≡ none
unfolding match_here past
word-word c d s h =
    let (no_space, no_dash) = word-other d h in
    elim (Bool-cases (is_word c)) [
      | inr e ↦ rw e refl
      | inl e ↦ rw e (rw (drop-other d s no_space) (rw no_dash refl))
    ]

-- The last character of the name begins the match.
match_here_lem :
    (w a b c u : ℕ) (d rest : Text)
    → is_word w ≡ true
    → (is_digit a ≡ true) × (is_digit b ≡ true) × (is_digit c ≡ true)
    → is_upper u ≡ true
    → All (λ c. (c == newline) ≡ false) d
    → Newlines rest
    → match_here (comment_of (w ∷ []) a b c (u ∷ d) rest) ≡ some (a ∷ b ∷ c ∷ [], u ∷ d)
unfolding match_here past after_dash
match_here_lem w a b c u d rest hw (ha, hb, hc) hu hd hr =
    let tail = b' ' ∷ u ∷ (d ++ b'.' ∷ rest) in
    let digits = a ∷ b ∷ c ∷ b':' ∷ tail in
    rw hw (
      rw (space-drop (b'-' ∷ b' ' ∷ digits)) (
        rw (drop-other b'-' (b' ' ∷ digits) refl) (
          rw (space-drop digits) (
            rw (drop-other a (b ∷ c ∷ b':' ∷ tail) (digit-other a ha)) (
              rw ha (
                rw hb (
                  rw hc
                    (rw (drop-other b':' tail refl) (rw (colon_lem u d rest hu hd hr) refl)))))))))

-- A comment of the form `<name> - <status>: <description>.`, with a name of letters, digits and
-- underscores, a status of three digits and a description on one line that begins with a capital
-- letter, gives back that status and that description, full stops inside it included.
pub parse_comment_lem :
    (name : Text) (w a b c u : ℕ) (d rest : Text)
    → Words (w ∷ name)
    → (is_digit a ≡ true) × (is_digit b ≡ true) × (is_digit c ≡ true)
    → IsSentence (u ∷ d)
    → Newlines rest
    → parse_comment (comment_of (w ∷ name) a b c (u ∷ d) rest) ≡ (a ∷ b ∷ c ∷ [], u ∷ d)
unfolding parse_comment find_match
parse_comment_lem [] w a b c u d rest hw hd hs hr =
    rw (match_here_lem w a b c u d rest hw.0 hd hs.0 hs.1 hr) refl
parse_comment_lem (v ∷ name) w a b c u d rest hw hd hs hr =
    rw (word-word w v (comment_of name a b c (u ∷ d) rest) hw.1.0)
      (parse_comment_lem name v a b c u d rest hw.1 hd hs hr)
