-- ===== src/Codegen/Comment.antt =====
-- `ParseComment`: the regular expression `\w\s*-\s*(\d{3})\s*:\s*([A-Z].*)\s*\.\n*`, searched from the
-- left. A repetition of white space is followed by a character that is none, so that it always
-- takes all there is; the repetition in the description takes as much as lets the rest match.
pub mod RoundTrip
use web3_blitz.Base.{
  ℕ, Bool, true, false, not, ◌&&◌, ◌||◌, Option, none, some, List, [], ◌∷◌, ◌==◌, leb,
  if◌then◌else◌,
}
use web3_blitz.Codegen.{Text, text}

abbrev pub is_digit : ℕ → Bool
is_digit c = leb b'0' c && leb c b'9'

abbrev is_upper : ℕ → Bool
is_upper c = leb b'A' c && leb c b'Z'

-- \w
abbrev is_word : ℕ → Bool
is_word c = is_digit c || is_upper c || (leb b'a' c && leb c b'z') || c == b'_'

-- \s
abbrev is_space : ℕ → Bool
is_space c = c == 9 || c == 10 || c == 12 || c == 13 || c == b' '

abbrev pub newline : ℕ
newline = 10

unfoldable pub drop_spaces : Text → Text
drop_spaces [] = []
drop_spaces (c ∷ s) = if is_space c then drop_spaces s else c ∷ s

abbrev after_char : ℕ → Text → Option Text
after_char x [] = none
after_char x (c ∷ r) = if c == x then some r else none

-- White space, and then the character.
unfoldable pub past : ℕ → Text → Option Text
past x s = after_char x (drop_spaces s)

abbrev is_some : Option Text → Bool
is_some none = false
is_some (some s) = true

abbrev or_here : ℕ → Option Text → Option Text → Option Text
or_here c none here = here
or_here c (some d) here = some (c ∷ d)

-- What stands before the last full stop that ends a description, with no newline in it.
unfoldable pub description : Text → Option Text
description [] = none
description (c ∷ s) =
    let here = if is_some (past b'.' (c ∷ s)) then some [] else none in
    let further = description s in if c == newline then here else or_here c further here

abbrev cons_some : ℕ → Option Text → Option Text
cons_some c none = none
cons_some c (some d) = some (c ∷ d)

abbrev sentence : Text → Option Text
sentence [] = none
sentence (c ∷ r) = if is_upper c then cons_some c (description r) else none

-- From the white space after the colon.
unfoldable pub after_colon : Text → Option Text
after_colon s = sentence (drop_spaces s)

abbrev pub both : Text → Option Text → Option (Text × Text)
both d none = none
both d (some s) = some (d, s)

abbrev then_colon : Text → Option Text → Option (Text × Text)
then_colon d none = none
then_colon d (some s) = both d (after_colon s)

-- From the first of the three digits.
unfoldable pub after_dash : Text → Option (Text × Text)
after_dash (a ∷ b ∷ c ∷ s) =
    if is_digit a && is_digit b && is_digit c
    then then_colon (a ∷ b ∷ c ∷ []) (past b':' s)
    else none
after_dash _ = none

abbrev then_digits : Option Text → Option (Text × Text)
then_digits none = none
then_digits (some s) = after_dash (drop_spaces s)

-- A match that begins at this place.
unfoldable pub match_here : Text → Option (Text × Text)
match_here [] = none
match_here (c ∷ s) = if is_word c then then_digits (past b'-' s) else none

abbrev first_of : Option (Text × Text) → Option (Text × Text) → Option (Text × Text)
first_of none next = next
first_of (some m) next = some m

-- `FindStringSubmatch`: the leftmost match, with its two groups.
unfoldable pub find_match : Text → Option (Text × Text)
find_match [] = none
find_match (c ∷ s) = first_of (match_here (c ∷ s)) (find_match s)

abbrev pub or_default : Option (Text × Text) → Text × Text
or_default none = (text "500", text "Internal server error")
or_default (some m) = m

-- `ParseComment`.
unfoldable pub parse_comment : Text → Text × Text
parse_comment s = or_default (find_match s)
