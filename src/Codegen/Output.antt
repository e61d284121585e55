-- ===== src/Codegen/Output.antt =====
-- `generate` and `generateDocs`: the text that is written from the values, before go/format.
use web3_blitz.Base.{
  ℕ, zero, suc, ◌+◌, ◌-◌, ◌/◌, ◌%◌, ◌&&◌, Option, none, some, List, [], ◌∷◌, ◌++◌, String, ltb, leb,
  if◌then◌else◌,
}
use web3_blitz.Codegen.{Text, text}
use web3_blitz.Codegen.Comment.{parse_comment, newline}
use web3_blitz.Codegen.Values.{Decl, Value, collect}

-- `%d`; a number has fewer digits than n + 1.
unfoldable pub decimal_from : ℕ → ℕ → Text
decimal_from zero n = []
decimal_from (suc f) n =
    let rest = decimal_from f (n / 10) in
    let digit = (n % 10 + b'0') ∷ [] in if ltb n 10 then digit else rest ++ digit

abbrev pub decimal : ℕ → Text
decimal n = decimal_from (suc n) n

-- `strings.Title` of an identifier in ASCII.
abbrev title : Text → Text
title [] = []
title (c ∷ s) = (if leb b'a' c && leb c b'z' then c - 32 else c) ∷ s

abbrev line : Text → Text
line s = s ++ newline ∷ []

unfoldable pub cases_of : List Value → Text
cases_of [] = []
cases_of (v ∷ vs) =
    let (status, desc) = parse_comment v.comment in
    line (text "  case " ++ text v.original_name ++ text ":")
    ++ (line (text "    return \"" ++ status ++ text ": " ++ desc ++ text "\"") ++ cases_of vs)

-- The function that is printed for a type.
unfoldable pub string_switch : String → List Value → Text
string_switch t vs =
    newline ∷ line (text "// " ++ title (text t) ++ text "String returns \"HTTP: msg\" for code.")
    ++ (line (text "func " ++ text t ++ text "String(code " ++ text t ++ text ") string {")
        ++ (line (text "  switch code {")
            ++ (cases_of vs
                ++ (line (text "  default:")
                    ++ (line (text "    return \"500: unknown\"")
                        ++ (line (text "  }") ++ line (text "}")))))))

abbrev if_values : List Value → Text → Option Text
if_values [] t = none
if_values (v ∷ vs) t = some t

abbrev with_values : Option (List Value) → (List Value → Text) → Option Text
with_values none f = none
with_values (some vs) f = if_values vs (f vs)

-- `generate`: what is appended to the buffer; `none` is a `log.Fatalf`.
unfoldable pub generate : String → Text → List (Option (List Decl)) → Option Text
generate t prefix files = with_values (collect t prefix files []) (string_switch t)

unfoldable pub doc_rows : List Value → Text
doc_rows [] = []
doc_rows (v ∷ vs) =
    let (status, desc) = parse_comment v.comment in
    line (
      text "| "
      ++ text v.original_name
      ++ text " | "
      ++ decimal v.value
      ++ text " | "
      ++ status
      ++ text " | "
      ++ desc
      ++ text " |")
    ++ doc_rows vs

-- `generateDocs`, after the fixed text `errCodeDocPrefix`.
unfoldable pub generate_docs : String → Text → Text → List (Option (List Decl)) → Option Text
generate_docs t prefix doc_prefix files =
    with_values (collect t prefix files []) (λ vs. doc_prefix ++ (doc_rows vs ++ newline ∷ []))
