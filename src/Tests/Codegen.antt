-- ===== src/Tests/Codegen.antt =====
-- The generator of the error codes on small packages.
use web3_blitz.Base.{◌≡◌, refl, true, false, Option, none, some, List, [], ◌∷◌, ◌++◌}
use web3_blitz.Base.Int.{pos}
use web3_blitz.Codegen.{text}
use web3_blitz.Codegen.Comment.{
  newline, drop_spaces, past, description, after_colon, after_dash, match_here, find_match,
  parse_comment,
}
use web3_blitz.Codegen.Comment.RoundTrip.{comment_of, parse_comment_lem}
use web3_blitz.Codegen.Values.{
  ident, other_expr, Constant, ValueSpec, Decl, const_decl, other_decl, trim_from, add_names,
  gen_specs, gen_decl, inspect, collect,
}
use web3_blitz.Codegen.Values.Types.{of_type, add_all, gen_decl_lem}
use web3_blitz.Codegen.Output.{
  decimal_from, cases_of, string_switch, generate, doc_rows, generate_docs,
}

-- "ErrX - 404: Not. here.\n": the description has a full stop inside it.
parse_comment_lem_example :
    parse_comment (comment_of (text "ErrX") b'4' b'0' b'4' (text "Not. here") (newline ∷ []))
    ≡ (text "404", text "Not. here")
parse_comment_lem_example =
    parse_comment_lem (text "rrX") b'E' b'4' b'0' b'4' b'N' (text "ot. here") (newline ∷ [])
      (refl, (refl, (refl, (refl, tt)))) (refl, refl, refl)
      (refl, (refl, (refl, (refl, (refl, (refl, (refl, (refl, (refl, tt))))))))) (refl, tt)

abbrev integer : Constant
integer = record { is_integer = true; is_unsigned = false; value = some (pos 100001) }

-- `ErrX int = iota // ErrX - 404: Not found.`
abbrev typed : ValueSpec
typed = record {
  names = record { name = "ErrX"; object = some integer } ∷ [];
  type = some (ident "int");
  values = other_expr ∷ [];
  doc = none;
  comment = some (1, text "ErrX - 404: Not found.\n");
}

-- `_`, of the type before.
abbrev blank : ValueSpec
blank = record {
  names = record { name = "_"; object = none } ∷ [];
  type = none;
  values = [];
  doc = none;
  comment = none;
}

gen_decl_lem_example :
    gen_decl "int" [] (const_decl (typed ∷ blank ∷ [])) []
    ≡ add_all [] (of_type "int" none (typed ∷ blank ∷ [])) []
gen_decl_lem_example = gen_decl_lem "int" refl [] (typed ∷ blank ∷ []) [] (tt, (tt, tt))

abbrev files : List (Option (List Decl))
files = some (other_decl ∷ const_decl (typed ∷ blank ∷ []) ∷ []) ∷ none ∷ []

generated :
    generate "int" [] files
    ≡ some (
        text
          "\n// IntString returns \"HTTP: msg\" for code.\nfunc intString(code int) string {\n  switch code {\n"
        ++ text
            "  case ErrX:\n    return \"404: Not found\"\n  default:\n    return \"500: unknown\"\n  }\n}\n")
unfolding generate string_switch cases_of collect inspect gen_specs add_names trim_from
    parse_comment find_match match_here after_dash past after_colon description drop_spaces
generated = refl

documented :
    generate_docs "int" (text "Err") (text "# doc\n") files
    ≡ some (text "# doc\n| ErrX | 100001 | 404 | Not found |\n\n")
unfolding generate_docs doc_rows collect inspect gen_specs add_names trim_from decimal_from
    parse_comment find_match match_here after_dash past after_colon description drop_spaces
documented = refl

-- A comment without a status counts as an internal error.
defaulted : parse_comment (text "see below\n") ≡ (text "500", text "Internal server error")
unfolding parse_comment find_match match_here past drop_spaces
defaulted = refl
