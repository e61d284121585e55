-- ===== src/Codegen/Values.antt =====
-- `genDecl`: the constants of one type in the declarations of a package, with their comments. The
-- syntax trees and the constants' values come from go/ast, go/types and go/constant; `none` is an
-- end of the program by `log.Fatalf`.
pub mod Types
use web3_blitz.Base.{
  ℕ, suc, ◌-◌, ◌%◌, ◌^◌, Bool, true, false, not, ◌&&◌, Option, none, some, List, [], ◌∷◌, ◌++◌,
  String, ◌==◌, str_eq, ltb, if◌then◌else◌,
}
use web3_blitz.Base.Int.{ℤ, pos, negsuc}
use web3_blitz.Codegen.{Text, text}

-- An *ast.Ident, or any other expression.
pub data Name : Type 0 where
  ident : String → Name
  other_name : Name

-- A call by what is called, or any other expression.
pub data Expr : Type 0 where
  call : Name → Expr
  other_expr : Expr

-- What go/types knows of a constant; no value when it is not of the kind Int.
pub record Constant : Type 0 where
  pub is_integer : Bool
  pub is_unsigned : Bool
  pub value : Option ℤ

-- A name of a specification, with its entry of `defs`.
pub record Ident : Type 0 where
  pub name : String
  pub object : Option Constant

-- The comment after the names with the number of its lines.
pub record ValueSpec : Type 0 where
  pub names : List Ident
  pub type : Option Name
  pub values : List Expr
  pub doc : Option Text
  pub comment : Option (ℕ × Text)

pub data Decl : Type 0 where
  const_decl : List ValueSpec → Decl
  other_decl : Decl

pub record Value : Type 0 where
  pub comment : Text
  pub original_name : String
  pub name : Text
  pub value : ℕ
  is_signed : Bool

-- `Int64Val` or `Uint64Val` is exact.
abbrev is_64_bit : ℤ → Bool
is_64_bit (pos n) = ltb n (2 ^ 64)
is_64_bit (negsuc n) = ltb n (2 ^ 63)

-- `uint64`, of the low 64 bits.
abbrev uint64 : ℤ → ℕ
uint64 (pos n) = n % 2 ^ 64
uint64 (negsuc n) = (2 ^ 64 - suc (n % 2 ^ 64)) % 2 ^ 64

-- `strings.TrimPrefix`, where `whole` is the text that is left when the prefix is not there.
unfoldable pub trim_from : Text → Text → Text → Text
trim_from whole [] s = s
trim_from whole (p ∷ ps) [] = whole
trim_from whole (p ∷ ps) (c ∷ s) = if c == p then trim_from whole ps s else whole

abbrev line_comment : Option (ℕ × Text) → Text
line_comment none = []
line_comment (some (lines, t)) = if lines == 1 then t else []

-- The comment above the names, unless there is none or it is empty, or else the one after them.
abbrev pub chosen_comment : Option Text → Option (ℕ × Text) → Text
chosen_comment none line = line_comment line
chosen_comment (some []) line = line_comment line
chosen_comment (some (c ∷ r)) line = c ∷ r

abbrev spec_comment : ValueSpec → Text
spec_comment s = chosen_comment s.doc s.comment

abbrev new_value : Text → ValueSpec → Ident → Constant → ℤ → Value
new_value prefix s n c v = record {
  comment = spec_comment s;
  original_name = n.name;
  name = trim_from (text n.name) prefix (text n.name);
  value = uint64 v;
  is_signed = not c.is_unsigned;
}

abbrev value_of : Text → ValueSpec → Ident → Option Constant → Option Value
value_of prefix s n none = none
value_of prefix s n (some c) =
    if c.is_integer
    then elim c.value [
      | none ↦ none
      | some v ↦ if is_64_bit v then some (new_value prefix s n c v) else none
    ]
    else none

abbrev and_then : Option (List Value) → (List Value → Option (List Value)) → Option (List Value)
and_then none k = none
and_then (some vs) k = k vs

abbrev push : List Value → Option Value → Option (List Value)
push vs none = none
push vs (some v) = some (vs ++ v ∷ [])

-- The loop over the names of a specification.
unfoldable pub add_names : Text → ValueSpec → List Ident → List Value → Option (List Value)
add_names prefix s [] vs = some vs
add_names prefix s (n ∷ ns) vs =
    and_then (if str_eq n.name "_" then some vs else push vs (value_of prefix s n n.object))
      (add_names prefix s ns)

-- The type that is remembered after a specification, and whether the loop goes on to its names.
abbrev remembered : String → Option Name → List Expr → Bool × String
remembered typ none [] = (true, typ)
remembered typ none (call (ident f) ∷ es) = (true, f)
remembered typ none (call other_name ∷ es) = (false, "")
remembered typ none (other_expr ∷ es) = (false, "")
remembered typ (some (ident t)) es = (true, t)
remembered typ (some other_name) es = (false, typ)

module _ (type_name : String) (prefix : Text) where
  abbrev if_wanted : Bool × String → ValueSpec → List Value → Option (List Value)
  if_wanted (goes_on, typ) s vs =
      if goes_on && str_eq typ type_name then add_names prefix s s.names vs else some vs

  -- The loop over the specifications of a block.
  unfoldable pub gen_specs : String → List ValueSpec → List Value → Option (List Value)
  gen_specs typ [] vs = some vs
  gen_specs typ (s ∷ ss) vs =
      let r = remembered typ s.type s.values in and_then (if_wanted r s vs) (gen_specs r.1 ss)

  -- `genDecl`.
  abbrev pub gen_decl : Decl → List Value → Option (List Value)
  gen_decl (const_decl specs) vs = gen_specs "" specs vs
  gen_decl other_decl vs = some vs

  -- `ast.Inspect` over a file: its general declarations, in the order of the traversal.
  unfoldable pub inspect : List Decl → List Value → Option (List Value)
  inspect [] vs = some vs
  inspect (d ∷ ds) vs = and_then (gen_decl d vs) (inspect ds)

  -- The loop over the files; `none` is a file without a tree.
  unfoldable pub collect : List (Option (List Decl)) → List Value → Option (List Value)
  collect [] vs = some vs
  collect (none ∷ fs) vs = collect fs vs
  collect (some ds ∷ fs) vs = and_then (inspect ds []) (λ own. collect fs (vs ++ own))
