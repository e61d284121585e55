-- ===== src/Codegen/Values/Types.antt =====
-- The constants that are taken are those whose type, as the generator works it out, is the one asked
-- for.
use web3_blitz.Base.{
  ◌≡◌, refl, Bool, false, ◌&&◌, Option, none, some, List, [], ◌∷◌, String, inl, inr, Bool-cases,
  All, str_eq, if◌then◌else◌,
}
use web3_blitz.Codegen.{Text}
use web3_blitz.Codegen.Values.{
  Name, ident, other_name, Expr, call, other_expr, ValueSpec, Value, and_then, add_names,
  remembered, gen_specs, const_decl, gen_decl,
}

-- The rule that the comments of `genDecl` give for the type of a specification: the one that is
-- written, or else what its first value calls, as in a conversion, or, without a value, that of the
-- one before. It is not the type that the language gives in every case: of a value that is no call,
-- such as `A + 1`, of a conversion in brackets, `(T)(1)`, of a call of a function, `len("a")`, and
-- of a second value the language knows a type that the rule does not.
abbrev type_after : Option Name → Option Name → List Expr → Option Name
type_after before (some t) es = some t
type_after before none [] = before
type_after before none (call f ∷ es) = some f
type_after before none (other_expr ∷ es) = none

abbrev rule_type : Option Name → ValueSpec → Option Name
rule_type before s = type_after before s.type s.values

abbrev is_named : String → Option Name → Bool
is_named t none = false
is_named t (some other_name) = false
is_named t (some (ident s)) = str_eq s t

-- The specifications of a block that declare constants of the type.
pub of_type : String → Option Name → List ValueSpec → List ValueSpec
of_type t before [] = []
of_type t before (s ∷ ss) =
    let rest = of_type t (rule_type before s) ss in
    if is_named t (rule_type before s) then s ∷ rest else rest

-- Every constant of the specifications.
pub add_all : Text → List ValueSpec → List Value → Option (List Value)
add_all prefix [] vs = some vs
add_all prefix (s ∷ ss) vs = and_then (add_names prefix s s.names vs) (add_all prefix ss)

-- A type that is written is a plain name.
abbrev IsPlain : Option Name → Type 0
IsPlain none = Unit
IsPlain (some (ident t)) = Unit
IsPlain (some other_name) = ⊥

and_then_ext :
    (o : Option (List Value)) (f g : List Value → Option (List Value))
    → ((vs : List Value) → f vs ≡ g vs)
    → and_then o f ≡ and_then o g
and_then_ext none f g h = refl
and_then_ext (some vs) f g h = h vs

module _ (type_name : String) (named : str_eq "" type_name ≡ false) where
  remembered_lem :
      (before : Option Name) (typ : String) (t : Option Name) (es : List Expr)
      → IsPlain t
      → str_eq typ type_name ≡ is_named type_name before
      → let r = remembered typ t es in
        let wanted = is_named type_name (type_after before t es) in
        ((r.0 && str_eq r.1 type_name) ≡ wanted) × (str_eq r.1 type_name ≡ wanted)
  remembered_lem before typ none [] h e = (e, e)
  remembered_lem before typ none (call (ident f) ∷ es) h e = (refl, refl)
  remembered_lem before typ none (call other_name ∷ es) h e = (refl, named)
  remembered_lem before typ none (other_expr ∷ es) h e = (refl, named)
  remembered_lem before typ (some (ident t)) es h e = (refl, refl)
  remembered_lem before typ (some other_name) es h e = elim h [ ]

  gen_specs_lem :
      (prefix : Text) (before : Option Name) (typ : String) (specs : List ValueSpec)
      (vs : List Value)
      → str_eq typ type_name ≡ is_named type_name before
      → All (λ (s : ValueSpec). IsPlain s.type) specs
      → gen_specs type_name prefix typ specs vs ≡ add_all prefix (of_type type_name before specs) vs
  unfolding gen_specs of_type add_all
  gen_specs_lem prefix before typ [] vs e h = refl
  gen_specs_lem prefix before typ (s ∷ ss) vs e h =
      let r = remembered typ s.type s.values in
      let (wanted, kept) = remembered_lem before typ s.type s.values h.0 e in
      let rest =
        λ (ws : List Value). gen_specs_lem prefix (rule_type before s) r.1 ss ws kept h.1 in
      rw wanted (elim (Bool-cases (is_named type_name (rule_type before s))) [
        | inl yes' ↦ rw yes' (and_then_ext (add_names prefix s s.names vs) _ _ rest)
        | inr no' ↦ rw no' (rest vs)
      ])

  -- In a block of constants whose written types are plain names, the generator takes the constants
  -- of exactly the specifications that have the type by the rule, in their order: the type written,
  -- or without it the name that the first value calls, or without a value the type of the
  -- specification before. Any other value ends the repetition of a type.
  pub gen_decl_lem :
      (prefix : Text) (specs : List ValueSpec) (vs : List Value)
      → All (λ (s : ValueSpec). IsPlain s.type) specs
      → gen_decl type_name prefix (const_decl specs) vs
        ≡ add_all prefix (of_type type_name none specs) vs
  gen_decl_lem prefix specs vs h = gen_specs_lem prefix none "" specs vs named h
