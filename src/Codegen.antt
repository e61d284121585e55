-- ===== src/Codegen.antt =====
-- tools/codegen/codegen.go: the generator of a function and of a table from the constants of the
-- error codes and their comments. A text is the list of its code points.
pub mod Comment
pub mod Values
pub mod Output
pub mod Table
use Prim.Native.Char.{code}
use web3_blitz.Base.{ℕ, List, [], ◌∷◌, String}

abbrev pub Text : Type 0
Text = List ℕ

abbrev pub text : String → Text
text String.[] = []
text (String.◌∷◌ c s) = code c ∷ text s
