-- ===== src/Chunk/Json.antt =====
-- What crates/memgardend/src/retain/chunk.rs uses of serde_json, as operations and documented laws:
-- an array is written compactly, each written value has a character that is not white, and a blank
-- text is no JSON. (`to_string` of a value does not fail.)
use memgarden.Prelude.{Option, none, List, [], ◌∷◌, ◌++◌, map, true, false, ◌≡◌}
use memgarden.Prelude.Text.{Text, join, is_blank}

pub data Shape (V : Type 0) : Type 0 where
  array : List V → Shape V
  object other : Shape V

pub record Json : Type 1 where
  pub Value : Type 0
  pub from_str : Text → Option Value
  pub view : Value → Shape Value
  pub to_string : Value → Text
  pub of_array : List Value → Value
  pub compact :
      (vs : List Value)
      → to_string (of_array vs) ≡ 91 ∷ join (44 ∷ []) (map to_string vs) ++ 93 ∷ []
  pub solid_text : (v : Value) → is_blank (to_string v) ≡ false
  pub blank_text : (s : Text) → is_blank s ≡ true → from_str s ≡ none
