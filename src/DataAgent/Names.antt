-- ===== src/DataAgent/Names.antt =====
-- The names of allowed tables, `_split_qualified_name` of backend/app/data_agent/service.py and the
-- pattern `_IDENTIFIER`.
use Prim.Native.Char.{Char, code}
use Prim.Native.String.{[] as ε, ◌∷◌ as ◌∷ˢ◌}
use baa_system.Base.{
  Bool, true, false, ◌&&◌, ◌||◌, Option, none, some, List, [], ◌∷◌, String, leb, ◌==◌,
  if◌then◌else◌, ◌<+>◌,
}
use baa_system.DataAgent.Action.{Answer, returned, raised, agent_error}

-- `[A-Za-z_]` and `[0-9]`.
abbrev pub is_letter : Char → Bool
is_letter c =
    leb 65 (code c) && leb (code c) 90 || leb 97 (code c) && leb (code c) 122 || code c == 95

abbrev pub is_digit : Char → Bool
is_digit c = leb 48 (code c) && leb (code c) 57

unfoldable pub identifier_rest : String → Bool
identifier_rest ε = true
identifier_rest (c ∷ˢ s) = (is_letter c || is_digit c) && identifier_rest s

-- `_IDENTIFIER.fullmatch(s)`.
unfoldable pub is_identifier : String → Bool
unfolding identifier_rest
is_identifier ε = false
is_identifier (c ∷ˢ s) = is_letter c && identifier_rest s

unfoldable pub add_char : Char → List String → List String
add_char c [] = (c ∷ˢ ε) ∷ []
add_char c (part ∷ parts) = (c ∷ˢ part) ∷ parts

-- `value.split(".")`.
unfoldable pub split_dots : String → List String
unfolding add_char
split_dots ε = ε ∷ []
split_dots (c ∷ˢ s) = let rest = split_dots s in if code c == 46 then ε ∷ rest else add_char c rest

-- The name without a part is a table of no schema.
unfoldable pub qualified_parts : List String → Option (Option String × String)
unfolding is_identifier
qualified_parts [] = none
qualified_parts (table ∷ []) = if is_identifier table then some (none, table) else none
qualified_parts (schema ∷ table ∷ []) =
    if is_identifier schema && is_identifier table then some (some schema, table) else none
qualified_parts (a ∷ b ∷ c ∷ rest) = none

unfoldable pub split_qualified_name : String → Answer (Option String × String)
unfolding qualified_parts split_dots
split_qualified_name value = elim (qualified_parts (split_dots value)) [
  | some parts ↦ returned parts
  | none ↦ raised (agent_error "DATA_AGENT_INVALID_TABLE_ALLOWLIST" ("表白名单包含非法标识符：" <+> value) 503)
]
