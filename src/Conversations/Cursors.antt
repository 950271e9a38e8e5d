-- ===== src/Conversations/Cursors.antt =====
-- The texts of cursors, backend/app/core/pagination.py, with base64 as Python's `base64` and
-- `binascii` do it. Bytes are numbers; JSON is a parameter.
use baa_system.Base.{
  ℕ, zero, suc, ◌+◌, ◌-◌, ◌*◌, ◌/◌, ◌%◌, Option, none, some, List, [], ◌∷◌, ◌++◌, length,
}
use baa_system.Exceptions.{Result, ok, err, Error, app_error, invalid_argument}

-- A character of a cursor: one of the 64 of the alphabet, `=`, another of ASCII, or none of ASCII.
pub data Character : Type 0 where
  sextet : ℕ → Character
  equals another foreign : Character

-- `urlsafe_b64encode`.
unfoldable pub b64encode : List ℕ → List Character
b64encode [] = []
b64encode (a ∷ []) = sextet (a / 4) ∷ sextet (a % 4 * 16) ∷ equals ∷ equals ∷ []
b64encode (a ∷ b ∷ []) =
    sextet (a / 4) ∷ sextet (a % 4 * 16 + b / 16) ∷ sextet (b % 16 * 4) ∷ equals ∷ []
b64encode (a ∷ b ∷ c ∷ bytes) =
    sextet (a / 4)
    ∷ sextet (a % 4 * 16 + b / 16)
    ∷ sextet (b % 16 * 4 + c / 64)
    ∷ sextet (c % 64)
    ∷ b64encode bytes

-- How much of a group of four is read, with the bits that are left of it.
pub data Quad : Type 0 where
  whole : Quad
  after_one after_two after_three : ℕ → Quad

abbrev pub before : ℕ → Option (List ℕ) → Option (List ℕ)
before byte none = none
before byte (some bytes) = some (byte ∷ bytes)

-- No more bytes, if the rest of the text is ASCII.
unfoldable pub no_bytes : List Character → Option (List ℕ)
no_bytes [] = some []
no_bytes (sextet c ∷ rest) = no_bytes rest
no_bytes (equals ∷ rest) = no_bytes rest
no_bytes (another ∷ rest) = no_bytes rest
no_bytes (foreign ∷ rest) = none

-- `urlsafe_b64decode`, which is not strict: what is not of the alphabet is passed over, and so is
-- all that follows the `=` that ends a group. `pads` are the `=` in a row.
unfoldable pub decode_from : Quad → ℕ → List Character → Option (List ℕ)
unfolding no_bytes
decode_from whole pads [] = some []
decode_from (after_one bits) pads [] = none
decode_from (after_two bits) pads [] = none
decode_from (after_three bits) pads [] = none
decode_from whole pads (sextet c ∷ rest) = decode_from (after_one c) 0 rest
decode_from (after_one bits) pads (sextet c ∷ rest) =
    before (bits * 4 + c / 16) (decode_from (after_two (c % 16)) 0 rest)
decode_from (after_two bits) pads (sextet c ∷ rest) =
    before (bits * 16 + c / 4) (decode_from (after_three (c % 4)) 0 rest)
decode_from (after_three bits) pads (sextet c ∷ rest) =
    before (bits * 64 + c) (decode_from whole 0 rest)
decode_from whole pads (equals ∷ rest) = decode_from whole pads rest
decode_from (after_one bits) pads (equals ∷ rest) = decode_from (after_one bits) pads rest
decode_from (after_two bits) zero (equals ∷ rest) = decode_from (after_two bits) 1 rest
decode_from (after_two bits) (suc pads) (equals ∷ rest) = no_bytes rest
decode_from (after_three bits) pads (equals ∷ rest) = no_bytes rest
decode_from quad pads (another ∷ rest) = decode_from quad pads rest
decode_from quad pads (foreign ∷ rest) = none

-- `rstrip("=")`.
unfoldable pub rstrip : List Character → List Character
rstrip [] = []
rstrip (equals ∷ rest) = elim (rstrip rest) [ [] ↦ [] | c ∷ cs ↦ equals ∷ c ∷ cs ]
rstrip (sextet c ∷ rest) = sextet c ∷ rstrip rest
rstrip (another ∷ rest) = another ∷ rstrip rest
rstrip (foreign ∷ rest) = foreign ∷ rstrip rest

abbrev pub equal_signs : ℕ → List Character
equal_signs zero = []
equal_signs (suc n) = equals ∷ equal_signs n

-- `"=" * (-len(cursor) % 4)`.
unfoldable pub padding : List Character → List Character
padding cursor = equal_signs ((4 - length cursor % 4) % 4)

abbrev pub cursor_invalid : Error
cursor_invalid = app_error invalid_argument "分页游标无效" 400

unfoldable pub encode_cursor : {P : Type 0} → (P → List ℕ) → P → List Character
unfolding b64encode rstrip
encode_cursor dumps payload = rstrip (b64encode (dumps payload))

-- `loads` has no result where it raises `ValueError`, and where the value is no object.
unfoldable pub json_payload : {P : Type 0} → Option P → Result P
json_payload none = err cursor_invalid
json_payload (some payload) = ok payload

unfoldable pub decoded_payload : {P : Type 0} → (List ℕ → Option P) → Option (List ℕ) → Result P
unfolding json_payload
decoded_payload loads none = err cursor_invalid
decoded_payload loads (some bytes) = json_payload (loads bytes)

unfoldable pub decode_cursor : {P : Type 0} → (List ℕ → Option P) → List Character → Result P
unfolding decode_from padding decoded_payload
decode_cursor loads cursor = decoded_payload loads (decode_from whole 0 (cursor ++ padding cursor))
