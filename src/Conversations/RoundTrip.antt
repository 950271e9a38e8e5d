-- ===== src/Conversations/RoundTrip.antt =====
-- Reading back the cursor that was written.
use baa_system.Base.{
  ℕ, ◌+◌, ◌-◌, ◌*◌, ◌/◌, ◌%◌, ◌<◌, ◌≡◌, refl, ap, ◌∙◌, Option, some, List, [], ◌∷◌, ◌++◌, arith,
  Every,
}
use baa_system.Exceptions.{ok}
use baa_system.Conversations.Cursors.{
  Character, sextet, whole, before, b64encode, decode_from, rstrip, equal_signs, padding,
  encode_cursor, decode_cursor, decoded_payload, json_payload, no_bytes,
}

abbrev pub AreBytes : List ℕ → Type 0
AreBytes bytes = Every (λ b. b < 256) bytes

padding_four :
    (a b c d : Character) (rest : List Character) → padding (a ∷ b ∷ c ∷ d ∷ rest) ≡ padding rest
unfolding padding
padding_four a b c d rest = ap (λ n. equal_signs ((4 - n) % 4)) (omega arith)

abbrev read : List Character → Option (List ℕ)
read text = decode_from whole 0 (text ++ padding text)

first_byte : (a b : ℕ) → b < 256 → a / 4 * 4 + (a % 4 * 16 + b / 16) / 16 ≡ a
first_byte a b h = omega arith

second_byte :
    (a b c : ℕ)
    → c < 256
    → b < 256
    → (a % 4 * 16 + b / 16) % 16 * 16 + (b % 16 * 4 + c / 64) / 4 ≡ b
second_byte a b c h k = omega arith

third_byte : (b c : ℕ) → c < 256 → (b % 16 * 4 + c / 64) % 4 * 64 + c % 64 ≡ c
third_byte b c h = omega arith

last_byte : (a b : ℕ) → b < 256 → (a % 4 * 16 + b / 16) % 16 * 16 + b % 16 * 4 / 4 ≡ b
last_byte a b h = omega arith

-- A whole group is read as its three bytes.
read_group :
    (a b c : ℕ) (rest : List Character)
    → b < 256
    → c < 256
    → read (
        sextet (a / 4)
        ∷ sextet (a % 4 * 16 + b / 16)
        ∷ sextet (b % 16 * 4 + c / 64)
        ∷ sextet (c % 64)
        ∷ rest)
      ≡ before a (before b (before c (read rest)))
unfolding decode_from
read_group a b c rest hb hc = rw (
  first_byte a b hb,
  second_byte a b c hc hb,
  third_byte b c hc,
  padding_four (sextet (a / 4)) (sextet (a % 4 * 16 + b / 16)) (sextet (b % 16 * 4 + c / 64))
      (sextet (c % 64)) rest,
)

read-rstrip-b64encode :
    (bytes : List ℕ) → AreBytes bytes → read (rstrip (b64encode bytes)) ≡ some bytes
unfolding decode_from rstrip b64encode padding no_bytes
read-rstrip-b64encode [] h = refl
read-rstrip-b64encode (a ∷ []) h = ap (λ x. some (x ∷ [])) (omega arith)
read-rstrip-b64encode (a ∷ b ∷ []) (ha, (hb, h)) = rw (first_byte a b hb, last_byte a b hb)
read-rstrip-b64encode (a ∷ b ∷ c ∷ bytes) (ha, (hb, (hc, h))) =
    read_group a b c (rstrip (b64encode bytes)) hb hc
    ∙ ap (λ r. before a (before b (before c r))) (read-rstrip-b64encode bytes h)

-- If JSON writes a payload as bytes and reads it back from them, then the cursor that is made of
-- the payload is read as that payload: what `rstrip` takes off is put back.
pub decode_cursor-encode_cursor :
    {P : Type 0} (dumps : P → List ℕ) (loads : List ℕ → Option P) (payload : P)
    → AreBytes (dumps payload)
    → loads (dumps payload) ≡ some payload
    → decode_cursor loads (encode_cursor dumps payload) ≡ ok payload
unfolding decode_cursor encode_cursor decoded_payload json_payload
decode_cursor-encode_cursor dumps loads payload are_bytes reads =
    ap (decoded_payload loads) (read-rstrip-b64encode (dumps payload) are_bytes)
    ∙ ap json_payload reads
