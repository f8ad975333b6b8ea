-- ===== src/Tests.antt =====
-- Runs of the models on concrete inputs.
pub mod Streams
pub mod Sessions
pub mod Responses
pub mod Store
pub mod Settings
pub mod Redaction
use kiro_gateway.Common.{ℕ, List, [], ◌∷◌, if◌then◌else◌, ◌==◌}
use kiro_gateway.Common.Text.{Text, codes}
use kiro_gateway.Common.Json.{JsonCodec, Value, Fields, null, str, num, obj, end, field, pos_int}
use kiro_gateway.Common.Result.{Result, ok, err}

-- A JSON library that knows texts, `null` and the one object `known`.
abbrev pub known : Fields
known =
    field (codes "type") (str (codes "done"))
      (field (codes "sequence_number") (num (pos_int 0)) end)

abbrev pub print : Value → Text
print (str s) = 115 ∷ s
print (obj fs) = codes "{"
print v = codes "n"

abbrev pub parse : Text → Result Value Text
parse [] = err (codes "EOF while parsing a value")
parse (c ∷ s) = if c == 115 then ok (str s) else if c == 123 then ok (obj known) else ok null

abbrev pub test_codec : JsonCodec
test_codec = record { from_str = parse; from_slice = parse; to_string = print }
