-- ===== src/Json.antt =====
-- Decoding of JSON into Go structs, as encoding/json does it for the types that the code declares.
-- The scanner is a parameter: `shape` splits a JSON text one level deep, and leaves each element
-- as its own text, the way a `json.RawMessage` holds it.
pub mod Decode
