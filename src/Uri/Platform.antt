-- ===== src/Uri/Platform.antt =====
-- What the address parsers take from the runtime: JSON values, and the decoders of Node.js and of
-- ECMAScript as fields of a record. Nothing is supposed of a field but what a theorem names.
use nextpanel.Prelude.{Bool, Text, ℕ, Option, none, some, if◌then◌else◌, text_eq, List}
use nextpanel.Uri.Numbers.{Number}

-- A value of `JSON.parse`, which gives an object each name once.
mutual
  pub data Json : Type 0 where
    null : Json
    boolean : Bool → Json
    numeral : Number → Json
    string : Text → Json
    array : Items → Json
    object : Fields → Json

  pub data Items : Type 0 where
    nil : Items
    cons : Json → Items → Items

  pub data Fields : Type 0 where
    end : Fields
    field : Text → Json → Fields → Fields

-- A parsed URL, with the getters that the code reads.
pub record Url : Type 0 where
  pub protocol : Text
  pub hostname : Text
  pub port : Text
  pub username : Text
  pub password : Text
  pub hash : Text

pub record Host : Type 0 where
  -- `decodeURIComponent`, `none` for its URIError
  pub decode_component : Text → Option Text
  -- `Buffer.from(s, 'base64')` and `bytes.toString('base64')`
  pub base64_bytes : Text → List ℕ
  pub base64_text : List ℕ → Text
  -- `new TextDecoder('utf-8', { fatal: true }).decode(bytes)` and `bytes.toString('utf8')`
  pub utf8_fatal : List ℕ → Option Text
  pub utf8_text : List ℕ → Text
  -- `Buffer.byteLength(s, 'utf8')`
  pub byte_length : Text → ℕ
  -- `isIP` of net and `domainToASCII` of url
  pub is_ip : Text → ℕ
  pub domain_to_ascii : Text → Text
  -- `JSON.parse` and `JSON.stringify`
  pub parse_json : Text → Option Json
  pub print_json : Json → Text
  -- `String(value)` and `Number(value)` of a JSON value, which throw where the value is an object
  -- that hides its conversions
  pub string_of : Json → Option Text
  pub number_of : Json → Option Number
  -- `new URL(s)`, and `new URLSearchParams(s).get(name)`
  pub url : Text → Option Url
  pub query_get : Text → Text → Option Text

-- `value.name` of an object's own property
unfoldable pub get_field : Fields → Text → Option Json
get_field end name = none
get_field (field key value rest) name = if text_eq key name then some value else get_field rest name

-- `record.name` of any value but null, on which it throws
abbrev pub member : Json → Text → Option Json
member (object fields) name = get_field fields name
member _ name = none

abbrev pub as_text : Option Json → Option Text
as_text (some (string s)) = some s
as_text _ = none

abbrev pub as_port : (Number → Option ℕ) → Option Json → Option ℕ
as_port port_of (some (numeral n)) = port_of n
as_port port_of _ = none
