-- ===== src/Http/Message.antt =====
-- What the program uses of an HTTP request and response (cpp-httplib) and of a JSON library
-- (jsoncpp), both outside the repository's own code. A request answers look-ups; a response collects
-- what the handlers set.
use oj_vibe_coding.Base.{ℕ, Bool, Option, none, some, List, [], ◌∷◌, ◌++◌}
use oj_vibe_coding.Base.Result.{Result}
use oj_vibe_coding.Text.{Bytes}

-- `header` and `param` are `none` where `has_header` and `has_param` are false; `id_param` is
-- `path_params.at("id")`.
pub record Request : Type 0 where
  pub method : Bytes
  pub path : Bytes
  pub remote_addr : Bytes
  pub body : Bytes
  pub header : Bytes → Option Bytes
  pub param : Bytes → Option Bytes
  pub id_param : Bytes

-- `get_header_value` gives an empty string for a header that is not there, and so does
-- `get_param_value`.
abbrev pub value_or_empty : Option Bytes → Bytes
value_or_empty none = []
value_or_empty (some v) = v

-- The status is 0 until one is set. Headers stand in the order in which they were set.
pub record Response : Type 0 where
  pub status : ℕ
  pub content : Bytes
  pub content_type : Bytes
  pub headers : List (Bytes × Bytes)

abbrev pub empty_response : Response
empty_response = record { status = 0; content = []; content_type = []; headers = [] }

abbrev pub set_header : Bytes → Bytes → Response → Response
set_header name value res = record res { headers = res.headers ++ ((name, value) ∷ []) }

-- `httplib::Server::HandlerResponse`, the answer of a guard in front of the routes.
pub data HandlerResponse : Type 0 where
  handled unhandled : HandlerResponse

-- A 64-bit signed number; `negative n` is -(n + 1).
pub data Int64 : Type 0 where
  non_negative negative : ℕ → Int64

-- A JSON library: reading (`parse` is `none` if the text is no JSON, with the messages of
-- `parse_errors`), and building and writing values. `as_int64` and `as_uint64` throw where the number
-- does not fit.
pub record Json : Type 1 where
  pub Value : Type 0
  pub parse : Bytes → Option Value
  pub parse_errors : Bytes → Bytes
  pub is_object : Value → Bool
  pub is_member : Value → Bytes → Bool
  pub member : Value → Bytes → Value
  pub is_string : Value → Bool
  pub as_string : Value → Bytes
  pub is_integral : Value → Bool
  pub as_int64 : Value → Result Int64
  pub as_uint64 : Value → Result ℕ
  pub is_bool : Value → Bool
  pub as_bool : Value → Bool
  pub is_array : Value → Bool
  pub elements : Value → List Value
  pub object_value : Value
  pub array_value : Value
  pub string_value : Bytes → Value
  pub uint_value : ℕ → Value
  pub bool_value : Bool → Value
  pub set_member : Value → Bytes → Value → Value
  pub append : Value → Value → Value
  pub write : Value → Bytes
