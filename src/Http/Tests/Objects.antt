-- ===== src/Http/Tests/Objects.antt =====
-- A stand-in for the JSON library whose objects and arrays are built as they are documented to be; its
-- texts all parse to one value.
use oj_vibe_coding.Http.Message.{non_negative, Json}
use oj_vibe_coding.Http.Dto.Laws.{IsJson}
use oj_vibe_coding.Base.{ℕ, refl, Bool, true, false, ◌||◌, some, List, [], ◌∷◌, ◌++◌, if◌then◌else◌}
use oj_vibe_coding.Base.Result.{ok}
use oj_vibe_coding.Text.{Bytes, bytes, eqb}

-- Members stand in front of the object that they are set in, items behind the array.
pub data Node : Type 0 where
  object array : Node
  text : Bytes → Node
  number : ℕ → Node
  flag : Bool → Node
  with_member : Node → Bytes → Node → Node
  with_item : Node → Node → Node

abbrev has_member : Node → Bytes → Bool
has_member (with_member v k w) key = eqb k key || has_member v key
has_member _ key = false

abbrev member_of : Node → Bytes → Node
member_of (with_member v k w) key = let old = member_of v key in if eqb k key then w else old
member_of _ key = object

abbrev items_of : Node → List Node
items_of (with_item v w) = items_of v ++ (w ∷ [])
items_of _ = []

abbrev is_object_node : Node → Bool
is_object_node object = true
is_object_node (with_member v k w) = true
is_object_node _ = false

abbrev is_text_node : Node → Bool
is_text_node (text s) = true
is_text_node _ = false

abbrev text_node : Node → Bytes
text_node (text s) = s
text_node _ = []

abbrev is_number_node : Node → Bool
is_number_node (number n) = true
is_number_node _ = false

abbrev number_node : Node → ℕ
number_node (number n) = n
number_node _ = 0

abbrev pub object_json : Node → Json
object_json body = record {
  Value = Node;
  parse = λ raw. some body;
  parse_errors = λ raw. [];
  is_object = is_object_node;
  is_member = has_member;
  member = member_of;
  is_string = is_text_node;
  as_string = text_node;
  is_integral = is_number_node;
  as_int64 = λ v. ok (non_negative (number_node v));
  as_uint64 = λ v. ok (number_node v);
  is_bool = λ v. false;
  as_bool = λ v. false;
  is_array = λ v. false;
  elements = items_of;
  object_value = object;
  array_value = array;
  string_value = text;
  uint_value = number;
  bool_value = flag;
  set_member = with_member;
  append = with_item;
  write = λ v. [];
}

pub object_json-IsJson : (body : Node) → IsJson (object_json body)
object_json-IsJson body = record {
  is_member-object = λ key. refl;
  is_member-set = λ v w k key. refl;
  member-set = λ v w k key. refl;
  elements-array = refl;
  elements-append = λ v w. refl;
}

abbrev pub credentials : Bytes → Bytes → Node
credentials username password =
    with_member (with_member object (bytes "username") (text username)) (bytes "password")
      (text password)
