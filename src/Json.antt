-- ===== src/Json.antt =====
-- What the Gateway uses of nlohmann::json: objects of texts, numbers and Booleans, and their texts. The
-- library is a copy of another project, so it is an interface.
pub mod Tokens
use my_chat.Prelude.{ℕ, Bool, ◌≡◌, Option, none, some, List, [], ◌∷◌, bytes_comparable}
use my_chat.Prelude.Int.{ℤ, pos}
use my_chat.Prelude.Tables.{lookup}

abbrev pub Bytes : Type 0
Bytes = List ℕ

pub data JsonValue : Type 0 where
  text : Bytes → JsonValue
  number : ℤ → JsonValue
  boolean : Bool → JsonValue

abbrev pub Object : Type 0
Object = List (Bytes × JsonValue)

-- `parse` is `none` where it throws, or where what it reads is not such an object, so that each use
-- of it throws. It reads the entries of a written object back, in an order of its own.
pub record Json : Type 0 where
  pub dump : Object → Bytes
  pub parse : Bytes → Option Object
  pub parse-dump :
      (o : Object)
      → (o' : Object) × (parse (dump o) ≡ some o') × ((key : Bytes) → lookup key o' ≡ lookup key o)

-- `j.value(key, default)`: an entry of another type throws.
abbrev pub text_value : Option JsonValue → Option Bytes
text_value none = some []
text_value (some (text t)) = some t
text_value (some (number n)) = none
text_value (some (boolean b)) = none

abbrev pub number_value : Option JsonValue → Option ℤ
number_value none = some (pos 0)
number_value (some (number n)) = some n
number_value (some (text t)) = none
number_value (some (boolean b)) = none
