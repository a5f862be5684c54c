-- ===== src/Json.antt =====
-- What the program uses of Go's encoding/json: documents as values, the text of a document left out.
-- Marshalling replaces each byte that is not valid UTF-8 by U+FFFD. An instant is written as text
-- that gives the same instant back, and stands here for itself.
pub mod Utf8
use interactive_process_mcp.Prelude.{
  ℕ, ℤ, pos, Text, Option, none, some, List, [], ◌∷◌, text_eqb, if◌then◌else◌,
}
use Utf8.{to_valid}

mutual
  -- The members of an object in their order.
  pub data Fields : Type 0 where
    no_fields : Fields
    member : Text → Value → Fields → Fields

  -- The elements of an array.
  pub data Items : Type 0 where
    no_items : Items
    item : Value → Items → Items

  pub data Value : Type 0 where
    obj : Fields → Value
    arr : Items → Value
    str : Text → Value
    instant : ℕ → Value
    num : ℤ → Value
    null : Value

-- A file that holds a document, or bytes that are none.
pub data File : Type 0 where
  document : Value → File
  raw : Text → File

-- A Go string as it is marshalled.
abbrev pub text : Text → Value
text s = str (to_valid s)

unfoldable pub lookup : Text → Fields → Value
lookup k no_fields = null
lookup k (member j v fs) = if text_eqb j k then v else lookup k fs

-- Unmarshalling into a member: null, or no such name, leaves the zero value; another type is an error.
unfoldable pub as_text : Value → Option Text
as_text null = some []
as_text (str s) = some s
as_text _ = none

unfoldable pub as_int : Value → Option ℤ
as_int null = some (pos 0)
as_int (num n) = some n
as_int _ = none

unfoldable pub as_instant : Value → Option ℕ
as_instant null = some 0
as_instant (instant t) = some t
as_instant _ = none

infixl 5 ◌>>=◌
abbrev pub ◌>>=◌ {ℓ κ} : {A : Type ℓ} {B : Type κ} → Option A → (A → Option B) → Option B
none >>= f = none
some a >>= f = f a

-- A slice of what `one` reads.
module _ {ℓ} {A : Type ℓ} where
  unfoldable pub all_items : (Value → Option A) → Items → Option (List A)
  all_items one no_items = some []
  all_items one (item v vs) =
      let rest = all_items one vs in do a ← one v; others ← rest; some (a ∷ others)

  unfoldable pub as_list : (Value → Option A) → Value → Option (List A)
  unfolding all_items
  as_list one null = some []
  as_list one (arr vs) = all_items one vs
  as_list one _ = none

  unfoldable pub items : (A → Value) → List A → Items
  items to_value [] = no_items
  items to_value (a ∷ others) = item (to_value a) (items to_value others)
