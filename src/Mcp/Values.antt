-- ===== src/Mcp/Values.antt =====
-- `String(value)`, `value.key` and truth of a parsed JSON value, as src/mcp/register-send-tools.ts
-- meets them. `none` is a TypeError.
use notify_hub.Base.{
  Bool, true, false, Option, none, some, [], ◌++◌, Text, lit, ◌==◌, ◌||◌, is_empty, decimal, eqb,
  suc, not, pos, negsuc, if◌then◌else◌,
}
use notify_hub.Core.{
  Value, undefined, null, bool, num, str, arr, obj, Items, nil, cons, Fields, end, field,
}
use notify_hub.Admin.WorkerLogs.{property}

-- What follows a step that may throw.
infixl 10 ◌>>=◌
abbrev pub ◌>>=◌ : {A B : Type 0} → Option A → (A → Option B) → Option B
none >>= f = none
some a >>= f = f a

has_field : Fields → Text → Bool
has_field end key = false
has_field (field k v fields) key = k == key || has_field fields key

-- An object whose own `toString` is no function has no primitive value.
object_text : Fields → Option Text
unfolding has_field
object_text fields =
    if has_field fields (lit "toString") then none else some (lit "[object Object]")

-- `String(value)` and `items.join(sep)`, where `undefined` and `null` are empty pieces.
unfoldable mutual
  unfolding object_text decimal

  pub to_text : Value → Option Text
  to_text undefined = some (lit "undefined")
  to_text null = some (lit "null")
  to_text (bool b) = some (if b then lit "true" else lit "false")
  to_text (num (pos n)) = some (decimal n)
  to_text (num (negsuc n)) = some (lit "-" ++ decimal (suc n))
  to_text (str s) = some s
  to_text (arr items) = join_items (lit ",") items
  to_text (obj fields) = object_text fields

  pub piece : Value → Option Text
  piece undefined = some []
  piece null = some []
  piece (bool b) = some (if b then lit "true" else lit "false")
  piece (num (pos n)) = some (decimal n)
  piece (num (negsuc n)) = some (lit "-" ++ decimal (suc n))
  piece (str s) = some s
  piece (arr items) = join_items (lit ",") items
  piece (obj fields) = object_text fields

  pub join_items : Text → Items → Option Text
  join_items sep nil = some []
  join_items sep (cons v nil) = piece v
  join_items sep (cons v (cons u items)) = do
    s ← piece v
    t ← join_items sep (cons u items)
    some (s ++ (sep ++ t))

-- `value.key`, for a key that no prototype has.
unfoldable pub property_of : Value → Text → Option Value
unfolding property
property_of undefined key = none
property_of null key = none
property_of (obj fields) key = some (property fields key)
property_of (bool b) key = some undefined
property_of (num n) key = some undefined
property_of (str s) key = some undefined
property_of (arr items) key = some undefined

-- `Boolean(value)`
unfoldable pub is_truthy : Value → Bool
unfolding is_empty
is_truthy undefined = false
is_truthy null = false
is_truthy (bool b) = b
is_truthy (num (pos n)) = not (eqb n 0)
is_truthy (num (negsuc n)) = true
is_truthy (str s) = not (is_empty s)
is_truthy (arr items) = true
is_truthy (obj fields) = true
