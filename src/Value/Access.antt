-- ===== src/Value/Access.antt =====
-- Subscripts, methods and tests of Python on values, with what they raise.
use agentrust_telemetry.Base.{◌≡◌, arith}
use agentrust_telemetry.Base.{
  Bool, true, false, not, String, Option, none, some, str_eq, ◌==◌, if◌then◌else◌,
}
use agentrust_telemetry.Base.Integer.{pos}
use agentrust_telemetry.Base.Outcome.{Result, ok, err, type_error, key_error, attribute_error}
use agentrust_telemetry.Value.Words.{codes, has_part}
use agentrust_telemetry.Value.{
  finite, Value, null, bool, int, float, str, list, dict, Items, nil, cons, end, lookup,
}

abbrev pub or_key_error : String → Option Value → Result Value
or_key_error k none = err (key_error k)
or_key_error k (some v) = ok v

-- v[key], for a `str` key
unfoldable pub get_item : Value → String → Result Value
get_item (dict fs) k = or_key_error k (lookup k fs)
get_item _ k = err (type_error "not subscriptable by a str")

abbrev pub or_null : Option Value → Value
or_null none = null
or_null (some v) = v

-- v.get(key)
unfoldable pub get : Value → String → Result Value
get (dict fs) k = ok (or_null (lookup k fs))
get _ k = err (attribute_error "get")

abbrev pub is_some : Option Value → Bool
is_some none = false
is_some (some v) = true

holds_str : String → Items → Bool
holds_str k nil = false
holds_str k (cons (str s) vs) = if str_eq s k then true else holds_str k vs
holds_str k (cons v vs) = holds_str k vs

-- "key" in v: a key of a dictionary, an item of a list or a part of a text
unfoldable pub has_key : Value → String → Result Bool
unfolding holds_str
has_key (dict fs) k = ok (is_some (lookup k fs))
has_key (list xs) k = ok (holds_str k xs)
has_key (str s) k = ok (has_part (codes k) (codes s))
has_key _ k = err (type_error "argument is not iterable")

abbrev pub is_null : Value → Bool
is_null null = true
is_null _ = false

abbrev pub is_str : Value → Bool
is_str (str s) = true
is_str _ = false

abbrev pub is_dict : Value → Bool
is_dict (dict fs) = true
is_dict _ = false

-- isinstance(v, int) and not isinstance(v, bool)
abbrev pub is_plain_int : Value → Bool
is_plain_int (int n) = true
is_plain_int _ = false

-- bool(v)
unfoldable pub truthy : Value → Bool
truthy null = false
truthy (bool b) = b
truthy (int (pos n)) = not (n == 0)
truthy (float (finite (pos n) k)) = not (n == 0)
truthy (str s) = not (str_eq s "")
truthy (list nil) = false
truthy (dict end) = false
truthy _ = true

-- hash(v) raises for a list and a dictionary.
unfoldable pub check_hashable : Value → Result Value
check_hashable (list xs) = err (type_error "unhashable type")
check_hashable (dict fs) = err (type_error "unhashable type")
check_hashable v = ok v

-- What a subscript finds, `get` finds.
pub get-get_item : (v : Value) (k : String) {w : Value} → get_item v k ≡ ok w → get v k ≡ ok w
unfolding get get_item
get-get_item v k eq = ground arith
