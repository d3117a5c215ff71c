-- ===== src/Value.antt =====
-- The values of Python that an event is made of, as one data type. Values are immutable here, so
-- `deepcopy` is the identity; a dictionary is the list of its items in insertion order.
pub mod Equality
pub mod Access
pub mod Number
pub mod Words
pub mod Lookup
use agentrust_telemetry.Base.{
  ◌≡◌, ℕ, suc, ◌+◌, Bool, String, List, [], ◌∷◌, Option, none, some, str_eq,
}
use agentrust_telemetry.Base.{if◌then◌else◌}
use agentrust_telemetry.Base.Integer.{ℤ}

-- A float: `finite m k` is m · 2^(k - 1074), which covers every finite double; a float other than
-- zero has several such forms, and `Equality.eq_value` compares what they stand for.
pub data Float : Type 0 where
  nan infinity minus_infinity : Float
  finite : ℤ → ℕ → Float

-- A key of a dictionary: a `str`, or another hashable object, by the name of its type.
pub data Key : Type 0 where
  text foreign : String → Key

mutual
  pub data Value : Type 0 where
    null : Value
    bool : Bool → Value
    int : ℤ → Value
    float : Float → Value
    str : String → Value
    list : Items → Value
    dict : Fields → Value
    -- an object of any other type, by the name of the type
    object : String → Value

  pub data Items : Type 0 where
    nil : Items
    cons : Value → Items → Items

  pub data Fields : Type 0 where
    end : Fields
    field : Key → Value → Fields → Fields

abbrev pub items : Items → List Value
items nil = []
items (cons v vs) = v ∷ items vs

abbrev pub from_items : List Value → Items
from_items [] = nil
from_items (v ∷ vs) = cons v (from_items vs)

abbrev pub fields : Fields → List (Key × Value)
fields end = []
fields (field k v fs) = (k, v) ∷ fields fs

-- a dictionary literal with `str` keys
abbrev pub record_of : List (String × Value) → Fields
record_of [] = end
record_of ((k, v) ∷ fs) = field (text k) v (record_of fs)

-- `d.get(key)` on the items of a dictionary; a key of another type equals no `str`.
unfoldable pub lookup : String → Fields → Option Value
lookup k end = none
lookup k (field (foreign t) v fs) = lookup k fs
lookup k (field (text j) v fs) = if str_eq j k then some v else lookup k fs

-- `d[key] = v`: in place where the key is there, at the end where it is not.
unfoldable pub assign : String → Value → Fields → Fields
assign k v end = field (text k) v end
assign k v (field (foreign t) w fs) = field (foreign t) w (assign k v fs)
assign k v (field (text j) w fs) =
    if str_eq j k then field (text j) v fs else field (text j) w (assign k v fs)

unfoldable pub size : Fields → ℕ
size end = 0
size (field k v fs) = suc (size fs)

pub str-injective : {s t : String} → str s ≡ str t → s ≡ t
str-injective e = cc
