-- ===== src/Json/Access.antt =====
-- What Python's dynamic access to a parsed JSON value does: `.get`, iteration and `[0]`, with what they raise
-- on a value of another type.
use finpipe.Base.{Option, none, some, String}
use finpipe.Errors.{Result, ok, raise, type_error, attribute_error, key_error, other_error}
use finpipe.Json.{Json, str, arr, obj, Items, nil, cons, Fields, end, field, get}

abbrev pub or_json : Json → Option Json → Json
or_json default none = default
or_json default (some v) = v

-- `v.get(key, default)`
abbrev pub get_or : String → Json → Json → Result Json
get_or key default (obj fields) = ok (or_json default (get key fields))
get_or key default v = raise (attribute_error "no attribute 'get'")

-- the characters of a text, the keys of a dict
abbrev pub chars : String → Items
chars String.[] = nil
chars (String.◌∷◌ c s) = cons (str (String.◌∷◌ c "")) (chars s)

abbrev pub keys : Fields → Items
keys end = nil
keys (field k v fs) = cons (str k) (keys fs)

-- `for item in v`, `list(v)`
abbrev pub items_of : Json → Result Items
items_of (arr vs) = ok vs
items_of (obj fs) = ok (keys fs)
items_of (str s) = ok (chars s)
items_of v = raise (type_error "object is not iterable")

-- `v[0]`
abbrev pub first_of : Json → Result Json
first_of (arr (cons v vs)) = ok v
first_of (arr nil) = raise (other_error "list index out of range")
first_of (str (String.◌∷◌ c s)) = ok (str (String.◌∷◌ c ""))
first_of (str String.[]) = raise (other_error "string index out of range")
first_of (obj fs) = raise (key_error "0")
first_of v = raise (type_error "object is not subscriptable")
