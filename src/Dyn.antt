-- ===== src/Dyn.antt =====
-- Values of `json.loads`: the nested dicts and lists that the program reads event payloads as.
-- Numbers are the non-negative integers; no other number is read by the modelled code.
use greenline.Base.{
  ℕ, Bool, true, false, Option, none, some, Text, ◌==◌, if◌then◌else◌, is_empty, nat_eq, not, List,
  [], ◌∷◌,
}

mutual
  pub data Dyn : Type 0 where
    null : Dyn
    bool : Bool → Dyn
    num : ℕ → Dyn
    str : Text → Dyn
    arr : Items → Dyn
    obj : Fields → Dyn

  pub data Items : Type 0 where
    nil : Items
    cons : Dyn → Items → Items

  pub data Fields : Type 0 where
    end : Fields
    field : Text → Dyn → Fields → Fields

-- `d.get(key)` at the fields of a dict
unfoldable pub get_field : Text → Fields → Dyn
get_field k end = null
get_field k (field j v fs) = if j == k then v else get_field k fs

-- `value.get(key)` where the value is a dict, and `None` elsewhere
unfoldable pub get_key : Text → Dyn → Dyn
unfolding get_field
get_key k (obj fs) = get_field k fs
get_key k _ = null

-- `isinstance(value, dict)`
abbrev pub is_dict : Dyn → Bool
is_dict (obj fs) = true
is_dict _ = false

-- `value is not None`
abbrev pub is_some : Dyn → Bool
is_some null = false
is_some _ = true

-- `bool(value)`
unfoldable pub truthy : Dyn → Bool
truthy null = false
truthy (bool b) = b
truthy (num n) = not (nat_eq n 0)
truthy (str s) = not (is_empty s)
truthy (arr nil) = false
truthy (arr (cons x xs)) = true
truthy (obj end) = false
truthy (obj (field k v fs)) = true

-- `a or b`
unfoldable pub or_else : Dyn → Dyn → Dyn
unfolding truthy
or_else a b = if truthy a then a else b

-- The elements of a list, none where the value is no list.
abbrev pub items : Items → List Dyn
items nil = []
items (cons x xs) = x ∷ items xs

unfoldable pub list_items : Dyn → Option (List Dyn)
list_items (arr xs) = some (items xs)
list_items _ = none
