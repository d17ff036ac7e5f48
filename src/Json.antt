-- ===== src/Json.antt =====
-- The JSON values that every command builds and reshapes (Python's dict, list, str, bool, int,
-- float, None), with the dictionary operations the program uses on them.
-- packages/warcraft-core/src/warcraft_core/shapes.py
pub mod Laws
use warcraft_cli.Base.{
  ℕ, zero, String, ◌≡◌, not, ◌||◌, Bool, true, false, Option, none, some, List, [], ◌∷◌, ◌==◌,
  is_some, if◌then◌else◌,
}

-- `negsuc n` is -(n + 1).
pub data ℤ : Type 0 where
  pos : ℕ → ℤ
  negsuc : ℕ → ℤ

-- A dict keeps the order in which its keys were first set. A float is carried by its text: no
-- operation modelled here computes with one.
mutual
  pub data Value : Type 0 where
    null : Value
    bool : Bool → Value
    int : ℤ → Value
    float : String → Value
    str : String → Value
    list : Items → Value
    dict : Fields → Value

  pub data Items : Type 0 where
    nil : Items
    cons : Value → Items → Items

  pub data Fields : Type 0 where
    end : Fields
    field : String → Value → Fields → Fields

-- `d.get(k)`
unfoldable pub lookup : String → Fields → Option Value
lookup k end = none
lookup k (field j v d) = if j == k then some v else lookup k d

-- `k in d`
abbrev pub has : String → Fields → Bool
has k d = is_some (lookup k d)

-- `d[k] = v`: in place where the key is there, else at the end
unfoldable pub insert : String → Value → Fields → Fields
insert k v end = field k v end
insert k v (field j w d) = if j == k then field j v d else field j w (insert k v d)

-- `{**d, **e}`
unfoldable pub merge : Fields → Fields → Fields
merge d end = d
merge d (field k v e) = merge (insert k v d) e

-- `d.keys()`
unfoldable pub keys : Fields → List String
keys end = []
keys (field k v d) = k ∷ keys d

-- `isinstance(v, dict)` and its like
abbrev pub is_dict : Value → Bool
is_dict (dict d) = true
is_dict _ = false

abbrev pub is_str : Value → Bool
is_str (str s) = true
is_str _ = false

abbrev pub is_bool : Value → Bool
is_bool (bool b) = true
is_bool _ = false

-- shapes.py `as_dict`: the value when it is a dict, else an empty one
unfoldable pub as_dict : Option Value → Fields
as_dict (some (dict d)) = d
as_dict _ = end

-- A list of texts as a JSON list.
unfoldable pub texts : List String → Items
texts [] = nil
texts (s ∷ ss) = cons (str s) (texts ss)

-- `{k: v for k, v in d.items() if test(k)}`
unfoldable pub restrict : (String → Bool) → Fields → Fields
restrict test end = end
restrict test (field k v d) = let rest = restrict test d in if test k then field k v rest else rest

-- `bool(v)`
unfoldable pub truthy : Value → Bool
truthy null = false
truthy (bool b) = b
truthy (int (pos zero)) = false
truthy (float t) = not (t == "0.0" || t == "-0.0")
truthy (str s) = not (s == "")
truthy (list nil) = false
truthy (dict end) = false
truthy _ = true

-- Each key stands once, as in every Python dict.
abbrev pub IsUnique : Fields → Type 0
IsUnique end = Unit
IsUnique (field k v d) = (lookup k d ≡ none) × IsUnique d
