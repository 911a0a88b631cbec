-- ===== src/Value.antt =====
-- What `json.loads` returns: Python's `object` as far as JSON reaches. A float is opaque.
use platinum_gold_backend.Prelude.{
  Text, ℤ, Bool, text_eq, Option, none, some, List, [], ◌∷◌, if◌then◌else◌,
}

mutual
  pub data Value : Type 0 where
    null : Value
    bool : Bool → Value
    int : ℤ → Value
    float : Value
    str : Text → Value
    arr : Elems → Value
    obj : Fields → Value

  pub data Elems : Type 0 where
    nil : Elems
    cons : Value → Elems → Elems

  pub data Fields : Type 0 where
    end : Fields
    field : Text → Value → Fields → Fields

abbrev pub elems : Elems → List Value
elems nil = []
elems (cons v vs) = v ∷ elems vs

-- `d.get(k)`: the keys of a dict are distinct, so the first entry is the only one
unfoldable pub get : Text → Fields → Option Value
get k end = none
get k (field j v fs) = if text_eq j k then some v else get k fs

-- the keys of a dict, in order
abbrev pub keys : Fields → List Text
keys end = []
keys (field k v fs) = k ∷ keys fs
