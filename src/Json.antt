-- ===== src/Json.antt =====
-- JSON values as Python's `json` returns them, and the look-ups that the programs make in them.
use iclr.Base.{
  String, Bool, true, Option, none, some, List, [], ◌∷◌, ◌&&◌, member, str_eq, if◌then◌else◌,
}
use iclr.Base.Integers.{ℤ}

mutual
  pub data Json : Type 0 where
    null : Json
    bool : Bool → Json
    int : ℤ → Json
    -- a float, by its text
    float : String → Json
    str : String → Json
    arr : Items → Json
    obj : Fields → Json

  pub data Items : Type 0 where
    nil : Items
    cons : Json → Items → Items

  pub data Fields : Type 0 where
    end : Fields
    field : String → Json → Fields → Fields

-- `data.get(key)`
abbrev pub get : String → Fields → Option Json
get k end = none
get k (field j v fs) = if str_eq j k then some v else get k fs

abbrev pub keys : Fields → List String
keys end = []
keys (field k v fs) = k ∷ keys fs

-- Every key is one of the names.
abbrev pub only_keys : List String → Fields → Bool
only_keys names end = true
only_keys names (field k v fs) = member k names && only_keys names fs
