-- ===== src/Json.antt =====
-- JSON values as `json.loads` returns them, and the dictionary operations that the agent applies
-- to payloads. A dictionary is the list of its items; the order of the items carries no meaning.
pub mod Laws
use build_engine.Prelude.{ℕ, String, Bool, Option, none, some, List, [], ◌∷◌, str_eq, if◌then◌else◌}

mutual
  -- `int n` and `negative n` are n and -(n + 1). `float n e` is the finite float n / 2 ^ e, and
  -- `float_other` a negative or non-finite one.
  pub data Json : Type 0 where
    null : Json
    bool : Bool → Json
    int : ℕ → Json
    negative : ℕ → Json
    float : ℕ → ℕ → Json
    float_other : ℕ → Json
    str : String → Json
    arr : Items → Json
    obj : Fields → Json

  pub data Items : Type 0 where
    nil : Items
    cons : Json → Items → Items

  pub data Fields : Type 0 where
    end : Fields
    field : String → Json → Fields → Fields

-- `payload.get(key)`, which is also the test `key in payload`.
unfoldable pub get : String → Fields → Option Json
get k end = none
get k (field j v fs) = if str_eq j k then some v else get k fs

-- The dictionary without some keys.
pub without : (String → Bool) → Fields → Fields
without drop end = end
without drop (field j v fs) = if drop j then without drop fs else field j v (without drop fs)

-- `payload | {key: value}`: the old item is replaced in its place, or the new one added at the end.
unfoldable pub put : String → Json → Fields → Fields
put k v end = field k v end
put k v (field j w fs) = if str_eq j k then field j v fs else field j w (put k v fs)

unfoldable pub keys : Fields → List String
keys end = []
keys (field j v fs) = j ∷ keys fs
