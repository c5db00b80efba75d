-- ===== src/Json.antt =====
-- JSON values, and journal.py's `strict_json`: the two hooks that `json.loads` calls on a decoded
-- text. What `json.loads` makes of a text before the hooks is a parameter of the modules that decode.
-- A number with a point or an exponent is kept as its text; the text may stand for an infinite float,
-- as 1e999 does, which neither hook sees.
pub mod Strict
pub mod Equal
mod Examples
use agent_fault_lab.Prelude.{
  ℕ, String, Bool, true, false, Option, none, some, ◌==◌, if◌then◌else◌, ◌||◌,
}
use agent_fault_lab.Exceptions.{value_error, recursion_error, Result, ok, raised, ◌>>=◌}

-- A value that Python holds: the keys of a dictionary are distinct.
mutual
  pub data Json : Type 0 where
    null : Json
    bool : Bool → Json
    int : ℕ → Json
    -- -(n + 1)
    negint : ℕ → Json
    -- the text of a number with a fraction or an exponent
    float : String → Json
    str : String → Json
    arr : Items → Json
    obj : Fields → Json

  pub data Items : Type 0 where
    nil : Items
    cons : Json → Items → Items

  pub data Fields : Type 0 where
    end : Fields
    field : String → Json → Fields → Fields

-- A value as the text has it: pairs in order, keys that may repeat, and `NaN` or `Infinity`.
mutual
  pub data Raw : Type 0 where
    raw_null : Raw
    raw_bool : Bool → Raw
    raw_int : ℕ → Raw
    raw_negint : ℕ → Raw
    raw_float : String → Raw
    raw_constant : String → Raw
    raw_str : String → Raw
    raw_arr : RawItems → Raw
    raw_obj : Pairs → Raw

  pub data RawItems : Type 0 where
    raw_nil : RawItems
    raw_cons : Raw → RawItems → RawItems

  pub data Pairs : Type 0 where
    no_pair : Pairs
    pair : String → Raw → Pairs → Pairs

abbrev pub has_key : String → Pairs → Bool
has_key k no_pair = false
has_key k (pair j v ps) = j == k || has_key k ps

-- `unique`: a key that comes a second time raises, and so does a constant (`reject`).
unfoldable mutual
  pub strict : Raw → Result Json
  strict raw_null = ok null
  strict (raw_bool b) = ok (bool b)
  strict (raw_int n) = ok (int n)
  strict (raw_negint n) = ok (negint n)
  strict (raw_float s) = ok (float s)
  strict (raw_constant s) = raised (value_error "Non-finite JSON number")
  strict (raw_str s) = ok (str s)
  strict (raw_arr xs) = do ys ← strict_items xs; ok (arr ys)
  strict (raw_obj ps) = do fs ← strict_pairs ps; ok (obj fs)

  pub strict_items : RawItems → Result Items
  strict_items raw_nil = ok nil
  strict_items (raw_cons x xs) = do y ← strict x; ys ← strict_items xs; ok (cons y ys)

  pub strict_pairs : Pairs → Result Fields
  strict_pairs no_pair = ok end
  strict_pairs (pair k v ps) = do
    w ← strict v
    fs ← strict_pairs ps
    if has_key k ps then raised (value_error "Duplicate JSON key") else ok (field k w fs)

-- What `json.loads` makes of a text before its hooks: nothing where it is no JSON or no UTF-8, and
-- nothing where its nesting is too deep for the interpreter.
pub data Decoded : Type 0 where
  not_json too_deep : Decoded
  parsed : Raw → Decoded

-- `json.loads`, with its two hooks
abbrev pub decoded : Decoded → Result Json
unfolding strict
decoded not_json = raised (value_error "JSONDecodeError")
decoded too_deep = raised recursion_error
decoded (parsed raw) = strict raw

-- `value.get(key)`
abbrev pub get_field : String → Fields → Option Json
get_field k end = none
get_field k (field j v fs) = if j == k then some v else get_field k fs

abbrev pub get : String → Json → Option Json
get k (obj fs) = get_field k fs
get k _ = none
