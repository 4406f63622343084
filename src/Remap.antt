-- ===== src/Remap.antt =====
-- `Remapper` of src/chat_downloader/sites/remap.py: one dictionary is remapped to another.
pub mod Renaming
mod Tests
use chat_downloader_fork.Base.{
  String, Bool, true, false, not, ◌&&◌, Option, none, some, List, [], ◌∷◌, if◌then◌else◌, ◌==◌,
  string_Eq,
}
use chat_downloader_fork.Base.Json.{
  Json, null, bool, int, real, text, arr, obj, Fields, end, field, put,
}
use chat_downloader_fork.Base.Result.{Result, ok, raise, value_error, ◌>>=◌}

-- The fields of a `Remapper`
pub record Remapper : Type 0 where
  pub new_key : Option String
  pub remap_function : Option (Json → Result Json)
  pub to_unpack : Bool

-- A value of the remapping dictionary. `falsy` is one that a test takes for false, such as `None`, and
-- `unknown` any other.
pub data Rule : Type 0 where
  remapper : Remapper → Rule
  rename : String → Rule
  falsy unknown : Rule

-- `__init__`
unfoldable pub init : Option String → Option (Json → Result Json) → Bool → Result Remapper
init (some key) remap_function true = raise value_error
init (some key) remap_function false =
    ok (record { new_key = some key; remap_function = remap_function; to_unpack = false })
init none remap_function to_unpack =
    ok (record { new_key = none; remap_function = remap_function; to_unpack = to_unpack })

-- `info.update(values)`
abbrev pub update : Fields → Fields → Fields
update info end = info
update info (field key value rest) = update (put key value info) rest

abbrev pub unpack : Fields → Json → Result Fields
unpack info (obj values) = ok (update info values)
unpack info _ = raise value_error

abbrev pub put_new : Option String → Json → Fields → Fields
put_new none value info = info
put_new (some key) value info = put key value info

abbrev pub new_value : Option (Json → Result Json) → Json → Result Json
new_value none value = ok value
new_value (some f) value = f value

unfoldable pub apply_remapper : Fields → Remapper → Json → Result Fields
apply_remapper info remap remap_input = new_value remap.remap_function remap_input >>= λ value.
    if remap.to_unpack then unpack info value else ok (put_new remap.new_key value info)

abbrev pub rule_of : String → List (String × Rule) → Rule
rule_of key [] = falsy
rule_of key ((k, rule) ∷ rest) = if k == key then rule else rule_of key rest

-- The unknown keys that are kept; `underscored` is the replacement of a character in a key, or nothing.
unfoldable pub keep_unknown : Bool → (String → String) → String → Json → Fields → Fields
keep_unknown true underscored key value info = put (underscored key) value info
keep_unknown false underscored key value info = info

unfoldable pub apply_rule : Bool → (String → String) → Rule → String → Json → Fields → Result Fields
unfolding apply_remapper keep_unknown
apply_rule keeps underscored (remapper r) key value info = apply_remapper info r value
apply_rule keeps underscored (rename new_key) key value info =
    if new_key == ""
    then ok (keep_unknown keeps underscored key value info)
    else ok (put new_key value info)
apply_rule keeps underscored falsy key value info =
    ok (keep_unknown keeps underscored key value info)
apply_rule keeps underscored unknown key value info = raise value_error

module _ (keeps : Bool) (underscored : String → String)
    (remapping_dict : List (String × Rule)) where
  unfoldable pub remap : Fields → String → Json → Result Fields
  unfolding apply_rule
  remap info remap_key remap_input =
      apply_rule keeps underscored (rule_of remap_key remapping_dict) remap_key remap_input info

  unfoldable pub remap_all : Fields → Fields → Result Fields
  unfolding remap
  remap_all info end = ok info
  remap_all info (field key value rest) = remap info key value >>= λ next. remap_all next rest

  unfoldable pub remap_dict : Fields → Result Fields
  unfolding remap_all
  remap_dict input_dictionary = remap_all end input_dictionary
