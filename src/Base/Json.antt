-- ===== src/Base/Json.antt =====
-- Values of decoded JSON, as the Python code holds them. A finite float is counted in
-- millionths; the infinities and NaN are one value, since the code only tests for finiteness.
use Prim.Native.Nat.{◌+◌, ◌*◌}
use Prim.Native.String.{String}
use mathlib.Core.Path.{◌≡◌, refl}
use mathlib.Core.List.{List, [], ◌∷◌}
use native.Mathlib.Omega.{arith}
use mathlib.Core.Bool.{Bool, true, false}
use mathlib.Core.Option.{Option, none, some}
use chat_downloader_fork.Base.Tests.{if◌then◌else◌}
use chat_downloader_fork.Base.Equality.{◌==◌, ==_iff, string_Eq}
use chat_downloader_fork.Base.Int.{ℤ, pos, negsuc}

pub data Float : Type 0 where
  finite : ℤ → Float
  not_finite : Float

mutual
  pub data Json : Type 0 where
    null : Json
    bool : Bool → Json
    int : ℤ → Json
    real : Float → Json
    text : String → Json
    arr : Items → Json
    obj : Fields → Json

  pub data Items : Type 0 where
    nil : Items
    cons : Json → Items → Items

  pub data Fields : Type 0 where
    end : Fields
    field : String → Json → Fields → Fields

-- `key in item`
abbrev pub has : String → Fields → Bool
has key end = false
has key (field k v rest) = if k == key then true else has key rest

-- `item.get(key)`: a missing key reads as `None`.
abbrev pub get : String → Fields → Json
get key end = null
get key (field k v rest) = if k == key then v else get key rest

-- `value` if it is a string
abbrev pub text_of : Json → Option String
text_of (text s) = some s
text_of _ = none

-- A value that can be looked up in a set: lists and dictionaries raise `TypeError`.
abbrev pub hashable : Json → Bool
hashable (arr _) = false
hashable (obj _) = false
hashable _ = true

-- `item[key] = value`: in place, or at the end.
abbrev pub put : String → Json → Fields → Fields
put key v end = field key v end
put key v (field k w rest) = if k == key then field k v rest else field k w (put key v rest)

-- The accessors of src/chat_downloader/utils/json_types.py: the value, or the default where it is
-- absent or of another type.
abbrev pub str_or : String → Json → String
str_or default (text s) = s
str_or default _ = default

abbrev pub get_str : Fields → String → String → String
get_str d key default = str_or default (get key d)

abbrev pub int_or : ℤ → Json → ℤ
int_or default (int n) = n
int_or default _ = default

abbrev pub get_int : Fields → String → ℤ → ℤ
get_int d key default = int_or default (get key d)

-- `float(v)` of an integer, in millionths
abbrev pub to_float : ℤ → Float
to_float (pos n) = finite (pos (n * 1000000))
to_float (negsuc n) = finite (negsuc (n * 1000000 + 999999))

abbrev pub float_or : Float → Json → Float
float_or default (int n) = to_float n
float_or default (real x) = x
float_or default _ = default

abbrev pub get_float : Fields → String → Float → Float
get_float d key default = float_or default (get key d)

abbrev pub bool_or : Bool → Json → Bool
bool_or default (bool b) = b
bool_or default _ = default

abbrev pub get_bool : Fields → String → Bool → Bool
get_bool d key default = bool_or default (get key d)

abbrev pub dict_or_empty : Json → Fields
dict_or_empty (obj fs) = fs
dict_or_empty _ = end

abbrev pub get_dict : Fields → String → Fields
get_dict d key = dict_or_empty (get key d)

abbrev pub list_or_empty : Json → Items
list_or_empty (arr xs) = xs
list_or_empty _ = nil

abbrev pub get_list : Fields → String → Items
get_list d key = list_or_empty (get key d)

-- `dig`: `cur` is the value that the path has led to.
abbrev pub dig_from : Json → List String → Json
dig_from cur [] = cur
dig_from (obj fs) (key ∷ path) = dig_from (get key fs) path
dig_from _ (key ∷ path) = null

abbrev pub dig : Fields → List String → Json
dig d path = dig_from (obj d) path

-- Reading back what was written.
pub get-put :
    (k j : String) (v : Json) (d : Fields) → get j (put k v d) ≡ (if k == j then v else get j d)
get-put k j v end = refl
get-put k j v (field i w rest) =
    ground (arith, ==_iff k j, ==_iff i k, ==_iff i j, get-put k j v rest)
