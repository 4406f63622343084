-- ===== src/Remap/Renaming.antt =====
-- Where the rules rename, a value is found under its new name.
use chat_downloader_fork.Base.{
  Option, none, some, String, Bool, true, false, List, ◌≡◌, refl, ap, ◌∙◌, if◌then◌else◌, ◌==◌,
  string_Eq, Bool-cases, inl, inr,
}
use chat_downloader_fork.Base.Json.{Json, Fields, end, field, get, get-put, null}
use chat_downloader_fork.Base.Result.{ok}
use chat_downloader_fork.Remap.{
  Rule, remapper, unknown, put_new, rename, falsy, rule_of, keep_unknown, apply_rule, remap,
  remap_all, remap_dict,
}

-- The name under which a plain rule puts a value, if it does.
abbrev kept_name : Bool → (String → String) → String → Option String
kept_name true underscored key = some (underscored key)
kept_name false underscored key = none

abbrev name_by : Bool → (String → String) → Rule → String → Option String
name_by keeps underscored (rename new_key) key =
    if new_key == "" then kept_name keeps underscored key else some new_key
name_by keeps underscored _ key = kept_name keeps underscored key

abbrev IsPlain : Rule → Type 0
IsPlain (rename new_key) = Unit
IsPlain falsy = Unit
IsPlain (remapper r) = ⊥
IsPlain unknown = ⊥

abbrev is_named : Option String → String → Bool
is_named none name = false
is_named (some given) name = given == name

kept-name :
    (keeps : Bool) (underscored : String → String) (key : String) (value : Json) (info : Fields)
    → keep_unknown keeps underscored key value info
      ≡ put_new (kept_name keeps underscored key) value info
unfolding keep_unknown
kept-name true underscored key value info = refl
kept-name false underscored key value info = refl

apply_rule-name :
    (keeps : Bool) (underscored : String → String) (rule : Rule) (key : String) (value : Json)
    (info : Fields)
    → IsPlain rule
    → apply_rule keeps underscored rule key value info
      ≡ ok (put_new (name_by keeps underscored rule key) value info)
unfolding apply_rule
apply_rule-name keeps underscored (rename new_key) key value info plain =
    elim (Bool-cases (new_key == "")) [
      | inl empty ↦
          rw (empty, apply_rule) (ap (λ f. ok f) (kept-name keeps underscored key value info))
      | inr filled ↦ rw (filled, apply_rule) refl
    ]
apply_rule-name keeps underscored falsy key value info plain =
    ap (λ f. ok f) (kept-name keeps underscored key value info)
apply_rule-name keeps underscored (remapper r) key value info plain = elim plain [ ]
apply_rule-name keeps underscored unknown key value info plain = elim plain [ ]

get-put_new :
    (given : Option String) (value : Json) (info : Fields) (name : String)
    → get name (put_new given value info) ≡ (if is_named given name then value else get name info)
get-put_new none value info name = refl
get-put_new (some given) value info name = get-put given name value info

module _ (keeps : Bool) (underscored : String → String)
    (remapping_dict : List (String × Rule)) where
  -- Every key of the input has a plain rule.
  abbrev pub AllPlain : Fields → Type 0
  AllPlain end = Unit
  AllPlain (field key value rest) = IsPlain (rule_of key remapping_dict) × AllPlain rest

  -- The last value whose key is given this name
  abbrev pub last_named : String → Json → Fields → Json
  last_named name prior end = prior
  last_named name prior (field key value rest) =
      last_named name
        (if is_named (name_by keeps underscored (rule_of key remapping_dict) key) name
          then value
          else prior)
        rest

  remap_all-named :
      (input info : Fields)
      → AllPlain input
      → (result : Fields) × (remap_all keeps underscored remapping_dict info input ≡ ok result)
        × ((name : String) → get name result ≡ last_named name (get name info) input)
  unfolding remap_all remap
  remap_all-named end info plain = (info, refl, λ name. refl)
  remap_all-named (field key value rest) info (first, plain) =
      let rule = rule_of key remapping_dict in
      let given = name_by keeps underscored rule key in
      let (result, runs, names) = remap_all-named rest (put_new given value info) plain in
      (
        result,
        rw (apply_rule-name keeps underscored rule key value info first, remap_all) runs,
        λ name.
            names name
            ∙ ap (λ prior. last_named name prior rest) (get-put_new given value info name),
      )

  -- If every key of the input has a string or a false value as its rule, then remapping gives a
  -- dictionary that has under each name the last input value whose key is renamed to it, or is
  -- kept as it if unknown keys are kept, and every other name reads as missing.
  pub remap_dict-last_named :
      (input : Fields)
      → AllPlain input
      → (result : Fields) × (remap_dict keeps underscored remapping_dict input ≡ ok result)
        × ((name : String) → get name result ≡ last_named name null input)
  unfolding remap_dict
  remap_dict-last_named input plain = remap_all-named input end plain
