-- ===== src/Run/Policy.antt =====
-- `is_completed_replay`, `has_record_loss` and `replay_complete` of
-- src/chat_downloader/runtime/capture_manifest.py, and `observe_provider` of the runner.
pub mod Complete
use chat_downloader_fork.Base.{
  Bool, true, false, not, ◌&&◌, Option, none, some, List, [], ◌∷◌, String, pos, ◌==◌, string_Eq,
  int_Eq, contains, if◌then◌else◌,
}
use chat_downloader_fork.Base.Json.{
  Json, null, bool, int, real, text, arr, obj, nil, cons, Fields, end, field, get, has, put, finite,
  not_finite,
}
use chat_downloader_fork.Run.Types.{RunResult}

-- `bool(value)`
abbrev pub truthy : Json → Bool
truthy null = false
truthy (bool b) = b
truthy (int n) = not (n == pos 0)
truthy (real not_finite) = true
truthy (real (finite x)) = not (x == pos 0)
truthy (text s) = not (s == "")
truthy (arr nil) = false
truthy (arr (cons _ _)) = true
truthy (obj end) = false
truthy (obj (field _ _ _)) = true

abbrev pub any_of : List String → Fields → Bool
any_of [] state = false
any_of (key ∷ keys) state = if truthy (get key state) then true else any_of keys state

abbrev pub loss_keys : List String
loss_keys = "malformed_timestamp" ∷ "malformed_object" ∷ "parse_error" ∷ "prior_record_loss" ∷ []

-- The default 0 of a missing key is false, as `None` is.
unfoldable pub has_record_loss : Fields → Bool
has_record_loss state = any_of loss_keys state

-- What the policy and the reports read of a chat. `classify` is its site's
-- `is_completed_replay_status`, if the site has one.
pub record ChatView : Type 0 where
  pub status : String
  pub classify : Option (String → Bool)
  pub diagnostics : Fields

unfoldable pub is_completed_replay : Option ChatView → Bool
is_completed_replay none = false
is_completed_replay (some chat) = elim chat.classify [
  | none ↦ chat.status == "completed"
  | some classify ↦ classify chat.status
]

-- `state.get("history_complete", True) is True`
abbrev pub history_complete : Fields → Bool
history_complete state =
    if has "history_complete" state
    then elim (get "history_complete" state) [ bool b ↦ b | _ ↦ false ]
    else true

unfoldable pub replay_complete : Option ChatView → RunResult → Bool
unfolding is_completed_replay has_record_loss
replay_complete none result = false
replay_complete (some chat) result =
    if is_completed_replay (some chat) && result.success
    then contains result.termination_reason ("completed" ∷ "empty_window" ∷ [])
      && history_complete chat.diagnostics
      && not (has_record_loss chat.diagnostics)
    else false

-- `{**a, **b}`
abbrev pub merge : Fields → Fields → Fields
merge a end = a
merge a (field key v rest) = merge (put key v a) rest

abbrev pub put_int : String → Json → Fields → Fields
put_int key (int n) a = put key (int n) a
put_int key _ a = a

abbrev pub merge_ints : Fields → Fields → Fields
merge_ints a end = a
merge_ints a (field key v rest) = merge_ints (put_int key v a) rest

abbrev pub diagnostics_of : Option ChatView → Fields
diagnostics_of none = end
diagnostics_of (some chat) = chat.diagnostics

-- `observe_provider`, where `setup` are the downloader's request diagnostics
unfoldable pub observe_provider : RunResult → Option ChatView → Fields → RunResult
observe_provider result chat setup = record result {
  provider_diagnostics = merge_ints (merge setup (diagnostics_of chat)) setup;
}
