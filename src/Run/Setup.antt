-- ===== src/Run/Setup.antt =====
-- The first part of `execute_run`: the calls that make the downloader, the chat and the artifacts.
pub mod Ready
pub mod Order
use chat_downloader_fork.Base.{
  Bool, true, false, not, ◌&&◌, Option, none, some, List, [], ◌∷◌, String, if◌then◌else◌,
}
use chat_downloader_fork.Run.Types.{
  Exc, Outcome, fine, raised, interrupt, Stage, initialization, bootstrap, capture, value,
}
use chat_downloader_fork.Run.Policy.{ChatView, is_completed_replay}

-- The options that the run tests.
pub record Config : Type 0 where
  pub verify_output : Bool
  pub require_complete : Bool
  pub run_manifest : Bool
  pub resume : Bool
  pub propagate_interrupt : Bool

-- What each call of the setup gives.
pub record Calls : Type 0 where
  pub manifest_init : Outcome
  pub validate_verification : Outcome
  pub checkpoint_lock : Outcome
  pub checkpoint_init : Outcome
  pub downloader_init : Outcome
  pub get_chat : Outcome
  pub manifest_bind : Outcome
  pub capture_paths : Outcome
  pub checkpoint_bind : Outcome
  pub create_message_callback : Outcome
  pub iter_chat : Outcome

-- The run's variables. `manifest` is its field `valid`, and `locked` that the exit stack holds the
-- checkpoint's lock.
pub record Locals : Type 0 where
  pub phase : Stage
  pub has_downloader : Bool
  pub has_chat : Bool
  pub manifest : Option Bool
  pub locked : Bool
  pub checkpoint : Bool
  pub checkpoint_bound : Bool
  pub verification_bound : Bool

abbrev pub no_locals : Locals
no_locals = record {
  phase = initialization;
  has_downloader = false;
  has_chat = false;
  manifest = none;
  locked = false;
  checkpoint = false;
  checkpoint_bound = false;
  verification_bound = false;
}

-- How the body of the `try` goes on.
pub data Progress : Type 0 where
  going cut : Progress
  failed : Exc → Progress

pub record Call : Type 0 where
  pub enabled : Bool
  pub outcome : Outcome
  pub before : Locals → Locals
  pub after : Locals → Locals

-- A sequence of calls, up to the first that raises
unfoldable pub run_calls : List Call → Locals → Locals × Progress
run_calls [] l = (l, going)
run_calls (c ∷ rest) l =
    let next = run_calls rest (c.after (c.before l)) in
    if c.enabled
    then elim c.outcome [
      | fine ↦ next
      | raised e ↦ (c.before l, failed e)
      | interrupt ↦ (c.before l, cut)
    ]
    else run_calls rest l

abbrev pub same : Locals → Locals
same l = l

-- `validate_complete_request`
unfoldable pub validate_complete_request : ChatView → Outcome
unfolding is_completed_replay
validate_complete_request chat =
    if is_completed_replay (some chat)
    then fine
    else raised (record { kind = value; text = "Complete capture requires a completed replay." })

-- `RunManifest.bind` marks the manifest as not valid until its paths are compared.
unfoldable pub setup_calls : Config → Calls → ChatView → List Call
setup_calls config calls chat =
    record {
      enabled = config.run_manifest;
      outcome = calls.manifest_init;
      before = same;
      after = λ l. record l { manifest = some true };
    }
    ∷ record {
      enabled = config.verify_output;
      outcome = calls.validate_verification;
      before = same;
      after = same;
    }
    ∷ record {
      enabled = config.resume;
      outcome = calls.checkpoint_lock;
      before = same;
      after = λ l. record l { locked = true };
    }
    ∷ record {
      enabled = config.resume;
      outcome = calls.checkpoint_init;
      before = same;
      after = λ l. record l { checkpoint = true };
    }
    ∷ record {
      enabled = true;
      outcome = calls.downloader_init;
      before = same;
      after = λ l. record l { has_downloader = true; phase = bootstrap };
    }
    ∷ record {
      enabled = true;
      outcome = calls.get_chat;
      before = same;
      after = λ l. record l { has_chat = true };
    }
    ∷ record {
      enabled = config.run_manifest;
      outcome = calls.manifest_bind;
      before = λ l. record l { manifest = some false };
      after = λ l. record l { manifest = some true };
    }
    ∷ record {
      enabled = config.require_complete;
      outcome = validate_complete_request chat;
      before = same;
      after = same;
    }
    ∷ record {
      enabled = config.verify_output;
      outcome = calls.capture_paths;
      before = same;
      after = λ l. record l { verification_bound = true };
    }
    ∷ record {
      enabled = config.resume;
      outcome = calls.checkpoint_bind;
      before = same;
      after = λ l. record l { checkpoint_bound = true };
    }
    ∷ record {
      enabled = true;
      outcome = calls.create_message_callback;
      before = same;
      after = λ l. record l { phase = capture };
    }
    ∷ record { enabled = true; outcome = calls.iter_chat; before = same; after = same }
    ∷ []

unfoldable pub setup : Config → Calls → ChatView → Locals × Progress
unfolding setup_calls
setup config calls chat = run_calls (setup_calls config calls chat) no_locals
