-- ===== src/Run/Setup/Ready.antt =====
-- What the setup leaves.
use chat_downloader_fork.Base.{
  arith, Bool, true, false, none, some, List, [], ◌∷◌, ◌≡◌, refl, ◌∙◌, if◌then◌else◌,
}
use chat_downloader_fork.Run.Types.{capture}
use chat_downloader_fork.Run.Policy.{ChatView}
use chat_downloader_fork.Run.Setup.{
  Config, Calls, Call, Locals, no_locals, going, run_calls, setup_calls, setup,
}

abbrev apply_all : List Call → Locals → Locals
apply_all [] l = l
apply_all (c ∷ rest) l = apply_all rest (if c.enabled then c.after (c.before l) else l)

run_calls-going :
    (calls : List Call) (l last : Locals)
    → run_calls calls l ≡ (last, going)
    → last ≡ apply_all calls l
unfolding run_calls
run_calls-going [] l last e = cc
run_calls-going (c ∷ rest) l last e =
    ground (arith, run_calls-going rest (c.after (c.before l)) last, run_calls-going rest l last)

-- The variables after a setup in which no call raises
abbrev pub ready : Config → Locals
ready config = record {
  phase = capture;
  has_downloader = true;
  has_chat = true;
  manifest = if config.run_manifest then some true else none;
  locked = config.resume;
  checkpoint = config.resume;
  checkpoint_bound = config.resume;
  verification_bound = config.verify_output;
}

apply_all-ready :
    (v c m r p : Bool) (calls : Calls) (chat : ChatView)
    → let config : Config = record {
      verify_output = v;
      require_complete = c;
      run_manifest = m;
      resume = r;
      propagate_interrupt = p;
    } in
      apply_all (setup_calls config calls chat) no_locals ≡ ready config
unfolding setup_calls
apply_all-ready false false false false p calls chat = refl
apply_all-ready false false false true p calls chat = refl
apply_all-ready false false true false p calls chat = refl
apply_all-ready false false true true p calls chat = refl
apply_all-ready false true false false p calls chat = refl
apply_all-ready false true false true p calls chat = refl
apply_all-ready false true true false p calls chat = refl
apply_all-ready false true true true p calls chat = refl
apply_all-ready true false false false p calls chat = refl
apply_all-ready true false false true p calls chat = refl
apply_all-ready true false true false p calls chat = refl
apply_all-ready true false true true p calls chat = refl
apply_all-ready true true false false p calls chat = refl
apply_all-ready true true false true p calls chat = refl
apply_all-ready true true true false p calls chat = refl
apply_all-ready true true true true p calls chat = refl

-- A setup that gets through leaves these variables.
pub setup-ready :
    (config : Config) (calls : Calls) (chat : ChatView) (last : Locals)
    → setup config calls chat ≡ (last, going)
    → last ≡ ready config
unfolding setup
setup-ready config calls chat last e =
    run_calls-going (setup_calls config calls chat) no_locals last e
    ∙ apply_all-ready config.verify_output config.require_complete config.run_manifest config.resume
        config.propagate_interrupt calls chat
