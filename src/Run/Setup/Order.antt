-- ===== src/Run/Setup/Order.antt =====
-- A run has a chat only if it has a downloader.
use chat_downloader_fork.Base.{arith, Bool, true, false, List, [], ◌∷◌, ◌≡◌, refl}
use chat_downloader_fork.Run.Types.{Outcome, fine, raised, interrupt}
use chat_downloader_fork.Run.Policy.{ChatView}
use chat_downloader_fork.Run.Setup.{
  Config, Calls, Call, Locals, no_locals, run_calls, setup_calls, setup,
}

-- The calls up to the chat have a downloader or no chat; those after it have a downloader.
abbrev Ordered : Locals → Type 0
Ordered l = l.has_chat ≡ true → l.has_downloader ≡ true

-- What `Before` holds of is `Ordered`, a call keeps it, and from there the rest is ordered.
run_calls-Ordered :
    (Before : Locals → Type 0) (c : Call) (rest : List Call)
    → ((l : Locals) → Before l → Ordered l)
    → ((l : Locals) → Before l → Before (c.before l))
    → ((l : Locals) → Before l → Ordered (run_calls rest (c.after (c.before l))).0)
    → (c.enabled ≡ false → (l : Locals) → Before l → Ordered (run_calls rest l).0)
    → (l : Locals) → Before l
    → Ordered (run_calls (c ∷ rest) l).0
unfolding run_calls
run_calls-Ordered Before c rest orders keeps goes skips l h = by_case c.enabled c.outcome refl
  where
    by_case :
        (enabled : Bool) (outcome : Outcome)
        → c.enabled ≡ enabled
        → Ordered (run_calls (record c { enabled = enabled; outcome = outcome } ∷ rest) l).0
    by_case false outcome e = skips e l h
    by_case true fine e = goes l h
    by_case true (raised x) e = orders _ (keeps l h)
    by_case true interrupt e = orders _ (keeps l h)

-- Calls that never take the downloader away
abbrev Keeping : List Call → Type 0
Keeping [] = Unit
Keeping (c ∷ rest) =
    ((l : Locals) → l.has_downloader ≡ true → (c.before l).has_downloader ≡ true)
    × ((l : Locals) → l.has_downloader ≡ true → (c.after l).has_downloader ≡ true)
    × Keeping rest

kept-Ordered :
    (calls : List Call) (l : Locals)
    → Keeping calls
    → l.has_downloader ≡ true
    → Ordered (run_calls calls l).0
unfolding run_calls
kept-Ordered [] l k h = λ _. h
kept-Ordered (c ∷ rest) l (before, after, more) h =
    run_calls-Ordered (λ m. m.has_downloader ≡ true) c rest (λ m g _. g) before
      (λ m g. kept-Ordered rest (c.after (c.before m)) more (after (c.before m) (before m g)))
      (λ _ m g. kept-Ordered rest m more g) l h

abbrev Chatless : Locals → Type 0
Chatless l = l.has_chat ≡ false

Chatless-Ordered : (l : Locals) → Chatless l → Ordered l
Chatless-Ordered l h g = absurd (ground arith)

-- A call that neither makes the chat nor is made after it
early-Ordered :
    (c : Call) (rest : List Call)
    → ((l : Locals) → Chatless l → Chatless (c.before l))
    → ((l : Locals) → Chatless l → Chatless (c.after l))
    → ((l : Locals) → Chatless l → Ordered (run_calls rest l).0)
    → (l : Locals) → Chatless l
    → Ordered (run_calls (c ∷ rest) l).0
early-Ordered c rest before after more =
    run_calls-Ordered Chatless c rest Chatless-Ordered before
      (λ l h. more (c.after (c.before l)) (after (c.before l) (before l h))) (λ _. more)

setup_calls-Ordered :
    (config : Config) (calls : Calls) (chat : ChatView) (l : Locals)
    → Chatless l
    → Ordered (run_calls (setup_calls config calls chat) l).0
unfolding setup_calls
setup_calls-Ordered config calls chat =
    early-Ordered _ _ (λ l h. h) (λ l h. h)
      (early-Ordered _ _ (λ l h. h) (λ l h. h)
        (early-Ordered _ _ (λ l h. h) (λ l h. h)
          (early-Ordered _ _ (λ l h. h) (λ l h. h)
            (run_calls-Ordered Chatless _ _ Chatless-Ordered (λ l h. h)
              (λ l h.
                kept-Ordered _ _
                  (
                    λ m g. g,
                    λ m g. g,
                    (
                      λ m g. g,
                      λ m g. g,
                      (
                        λ m g. g,
                        λ m g. g,
                        (
                          λ m g. g,
                          λ m g. g,
                          (λ m g. g, λ m g. g, (λ m g. g, λ m g. g, (λ m g. g, λ m g. g, tt))),
                        ),
                      ),
                    ),
                  )
                  refl)
              (λ no. absurd (ground arith))))))

-- The run's chat comes from its downloader.
pub setup-Ordered :
    (config : Config) (calls : Calls) (chat : ChatView)
    → (setup config calls chat).0.has_chat ≡ true
    → (setup config calls chat).0.has_downloader ≡ true
unfolding setup
setup-Ordered config calls chat = setup_calls-Ordered config calls chat no_locals refl
