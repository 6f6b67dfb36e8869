-- ===== src/MacAgent/Agent.antt =====
-- What a handler of the agent does to the machine: the commands that it gives, one after another, the
-- `caffeinate` process that it holds, and its exceptions.
pub mod Gives
use deckhand.Base.{ℕ, suc, String, Bool, true, false, Option, none, some, List, [], ◌∷◌}
use deckhand.Base.Append.{append}
use deckhand.Json.{Object}

pub data Command : Type 0 where
  -- a subprocess that is run to its end, by its arguments
  exec : List String → Command
  -- a request to OBS, by its type and its data
  obs : String → Object → Command
  -- a subprocess that is left running, and a signal to the one that was started at a step
  spawn : List String → Command
  terminate : ℕ → Command

-- `LocalActionError` and `ObsError`, with their messages, and any other exception.
pub data Failure : Type 0 where
  local_action_error obs_error : String → Failure
  other_error : Failure

pub data Outcome (A : Type 0) : Type 0 where
  returned : A → Outcome A
  raised : Failure → Outcome A

-- How a subprocess ended: with exit code 0 and its output, with another code and its errors, or it could
-- not be started.
pub data Ended : Type 0 where
  succeeded : (stdout : String) → Ended
  failed : (returncode stderr : String) → Ended
  not_started : Ended

-- What the machine answers at each step, and what is taken from Python's library.
pub record Platform : Type 0 where
  pub ended : ℕ → List String → Ended
  pub obs_answer : ℕ → String → Object → Outcome Object
  pub can_spawn : ℕ → List String → Bool
  -- whether, at a step, the process that was started at another has ended
  pub has_exited : (at process : ℕ) → Bool
  pub which : String → Option String
  pub expanduser : String → String
  pub strip : String → String
  pub lower : String → String
  pub repr : String → String
  -- `int(text) == 0`; `none` is a `ValueError`
  pub is_zero : String → Option Bool
  -- `text[:256]`
  pub first_256 : String → String
  -- whether a number's literal is not 0
  pub is_nonzero : String → Bool

-- The commands given so far, the last first; `_caffeinate_process`, by the step that started it; and the
-- number of the next step.
pub record Machine : Type 0 where
  pub given : List Command
  pub caffeinate_process : Option ℕ
  pub turn : ℕ

abbrev pub Agent : Type 0 → Type 0
Agent A = Machine → Outcome A × Machine

abbrev pub pure : {A : Type 0} → A → Agent A
pure a s = (returned a, s)

abbrev pub raise : {A : Type 0} → Failure → Agent A
raise e s = (raised e, s)

abbrev pub continue : {A B : Type 0} → Outcome A × Machine → (A → Agent B) → Outcome B × Machine
continue (returned a, s) f = f a s
continue (raised e, s) f = (raised e, s)

infixl 5 ◌>>=◌ ◌>>◌
abbrev pub ◌>>=◌ : {A B : Type 0} → Agent A → (A → Agent B) → Agent B
◌>>=◌ m f s = continue (m s) f

abbrev pub ◌>>◌ : {A B : Type 0} → Agent A → Agent B → Agent B
m >> k = m >>= λ _. k

abbrev pub rescue : {A : Type 0} → Outcome A × Machine → (Failure → Agent A) → Outcome A × Machine
rescue (returned a, s) f = (returned a, s)
rescue (raised e, s) f = f e s

-- `try: m  except: f`, where `f` raises again what it does not handle
abbrev pub handle : {A : Type 0} → Agent A → (Failure → Agent A) → Agent A
handle m f s = rescue (m s) f

-- A command, and what comes of it.
unfoldable pub give : {A : Type 0} → Command → (ℕ → Outcome A) → Agent A
give command answer s = (answer s.turn, record s { given = command ∷ s.given; turn = suc s.turn })

module _ (platform : Platform) where
  open platform use {ended, first_256, strip}

  abbrev pub exit_outcome : Ended → Outcome String
  exit_outcome (succeeded stdout) = returned (strip stdout)
  exit_outcome (failed returncode stderr) = raised (
      local_action_error (
        append "local action failed with exit "
          (append returncode (append ": " (first_256 stderr)))))
  exit_outcome not_started = raised other_error

  -- `_run`
  unfoldable pub run : List String → Agent String
  unfolding give
  run arguments = give (exec arguments) (λ at. exit_outcome (ended at arguments))

  -- `_osascript`
  unfoldable pub osascript : String → Agent String
  unfolding run
  osascript script = run ("/usr/bin/osascript" ∷ "-e" ∷ script ∷ [])
