-- ===== src/Main/Startup/Keys.antt =====
-- The keys that are pressed while main.c starts, from the registry's events to the wait for the lock.
use dewlock.Base.{ℕ, Option, none, some, List, [], ◌∷◌, All}
use dewlock.Main.{Event}
use dewlock.Main.Steps.Events.{KeyOk}
use dewlock.Main.Unlock.Keeps.{Any, Any-keys}
use dewlock.Main.Startup.{World, Announced, global, event}

-- The keys that are pressed while the program starts.
abbrev pub AnnouncedOk : (ℕ → Type 0) → Announced → Type 0
AnnouncedOk Ok (global g) = Unit
AnnouncedOk Ok (event e) = KeyOk Ok e

abbrev pub AnswerOk : (ℕ → Type 0) → Option (List Event) → Type 0
AnswerOk Ok none = Unit
AnswerOk Ok (some es) = All (KeyOk Ok) es

abbrev pub RegistryOk : (ℕ → Type 0) → Option (List Announced) → Type 0
RegistryOk Ok none = Unit
RegistryOk Ok (some announced) = All (AnnouncedOk Ok) announced

pub record WorldOk (Ok : ℕ → Type 0) (w : World) : Type 0 where
  pub registry_keys : RegistryOk Ok w.registry
  pub configured_keys : AnswerOk Ok w.configured
  pub dispatches_keys : All (AnswerOk Ok) w.dispatches

Any-answer : (answer : Option (List Event)) → AnswerOk Any answer
Any-answer none = tt
Any-answer (some es) = Any-keys es

Any-answers : (answers : List (Option (List Event))) → All (AnswerOk Any) answers
Any-answers [] = tt
Any-answers (a ∷ later) = (Any-answer a, Any-answers later)

Any-announced : (announced : List Announced) → All (AnnouncedOk Any) announced
Any-announced [] = tt
Any-announced (global g ∷ later) = (tt, Any-announced later)
Any-announced (event e ∷ later) = ((Any-keys (e ∷ [])).0, Any-announced later)

Any-registry : (answer : Option (List Announced)) → RegistryOk Any answer
Any-registry none = tt
Any-registry (some announced) = Any-announced announced

pub Any-world : (w : World) → WorldOk Any w
Any-world w = record {
  registry_keys = Any-registry w.registry;
  configured_keys = Any-answer w.configured;
  dispatches_keys = Any-answers w.dispatches;
}
