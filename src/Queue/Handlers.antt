-- ===== src/Queue/Handlers.antt =====
-- pkg/queue/handlers: handlers of tasks, each of which sends its progress and closes the channel.
pub mod Api
pub mod Sql
pub mod Traverse
pub mod Stages
pub mod Success
pub mod Failure
mod Examples
use go_base.Base.{
  ℕ, Bool, true, false, Option, none, some, List, [], ◌∷◌, ◌++◌, map, String, str_eq, Result, ok,
  err, if◌then◌else◌,
}
use go_base.Http as Http

pub data Error : Type 0 where
  serializing_heartbeat no_handler_found : Error
  client : Http.Error → Error
  wrapped : String → Error → Error
  unexpected_content_type : String → Error
  unexpected_status : ℕ → ℕ → Error
  system : String → Error

-- What a handler does with the channel of the heartbeats.
pub data Event (P : Type 0) : Type 0 where
  beat : P → Event P
  closed : Event P

-- The local `progress` of a handler, and the progress that it has sent so far.
pub record Session (P : Type 0) : Type 0 where
  pub beats : List P
  pub progress : P

module _ {P : Type 0} where
  unfoldable pub after {ℓ κ} :
      {A : Type ℓ} {B : Type κ}
      → (Session P × Result Error A)
      → (Session P → A → Session P × Result Error B)
      → Session P × Result Error B
  after (s, err e) next = (s, err e)
  after (s, ok a) next = next s a

  -- `sendAPIRequestProgress` and `sendSQLTaskProgress`, where `marshals` says if the progress can be
  -- serialized.
  abbrev pub send : (P → Bool) → Session P → Session P × Result Error (Unit {0})
  send marshals s =
      if marshals s.progress
      then (record s { beats = s.beats ++ s.progress ∷ [] }, ok tt)
      else (s, err serializing_heartbeat)

  -- The deferred function that sends the error of a handler, unless that is the one of the sending.
  abbrev pub send_error :
      (P → Bool)
      → (Error → P → P)
      → (Session P × Result Error (Unit {0}))
      → Session P × Option Error
  send_error marshals set (s, ok u) = (s, none)
  send_error marshals set (s, err serializing_heartbeat) = (s, some serializing_heartbeat)
  send_error marshals set (s, err e) =
      ((send marshals (record s { progress = set e s.progress })).0, some e)

  -- The deferred functions of `Process`, in the order in which they run.
  abbrev pub close :
      (P → Bool)
      → (Error → P → P)
      → (Session P × Result Error (Unit {0}))
      → List (Event P) × Option Error
  close marshals set r =
      let (s, e) = send_error marshals set r in (map (λ p. beat p) s.beats ++ closed ∷ [], e)

-- The progress that was sent.
abbrev pub beats_of : {P : Type 0} → List (Event P) → List P
beats_of [] = []
beats_of (beat p ∷ l) = p ∷ beats_of l
beats_of (closed ∷ l) = beats_of l

-- `dispatchHandler.Process` on a task of a type: a map from types is the list of its pairs.
abbrev pub find_handler : {T : Type 0} → String → List (String × T) → Option T
find_handler type [] = none
find_handler type ((k, h) ∷ hs) =
    let rest = find_handler type hs in if str_eq k type then some h else rest

abbrev pub with_handler :
    {P T : Type 0} → (T → List (Event P) × Option Error) → Option T → List (Event P) × Option Error
with_handler process (some h) = process h
with_handler process none = (closed ∷ [], some no_handler_found)

unfoldable pub dispatch :
    {P T : Type 0}
    → (T → List (Event P) × Option Error)
    → List (String × T)
    → String
    → List (Event P) × Option Error
dispatch process handlers type = with_handler process (find_handler type handlers)
