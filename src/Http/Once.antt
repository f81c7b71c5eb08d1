-- ===== src/Http/Once.antt =====
-- That a request has one result.
use fubble.Base.{
  ℕ, ◌≡◌, ◌≢◌, refl, Bool, true, false, String, Option, none, some, none, List, arith,
  if◌then◌else◌, not, ◌&&◌,
}
use fubble.Base.Runs.{Holds, Fits, run, run-Fits}
use fubble.Http.{
  Error, Pending, idle, resolving, connecting, securing, writing, reading, Action, is_empty, action,
  settle, check_and_handle_error, send_request, on_connector, do_, connector_ends, on_resolved,
  on_connected, secure_connection, on_secured, on_request_send, on_response_read, cancel_,
  destroy_connector, destroy,
}

pub data Event : Type 0 where
  ends : Option Error → ℕ → String → Event
  cancels destroys : Event

-- While there is no connection, and while an operation is under way.
abbrev pub connects : Pending → Bool
connects resolving = true
connects connecting = true
connects securing = true
connects _ = false

abbrev pub waits : Pending → Bool
waits idle = false
waits _ = true

module _ {Json : Type 0} (parse : String → Option Json) where
  -- The end of the operation that is under way; a response comes with a code and a body.
  unfoldable pub ended : Option Error → ℕ → String → Pending → Action Json → Option (Action Json)
  unfolding on_resolved on_connected on_secured on_request_send on_response_read
  ended e code body idle s = some s
  ended e code body resolving s = on_resolved e s
  ended e code body connecting s = on_connected e s
  ended e code body securing s = on_secured e s
  ended e code body writing s = on_request_send e s
  ended e code body reading s = on_response_read parse e code body s

  abbrev pub gone : Option (Action Json) → Option (Action Json)
  gone none = none
  gone (some t) = some (record t { alive = false; pending = idle })

  unfoldable pub step : Event → Action Json → Option (Action Json)
  unfolding ended cancel_ destroy
  step (ends e code body) s =
      if s.alive then ended e code body s.pending (record s { pending = idle }) else some s
  step cancels s = if s.alive then some (cancel_ s) else some s
  step destroys s = if s.alive then gone (destroy s) else some s

  -- It is not destroyed during the handshake.
  abbrev pub Needs : Event → Action Json → Type 0
  Needs destroys s = s.pending ≢ securing
  Needs _ s = Unit {0}

  -- The promises are there that the operation under way ends in, and there is a result exactly if
  -- the promise is gone; nothing is refused while it lives.
  pub record IsSound (s : Action Json) : Type 0 where
    pub promise : waits s.pending ≡ true → s.promise ≡ true
    pub connector : s.connector_promise ≡ connects s.pending
    pub upgrader : connects s.pending ≡ true → s.upgrader_promise ≡ true
    pub result : s.alive ≡ true → is_empty s.results ≡ s.promise
    pub settled : s.alive ≡ false → is_empty s.results ≡ false
    pub quiet : s.alive ≡ false → s.pending ≡ idle
    pub once : s.alive ≡ true → s.refused ≡ 0
    pub named : (s.secure && not s.named) ≡ false

  ended-IsSound :
      (e : Option Error) (code : ℕ) (body : String) (p : Pending) (s : Action Json)
      → s.pending ≡ idle
      → s.alive ≡ true
      → IsSound (record s { pending = p })
      → Holds IsSound (ended e code body p s)
  unfolding ended on_resolved on_connected on_secured on_request_send on_response_read settle
      check_and_handle_error connector_ends on_connector send_request secure_connection
  ended-IsSound e code body idle s i a v = ground arith
  ended-IsSound none code body resolving s i a v = ground arith
  ended-IsSound (some e) code body resolving s i a v = ground arith
  ended-IsSound none code body connecting s i a v = ground arith
  ended-IsSound (some e) code body connecting s i a v = ground arith
  ended-IsSound none code body securing s i a v = ground arith
  ended-IsSound (some e) code body securing s i a v = ground arith
  ended-IsSound none code body writing s i a v = ground arith
  ended-IsSound (some e) code body writing s i a v = ground arith
  ended-IsSound none code body reading s i a v = ground arith
  ended-IsSound (some e) code body reading s i a v = ground arith

  destroy-IsSound :
      (s : Action Json)
      → s.alive ≡ true
      → s.pending ≢ securing
      → IsSound s
      → Holds IsSound (gone (destroy s))
  unfolding destroy cancel_ destroy_connector connector_ends on_connector check_and_handle_error
      settle
  destroy-IsSound s a n v = ground arith

  branch_ends :
      (b : Bool) (e : Option Error) (code : ℕ) (body : String) (s : Action Json)
      → s.alive ≡ b
      → IsSound s
      → Holds IsSound
          (if b then ended e code body s.pending (record s { pending = idle }) else some s)
  branch_ends true e code body s a v =
      ended-IsSound e code body s.pending (record s { pending = idle }) refl a v
  branch_ends false e code body s a v = v

  branch_destroys :
      (b : Bool) (s : Action Json)
      → s.alive ≡ b
      → s.pending ≢ securing
      → IsSound s
      → Holds IsSound (if b then gone (destroy s) else some s)
  branch_destroys true s a n v = destroy-IsSound s a n v
  branch_destroys false s a n v = v

  pub step-IsSound :
      (e : Event) (s : Action Json) → Needs e s → IsSound s → Holds IsSound (step e s)
  unfolding step
  step-IsSound (ends e code body) s n v = branch_ends s.alive e code body s refl v
  step-IsSound cancels s n v = unfold cancel_ in ground arith
  step-IsSound destroys s n v = branch_destroys s.alive s refl n v

  -- If ssl, where it is used, takes the name of the server: however the operations end, whenever it is
  -- cancelled or destroyed, but not during the handshake, no null promise is asked, as long as the
  -- action lives no second result is tried, the future has one exactly when the action has let its
  -- promise go, and it has one as soon as the action is destroyed.
  pub run-do-IsSound :
      (secure named : Bool) (es : List Event)
      → (secure && not named) ≡ false
      → Fits step Needs es (do_ (action secure named))
      → (t : Action Json) × (run step es (do_ (action secure named)) ≡ some t) × IsSound t
  unfolding do_
  run-do-IsSound secure named es h f =
      run-Fits step Needs IsSound step-IsSound es _ f (ground (arith, h))

  -- When ssl does not take the name, the end of connecting asks a null promise.
  connected_unnamed :
      (code : ℕ) (body : String) (s : Action Json)
      → s.alive ≡ true
      → s.pending ≡ connecting
      → s.secure ≡ true
      → s.named ≡ false
      → step (ends none code body) s ≡ none
  unfolding step ended on_connected secure_connection
  connected_unnamed code body s a p c n = ground arith
