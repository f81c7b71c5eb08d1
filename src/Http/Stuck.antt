-- ===== src/Http/Stuck.antt =====
-- The errors that a request ignores, and one that it does not survive.
use fubble.Base.{
  ℕ, ◌≡◌, refl, Bool, true, false, String, Option, some, List, [], ◌∷◌, All, arith, if◌then◌else◌,
}
use fubble.Base.Runs.{Holds, run, run-cons}
use fubble.Http.{
  Error, Pending, idle, resolving, connecting, securing, writing, reading, Action, is_empty,
  is_ignored, settle, check_and_handle_error, on_connector, connector_ends, on_resolved,
  on_connected, on_secured, cancel_,
}
use fubble.Http.Once.{Event, ends, cancels, destroys, step, ended, connects, IsSound}

module _ {Json : Type 0} (parse : String → Option Json) where
  -- A request that waits for nothing and has no result.
  abbrev pub IsStuck : Action Json → Type 0
  IsStuck s = (s.pending ≡ idle) × (is_empty s.results ≡ true)

  abbrev pub destroys_not : Event → Bool
  destroys_not destroys = false
  destroys_not _ = true

  step-IsStuck :
      (e : Event) (s : Action Json)
      → destroys_not e ≡ true
      → IsStuck s
      → Holds IsStuck (step parse e s)
  unfolding step ended cancel_
  step-IsStuck (ends e code body) s n v = rw v.0 (ground arith)
  step-IsStuck cancels s n v = ground arith
  step-IsStuck destroys s n v = absurd (ground arith)

  run-IsStuck :
      (es : List Event) (s : Action Json)
      → All (λ e. destroys_not e ≡ true) es
      → IsStuck s
      → Holds IsStuck (run (step parse) es s)
  unfolding run
  run-IsStuck [] s n v = v
  run-IsStuck (e ∷ es) s n v =
      run-cons (step parse) IsStuck IsStuck e es s (step-IsStuck e s n.0 v)
        (λ t w. run-IsStuck es t n.1 w)

  fails-IsStuck :
      (e : Error) (code : ℕ) (body : String) (p : Pending) (s : Action Json)
      → is_ignored e ≡ true
      → connects p ≡ true
      → IsSound parse (record s { pending = p })
      → s.alive ≡ true
      → s.pending ≡ idle
      → Holds IsStuck (ended parse (some e) code body p s)
  unfolding ended on_resolved on_connected on_secured connector_ends on_connector
      check_and_handle_error settle
  fails-IsStuck e code body resolving s i c v a h = ground arith
  fails-IsStuck e code body connecting s i c v a h = ground arith
  fails-IsStuck e code body securing s i c v a h = ground arith
  fails-IsStuck e code body idle s i c v a h = absurd (ground arith)
  fails-IsStuck e code body writing s i c v a h = absurd (ground arith)
  fails-IsStuck e code body reading s i c v a h = absurd (ground arith)

  -- When connecting or the handshake ends with an end of file or a truncated stream, which a server
  -- that closes the connection causes, no request is sent and the future has no result, whatever
  -- follows, until the action is destroyed.
  pub run_ends-IsStuck :
      (e : Error) (code : ℕ) (body : String) (es : List Event) (s : Action Json)
      → is_ignored e ≡ true
      → IsSound parse s
      → s.alive ≡ true
      → connects s.pending ≡ true
      → All (λ e. destroys_not e ≡ true) es
      → Holds IsStuck (run (step parse) (ends (some e) code body ∷ es) s)
  unfolding step
  run_ends-IsStuck e code body es s i v a c n =
      run-cons (step parse) IsStuck IsStuck (ends (some e) code body) es s (fails s.alive refl a)
        (λ t w. run-IsStuck es t n w)
    where
      fails :
          (b : Bool)
          → s.alive ≡ b
          → b ≡ true
          → Holds IsStuck (
              if b
              then ended parse (some e) code body s.pending (record s { pending = idle })
              else some s)
      fails true q p =
          fails-IsStuck e code body s.pending (record s { pending = idle }) i c v q refl
      fails false q p = absurd (ground arith)
