-- ===== src/Http.antt =====
-- A request over http: fubble/http/action.cpp on the connector of fubble/http/connector.hpp and
-- fubble/http/ssl_upgrader.hpp. The stream calls the handler of each operation once; what follows
-- the destructor is kept away by the weak pointers. A null promise, or a continuation on what has
-- been destroyed, is undefined: `none`. How a body parses is a parameter.
pub mod Once
pub mod Stuck
use fubble.Base.{
  ℕ, suc, Bool, true, false, not, String, Option, none, some, List, [], ◌∷◌, if◌then◌else◌,
}

pub data Error : Type 0 where
  operation_aborted eof stream_truncated : Error
  other : ℕ → Error

-- What the future of the request gets.
pub data Outcome (Json : Type 0) : Type 0 where
  value : ℕ → Json → Outcome Json
  parse_error : Outcome Json
  exception : Error → Outcome Json

-- The operation of the stream that is under way.
pub data Pending : Type 0 where
  idle resolving connecting securing writing reading : Pending

-- The calls of the connection, newest first.
pub data Call : Type 0 where
  async_resolve async_connect async_handshake async_write async_read cancel shutdown : Call

-- The action with its connector: whether the promises are there (the action's, the connector's and
-- that of the upgrader to ssl), whether ssl takes the name of the server, what the action's promise was
-- given, and how many more results it has refused.
pub record Action (Json : Type 0) : Type 0 where
  pub secure : Bool
  pub named : Bool
  pub promise : Bool
  pub results : List (Outcome Json)
  pub refused : ℕ
  pub connection : Bool
  pub connector_promise : Bool
  pub upgrader_promise : Bool
  pub pending : Pending
  pub alive : Bool
  pub calls : List Call

abbrev pub is_empty {ℓ} : {A : Type ℓ} → List A → Bool
is_empty [] = true
is_empty (x ∷ l) = false

-- Whether an error is ignored by the action's `check_and_handle_error`.
abbrev pub is_ignored : Error → Bool
is_ignored eof = true
is_ignored stream_truncated = true
is_ignored _ = false

module _ {Json : Type 0} where
  abbrev pub begins : Pending → Call → Action Json → Action Json
  begins p c s = record s { pending = p; calls = c ∷ s.calls }

  -- The constructor.
  abbrev pub action : Bool → Bool → Action Json
  action secure named = record {
    secure = secure;
    named = named;
    promise = true;
    results = [];
    refused = 0;
    connection = false;
    connector_promise = false;
    upgrader_promise = true;
    pending = idle;
    alive = true;
    calls = [];
  }

  -- A promise that has its result already refuses another one by an exception, which the future of
  -- the continuation keeps.
  abbrev pub set_result : Outcome Json → Action Json → Action Json
  set_result o s =
      if is_empty s.results
      then record s { results = o ∷ [] }
      else record s { refused = suc s.refused }

  -- `promise_copy = std::move(promise)`, and its result.
  unfoldable pub settle : Outcome Json → Action Json → Option (Action Json)
  settle o s = if s.promise then some (set_result o (record s { promise = false })) else none

  -- `check_and_handle_error` of the action, and what its caller does when it returns true.
  unfoldable pub check_and_handle_error :
      Option Error → (Action Json → Option (Action Json)) → Action Json → Option (Action Json)
  unfolding settle
  check_and_handle_error none continues s = continues s
  check_and_handle_error (some e) continues s =
      if is_ignored e then continues s else settle (exception e) s

  unfoldable pub send_request : Action Json → Option (Action Json)
  send_request s = some (begins writing async_write s)

  -- The continuation of the connector's future in `do_`.
  unfoldable pub on_connector : Option Error → Action Json → Option (Action Json)
  unfolding send_request check_and_handle_error
  on_connector none s = send_request s
  on_connector (some e) s = check_and_handle_error (some e) (λ t. some t) s

  unfoldable pub do_ : Action Json → Action Json
  do_ s = begins resolving async_resolve (record s { connection = true; connector_promise = true })

  -- `connector::check_and_handle_error` for an error, and `connector::done`.
  unfoldable pub connector_ends : Option Error → Action Json → Option (Action Json)
  unfolding on_connector
  connector_ends e s =
      if s.connector_promise then on_connector e (record s { connector_promise = false }) else none

  unfoldable pub on_resolved : Option Error → Action Json → Option (Action Json)
  unfolding connector_ends
  on_resolved none s = some (begins connecting async_connect s)
  on_resolved (some e) s = connector_ends (some e) s

  -- `ssl_upgrader::secure_connection`: when ssl does not take the name, `check_and_handle_error` has
  -- moved the promise that is then asked for its future.
  unfoldable pub secure_connection : Action Json → Option (Action Json)
  secure_connection s = if s.named then some (begins securing async_handshake s) else none

  unfoldable pub on_connected : Option Error → Action Json → Option (Action Json)
  unfolding connector_ends secure_connection
  on_connected none s = if s.secure then secure_connection s else connector_ends none s
  on_connected (some e) s = connector_ends (some e) s

  -- `ssl_upgrader::on_secured` and the continuation in `connector::secure_connection`.
  unfoldable pub on_secured : Option Error → Action Json → Option (Action Json)
  unfolding connector_ends
  on_secured e s =
      if s.upgrader_promise then connector_ends e (record s { upgrader_promise = false }) else none

  unfoldable pub on_request_send : Option Error → Action Json → Option (Action Json)
  unfolding check_and_handle_error
  on_request_send e s = check_and_handle_error e (λ t. some (begins reading async_read t)) s

  unfoldable pub parsed : ℕ → Option Json → Outcome Json
  parsed code none = parse_error
  parsed code (some j) = value code j

  unfoldable pub on_response_read :
      (String → Option Json) → Option Error → ℕ → String → Action Json → Option (Action Json)
  unfolding check_and_handle_error settle parsed
  on_response_read parse e code body s =
      check_and_handle_error e
        (λ t. settle (parsed code (parse body)) (record t { calls = shutdown ∷ t.calls })) s

  unfoldable pub cancel_ : Action Json → Action Json
  cancel_ s = if s.connection then record s { calls = cancel ∷ s.calls } else s

  -- The rest of the destructor: the connector gives up its promise, and then the upgrader, when it
  -- waits for a handshake, runs the continuation of the connector that is gone.
  unfoldable pub destroy_connector : Action Json → Option (Action Json)
  unfolding connector_ends
  destroy_connector s =
      if s.connector_promise
      then elim s.pending as (λ _. Option (Action Json)) [
        | securing ↦ none
        | _ ↦ connector_ends (some operation_aborted) s
      ]
      else some s

  -- `action::~action`, with the destructors of its members.
  unfoldable pub destroy : Action Json → Option (Action Json)
  unfolding cancel_ destroy_connector
  destroy s =
      if s.promise
      then destroy_connector (cancel_ (set_result (exception operation_aborted) s))
      else destroy_connector s
