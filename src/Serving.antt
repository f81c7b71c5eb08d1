-- ===== src/Serving.antt =====
-- fubble/temporary_room/net/acceptor.cpp: a connection that answers requests over HTTP one after the
-- other, and the acceptor of connections. Reading, writing and accepting end in later events; the JSON
-- library and what answers the requests are parameters.
pub mod Answers
pub mod Accepting
use fubble.Base.{
  ℕ, suc, Bool, true, false, String, same, Option, none, some, List, [], ◌∷◌, if◌then◌else◌,
}

pub data Error : Type 0 where
  end_of_stream operation_aborted other : Error

pub data Status : Type 0 where
  ok internal_server_error : Status

-- A value, or an exception with this text.
pub data Response {ℓ} (Json : Type ℓ) : Type ℓ where
  value : Json → Response Json
  failure : String → Response Json

pub data Dumped : Type 0 where
  text : String → Dumped
  type_error : String → Dumped

-- What is used of the JSON library: reading a text, writing a value, which throws on a text that is no
-- UTF-8, and the object with the member `description`.
pub record JsonLibrary {ℓ} (Json : Type ℓ) : Type ℓ where
  pub parse : String → Response Json
  pub dump : Json → Dumped
  pub description : String → Json

pub record Request : Type 0 where
  pub target : String
  pub body : String

-- `on_request` returns a future, or throws with this text.
pub data OnRequest : Type 0 where
  future : OnRequest
  throws : String → OnRequest

pub data Call {ℓ} (Json : Type ℓ) : Type ℓ where
  async_read : Call Json
  on_request : String → Json → Call Json
  async_write : Status → String → Call Json
  shutdown : Call Json
  set_value : Call Json
  set_exception : Error → Call Json

-- What is under way.
pub data Pending : Type 0 where
  reading answering writing nothing : Pending

pub record Connection {ℓ} (Json : Type ℓ) : Type ℓ where
  pub pending : Pending
  pub calls : List (Call Json)

module _ {ℓ} {Json : Type ℓ} (json : JsonLibrary Json) where
  unfoldable pub read_next_request : Connection Json → Connection Json
  read_next_request s = record { pending = reading; calls = async_read ∷ s.calls }

  -- `do_`: its promise gets the result.
  unfoldable pub do_ : Connection Json → Connection Json
  unfolding read_next_request
  do_ s = read_next_request s

  -- `check_error`, when there is an error.
  unfoldable pub ended_by : Error → Connection Json → Connection Json
  ended_by end_of_stream s = record { pending = nothing; calls = set_value ∷ s.calls }
  ended_by e s = record { pending = nothing; calls = set_exception e ∷ s.calls }

  unfoldable pub send_response : Status → String → Connection Json → Connection Json
  send_response status body s = record {
    pending = writing;
    calls = async_write status body ∷ s.calls;
  }

  -- An exception of `dump` leaves the handler, after which nothing is answered any more: `none`.
  unfoldable pub send_error : String → Connection Json → Option (Connection Json)
  unfolding send_response
  send_error what s = elim (json.dump (json.description what)) as (λ _. Option (Connection Json)) [
    | type_error _ ↦ none
    | text body ↦ some (send_response internal_server_error body s)
  ]

  unfoldable pub request_content :
      Request → OnRequest → Json → Connection Json → Option (Connection Json)
  unfolding send_error
  request_content r future content s =
      some (record { pending = answering; calls = on_request r.target content ∷ s.calls })
  request_content r (throws what) content s =
      send_error what (record s { calls = on_request r.target content ∷ s.calls })

  unfoldable pub on_got_request : Request → OnRequest → Connection Json → Option (Connection Json)
  unfolding send_error request_content
  on_got_request r answer s =
      if same r.body ""
      then send_error "empty request body" s
      else elim (json.parse r.body) as (λ _. Option (Connection Json)) [
        | failure what ↦ send_error what s
        | value content ↦ request_content r answer content s
      ]

  unfoldable pub on_got_response : Response Json → Connection Json → Option (Connection Json)
  unfolding send_error send_response
  on_got_response (failure what) s = send_error what s
  on_got_response (value content) s = elim (json.dump content) as (λ _. Option (Connection Json)) [
    | text body ↦ some (send_response ok body s)
    | type_error what ↦ send_error what s
  ]

  -- The response is written; `need_eof` tells whether the stream must be shut down.
  unfoldable pub on_written : Bool → Connection Json → Connection Json
  unfolding read_next_request
  on_written need_eof s =
      read_next_request (if need_eof then record s { calls = shutdown ∷ s.calls } else s)
