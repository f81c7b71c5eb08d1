-- ===== src/Websocket.antt =====
-- fubble/websocket/connection_impl.cpp: one connection over a stream, which takes one write and one
-- read at a time and calls the handler of each once. A promise is a number; what the front of an
-- empty queue or a null promise is asked for is undefined: `none`. `alive_check`, which keeps a
-- handler from running after the destructor, is the end of the events.
pub mod Connector
pub mod Fifo
pub mod History
pub mod Ends
use fubble.Base.{
  ℕ, Bool, true, false, String, Option, none, some, List, [], ◌∷◌, ◌++◌, if◌then◌else◌,
}

pub record SendItem : Type 0 where
  pub message : String
  pub completion : ℕ

-- The calls of the stream, and the results that are given to the promises.
pub data Call : Type 0 where
  async_write : String → Call
  set_value set_exception : ℕ → Call
  async_read : Call
  read_value : ℕ → String → Call
  read_exception : ℕ → Call

pub record ConnectionImpl : Type 0 where
  pub send_queue : List SendItem
  pub sending : Bool
  pub reading : Bool
  pub read_promise : Option ℕ
  pub calls : List Call

unfoldable pub send_next_from_queue : ConnectionImpl → Option ConnectionImpl
send_next_from_queue s = elim s.send_queue [
  | [] ↦ none
  | item ∷ _ ↦ some (record s { sending = true; calls = async_write item.message ∷ s.calls })
]

abbrev pub emplace : SendItem → ConnectionImpl → ConnectionImpl
emplace item s = record s { send_queue = s.send_queue ++ item ∷ [] }

unfoldable pub send : String → ℕ → ConnectionImpl → Option ConnectionImpl
unfolding send_next_from_queue
send message promise s =
    let s' = emplace (record { message = message; completion = promise }) s in
    if s.sending then some s' else send_next_from_queue s'

-- What is left after `pop`.
unfoldable pub send_rest : List SendItem → ConnectionImpl → Option ConnectionImpl
unfolding send_next_from_queue
send_rest [] s = some (record s { send_queue = []; sending = false })
send_rest (x ∷ rest) s = send_next_from_queue (record s { send_queue = x ∷ rest })

-- The write has ended, with an error or without.
unfoldable pub on_send : Bool → ConnectionImpl → Option ConnectionImpl
unfolding send_rest
on_send error s = elim s.send_queue [
  | [] ↦ none
  | did_send ∷ rest ↦
      if error
      then some (record s { calls = set_exception did_send.completion ∷ s.calls })
      else send_rest rest (record s { calls = set_value did_send.completion ∷ s.calls })
]

-- A promise that is overwritten is only dropped; assertions guard against it.
unfoldable pub read : ℕ → ConnectionImpl → ConnectionImpl
read promise s = record s {
  reading = true;
  read_promise = some promise;
  calls = async_read ∷ s.calls;
}

-- What the continuation of the read's future does, which runs inside: nothing, or another read.
unfoldable pub continues : Option ℕ → ConnectionImpl → ConnectionImpl
unfolding read
continues none s = s
continues (some promise) s = read promise s

-- The read has ended, with an error or with this message. With a message, `reading` is reset only
-- after the promise has its value.
unfoldable pub on_read : Bool → String → Option ℕ → ConnectionImpl → Option ConnectionImpl
unfolding continues
on_read error result next s = elim s.read_promise [
  | none ↦ none
  | some promise ↦
      if error
      then some (
          continues next (record s {
            reading = false;
            read_promise = none;
            calls = read_exception promise ∷ s.calls;
          }))
      else some
          (record (continues next
            (record s { read_promise = none; calls = read_value promise result ∷ s.calls })) {
              reading = false;
            })
]

-- `~connection_impl`.
unfoldable pub destroy : ConnectionImpl → Option ConnectionImpl
destroy s =
    if s.reading
    then elim s.read_promise [
      | none ↦ none
      | some promise ↦ some (record s { calls = read_exception promise ∷ s.calls })
    ]
    else some s

abbrev pub initial : ConnectionImpl
initial = record {
  send_queue = [];
  sending = false;
  reading = false;
  read_promise = none;
  calls = [];
}
