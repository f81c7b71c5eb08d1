-- ===== src/Serving/Answers.antt =====
-- Every request is answered once.
use fubble.Base.{
  ℕ, suc, ◌+◌, ◌≡◌, Bool, true, false, String, same, Option, none, some, List, [], ◌∷◌, arith,
  if◌then◌else◌,
}
use fubble.Base.Runs.{run}
use fubble.Serving.{
  Error, Status, ok, internal_server_error, JsonLibrary, Dumped, text, type_error, Request,
  OnRequest, future, throws, Response, value, failure, Call, on_request, async_read, async_write,
  shutdown, set_value, set_exception, Pending, reading, answering, writing, nothing, Connection,
  ended_by, send_response, send_error, request_content, on_got_request, on_got_response, on_written,
}

pub data Event {ℓ} (Json : Type ℓ) : Type ℓ where
  requested : Request → OnRequest → Event Json
  answered : Response Json → Event Json
  written : Bool → Event Json
  failed : Error → Event Json

-- Requests that the stream has read, and the number of results of the connection.
abbrev pub reads {ℓ} : {Json : Type ℓ} → List (Call Json) → ℕ
reads [] = 0
reads (async_read ∷ l) = suc (reads l)
reads (_ ∷ l) = reads l

abbrev pub writes {ℓ} : {Json : Type ℓ} → List (Call Json) → ℕ
writes [] = 0
writes (async_write _ _ ∷ l) = suc (writes l)
writes (_ ∷ l) = writes l

abbrev pub results {ℓ} : {Json : Type ℓ} → List (Call Json) → ℕ
results [] = 0
results (set_value ∷ l) = suc (results l)
results (set_exception _ ∷ l) = suc (results l)
results (_ ∷ l) = results l

abbrev pub is_open : Pending → Bool
is_open nothing = false
is_open _ = true

-- How many requests are read or answered now.
abbrev pub unanswered : Pending → ℕ
unanswered reading = 1
unanswered answering = 1
unanswered _ = 0

module _ {ℓ} {Json : Type ℓ} (json : JsonLibrary Json) where
  -- What ends is under way.
  unfoldable pub step : Event Json → Connection Json → Option (Connection Json)
  unfolding on_got_request on_got_response on_written ended_by
  step (requested r a) s = elim s.pending as (λ _. Option (Connection Json)) [
    | reading ↦ on_got_request json r a s
    | _ ↦ some s
  ]
  step (answered r) s = elim s.pending as (λ _. Option (Connection Json)) [
    | answering ↦ on_got_response json r s
    | _ ↦ some s
  ]
  step (written need_eof) s = elim s.pending as (λ _. Option (Connection Json)) [
    | writing ↦ some (on_written json need_eof s)
    | _ ↦ some s
  ]
  step (failed e) s = elim s.pending as (λ _. Option (Connection Json)) [
    | reading ↦ some (ended_by json e s)
    | writing ↦ some (ended_by json e s)
    | _ ↦ some s
  ]

  -- What was thrown can be written into a response.
  abbrev pub IsText : String → Type 0
  IsText what = (body : String) × (json.dump (json.description what) ≡ text body)

  abbrev pub IsCalm : Response Json → Type 0
  IsCalm (failure what) = IsText what
  IsCalm (value content) = Unit

  abbrev pub IsCalmDump : Dumped → Type 0
  IsCalmDump (type_error what) = IsText what
  IsCalmDump (text body) = Unit

  abbrev pub IsCalmAnswer : Response Json → Type 0
  IsCalmAnswer (failure what) = IsText what
  IsCalmAnswer (value content) = IsCalmDump (json.dump content)

  abbrev pub IsCalmRequest : OnRequest → Type 0
  IsCalmRequest (throws what) = IsText what
  IsCalmRequest future = Unit

  -- The exceptions that a request or its answer can cause have such texts.
  abbrev pub Needs : Event Json → Connection Json → Type 0
  Needs (requested r a) s =
      IsText "empty request body" × IsCalm (json.parse r.body) × IsCalmRequest a
  Needs (answered r) s = IsCalmAnswer r
  Needs _ s = Unit

  -- While the connection is open, it has no result, and every request that was read is answered but
  -- the one that is read or answered now; a connection that is over has one result.
  pub record IsServing (s : Connection Json) : Type 0 where
    pub served : is_open s.pending ≡ true → reads s.calls ≡ writes s.calls + unanswered s.pending
    pub ended : results s.calls ≡ (if is_open s.pending then 0 else 1)

abbrev pub accepted {ℓ} : {Json : Type ℓ} → Connection Json
accepted = record { pending = nothing; calls = [] }

-- When the body of a request does not parse, and the text of the exception cannot be written as JSON,
-- an exception leaves the handler.
requested_unwritable {ℓ} :
    {Json : Type ℓ} (json : JsonLibrary Json) (r : Request) (a : OnRequest) (s : Connection Json)
    (what why : String)
    → s.pending ≡ reading
    → same r.body "" ≡ false
    → json.parse r.body ≡ failure what
    → json.dump (json.description what) ≡ type_error why
    → step json (requested r a) s ≡ none
unfolding step on_got_request send_error
requested_unwritable json r a s what why p b e d = ground arith

-- The response to a request: its status and its body, or none if an exception cannot be written.
abbrev pub response_to {ℓ} :
    {Json : Type ℓ}
    → JsonLibrary Json
    → Request
    → OnRequest
    → Response Json
    → Option (Status × String)
response_to json r a res =
    let error_with : String → Option (Status × String) = λ what.
      elim (json.dump (json.description what)) [
        | text body ↦ some (internal_server_error, body)
        | type_error _ ↦ none
      ] in
    if same r.body ""
    then error_with "empty request body"
    else elim (json.parse r.body) as (λ _. Option (Status × String)) [
      | failure what ↦ error_with what
      | value content ↦ elim a as (λ _. Option (Status × String)) [
        | throws what ↦ error_with what
        | future ↦ elim res as (λ _. Option (Status × String)) [
          | failure what ↦ error_with what
          | value answer ↦ elim (json.dump answer) as (λ _. Option (Status × String)) [
            | text body ↦ some (ok, body)
            | type_error what ↦ error_with what
          ]
        ]
      ]
    ]

-- The call made last, if it is a response.
abbrev pub response {ℓ} : {Json : Type ℓ} → Option (Connection Json) → Option (Status × String)
response none = none
response (some s) = elim s.calls as (λ _. Option (Status × String)) [
  | [] ↦ none
  | c ∷ _ ↦ elim c as (λ _. Option (Status × String)) [
    | async_write status body ↦ some (status, body)
    | async_read ↦ none
    | on_request _ _ ↦ none
    | shutdown ↦ none
    | set_value ↦ none
    | set_exception _ ↦ none
  ]
]

-- Whatever is requested, and however the application answers: when its answer has come, the response
-- is being written, the application's with the status ok, or an internal server error with the text
-- of what was thrown, also for an empty or malformed body, unless that text cannot be written.
response_lem {ℓ} :
    {Json : Type ℓ} (json : JsonLibrary Json) (r : Request) (a : OnRequest) (res : Response Json)
    (s : Connection Json)
    → s.pending ≡ reading
    → response (run (step json) (requested r a ∷ answered res ∷ []) s) ≡ response_to json r a res
unfolding run step on_got_request request_content on_got_response send_error send_response
response_lem json r future (value c) s e = ground arith
response_lem json r future (failure w) s e = ground arith
response_lem json r (throws x) (value c) s e = ground arith
response_lem json r (throws x) (failure w) s e = ground arith
