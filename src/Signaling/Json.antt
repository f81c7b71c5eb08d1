-- ===== src/Signaling/Json.antt =====
-- fubble/signaling/json_message.{hpp,cpp}: messages as JSON text. The JSON library is a parameter.
pub mod RoundTrip
use fubble.Base.{ℤ, ◌≡◌, String, same, Option, none, some, List, [], ◌∷◌, if◌then◌else◌}
use fubble.Signaling.Message.{
  Offer, Answer, IceCandidate, Registration, Message, offer, answer, ice_candidate, create_offer,
  registration, want_to_negotiate,
}

abbrev pub lookup {ℓ} : {V : Type ℓ} → String → List (String × V) → Option V
lookup k [] = none
lookup k ((j, v) ∷ l) = if same j k then some v else lookup k l

-- What the code uses of nlohmann::json: values of three kinds, `operator[]` by a key (a missing key
-- gives null), conversions that fail on another kind, and `dump` and `parse` through a text.
pub record JsonLibrary : Type 1 where
  pub Json : Type 0
  pub Text : Type 0
  pub null : Json
  pub text : String → Json
  pub number : ℤ → Json
  pub object : List (String × Json) → Json
  pub at : Json → String → Json
  pub as_text : Json → Option String
  pub as_number : Json → Option ℤ
  pub dump : Json → Text
  pub parse_text : Text → Option Json
  -- Documented: a key of an object is found, conversions give back what was put in, and a dumped
  -- value parses to itself.
  pub at-object :
      (k : String) (l : List (String × Json))
      → at (object l) k ≡ elim (lookup k l) [ none ↦ null | some v ↦ v ]
  pub as_text-text : (s : String) → as_text (text s) ≡ some s
  pub as_number-number : (n : ℤ) → as_number (number n) ≡ some n
  pub parse_text-dump : (j : Json) → parse_text (dump j) ≡ some j

-- What `parse` throws: the library's `parse_error` and `type_error`, and `invalid_type`.
pub data Error : Type 0 where
  parse_error type_error : Error
  invalid_type : String → Error

pub data Parsed (A : Type 0) : Type 0 where
  ok : A → Parsed A
  thrown : Error → Parsed A

infixl 5 ◌>>=◌
abbrev pub ◌>>=◌ : {A B : Type 0} → Parsed A → (A → Parsed B) → Parsed B
ok a >>= f = f a
thrown e >>= f = thrown e

abbrev pub or_throw : {A : Type 0} → Option A → Error → Parsed A
or_throw none e = thrown e
or_throw (some a) e = ok a

module _ (lib : JsonLibrary) where
  open lib use {Json, Text, text, number, object, at, as_text, as_number, dump, parse_text}

  abbrev text_at : Json → String → Parsed String
  text_at j k = or_throw (as_text (at j k)) type_error

  read_offer : Json → Parsed Message
  read_offer json = do sdp ← text_at json "sdp"; ok (offer (record { sdp = sdp }))

  read_answer : Json → Parsed Message
  read_answer json = do sdp ← text_at json "sdp"; ok (answer (record { sdp = sdp }))

  read_ice_candidate : Json → Parsed Message
  read_ice_candidate json = do
    sdp ← text_at json "sdp"
    mlineindex ← or_throw (as_number (at json "mlineindex")) type_error
    mid ← text_at json "mid"
    ok (ice_candidate (record { mlineindex = mlineindex; mid = mid; sdp = sdp }))

  read_registration : Json → Parsed Message
  read_registration json = do
    key ← text_at json "key"
    token ← text_at json "token"
    ok (registration (record { key = key; reconnect_token = token }))

  -- The comparisons of `type` in turn. A `type` that is no string fits none, and the conversion
  -- for `invalid_type` throws.
  by_type : String → Json → Parsed Message
  unfolding read_offer read_answer read_ice_candidate read_registration
  by_type t json =
      if same t "offer"
      then read_offer json
      else (if same t "answer"
          then read_answer json
          else (if same t "ice_candidate"
              then read_ice_candidate json
              else (if same t "create_offer"
                  then ok create_offer
                  else (if same t "registration"
                      then read_registration json
                      else (if same t "want_to_negotiate"
                          then ok want_to_negotiate
                          else thrown (invalid_type t))))))

  unfoldable pub parse : Text → Parsed Message
  unfolding by_type
  parse message = do
    json ← or_throw (parse_text message) parse_error
    t ← text_at json "type"
    by_type t json

  to_json : Message → Json
  to_json (offer o) = object (("type", text "offer") ∷ ("sdp", text o.sdp) ∷ [])
  to_json (answer a) = object (("type", text "answer") ∷ ("sdp", text a.sdp) ∷ [])
  to_json (ice_candidate c) = object (
      ("type", text "ice_candidate")
      ∷ ("sdp", text c.sdp)
      ∷ ("mlineindex", number c.mlineindex)
      ∷ ("mid", text c.mid)
      ∷ [])
  to_json create_offer = object (("type", text "create_offer") ∷ [])
  to_json (registration r) =
      object (
        ("type", text "registration")
        ∷ ("key", text r.key)
        ∷ ("token", text r.reconnect_token)
        ∷ [])
  to_json want_to_negotiate = object (("type", text "want_to_negotiate") ∷ [])

  pub serialize : Message → Text
  unfolding to_json
  serialize m = dump (to_json m)
