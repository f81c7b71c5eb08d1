-- ===== src/Signaling/Client/Flush.antt =====
-- What was asked for while there was no connection goes out on the next one.
use mathlib.Core.List.{reverse}
use fubble.Base.{
  suc, ◌≡◌, refl, sym, ap, ◌∙◌, Bool, true, false, Option, none, some, List, [], ◌∷◌, ◌++◌, map,
  arith, if◌then◌else◌, reverse-cons_append,
}
use fubble.Signaling.Message.{
  Offer, Answer, IceCandidate, Message, offer, answer, ice_candidate, registration,
  want_to_negotiate,
}
use fubble.Signaling.Client.{
  ◌>>=◌, ClientImpl, ReconnectingClient, connected_ok, send_ice_candidate, send_candidates,
  send_offer, send_answer, send_want_to_negotiate, send_cache, got_registered, on_timeout,
  delegate_connected,
}

send_candidates_lem :
    (l : List IceCandidate) (c : ClientImpl) (r : ReconnectingClient)
    → r.delegate ≡ some c
    → c.has_connection ≡ true
    → send_candidates l r ≡ some (record r { wire = reverse (map ice_candidate l) ++ r.wire })
unfolding send_candidates
send_candidates_lem [] c r d h = refl
send_candidates_lem (i ∷ l) c r d h =
    ap (λ (o : Option ReconnectingClient). o >>= send_candidates l) (sent_one i)
    ∙ send_candidates_lem l c (record r { wire = ice_candidate i ∷ r.wire }) d h
    ∙ ap (λ w. some (record r { wire = w }))
        (sym (reverse-cons_append (map ice_candidate l) (ice_candidate i) r.wire))
  where
    sent_one :
        (i : IceCandidate)
        → send_ice_candidate i r ≡ some (record r { wire = ice_candidate i ∷ r.wire })
    sent_one i = unfold send_ice_candidate in ground arith

-- The messages for what is cached, in the order in which they are sent, on top of a wire.
abbrev pub cached_offer : Option Offer → List Message → List Message
cached_offer none w = w
cached_offer (some o) w = offer o ∷ w

abbrev pub cached_answer : Option Answer → List Message → List Message
cached_answer none w = w
cached_answer (some a) w = answer a ∷ w

abbrev pub cached_want : Bool → List Message → List Message
cached_want false w = w
cached_want true w = want_to_negotiate ∷ w

abbrev pub cached : ReconnectingClient → List Message → List Message
cached r w = cached_want r.wants_to_negotiate_cache (
    cached_answer r.answer_cache
      (cached_offer r.offer_cache (reverse (map ice_candidate r.candidates_cache) ++ w)))

abbrev pub flushed : List Message → ReconnectingClient → ReconnectingClient
flushed w r = record r {
  candidates_cache = [];
  offer_cache = none;
  answer_cache = none;
  wants_to_negotiate_cache = false;
  wire = w;
}

send_cache_lem :
    (c : ClientImpl) (r : ReconnectingClient)
    → r.delegate ≡ some c
    → c.has_connection ≡ true
    → send_cache r ≡ some (flushed (cached r r.wire) r)
unfolding send_cache send_offer send_answer send_want_to_negotiate
send_cache_lem c r d h = ground (arith, send_candidates_lem r.candidates_cache c r d h)

got_registered_lem :
    (c : ClientImpl) (r : ReconnectingClient)
    → r.delegate ≡ some c
    → c.has_connection ≡ true
    → got_registered r
      ≡ some (record (flushed (cached r r.wire) r) {
        is_registered = true;
        announced = if r.is_registered then r.announced else suc r.announced;
      })
unfolding got_registered
got_registered_lem c r d h = ground (
  arith,
  send_cache_lem c r d h,
  send_cache_lem c (record r { is_registered = true; announced = suc r.announced }) d h,
)

abbrev joined : ClientImpl → ReconnectingClient → ReconnectingClient
joined c r = record r {
  delegate = some (record c { has_connection = true });
  wire = registration (record { key = r.key; reconnect_token = r.token }) ∷ r.wire;
}

pub delegate_connected_lem :
    (c : ClientImpl) (r : ReconnectingClient)
    → r.delegate ≡ some c
    → delegate_connected connected_ok r
      ≡ some
          (record (flushed
            (cached r (registration (record { key = r.key; reconnect_token = r.token }) ∷ r.wire))
            r) {
              delegate = some (record c { has_connection = true });
              is_registered = true;
              announced = if r.is_registered then r.announced else suc r.announced;
            })
unfolding delegate_connected
delegate_connected_lem c r d =
    ground (arith, got_registered_lem (record c { has_connection = true }) (joined c r) refl refl)

-- After the timer has fired and the new connection stands, the registration goes out first, then the
-- cached candidates in their order, the offer, the answer and the wish to negotiate; every cache is
-- empty, and the client is announced as registered exactly if it was not before.
pub reconnected_flush :
    (r : ReconnectingClient)
    → r.timer_started ≡ true
    → r.shall_reconnect ≡ true
    → delegate_connected connected_ok (on_timeout r)
      ≡ some
          (record (flushed
            (cached r (registration (record { key = r.key; reconnect_token = r.token }) ∷ r.wire))
            r) {
              delegate = some (record { has_connector = true; has_connection = true });
              timer_started = false;
              is_registered = true;
              announced = if r.is_registered then r.announced else suc r.announced;
            })
unfolding on_timeout
reconnected_flush r t sh = ground (arith, delegate_connected_lem connecting (on_timeout r))
  where
    connecting : ClientImpl
    connecting = record { has_connector = true; has_connection = false }
