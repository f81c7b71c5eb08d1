-- ===== src/Websocket/History.antt =====
-- The histories of a connection.
use mathlib.Core.List.{append_assoc, append-nil}
use fubble.Base.{
  ℕ, is_some, not, ◌&&◌, ltb, arith, ◌≡◌, refl, subst, sym, Bool, true, false, String, Option, none,
  some, List, [], ◌∷◌, ◌++◌, if◌then◌else◌,
}
use fubble.Base.Runs.{Holds, Fits, run}
use fubble.Websocket.{
  SendItem, ConnectionImpl, send, on_send, read, continues, on_read, destroy, initial,
}
use fubble.Websocket.Fifo.{
  is_writing, pending_reads, IsFifo, Sound, send-Sound, on_send-Sound, on_read-Sound,
}

pub data Event : Type 0 where
  sends : SendItem → Event
  written : Bool → Event
  reads : ℕ → Event
  received : Bool → String → Option ℕ → Event

-- The stream calls no handler without a call.
unfoldable pub step : Event → ConnectionImpl → Option ConnectionImpl
unfolding send on_send read on_read
step (sends i) s = send i.message i.completion s
step (written error) s = if is_writing s.calls then on_send error s else some s
step (reads p) s = some (read p s)
step (received error m next) s =
    if ltb 0 (pending_reads s.calls) then on_read error m next s else some s

-- Nobody reads while a read is under way, nor from within the continuation of a read that has brought
-- a message: assertions are for this.
abbrev pub Needs : Event → ConnectionImpl → Type 0
Needs (reads p) s = s.reading ≡ false
Needs (received error m next) s = (is_some next && not error) ≡ false
Needs _ s = Unit {0}

abbrev pub sent_by : Event → List SendItem
sent_by (sends i) = i ∷ []
sent_by _ = []

abbrev pub sent : List Event → List SendItem
sent [] = []
sent (e ∷ es) = sent_by e ++ sent es

same_items :
    (items : List SendItem) (o : Option ConnectionImpl) → Sound items o → Sound (items ++ []) o
same_items items o v = subst (λ k. Sound k o) (sym (append-nil items)) v

pub step-Sound :
    (items : List SendItem) (e : Event) (s : ConnectionImpl)
    → Needs e s
    → IsFifo items s
    → Sound (items ++ sent_by e) (step e s)
unfolding step Sound read
step-Sound items (sends i) s n v = send-Sound items i s v
step-Sound items (written error) s n v = same_items items _ (branch (is_writing s.calls) refl)
  where
    branch :
        (b : Bool) → is_writing s.calls ≡ b → Sound items (if b then on_send error s else some s)
    branch true e = on_send-Sound items error s e v
    branch false e = v
step-Sound items (reads p) s n v =
    same_items items (step (reads p) s)
      (record { queued = v.queued; promised = ground (arith, v.promised, n); awaited = refl })
step-Sound items (received error m next) s n v =
    same_items items _ (branch (ltb 0 (pending_reads s.calls)) refl)
  where
    branch :
        (b : Bool)
        → ltb 0 (pending_reads s.calls) ≡ b
        → Sound items (if b then on_read error m next s else some s)
    branch true e = on_read-Sound items error m next s e n v
    branch false e = v

run-Sound :
    (items : List SendItem) (es : List Event) (s : ConnectionImpl)
    → Fits step Needs es s
    → IsFifo items s
    → Sound (items ++ sent es) (run step es s)
unfolding run Fits Sound
run-Sound items [] s n v = same_items items (some s) v
run-Sound items (e ∷ es) s n v =
    subst (λ k. Sound k (run step (e ∷ es) s)) (append_assoc items (sent_by e) (sent es))
      (go_on (step e s) n.1 (step-Sound items e s n.0 v) (λ t. run-Sound (items ++ sent_by e) es t))
  where
    go_on :
        (o : Option ConnectionImpl)
        → elim o as (λ _. Type 0) [ none ↦ Unit {0} | some t ↦ Fits step Needs es t ]
        → Sound (items ++ sent_by e) o
        → ((t : ConnectionImpl)
            → Fits step Needs es t
            → IsFifo (items ++ sent_by e) t
            → Sound ((items ++ sent_by e) ++ sent es) (run step es t))
        → Sound
            ((items ++ sent_by e) ++ sent es)
            (elim o as (λ _. Option ConnectionImpl) [ none ↦ none | some t ↦ run step es t ])
    go_on none n w f = elim w [ ]
    go_on (some t) n w f = f t n w

produced :
    (items : List SendItem) (o : Option ConnectionImpl)
    → Sound items o
    → (s : ConnectionImpl) × (o ≡ some s) × IsFifo items s
unfolding Sound
produced items none v = elim v [ ]
produced items (some s) v = (s, refl, v)

-- Whatever is sent and read, and however the writes and reads end, if nobody reads while a read is
-- under way or from within the continuation of a read that has brought a message: no operation asks
-- for the front of an empty queue or for a null promise; the messages are written in the order in
-- which they were sent, one at a time, and those not written are behind the front of the queue; the
-- promises get their values in that order too, and those without a value are the queue's; unless a
-- write has failed, something is being written exactly if the queue is not empty.
pub run-initial-IsFifo :
    (es : List Event)
    → Fits step Needs es initial
    → (s : ConnectionImpl) × (run step es initial ≡ some s) × IsFifo (sent es) s
run-initial-IsFifo es f = produced (sent es) (run step es initial) (
    run-Sound [] es initial f
      (record { queued = (refl, refl, refl, refl, refl); promised = refl; awaited = refl }))

-- A read from within the continuation of a read that has brought a message: it is under way, but
-- `reading` is reset, so that the destructor leaves its promise without a result.
received_next :
    (m : String) (p q : ℕ) (s : ConnectionImpl)
    → pending_reads s.calls ≡ 1
    → s.read_promise ≡ some q
    → Holds
        (λ (t : ConnectionImpl).
          (pending_reads t.calls ≡ 1)
          × (t.read_promise ≡ some p)
          × (t.reading ≡ false)
          × (destroy t ≡ some t))
        (step (received false m (some p)) s)
unfolding step on_read continues read destroy
received_next m p q s h e = ground arith
