-- ===== src/Websocket/Ends.antt =====
-- How the sends end, after a failed write and when all writes succeed.
use mathlib.Core.List.{append_assoc, append-nil}
use fubble.Base.{
  ℕ, ltb, ◌≡◌, refl, sym, ap, ◌∙◌, Bool, true, false, Option, none, some, is_some, List, [], ◌∷◌,
  ◌++◌, arith, if◌then◌else◌,
}
use fubble.Base.Runs.{Fits, run}
use fubble.Websocket.{
  SendItem, ConnectionImpl, send, send_rest, send_next_from_queue, on_send, read, continues,
  on_read,
}
use fubble.Websocket.Fifo.{
  writes, completions, is_writing, pending_reads, has_failed, promises, IsFifo, Sound,
}
use fubble.Websocket.History.{
  Event, Needs, sends, written, reads, received, step, sent_by, sent, step-Sound,
}

-- What a step does once a write has failed.
Frozen : Event → ConnectionImpl → Option ConnectionImpl → Type 0
Frozen e s none = ⊥
Frozen e s (some t) =
    (t.send_queue ≡ s.send_queue ++ sent_by e)
    × (writes t.calls ≡ writes s.calls)
    × (completions t.calls ≡ completions s.calls)
    × (has_failed t.calls ≡ true)

step-Frozen :
    (items : List SendItem) (e : Event) (s : ConnectionImpl)
    → IsFifo items s
    → has_failed s.calls ≡ true
    → Frozen e s (step e s)
unfolding Frozen step send on_send read on_read continues
step-Frozen items (sends i) s v h = ground (arith, v.queued, h)
step-Frozen items (written error) s v h = branch (is_writing s.calls) refl
  where
    branch :
        (b : Bool)
        → is_writing s.calls ≡ b
        → Frozen (written error) s (if b then on_send error s else some s)
    branch true e = ground (arith, v.queued, h, e)
    branch false e = (sym (append-nil s.send_queue), refl, refl, h)
step-Frozen items (reads p) s v h = (sym (append-nil s.send_queue), refl, refl, h)
step-Frozen items (received error m next) s v h =
    branch (ltb 0 (pending_reads s.calls)) s.read_promise error next refl v.awaited
  where
    branch :
        (b : Bool) (o : Option ℕ) (error : Bool) (next : Option ℕ)
        → ltb 0 (pending_reads s.calls) ≡ b
        → is_some o ≡ s.reading
        → Frozen
            (received error m next)
            s
            (if b then on_read error m next (record s { read_promise = o }) else some s)
    branch false o error next e d = (sym (append-nil s.send_queue), refl, refl, h)
    branch true none error next e d = ground (arith, v.promised, e, d)
    branch true (some p) true none e d = (sym (append-nil s.send_queue), refl, refl, h)
    branch true (some p) true (some q) e d = (sym (append-nil s.send_queue), refl, refl, h)
    branch true (some p) false none e d = (sym (append-nil s.send_queue), refl, refl, h)
    branch true (some p) false (some q) e d = (sym (append-nil s.send_queue), refl, refl, h)

-- One more write has ended well.
Drained : List SendItem → Option ConnectionImpl → Type 0
Drained q none = ⊥
Drained q (some t) = (t.send_queue ≡ q) × (has_failed t.calls ≡ false)

written-Drained :
    (items : List SendItem) (x : SendItem) (q : List SendItem) (s : ConnectionImpl)
    → IsFifo items s
    → has_failed s.calls ≡ false
    → s.send_queue ≡ x ∷ q
    → Drained q (step (written false) s)
unfolding Drained step on_send send_rest send_next_from_queue
written-Drained items x [] s v h e = ground (arith, v.queued, h, e)
written-Drained items x (y ∷ q) s v h e = ground (arith, v.queued, h, e)

-- Once a write has failed, whatever follows, if nobody reads while a read is under way: every later send stays in the queue, nothing more is
-- written, and no promise of a send gets a value.
pub run_failed :
    (es : List Event) (items : List SendItem) (s : ConnectionImpl)
    → Fits step Needs es s
    → IsFifo items s
    → has_failed s.calls ≡ true
    → (t : ConnectionImpl) × (run step es s ≡ some t)
      × (t.send_queue ≡ s.send_queue ++ sent es)
      × (writes t.calls ≡ writes s.calls)
      × (completions t.calls ≡ completions s.calls)
unfolding run Fits Sound Frozen
run_failed [] items s n v h = (s, refl, sym (append-nil s.send_queue), refl, refl)
run_failed (e ∷ es) items s n v h =
    branch (step e s) n.1 (step-Sound items e s n.0 v) (step-Frozen items e s v h)
      (λ t. run_failed es (items ++ sent_by e) t)
  where
    branch :
        (o : Option ConnectionImpl)
        → elim o as (λ _. Type 0) [ none ↦ Unit {0} | some t ↦ Fits step Needs es t ]
        → Sound (items ++ sent_by e) o
        → Frozen e s o
        → ((t : ConnectionImpl)
            → Fits step Needs es t
            → IsFifo (items ++ sent_by e) t
            → has_failed t.calls ≡ true
            → (u : ConnectionImpl) × (run step es t ≡ some u)
              × (u.send_queue ≡ t.send_queue ++ sent es)
              × (writes u.calls ≡ writes t.calls)
              × (completions u.calls ≡ completions t.calls))
        → (u : ConnectionImpl) × (elim o as (λ _. Option ConnectionImpl) [
          | none ↦ none
          | some t ↦ run step es t
        ]
            ≡ some u)
          × (u.send_queue ≡ s.send_queue ++ (sent_by e ++ sent es))
          × (writes u.calls ≡ writes s.calls)
          × (completions u.calls ≡ completions s.calls)
    branch none n w z f = elim w [ ]
    branch (some t) n w z f =
        let (u, r, q, m, c) = f t n w z.3 in
        (
          u,
          r,
          q ∙ ap (λ k. k ++ sent es) z.0 ∙ append_assoc s.send_queue (sent_by e) (sent es),
          m ∙ z.1,
          c ∙ z.2,
        )

abbrev pub successes : List SendItem → List Event
successes [] = []
successes (_ ∷ q) = written false ∷ successes q

drain :
    (q items : List SendItem) (s : ConnectionImpl)
    → IsFifo items s
    → has_failed s.calls ≡ false
    → s.send_queue ≡ q
    → (t : ConnectionImpl) × (run step (successes q) s ≡ some t)
      × (t.send_queue ≡ [])
      × (completions t.calls ≡ promises items)
unfolding run Sound Drained
drain [] items s v h e = (
  s,
  refl,
  e,
  sym (
      v.queued.1
      ∙ ap (λ q. completions s.calls ++ promises q) e
      ∙ append-nil (completions s.calls)),
)
drain (x ∷ q) items s v h e =
    branch (step (written false) s) (step-Sound items (written false) s tt v)
      (written-Drained items x q s v h e) (λ t. drain q (items ++ []) t)
  where
    branch :
        (o : Option ConnectionImpl)
        → Sound (items ++ []) o
        → Drained q o
        → ((t : ConnectionImpl)
            → IsFifo (items ++ []) t
            → has_failed t.calls ≡ false
            → t.send_queue ≡ q
            → (u : ConnectionImpl) × (run step (successes q) t ≡ some u)
              × (u.send_queue ≡ [])
              × (completions u.calls ≡ promises (items ++ [])))
        → (u : ConnectionImpl) × (elim o as (λ _. Option ConnectionImpl) [
          | none ↦ none
          | some t ↦ run step (successes q) t
        ]
            ≡ some u)
          × (u.send_queue ≡ [])
          × (completions u.calls ≡ promises items)
    branch none w z f = elim w [ ]
    branch (some t) w z f =
        let (u, r, n, c) = f t w z.1 z.0 in (u, r, n, c ∙ ap (λ k. promises k) (append-nil items))

-- If no write has failed and every write that is still to be made ends well, the queue is empty in
-- the end, and all sends have had their value, in the order in which they were made.
pub run-successes :
    (items : List SendItem) (s : ConnectionImpl)
    → IsFifo items s
    → has_failed s.calls ≡ false
    → (t : ConnectionImpl) × (run step (successes s.send_queue) s ≡ some t)
      × (t.send_queue ≡ [])
      × (completions t.calls ≡ promises items)
run-successes items s v h = drain s.send_queue items s v h refl
