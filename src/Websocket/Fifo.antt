-- ===== src/Websocket/Fifo.antt =====
-- The queue of sends: first in, first out, with one write at a time.
use mathlib.Core.List.{append_assoc, append-nil}
use fubble.Base.{
  ℕ, suc, ◌-◌, ltb, ◌≡◌, refl, sym, ap, ◌∙◌, Bool, true, false, not, ◌&&◌, String, Option, none,
  some, is_some, List, [], ◌∷◌, ◌++◌, arith, if◌then◌else◌,
}
use fubble.Websocket.{
  SendItem, Call, async_write, set_value, set_exception, async_read, read_value, read_exception,
  ConnectionImpl, send_next_from_queue, send, send_rest, on_send, on_read, continues, read,
}

-- What was written, and which sends have ended well, in the order of the time.
abbrev pub writes : List Call → List String
writes [] = []
writes (async_write m ∷ l) = writes l ++ m ∷ []
writes (_ ∷ l) = writes l

abbrev pub completions : List Call → List ℕ
completions [] = []
completions (set_value p ∷ l) = completions l ++ p ∷ []
completions (_ ∷ l) = completions l

-- Whether the stream has a write that has not ended.
abbrev pub is_writing : List Call → Bool
is_writing [] = false
is_writing (async_write m ∷ l) = true
is_writing (set_value _ ∷ l) = false
is_writing (set_exception _ ∷ l) = false
is_writing (_ ∷ l) = is_writing l

-- Whether a write has failed.
abbrev pub has_failed : List Call → Bool
has_failed [] = false
has_failed (set_exception _ ∷ l) = true
has_failed (_ ∷ l) = has_failed l

-- How many reads have not ended.
abbrev pub pending_reads : List Call → ℕ
pending_reads [] = 0
pending_reads (async_read ∷ l) = suc (pending_reads l)
pending_reads (read_value _ _ ∷ l) = pending_reads l - 1
pending_reads (read_exception _ ∷ l) = pending_reads l - 1
pending_reads (_ ∷ l) = pending_reads l

abbrev pub messages : List SendItem → List String
messages [] = []
messages (i ∷ l) = i.message ∷ messages l

abbrev pub promises : List SendItem → List ℕ
promises [] = []
promises (i ∷ l) = i.completion ∷ promises l

messages-append : (l r : List SendItem) → messages (l ++ r) ≡ messages l ++ messages r
messages-append [] r = refl
messages-append (i ∷ l) r = ap (λ t. i.message ∷ t) (messages-append l r)

promises-append : (l r : List SendItem) → promises (l ++ r) ≡ promises l ++ promises r
promises-append [] r = refl
promises-append (i ∷ l) r = ap (λ t. i.completion ∷ t) (promises-append l r)

abbrev pub is_empty : List SendItem → Bool
is_empty [] = true
is_empty (_ ∷ _) = false

abbrev pub waiting : List SendItem → List SendItem
waiting [] = []
waiting (_ ∷ l) = l

-- The queue of the sends.
abbrev pub Queued : List SendItem → List SendItem → Bool → List Call → Type 0
Queued items queue sending calls =
    (messages items ≡ writes calls ++ messages (waiting queue))
    × (promises items ≡ completions calls ++ promises queue)
    × (sending ≡ not (is_empty queue))
    × (is_writing calls ≡ (sending && not (has_failed calls)))
    × ((has_failed calls && not sending) ≡ false)

-- After these sends: what was not written yet waits behind the front of the queue, the promises that
-- have no value are those of the queue, and there is a write under way exactly if something
-- is queued and no write has failed. One read is under way if there is a promise for it, and else none.
pub record IsFifo (items : List SendItem) (s : ConnectionImpl) : Type 0 where
  pub queued : Queued items s.send_queue s.sending s.calls
  pub promised : pending_reads s.calls ≡ (if s.reading then 1 else 0)
  pub awaited : is_some s.read_promise ≡ s.reading

unfoldable pub Sound : List SendItem → Option ConnectionImpl → Type 0
Sound items none = ⊥
Sound items (some s) = IsFifo items s

snoc {ℓ} :
    {A : Type ℓ} {l : List A} (m r : List A) (x : A) → l ≡ m ++ r → l ++ x ∷ [] ≡ m ++ (r ++ x ∷ [])
snoc m r x e = ap (λ k. k ++ x ∷ []) e ∙ append_assoc m r (x ∷ [])

promises-snoc :
    (items q : List SendItem) (i : SendItem) (done : List ℕ)
    → promises items ≡ done ++ promises q
    → promises (items ++ i ∷ []) ≡ done ++ promises (q ++ i ∷ [])
promises-snoc items q i done e =
    rw (promises-append items (i ∷ []), promises-append q (i ∷ []))
      (snoc done (promises q) i.completion e)

messages-snoc :
    (items q : List SendItem) (i : SendItem) (done : List String)
    → messages items ≡ done ++ messages q
    → messages (items ++ i ∷ []) ≡ done ++ messages (q ++ i ∷ [])
messages-snoc items q i done e =
    rw (messages-append items (i ∷ []), messages-append q (i ∷ []))
      (snoc done (messages q) i.message e)

-- What is written at once: nothing waits.
messages-written :
    (items : List SendItem) (i : SendItem) (done : List String)
    → messages items ≡ done ++ []
    → messages (items ++ i ∷ []) ≡ (done ++ i.message ∷ []) ++ []
messages-written items i done e =
    messages-append items (i ∷ [])
    ∙ ap (λ k. k ++ i.message ∷ []) (e ∙ append-nil done)
    ∙ sym (append-nil (done ++ i.message ∷ []))

pub send-Sound :
    (items : List SendItem) (i : SendItem) (s : ConnectionImpl)
    → IsFifo items s
    → Sound (items ++ i ∷ []) (send i.message i.completion s)
unfolding send send_next_from_queue Sound
send-Sound items i s v = branch s.send_queue s.sending v.queued
  where
    branch :
        (q : List SendItem) (b : Bool)
        → Queued items q b s.calls
        → Sound (items ++ i ∷ []) (
            let t : ConnectionImpl = record s { send_queue = q ++ i ∷ []; sending = b } in
            if b then some t else send_next_from_queue t)
    branch [] true (w, c, e, d, f) = ground arith
    branch [] false (w, c, e, d, f) = record {
      queued = (
        messages-written items i (writes s.calls) w,
        promises-snoc items [] i (completions s.calls) c,
        refl,
        ground arith,
        ground arith,
      );
      promised = v.promised;
      awaited = v.awaited;
    }
    branch (x ∷ q) true (w, c, e, d, f) = record {
      queued = (
        messages-snoc items q i (writes s.calls) w,
        promises-snoc items (x ∷ q) i (completions s.calls) c,
        refl,
        ground arith,
        ground arith,
      );
      promised = v.promised;
      awaited = v.awaited;
    }
    branch (x ∷ q) false (w, c, e, d, f) = ground arith

pub on_send-Sound :
    (items : List SendItem) (error : Bool) (s : ConnectionImpl)
    → is_writing s.calls ≡ true
    → IsFifo items s
    → Sound items (on_send error s)
unfolding on_send send_rest send_next_from_queue Sound
on_send-Sound items error s h v = branch s.send_queue s.sending error v.queued
  where
    branch :
        (q : List SendItem) (b error : Bool)
        → Queued items q b s.calls
        → Sound items (on_send error (record s { send_queue = q; sending = b }))
    branch [] b error (w, c, e, d, f) = ground arith
    branch (x ∷ q) false error (w, c, e, d, f) = ground arith
    branch (x ∷ q) true true (w, c, e, d, f) = record {
      queued = (w, c, refl, refl, ground arith);
      promised = v.promised;
      awaited = v.awaited;
    }
    branch (x ∷ []) true false (w, c, e, d, f) = record {
      queued = (
        w,
        c ∙ sym (append-nil (completions s.calls ++ x.completion ∷ [])),
        refl,
        refl,
        ground arith,
      );
      promised = v.promised;
      awaited = v.awaited;
    }
    branch (x ∷ y ∷ q) true false (w, c, e, d, f) = record {
      queued = (
        w ∙ sym (append_assoc (writes s.calls) (y.message ∷ []) (messages q)),
        c ∙ sym (append_assoc (completions s.calls) (x.completion ∷ []) (promises (y ∷ q))),
        refl,
        ground arith,
        ground arith,
      );
      promised = v.promised;
      awaited = v.awaited;
    }

pub on_read-Sound :
    (items : List SendItem) (error : Bool) (m : String) (next : Option ℕ) (s : ConnectionImpl)
    → ltb 0 (pending_reads s.calls) ≡ true
    → (is_some next && not error) ≡ false
    → IsFifo items s
    → Sound items (on_read error m next s)
unfolding on_read continues read Sound
on_read-Sound items error m next s h n v = branch s.read_promise error next n v.awaited
  where
    none_left : pending_reads s.calls ≡ 1
    none_left = ground (arith, v.promised, h)

    branch :
        (o : Option ℕ) (error : Bool) (next : Option ℕ)
        → (is_some next && not error) ≡ false
        → is_some o ≡ s.reading
        → Sound items (on_read error m next (record s { read_promise = o }))
    branch none error next n e = ground (arith, v.promised, e, h)
    branch (some p) true none n e = record {
      queued = v.queued;
      promised = omega (arith, none_left);
      awaited = refl;
    }
    branch (some p) true (some q) n e = record {
      queued = v.queued;
      promised = omega (arith, none_left);
      awaited = refl;
    }
    branch (some p) false none n e = record {
      queued = v.queued;
      promised = omega (arith, none_left);
      awaited = refl;
    }
    branch (some p) false (some q) n e = absurd (ground (arith, n))
