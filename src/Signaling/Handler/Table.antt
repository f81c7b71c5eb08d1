-- ===== src/Signaling/Handler/Table.antt =====
-- The whole table: its entries are well, and no device is in two of them.
use fubble.Base.{
  ℕ, ◌<◌, ◌≤◌, ◌≡◌, true, false, ◌&&◌, String, same, some, List, [], ◌∷◌, arith, Bool-cases, inl,
  inr, subst,
}
use fubble.Signaling.Message.{Registration}
use fubble.Signaling.Device.{Store}
use fubble.Signaling.Handler.{
  Index, zeroth, first, RegisteredConnection, place, take_out, find, write,
}
use fubble.Signaling.Handler.Entry.{IsWellEntry, IsWell-symm}
use fubble.Signaling.Handler.Frame.{
  holds, take_out_others, swap_in_others, swap_in_next, take_out_next, same-IsWell, IsWell-created,
}

-- Whatever is not in this entry is as it was.
abbrev pub Frame : RegisteredConnection → Store → Store → Type 0
Frame e s s' =
    ((q : ℕ) → q < s.next → holds e q ≡ false → s'.devices q ≡ s.devices q) × (s.next ≤ s'.next)

pub place-Frame :
    (i : Index) (c : ℕ) (r : Registration) (h : ℕ) (e : RegisteredConnection) (s : Store)
    → IsWellEntry e s
    → Frame e s (place i c r h e s).1
unfolding place
place-Frame zeroth c r h e s v =
    let a = e.devices.at_zeroth in
    let b = e.devices.at_first in
    (
      (λ q lt n. (swap_in_others a b c q r.reconnect_token s v lt (ground arith) (ground arith)).0),
      omega (arith, swap_in_next a b c r.reconnect_token s v),
    )
place-Frame first c r h e s v =
    let a = e.devices.at_first in
    let b = e.devices.at_zeroth in
    let w = IsWell-symm b a s v in
    (
      (λ q lt n. (swap_in_others a b c q r.reconnect_token s w lt (ground arith) (ground arith)).0),
      omega (arith, swap_in_next a b c r.reconnect_token s w),
    )

pub take_out-Frame :
    (i : Index) (e : RegisteredConnection) (s : Store) → Frame e s (take_out i e s).1
take_out-Frame i e s =
    ((λ q lt n. (take_out_others i e q s n).0), omega (arith, take_out_next i e s))

abbrev pub Disjoint : RegisteredConnection → RegisteredConnection → Type 0
Disjoint e f = (q : ℕ) → (holds e q && holds f q) ≡ false

pub other-IsWellEntry :
    (e f : RegisteredConnection) (s s' : Store)
    → Frame e s s'
    → Disjoint e f
    → IsWellEntry f s
    → IsWellEntry f s'
other-IsWellEntry e f s s' frame d v =
    same-IsWell f.devices.at_zeroth f.devices.at_first s s'
      (λ q lt h. frame.0 q lt (ground (arith, d q))) frame.1 v

abbrev pub AllWell : List RegisteredConnection → Store → Type 0
AllWell [] s = Unit {0}
AllWell (e ∷ l) s = IsWellEntry e s × AllWell l s

abbrev pub AllDisjoint : RegisteredConnection → List RegisteredConnection → Type 0
AllDisjoint e [] = Unit {0}
AllDisjoint e (f ∷ l) = Disjoint e f × AllDisjoint e l

abbrev pub AreApart : List RegisteredConnection → Type 0
AreApart [] = Unit {0}
AreApart (e ∷ l) = AllDisjoint e l × AreApart l

pub others-AllWell :
    (e : RegisteredConnection) (l : List RegisteredConnection) (s s' : Store)
    → Frame e s s'
    → AllDisjoint e l
    → AllWell l s
    → AllWell l s'
others-AllWell e [] s s' frame d v = tt
others-AllWell e (f ∷ l) s s' frame d v =
    (other-IsWellEntry e f s s' frame d.0 v.0, others-AllWell e l s s' frame d.1 v.1)

pub find-Disjoint :
    (k : String) (e f : RegisteredConnection) (l : List RegisteredConnection)
    → find k l ≡ some e
    → AllDisjoint f l
    → Disjoint e f
unfolding find
find-Disjoint k e f [] h d = cc
find-Disjoint k e f (x ∷ l) h d = elim (Bool-cases (same x.key k)) [
  | inl t ↦ λ q. ground (arith, d.0 q)
  | inr t ↦ find-Disjoint k e f l (ground arith) d.1
]

pub write-AllWell :
    (k : String) (e e' : RegisteredConnection) (l : List RegisteredConnection) (s s' : Store)
    → find k l ≡ some e
    → Frame e s s'
    → IsWellEntry e' s'
    → AreApart l
    → AllWell l s
    → AllWell (write k e' l) s'
unfolding find write
write-AllWell k e e' [] s s' h frame w a v = tt
write-AllWell k e e' (x ∷ l) s s' h frame w a v = elim (Bool-cases (same x.key k)) [
  | inl t ↦
      rw (t, write)
        (
          w,
          others-AllWell e l s s' frame
              (subst (λ f. AllDisjoint f l) {x = x} {y = e} (ground arith) a.0) v.1,
        )
  | inr t ↦
      let later : find k l ≡ some e = ground arith in
      rw (t, write)
        (
          other-IsWellEntry e x s s' frame (find-Disjoint k e x l later a.0) v.0,
          write-AllWell k e e' l s s' later frame w a.1 v.1,
        )
]

-- The second entry has of the old devices only those of the first one.
abbrev pub Renews : RegisteredConnection → RegisteredConnection → Store → Type 0
Renews e e' s = (q : ℕ) → holds e' q ≡ true → q < s.next → holds e q ≡ true

renewed-Disjoint :
    (e e' f : RegisteredConnection) (s : Store)
    → Renews e e' s
    → IsWellEntry f s
    → Disjoint e f
    → Disjoint e' f
renewed-Disjoint e e' f s r v d q = elim (Bool-cases (holds f q)) [
  | inl t ↦
      let lt = IsWell-created f.devices.at_zeroth f.devices.at_first q s v (ground arith) in
      ground (arith, d q, r q)
  | inr t ↦ ground arith
]

renewed-AllDisjoint :
    (e e' : RegisteredConnection) (l : List RegisteredConnection) (s : Store)
    → Renews e e' s
    → AllWell l s
    → AllDisjoint e l
    → AllDisjoint e' l
renewed-AllDisjoint e e' [] s r v d = tt
renewed-AllDisjoint e e' (f ∷ l) s r v d =
    (renewed-Disjoint e e' f s r v.0 d.0, renewed-AllDisjoint e e' l s r v.1 d.1)

Disjoint-symm : (e f : RegisteredConnection) → Disjoint e f → Disjoint f e
Disjoint-symm e f d q = ground (arith, d q)

write-AllDisjoint :
    (k : String) (e e' f : RegisteredConnection) (l : List RegisteredConnection)
    → find k l ≡ some e
    → Disjoint f e'
    → AllDisjoint f l
    → AllDisjoint f (write k e' l)
unfolding find write
write-AllDisjoint k e e' f [] h d a = tt
write-AllDisjoint k e e' f (x ∷ l) h d a = elim (Bool-cases (same x.key k)) [
  | inl t ↦ rw (t, write) (d, a.1)
  | inr t ↦ rw (t, write) (a.0, write-AllDisjoint k e e' f l (ground arith) d a.1)
]

pub write-AreApart :
    (k : String) (e e' : RegisteredConnection) (l : List RegisteredConnection) (s : Store)
    → find k l ≡ some e
    → Renews e e' s
    → AllWell l s
    → AreApart l
    → AreApart (write k e' l)
unfolding find write
write-AreApart k e e' [] s h r v a = tt
write-AreApart k e e' (x ∷ l) s h r v a = elim (Bool-cases (same x.key k)) [
  | inl t ↦
      let same_entry : x ≡ e = ground arith in
      rw (t, write)
        (renewed-AllDisjoint e e' l s r v.1 (subst (λ f. AllDisjoint f l) same_entry a.0), a.1)
  | inr t ↦
      let later : find k l ≡ some e = ground arith in
      rw (t, write)
        (
          write-AllDisjoint k e e' x l later
              (Disjoint-symm e' x
                (renewed-Disjoint e e' x s r v.0 (find-Disjoint k e x l later a.0)))
              a.0,
          write-AreApart k e e' l s later r v.1 a.1,
        )
]
