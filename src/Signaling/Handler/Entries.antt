-- ===== src/Signaling/Handler/Entries.antt =====
-- Replacing, adding and removing an entry of the table.
use fubble.Base.{
  ℕ, ◌≡◌, String, same, same_refl, none, some, List, [], ◌∷◌, arith, Option-cases, Bool-cases, inl,
  inr, subst,
}
use fubble.Signaling.Message.{Registration}
use fubble.Signaling.Device.{Store}
use fubble.Signaling.Handler.{
  Index, zeroth, first, RegisteredConnection, place, take_out, find, write, erase, push_back,
  new_entry, find_or_create,
}
use fubble.Signaling.Handler.Entry.{IsWellEntry}
use fubble.Signaling.Handler.Table.{
  Frame, AllWell, AllDisjoint, AreApart, Renews, write-AllWell, write-AreApart, others-AllWell,
  other-IsWellEntry, find-Disjoint,
}

-- Every entry is well, and no device is in two entries.
abbrev pub IsTable : List RegisteredConnection → Store → Type 0
IsTable l s = AllWell l s × AreApart l

pub write-IsTable :
    (k : String) (e e' : RegisteredConnection) (l : List RegisteredConnection) (s s' : Store)
    → find k l ≡ some e
    → Frame e s s'
    → IsWellEntry e' s'
    → Renews e e' s
    → IsTable l s
    → IsTable (write k e' l) s'
write-IsTable k e e' l s s' h frame w r v =
    (write-AllWell k e e' l s s' h frame w v.1 v.0, write-AreApart k e e' l s h r v.0 v.1)

erase-AllDisjoint :
    (k : String) (f : RegisteredConnection) (l : List RegisteredConnection)
    → AllDisjoint f l
    → AllDisjoint f (erase k l)
unfolding erase
erase-AllDisjoint k f [] a = tt
erase-AllDisjoint k f (x ∷ l) a = elim (Bool-cases (same x.key k)) [
  | inl t ↦ rw (t, erase) a.1
  | inr t ↦ rw (t, erase) (a.0, erase-AllDisjoint k f l a.1)
]

pub erase-IsTable :
    (k : String) (e : RegisteredConnection) (l : List RegisteredConnection) (s s' : Store)
    → find k l ≡ some e
    → Frame e s s'
    → IsTable l s
    → IsTable (erase k l) s'
unfolding find erase
erase-IsTable k e [] s s' h frame v = (tt, tt)
erase-IsTable k e (x ∷ l) s s' h frame v = elim (Bool-cases (same x.key k)) [
  | inl t ↦
      rw (t, erase)
        (
          others-AllWell e l s s' frame
              (subst (λ f. AllDisjoint f l) {x = x} {y = e} (ground arith) v.1.0) v.0.1,
          v.1.1,
        )
  | inr t ↦
      let later : find k l ≡ some e = ground arith in
      let rest = erase-IsTable k e l s s' later frame (v.0.1, v.1.1) in
      rw (t, erase)
        (
          (other-IsWellEntry e x s s' frame (find-Disjoint k e x l later v.1.0) v.0.0, rest.0),
          (erase-AllDisjoint k x l v.1.0, rest.1),
        )
]

push_back-IsTable :
    (k : String) (l : List RegisteredConnection) (s : Store)
    → IsTable l s
    → IsTable (push_back l (new_entry k)) s
push_back-IsTable k [] s v = ((tt, tt), (tt, tt))
push_back-IsTable k (x ∷ l) s v =
    let rest = push_back-IsTable k l s (v.0.1, v.1.1) in ((v.0.0, rest.0), (apart l v.1.0, rest.1))
  where
    apart :
        (l : List RegisteredConnection)
        → AllDisjoint x l
        → AllDisjoint x (push_back l (new_entry k))
    apart [] a = ((λ q. ground arith), tt)
    apart (y ∷ l) a = (a.0, apart l a.1)

find-push_back :
    (k : String) (l : List RegisteredConnection)
    → find k l ≡ none
    → find k (push_back l (new_entry k)) ≡ some (new_entry k)
unfolding find
find-push_back k [] h = ground (arith, same_refl k)
find-push_back k (x ∷ l) h = ground (arith, find-push_back k l)

pub find_or_create_lem :
    (k : String) (l : List RegisteredConnection) (s : Store)
    → IsTable l s
    → (find k (find_or_create k l).1 ≡ some (find_or_create k l).0)
      × IsTable (find_or_create k l).1 s
find_or_create_lem k l s v = elim (Option-cases (find k l)) [
  | inl n ↦
      unfold find_or_create in
      rw (n, find_or_create) (find-push_back k l n, push_back-IsTable k l s v)
  | inr (e, h) ↦ unfold find_or_create in rw (h, find_or_create) (h, v)
]

pub place-Renews :
    (i : Index) (c : ℕ) (r : Registration) (h : ℕ) (e : RegisteredConnection) (s : Store)
    → Renews e (place i c r h e s).0 s
unfolding place
place-Renews zeroth c r h e s q t lt = ground arith
place-Renews first c r h e s q t lt = ground arith

pub take_out-Renews :
    (i : Index) (e : RegisteredConnection) (s : Store) → Renews e (take_out i e s).0 s
unfolding take_out
take_out-Renews zeroth e s q t lt = ground arith
take_out-Renews first e s q t lt = ground arith
