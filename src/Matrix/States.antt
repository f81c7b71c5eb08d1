-- ===== src/Matrix/States.antt =====
-- The custom states of a room: for each type and key the newest wins.
use fubble.Base.{
  ◌≡◌, refl, ◌≢◌, ◌&&◌, String, Option, none, some, List, [], ◌∷◌, arith, ltb, if◌then◌else◌, same,
}
use fubble.Matrix.{Custom, on_custom, sync_custom}

unfoldable pub get_custom : String → String → List Custom → Option Custom
get_custom type key [] = none
get_custom type key (x ∷ l) =
    if same x.type type && same x.key key then some x else get_custom type key l

-- The newer of what is there and what comes; at the same time, what is there.
abbrev pub newer : Option Custom → Custom → Custom
newer none c = c
newer (some x) c = if ltb x.timestamp c.timestamp then c else x

pub sync_custom_lem :
    (type key : String) (c : Custom) (l : List Custom)
    → get_custom type key (sync_custom c l).0 ≡ (
        if same c.type type && same c.key key
        then some (newer (get_custom type key l) c)
        else get_custom type key l)
unfolding sync_custom get_custom
sync_custom_lem type key c [] = ground arith
sync_custom_lem type key c (x ∷ l) = ground (arith, sync_custom_lem type key c l)

unfoldable pub sync_customs : List Custom → List Custom → List Custom
sync_customs [] l = l
sync_customs (c ∷ cs) l = sync_customs cs (sync_custom c l).0

-- Two events with different time stamps leave the same state in whichever order they arrive.
pub sync_custom_comm :
    (type key : String) (a b : Custom) (l : List Custom)
    → a.timestamp ≢ b.timestamp
    → get_custom type key (sync_customs (a ∷ b ∷ []) l)
      ≡ get_custom type key (sync_customs (b ∷ a ∷ []) l)
unfolding sync_customs
sync_custom_comm type key a b l ne = ground (
  arith,
  sync_custom_lem type key b (sync_custom a l).0,
  sync_custom_lem type key a (sync_custom b l).0,
  sync_custom_lem type key a l,
  sync_custom_lem type key b l,
)

-- Exactly the events that change a state are announced.
sync_custom_announced :
    (c : Custom) (l : List Custom)
    → (sync_custom c l).1 ≡ elim (get_custom c.type c.key l) [
      | none ↦ on_custom c.type c.key ∷ []
      | some x ↦ if ltb x.timestamp c.timestamp then on_custom c.type c.key ∷ [] else []
    ]
unfolding sync_custom get_custom
sync_custom_announced c [] = refl
sync_custom_announced c (x ∷ l) = ground (arith, sync_custom_announced c l)
