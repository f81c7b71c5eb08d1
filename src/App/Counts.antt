-- ===== src/App/Counts.antt =====
-- How often participants are in the lists.
use fubble.Base.{
  ℕ, ◌+◌, ◌-◌, ◌≤◌, ◌≡◌, refl, sym, ap, Bool, true, false, ◌&&◌, String, same, same_refl, same→eq,
  Bool-cases, subst, inl, inr, some, List, [], ◌∷◌, ◌++◌, length, arith, if◌then◌else◌,
}
use fubble.App.{
  Participant, Model, create_participant_models, find, contains, erase, erase_model,
  add_participant, remove_participant, row, connect_row, set_video,
}

-- How often an id is in the lists, and how often with a video and a connection.
abbrev pub count : String → List String → ℕ
count id [] = 0
count id (x ∷ l) = (if same x id then 1 else 0) + count id l

abbrev pub count_id : String → List Model → ℕ
count_id id [] = 0
count_id id (m ∷ l) = (if same m.id id then 1 else 0) + count_id id l

abbrev pub count_shown : String → List Model → ℕ
count_shown id [] = 0
count_shown id (m ∷ l) =
    (if same m.id id && (m.connected && m.video) then 1 else 0) + count_shown id l

pub count_shown-le : (id : String) (l : List Model) → count_shown id l ≤ count_id id l
count_shown-le id [] = omega arith
count_shown-le id (m ∷ l) = ground (arith, count_shown-le id l)

pub count_shown-append :
    (id : String) (l r : List Model) → count_shown id (l ++ r) ≡ count_shown id l + count_shown id r
count_shown-append id [] r = omega arith
count_shown-append id (m ∷ l) r = omega (arith, count_shown-append id l r)

pub count_id-append :
    (id : String) (l r : List Model) → count_id id (l ++ r) ≡ count_id id l + count_id id r
count_id-append id [] r = omega arith
count_id-append id (m ∷ l) r = omega (arith, count_id-append id l r)

count-append : (id : String) (l r : List String) → count id (l ++ r) ≡ count id l + count id r
count-append id [] r = omega arith
count-append id (x ∷ l) r = omega (arith, count-append id l r)

contains-zero : (id : String) (l : List String) → contains id l ≡ false → count id l ≡ 0
unfolding contains
contains-zero id [] h = refl
contains-zero id (x ∷ l) h = ground (arith, contains-zero id l)

contains-pos : (id : String) (l : List String) → contains id l ≡ true → 1 ≤ count id l
unfolding contains
contains-pos id [] h = absurd (ground arith)
contains-pos id (x ∷ l) h = ground (arith, contains-pos id l)

count-add_self :
    (id : String) (l : List String) → count id l ≤ 1 → count id (add_participant id l) ≡ 1
unfolding add_participant
count-add_self id l h =
    ground (arith, contains-zero id l, contains-pos id l, count-append id l (id ∷ []), same_refl id)

count-add_other :
    (id j : String) (l : List String)
    → same id j ≡ false
    → count j (add_participant id l) ≡ count j l
unfolding add_participant
count-add_other id j l h = ground (arith, count-append j l (id ∷ []))

count-erase :
    (id j : String) (l : List String)
    → count j (erase id l) ≡ (if same id j then count j l - 1 else count j l)
unfolding erase
count-erase id j [] = ground arith
count-erase id j (x ∷ l) = ground (arith, count-erase id j l)

count-remove_self :
    (id : String) (l : List String) → count id l ≤ 1 → count id (remove_participant id l) ≡ 0
unfolding remove_participant
count-remove_self id l h = ground (arith, contains-zero id l, count-erase id id l, same_refl id)

count-remove_other :
    (id j : String) (l : List String)
    → same id j ≡ false
    → count j (remove_participant id l) ≡ count j l
unfolding remove_participant
count-remove_other id j l h = ground (arith, count-erase id j l)

-- The rows of the first list, changed at one id.
count_shown-set_video_other :
    (id j : String) (b : Bool) (l : List Model)
    → same id j ≡ false
    → count_shown j (set_video id b l) ≡ count_shown j l
unfolding set_video
count_shown-set_video_other id j b [] h = refl
count_shown-set_video_other id j b (m ∷ l) h = ground (arith, count_shown-set_video_other id j b l)

pub count_id-set_video :
    (id j : String) (b : Bool) (l : List Model) → count_id j (set_video id b l) ≡ count_id j l
unfolding set_video
count_id-set_video id j b [] = refl
count_id-set_video id j b (m ∷ l) = ground (arith, count_id-set_video id j b l)

count_shown-find :
    (id : String) (l : List Model) (m : Model)
    → count_id id l ≤ 1
    → find id l ≡ some m
    → count_shown id l ≡ (if m.connected && m.video then 1 else 0)
unfolding find
count_shown-find id [] m h e = absurd (ground arith)
count_shown-find id (x ∷ l) m h e = ground (arith, count_shown-find id l m, count_shown-le id l)

find-set_video :
    (id : String) (b : Bool) (l : List Model) (m : Model)
    → find id l ≡ some m
    → find id (set_video id b l) ≡ some (record m { video = b })
unfolding find set_video
find-set_video id b [] m e = absurd (ground arith)
find-set_video id b (x ∷ l) m e = ground (arith, find-set_video id b l m)

pub count_id-erase :
    (id j : String) (l : List Model)
    → count_id j (erase_model id l) ≡ (if same id j then count_id j l - 1 else count_id j l)
unfolding erase_model
count_id-erase id j [] = ground arith
count_id-erase id j (m ∷ l) = ground (arith, count_id-erase id j l)

count_shown-erase_other :
    (id j : String) (l : List Model)
    → same id j ≡ false
    → count_shown j (erase_model id l) ≡ count_shown j l
unfolding erase_model
count_shown-erase_other id j [] h = refl
count_shown-erase_other id j (m ∷ l) h = ground (arith, count_shown-erase_other id j l)

-- The row after a list.
pub row-length : (l r : List Model) (m : Model) → row (length l) (l ++ m ∷ r) ≡ some m
unfolding row
row-length [] r m = refl
row-length (x ∷ l) r m = row-length l r m

pub connect_row-length :
    (l r : List Model) (m : Model)
    → connect_row (length l) (l ++ m ∷ r) ≡ l ++ record m { connected = true } ∷ r
unfolding connect_row
connect_row-length [] r m = refl
connect_row-length (x ∷ l) r m = ap (λ t. x ∷ t) (connect_row-length l r m)

pub count_shown-create :
    (id : String) (l : List Participant) → count_shown id (create_participant_models l) ≡ 0
unfolding create_participant_models
count_shown-create id [] = refl
count_shown-create id (p ∷ l) = ground (arith, count_shown-create id l)

-- A row is added behind the others, connected, with those that are not.
pub count-inserted :
    (id j : String) (b : Bool) (l r : List Model) (w : List String)
    → count_id id l + 1 ≤ 1
    → count_shown j r ≡ 0
    → ((i : String) → count i w ≡ count_shown i l)
    → count j (if b then add_participant id w else w)
      ≡ count_shown j (l ++ record { id = id; video = b; connected = true } ∷ r)
count-inserted id j false l r w n z v =
    let m : Model = record { id = id; video = false; connected = true } in
    ground (arith, v j, count_shown-append j l (m ∷ r))
count-inserted id j true l r w n z v =
    let m : Model = record { id = id; video = true; connected = true } in
    elim (Bool-cases (same id j)) [
      | inl e ↦
          subst (λ (k : String). count k (add_participant id w) ≡ count_shown k (l ++ m ∷ r))
            (same→eq id j e)
            (ground (
              arith,
              count-add_self id w,
              v id,
              count_shown-le id l,
              count_shown-append id l (m ∷ r),
              same_refl id,
              subst (λ (k : String). count_shown k r ≡ 0) (sym (same→eq id j e)) z,
            ))
      | inr e ↦ ground (arith, count-add_other id j w e, v j, count_shown-append j l (m ∷ r))
    ]

pub count-erased :
    (id j : String) (l : List Model) (w : List String)
    → ((i : String) → count_id i l ≤ 1)
    → ((i : String) → count i w ≡ count_shown i l)
    → count j (remove_participant id w) ≡ count_shown j (erase_model id l)
count-erased id j l w u v = elim (Bool-cases (same id j)) [
  | inl e ↦
      subst (λ (k : String). count k (remove_participant id w) ≡ count_shown k (erase_model id l))
        (same→eq id j e)
        (ground (
          arith,
          count-remove_self id w,
          v id,
          u id,
          count_shown-le id l,
          count_shown-le id (erase_model id l),
          count_id-erase id id l,
          same_refl id,
        ))
  | inr e ↦ ground (arith, count-remove_other id j w e, v j, count_shown-erase_other id j l e)
]

pub count-changed :
    (id j : String) (b : Bool) (m : Model) (l : List Model) (w : List String)
    → find id l ≡ some m
    → ((i : String) → count_id i l ≤ 1)
    → ((i : String) → count i w ≡ count_shown i l)
    → count j
        (if m.connected then if b then add_participant id w else remove_participant id w else w)
      ≡ count_shown j (set_video id b l)
count-changed id j b m l w f u v = elim (Bool-cases (same id j)) [
  | inl e ↦
      subst
        (λ (k : String).
          count k
            (if m.connected then if b then add_participant id w else remove_participant id w else w)
          ≡ count_shown k (set_video id b l))
        (same→eq id j e)
        (ground (
          arith,
          count-remove_self id w,
          count-add_self id w,
          v id,
          u id,
          count_shown-le id l,
          count_shown-find id l m (u id) f,
          count_id-set_video id id b l,
          count_shown-find id (set_video id b l) (record m { video = b }),
          find-set_video id b l m f,
        ))
  | inr e ↦ ground (
    arith,
    count-remove_other id j w e,
    count-add_other id j w e,
    v j,
    count_shown-set_video_other id j b l e,
  )
]
