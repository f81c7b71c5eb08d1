-- ===== src/App.antt =====
-- What the user interface shows of a room: fubble/app/participants_model.cpp and
-- fubble/app/participants_with_video_model.cpp, which follows the rows of the first, and
-- fubble/app/participant_model.cpp. Rows are told to the views between begin and end of an
-- insertion; a signal of Qt calls its slots at once. Reading a row that is not there is undefined:
-- `none`.
pub mod Counts
pub mod Shown
pub mod Late
use fubble.Base.{
  ℕ, suc, zero, Bool, true, false, not, ◌&&◌, String, same, Option, none, some, is_some, List, [],
  ◌∷◌, ◌++◌, length, if◌then◌else◌,
}

-- `client::participant`, as far as the lists read it.
pub record Participant : Type 0 where
  pub id : String
  pub is_bot : Bool
  pub has_video : Bool

-- `participant_model`: its id, whether it has a video, and whether `video_changed` is connected.
pub record Model : Type 0 where
  pub id : String
  pub video : Bool
  pub connected : Bool

-- Both lists, how many inserted rows the views of the first were told of, and how often `own_changed` was
-- emitted.
pub record Lists : Type 0 where
  pub participants : List Model
  pub with_video : List String
  pub inserted_rows : ℕ
  pub own_changed : ℕ

unfoldable pub filter_out_bots : List Participant → List Participant
filter_out_bots [] = []
filter_out_bots (p ∷ l) = let rest = filter_out_bots l in if p.is_bot then rest else p ∷ rest

unfoldable pub create_participant_models : List Participant → List Model
create_participant_models [] = []
create_participant_models (p ∷ l) =
    record { id = p.id; video = p.has_video; connected = false } ∷ create_participant_models l

-- `std::find_if` on ids.
unfoldable pub find : String → List Model → Option Model
find id [] = none
find id (m ∷ l) = if same m.id id then some m else find id l

unfoldable pub contains : String → List String → Bool
contains id [] = false
contains id (x ∷ l) = if same x id then true else contains id l

-- `erase(find(id))`, which does nothing at the end here, since the callers look first.
unfoldable pub erase : String → List String → List String
erase id [] = []
erase id (x ∷ l) = if same x id then l else x ∷ erase id l

unfoldable pub erase_model : String → List Model → List Model
erase_model id [] = []
erase_model id (m ∷ l) = if same m.id id then l else m ∷ erase_model id l

unfoldable pub add_participant : String → List String → List String
unfolding contains
add_participant id l = if contains id l then l else l ++ id ∷ []

unfoldable pub remove_participant : String → List String → List String
unfolding contains erase
remove_participant id l = if contains id l then erase id l else l

-- The row at a place, and the row connected.
unfoldable pub row : ℕ → List Model → Option Model
row n [] = none
row zero (m ∷ l) = some m
row (suc n) (m ∷ l) = row n l

unfoldable pub connect_row : ℕ → List Model → List Model
connect_row n [] = []
connect_row zero (m ∷ l) = record m { connected = true } ∷ l
connect_row (suc n) (m ∷ l) = m ∷ connect_row n l

unfoldable pub on_participants_inserted : ℕ → Lists → Option Lists
unfolding row connect_row add_participant
on_participants_inserted first s = elim (row first s.participants) as (λ _. Option Lists) [
  | none ↦ none
  | some got ↦ some (record s {
    participants = connect_row first s.participants;
    with_video = if got.video then add_participant got.id s.with_video else s.with_video;
  })
]

unfoldable pub has_own : String → List Participant → Bool
has_own own_id [] = false
has_own own_id (p ∷ l) = if same p.id own_id then true else has_own own_id l

abbrev pub is_empty {ℓ} : {A : Type ℓ} → List A → Bool
is_empty [] = true
is_empty (_ ∷ _) = false

-- `on_joins` after the filter, when the list with videos is connected: one row is announced, whatever the
-- number of joins, of which there is one in what `participants` emits.
unfoldable pub insert_joins : String → List Participant → Lists → Option Lists
unfolding create_participant_models on_participants_inserted has_own
insert_joins own_id [] s = some s
insert_joins own_id (p ∷ joins) s = on_participants_inserted (length s.participants) (record s {
  participants = s.participants ++ create_participant_models (p ∷ joins);
  inserted_rows = suc s.inserted_rows;
  own_changed = if has_own own_id (p ∷ joins) then suc s.own_changed else s.own_changed;
})

unfoldable pub on_joins : String → List Participant → Lists → Option Lists
unfolding filter_out_bots insert_joins
on_joins own_id joins s = insert_joins own_id (filter_out_bots joins) s

-- The constructor, which makes one insertion of all who are there; nothing is connected to the list
-- yet, so that no list with videos hears of them.
unfoldable pub construct : String → List Participant → Lists
unfolding filter_out_bots create_participant_models has_own
construct own_id l =
    let joins = filter_out_bots l in
    record {
      participants = create_participant_models joins;
      with_video = [];
      inserted_rows = if is_empty joins then 0 else 1;
      own_changed = if has_own own_id joins then 1 else 0;
    }

-- One of the ids of `on_leaves`: the list with videos is told before the row is removed.
unfoldable pub on_leave : String → Lists → Lists
unfolding find remove_participant erase_model
on_leave leave s = elim (find leave s.participants) as (λ _. Lists) [
  | none ↦ s
  | some m ↦ record s {
    participants = erase_model leave s.participants;
    with_video = remove_participant leave s.with_video;
  }
]

unfoldable pub set_video : String → Bool → List Model → List Model
set_video id b [] = []
set_video id b (m ∷ l) = if same m.id id then record m { video = b } ∷ l else m ∷ set_video id b l

-- The model of the participant emits `video_changed`.
unfoldable pub on_video_changed : String → Bool → Lists → Lists
unfolding find set_video add_participant remove_participant
on_video_changed id b s = elim (find id s.participants) as (λ _. Lists) [
  | none ↦ s
  | some m ↦ record s {
    participants = set_video id b s.participants;
    with_video =
        if m.connected
        then if b then add_participant id s.with_video else remove_participant id s.with_video
        else s.with_video;
  }
]
