-- ===== src/Previews.antt =====
-- The previews of what can be shared: `desktop_sharing_previews_impl` of
-- fubble/client/desktop_sharing.cpp, over `interval_capturer_impl` of
-- fubble/rtc/google/capture/desktop/capturer.cpp. What the enumerator finds, whether a capturer can be
-- created, and the results of capturing come from outside. A null promise is undefined: `none`; an
-- exception leaves the operation and what it has done so far.
pub mod Kept
pub mod Started
pub mod Mixed
use fubble.Base.{
  ℕ, Bool, true, false, not, Option, none, some, List, [], ◌∷◌, ◌++◌, ◌==◌, if◌then◌else◌,
}

-- A preview: its capturer's id, and whether it was started, which is whether its promise is there.
pub record Preview : Type 0 where
  pub id : ℕ
  pub started : Bool

pub record Previews : Type 0 where
  pub window_previews : List Preview
  pub screen_previews : List Preview
  pub timer : Bool

pub data CaptureResult : Type 0 where
  success error_temporary error_permanent : CaptureResult

-- `interval_capturer_impl::start`, which overwrites its promise.
unfoldable pub start_preview : Preview → Preview
start_preview p = record p { started = true }

-- `interval_capturer_impl::stop` for each of a list.
unfoldable pub stop_all : List Preview → Option (List Preview)
stop_all [] = some []
stop_all (p ∷ l) =
    let rest = stop_all l in
    if p.started
    then elim rest as (λ _. Option (List Preview)) [
      | none ↦ none
      | some r ↦ some (record p { started = false } ∷ r)
    ]
    else none

unfoldable pub start_all : List Preview → List Preview
unfolding start_preview
start_all [] = []
start_all (p ∷ l) = start_preview p ∷ start_all l

unfoldable pub has_id : ℕ → List Preview → Bool
has_id id [] = false
has_id id (p ∷ l) = if p.id == id then true else has_id id l

-- What was enumerated and has no preview.
unfoldable pub filter_enumerated : List ℕ → List Preview → List ℕ
unfolding has_id
filter_enumerated [] l = []
filter_enumerated (id ∷ ids) l =
    let rest = filter_enumerated ids l in if has_id id l then rest else id ∷ rest

-- `std::transform` into the list: whether all could be created, and the list so far.
unfoldable pub add_previews : (ℕ → Bool) → List ℕ → List Preview → Bool × List Preview
unfolding start_preview
add_previews creates [] l = (true, l)
add_previews creates (id ∷ ids) l =
    let rest =
      add_previews creates ids (l ++ start_preview (record { id = id; started = false }) ∷ []) in
    if creates id then rest else (false, l)

unfoldable pub create_previews : (ℕ → Bool) → List ℕ → List Preview → Bool × List Preview
unfolding filter_enumerated add_previews
create_previews creates enumerated l = add_previews creates (filter_enumerated enumerated l) l

-- Screens first; an exception leaves the windows alone.
unfoldable pub enumerate : (ℕ → Bool) → (ℕ → Bool) → List ℕ → List ℕ → Previews → Bool × Previews
unfolding create_previews
enumerate creates_screen creates_window screens windows s =
    let r = create_previews creates_screen screens s.screen_previews in
    let q = create_previews creates_window windows s.window_previews in
    let t : Previews = record s { screen_previews = r.1 } in
    if r.0 then (q.0, record t { window_previews = q.1 }) else (false, t)

unfoldable pub start : (ℕ → Bool) → (ℕ → Bool) → List ℕ → List ℕ → Previews → Bool × Previews
unfolding start_all enumerate
start creates_screen creates_window screens windows s =
    let r = enumerate creates_screen creates_window screens windows (record s {
      window_previews = start_all s.window_previews;
      screen_previews = start_all s.screen_previews;
    }) in
    (r.0, record r.1 { timer = if r.0 then true else s.timer })

unfoldable pub stop : Previews → Option Previews
unfolding stop_all
stop s = elim (stop_all s.window_previews) as (λ _. Option Previews) [
  | none ↦ none
  | some w ↦ elim (stop_all s.screen_previews) as (λ _. Option Previews) [
    | none ↦ none
    | some r ↦ some (record { window_previews = w; screen_previews = r; timer = false })
  ]
]

unfoldable pub erase : ℕ → List Preview → List Preview
erase id [] = []
erase id (p ∷ l) = if p.id == id then l else p ∷ erase id l

-- `on_capturer_stopped` with an exception: windows are looked through first.
unfoldable pub on_capturer_stopped : ℕ → Previews → Previews
unfolding has_id erase
on_capturer_stopped id s =
    if has_id id s.window_previews
    then record s { window_previews = erase id s.window_previews }
    else record s { screen_previews = erase id s.screen_previews }

-- `on_captured`: the capturer with this id stops.
unfoldable pub set_stopped : ℕ → List Preview → List Preview
set_stopped id [] = []
set_stopped id (p ∷ l) =
    if p.id == id then record p { started = false } ∷ l else p ∷ set_stopped id l

unfoldable pub on_captured : Bool → ℕ → CaptureResult → Previews → Previews
unfolding set_stopped on_capturer_stopped
on_captured is_screen id success s = s
on_captured is_screen id error_temporary s = s
on_captured true id error_permanent s =
    on_capturer_stopped id (record s { screen_previews = set_stopped id s.screen_previews })
on_captured false id error_permanent s =
    on_capturer_stopped id (record s { window_previews = set_stopped id s.window_previews })
