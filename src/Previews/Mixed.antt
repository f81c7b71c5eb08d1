-- ===== src/Previews/Mixed.antt =====
-- A screen with the id of a window.
use fubble.Base.{ℕ, ◌≡◌, true, false, none, [], ◌∷◌, arith}
use fubble.Previews.{
  Previews, error_permanent, has_id, erase, on_capturer_stopped, set_stopped, on_captured, stop,
  stop_all,
}

-- When the only screen, whose id is that of the only window, can be captured no more, the preview of
-- the window goes, that of the screen stays without being captured, and stopping asks a null promise.
pub captures_mixed :
    (id : ℕ) (s : Previews)
    → s.window_previews ≡ record { id = id; started = true } ∷ []
    → s.screen_previews ≡ record { id = id; started = true } ∷ []
    → let t = on_captured true id error_permanent s in
      (t.window_previews ≡ [])
      × (t.screen_previews ≡ record { id = id; started = false } ∷ [])
      × (stop t ≡ none)
unfolding on_captured on_capturer_stopped set_stopped has_id erase stop stop_all
captures_mixed id s w r = ground arith
