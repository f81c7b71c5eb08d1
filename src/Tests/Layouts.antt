-- ===== src/Tests/Layouts.antt =====
-- The video layout.
use fubble.Base.{ℕ, ◌≡◌, refl, true, false, is_some, some, List, [], ◌∷◌}
use fubble.VideoLayout.{
  enlarged, full, Child, VideoLayout, initial, same_layout, with_aspect, without, show_all,
  show_only, actual_layout, calculate_items, draw, draw_some, recalculate, set_layout_property,
  enlarge, on_child_added, on_resized, calculate, layout_changed, whole, rest, strip,
}
use fubble.VideoLayout.Shown.{AreShown}
use fubble.VideoLayout.History.{Event, added, resized, enlarges, step, run, run-initial-AreShown}
use fubble.VideoLayout.Total.{AreProper, run-initial-some}

abbrev video : ℕ → Child
video i = record { item = i; has_aspect = true; visible = true }

abbrev a_history : List Event
a_history = resized true ∷ added (video 1) ∷ added (video 2) ∷ enlarges 2 ∷ enlarges 2 ∷ []

a_history-AreProper : AreProper a_history initial
unfolding step on_resized on_child_added recalculate enlarge with_aspect draw_some draw
    actual_layout calculate_items show_all set_layout_property same_layout without
a_history-AreProper = (tt, (refl, (refl, (tt, (tt, tt)))))

run-initial-some_example : is_some (run a_history initial) ≡ true
run-initial-some_example = run-initial-some a_history a_history-AreProper

-- Only the second video is left.
abbrev one_video : VideoLayout
one_video = record {
  has_size = true;
  children = record { item = 1; has_aspect = true; visible = false } ∷ video 2 ∷ [];
  layout_ = full;
  focused = some 2;
  calls =
      calculate (2 ∷ []) whole
      ∷ layout_changed full
      ∷ calculate (2 ∷ []) rest
      ∷ calculate (1 ∷ []) strip
      ∷ layout_changed enlarged
      ∷ calculate (1 ∷ 2 ∷ []) whole
      ∷ calculate (1 ∷ []) whole
      ∷ [];
}

a_history-run : run a_history initial ≡ some one_video
unfolding run step on_resized on_child_added recalculate enlarge with_aspect draw_some draw
    actual_layout calculate_items show_all show_only set_layout_property same_layout without
a_history-run = refl

run-initial-AreShown_example : AreShown full (some 2) one_video.children
unfolding with_aspect actual_layout
run-initial-AreShown_example = run-initial-AreShown a_history {s = one_video} a_history-run refl
