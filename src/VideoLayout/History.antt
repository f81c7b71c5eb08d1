-- ===== src/VideoLayout/History.antt =====
-- Histories of a video layout.
use mathlib.Core.Option.{some-injective}
use fubble.Base.{
  ℕ, ◌≡◌, refl, ap, sym, ◌∙◌, Bool, true, false, Option, none, some, List, [], ◌∷◌, arith,
  if◌then◌else◌, Option-cases, Bool-cases, inl, inr, subst,
}
use fubble.VideoLayout.{
  Layout, grid, enlarged, full, same_layout, Child, VideoLayout, with_aspect, actual_layout,
  recalculate, set_layout_property, is_focused, next_layout, enlarge, shrink, shrink_to,
  clear_focused, remove_child, push_back, on_child_added, on_child_removed, on_resized, initial,
  call, layout_changed,
}
use fubble.VideoLayout.Shown.{AreShown, IsShown, recalculate-IsShown}

pub data Event : Type 0 where
  added : Child → Event
  removed : ℕ → Event
  resized : Bool → Event
  aspect_changed : Event
  enlarges shrinks : ℕ → Event
  sets : Layout → Event

unfoldable pub step : Event → VideoLayout → Option VideoLayout
step (added c) s = on_child_added c s
step (removed i) s = on_child_removed i s
step (resized b) s = on_resized b s
step aspect_changed s = recalculate s
step (enlarges i) s = enlarge i s
step (shrinks i) s = shrink i s
step (sets l) s = set_layout_property l s

abbrev pub go_on : Option VideoLayout → (VideoLayout → Option VideoLayout) → Option VideoLayout
go_on none f = none
go_on (some s) f = f s

unfoldable pub run : List Event → VideoLayout → Option VideoLayout
run [] s = some s
run (e ∷ es) s = go_on (step e s) (run es)

set_layout_property-IsShown :
    (l : Layout) (s : VideoLayout) {s' : VideoLayout}
    → IsShown s
    → set_layout_property l s ≡ some s'
    → IsShown s'
unfolding set_layout_property
set_layout_property-IsShown l s {s'} v h = elim (Bool-cases (same_layout l s.layout_)) [
  | inl e ↦ subst IsShown {x = s} {y = s'} (ground arith) v
  | inr e ↦
      recalculate-IsShown (call (layout_changed l) (record s { layout_ = l })) {s' = s'}
        (ground arith)
]

next_layout_other : (l : Layout) → same_layout (next_layout l) l ≡ false
unfolding same_layout
next_layout_other grid = refl
next_layout_other enlarged = refl
next_layout_other full = refl

enlarge-IsShown : (i : ℕ) (s : VideoLayout) {s' : VideoLayout} → enlarge i s ≡ some s' → IsShown s'
unfolding enlarge set_layout_property
enlarge-IsShown i s {s'} h =
    let t = record s { focused = some i } in
    let next = next_layout s.layout_ in
    elim (Bool-cases (if is_focused s.focused i then true else same_layout s.layout_ grid)) [
      | inl e ↦
          recalculate-IsShown (call (layout_changed next) (record t { layout_ = next })) {s' = s'}
            (ground (arith, next_layout_other s.layout_))
      | inr e ↦ recalculate-IsShown t {s' = s'} (ground arith)
    ]

shrink_to-IsShown :
    (l : Layout) (s : VideoLayout) {s' : VideoLayout}
    → IsShown s
    → shrink_to l s ≡ some s'
    → IsShown s'
unfolding shrink_to
shrink_to-IsShown grid s {s'} v h = subst IsShown {y = s'} (some-injective _ _ h) v
shrink_to-IsShown enlarged s v h = set_layout_property-IsShown grid s v h
shrink_to-IsShown full s v h = set_layout_property-IsShown full s v h

push_back_aspects :
    (c : Child) (cs : List Child)
    → c.has_aspect ≡ false
    → with_aspect (push_back cs c) ≡ with_aspect cs
unfolding with_aspect
push_back_aspects c [] e = ground arith
push_back_aspects c (x ∷ cs) e = ground (arith, push_back_aspects c cs e)

push_back-AreShown :
    (l : Layout) (f : Option ℕ) (c : Child) (cs : List Child)
    → c.has_aspect ≡ false
    → AreShown l f cs
    → AreShown l f (push_back cs c)
push_back-AreShown l f c [] e v = (ground arith, tt)
push_back-AreShown l f c (x ∷ cs) e v = (v.0, push_back-AreShown l f c cs e v.1)

on_child_added-IsShown :
    (c : Child) (s : VideoLayout) {s' : VideoLayout}
    → IsShown s
    → on_child_added c s ≡ some s'
    → IsShown s'
unfolding on_child_added
on_child_added-IsShown c s {s'} v h =
    let t = record s { children = push_back s.children c } in
    elim (Bool-cases c.has_aspect) [
      | inl e ↦ recalculate-IsShown t {s' = s'} (ground arith)
      | inr e ↦ subst IsShown {x = t} {y = s'} (ground arith) λ size.
          subst (λ a. AreShown (actual_layout s.layout_ a) s.focused t.children)
            (sym (push_back_aspects c s.children e))
            (push_back-AreShown _ s.focused c s.children e (v size))
    ]

on_child_removed-IsShown :
    (i : ℕ) (s : VideoLayout) {s' : VideoLayout} → on_child_removed i s ≡ some s' → IsShown s'
unfolding on_child_removed
on_child_removed-IsShown i s {s'} h = elim (Bool-cases (is_focused s.focused i)) [
  | inl e ↦
      elim (Option-cases (clear_focused (record s { children = remove_child i s.children }))) [
        | inl n ↦ absurd (ground arith)
        | inr (t, n) ↦ recalculate-IsShown t {s' = s'} (ground arith)
      ]
  | inr e ↦
      recalculate-IsShown (record s { children = remove_child i s.children }) {s' = s'}
        (ground arith)
]

step-IsShown :
    (e : Event) (s : VideoLayout) {s' : VideoLayout} → IsShown s → step e s ≡ some s' → IsShown s'
unfolding step on_resized shrink shrink_to
step-IsShown (added c) s v h = on_child_added-IsShown c s v h
step-IsShown (removed i) s v h = on_child_removed-IsShown i s h
step-IsShown (resized b) s v h = recalculate-IsShown (record s { has_size = b }) h
step-IsShown aspect_changed s v h = recalculate-IsShown s h
step-IsShown (enlarges i) s v h = enlarge-IsShown i s h
step-IsShown (shrinks i) s v h = shrink_to-IsShown s.layout_ s v h
step-IsShown (sets l) s v h = set_layout_property-IsShown l s v h

run-IsShown :
    (es : List Event) (s : VideoLayout) {s' : VideoLayout}
    → IsShown s
    → run es s ≡ some s'
    → IsShown s'
unfolding run
run-IsShown [] s {s'} v h = subst IsShown {y = s'} (some-injective _ _ h) v
run-IsShown (e ∷ es) s v h = elim (Option-cases (step e s)) [
  | inl n ↦ cc
  | inr (t, p) ↦
      run-IsShown es t (step-IsShown e s v p)
        (sym (ap (λ (o : Option VideoLayout). go_on o (run es)) p) ∙ h)
]

-- After any history that did not dereference a missing item, while there is an area: in the full
-- layout with more than one item exactly the focused one is visible, and otherwise all are.
pub run-initial-AreShown :
    (es : List Event) {s : VideoLayout}
    → run es initial ≡ some s
    → s.has_size ≡ true
    → AreShown (actual_layout s.layout_ (with_aspect s.children)) s.focused s.children
run-initial-AreShown es h = run-IsShown es initial (λ size. tt) h
