-- ===== src/VideoLayout.antt =====
-- fubble/video_layout/video_layout.{hpp,cpp}: which videos are shown, and where. An item is a number;
-- of an item only the presence of an aspect and its visibility are kept. Packing the rectangles of
-- items into an area is the call `calculate`, of which the items and the area are recorded.
pub mod Shown
pub mod History
pub mod Drawn
pub mod Total
use fubble.Base.{
  ℕ, suc, Bool, true, false, ◌&&◌, Option, none, some, List, [], ◌∷◌, ◌==◌, if◌then◌else◌, leb,
}

pub data Layout : Type 0 where
  grid enlarged full : Layout

unfoldable pub same_layout : Layout → Layout → Bool
same_layout grid grid = true
same_layout enlarged enlarged = true
same_layout full full = true
same_layout _ _ = false

pub record Child : Type 0 where
  pub item : ℕ
  pub has_aspect : Bool
  pub visible : Bool

-- The whole area, and the two that an enlarged item is shown with: a strip and the rest.
pub data Area : Type 0 where
  whole strip rest : Area

pub data Call : Type 0 where
  calculate : List ℕ → Area → Call
  layout_changed : Layout → Call

-- `has_size` is whether neither the width nor the height is zero. Calls are newest first.
pub record VideoLayout : Type 0 where
  pub has_size : Bool
  pub children : List Child
  pub layout_ : Layout
  pub focused : Option ℕ
  pub calls : List Call

unfoldable pub with_aspect : List Child → List ℕ
with_aspect [] = []
with_aspect (c ∷ l) = if c.has_aspect then c.item ∷ with_aspect l else with_aspect l

unfoldable pub without : ℕ → List ℕ → List ℕ
without f [] = []
without f (i ∷ l) = if i == f then without f l else i ∷ without f l

-- `setVisible` on the items with an aspect: on all, or on the focused one and off the others.
unfoldable pub show_all : List Child → List Child
show_all [] = []
show_all (c ∷ l) = (if c.has_aspect then record c { visible = true } else c) ∷ show_all l

unfoldable pub show_only : ℕ → List Child → List Child
show_only f [] = []
show_only f (c ∷ l) =
    (if c.has_aspect then record c { visible = c.item == f } else c) ∷ show_only f l

-- One item is always shown in the grid.
unfoldable pub actual_layout : Layout → List ℕ → Layout
actual_layout set [] = set
actual_layout set (i ∷ []) = grid
actual_layout set (i ∷ j ∷ l) = set

abbrev pub call : Call → VideoLayout → VideoLayout
call c s = record s { calls = c ∷ s.calls }

abbrev pub show : VideoLayout → VideoLayout
show s = record s { children = show_all s.children }

-- `calculate` takes the first item: without one there is no result.
unfoldable pub calculate_items : List ℕ → Area → VideoLayout → Option VideoLayout
calculate_items [] a s = none
calculate_items (i ∷ l) a s = some (call (calculate (i ∷ l) a) s)

-- With nothing focused the last two layouts dereference null.
unfoldable pub draw : Layout → Option ℕ → List ℕ → VideoLayout → Option VideoLayout
draw grid f items s = calculate_items items whole (show s)
draw enlarged none items s = none
draw enlarged (some f) items s = elim (calculate_items (without f items) strip (show s)) [
  | none ↦ none
  | some s' ↦ calculate_items (f ∷ []) rest s'
]
draw full none items s = none
draw full (some f) items s =
    calculate_items (f ∷ []) whole (record s { children = show_only f s.children })

unfoldable pub draw_some : List ℕ → VideoLayout → Option VideoLayout
unfolding draw actual_layout
draw_some [] s = some s
draw_some (i ∷ l) s = draw (actual_layout s.layout_ (i ∷ l)) s.focused (i ∷ l) s

unfoldable pub recalculate : VideoLayout → Option VideoLayout
unfolding draw_some with_aspect
recalculate s = if s.has_size then draw_some (with_aspect s.children) s else some s

unfoldable pub set_layout_property : Layout → VideoLayout → Option VideoLayout
unfolding recalculate
set_layout_property set s =
    if same_layout set s.layout_
    then some s
    else recalculate (call (layout_changed set) (record s { layout_ = set }))

abbrev pub is_focused : Option ℕ → ℕ → Bool
is_focused none i = false
is_focused (some f) i = f == i

abbrev pub next_layout : Layout → Layout
next_layout grid = enlarged
next_layout enlarged = full
next_layout full = grid

unfoldable pub enlarge : ℕ → VideoLayout → Option VideoLayout
unfolding set_layout_property
enlarge item s =
    if (if is_focused s.focused item then true else same_layout s.layout_ grid)
    then set_layout_property (next_layout s.layout_) (record s { focused = some item })
    else recalculate (record s { focused = some item })

unfoldable pub shrink_to : Layout → VideoLayout → Option VideoLayout
unfolding set_layout_property
shrink_to grid s = some s
shrink_to enlarged s = set_layout_property grid s
shrink_to full s = set_layout_property full s

-- `shrink`: the item is not used.
unfoldable pub shrink : ℕ → VideoLayout → Option VideoLayout
unfolding shrink_to
shrink item s = shrink_to s.layout_ s

unfoldable pub clear_focused : VideoLayout → Option VideoLayout
unfolding set_layout_property
clear_focused s = elim (set_layout_property grid s) [
  | none ↦ none
  | some s' ↦ some (record s' { focused = none })
]

abbrev pub push_back : List Child → Child → List Child
push_back [] c = c ∷ []
push_back (x ∷ l) c = x ∷ push_back l c

unfoldable pub remove_child : ℕ → List Child → List Child
remove_child i [] = []
remove_child i (c ∷ l) = if c.item == i then l else c ∷ remove_child i l

-- `itemChange`, after the item has been added, or removed.
unfoldable pub on_child_added : Child → VideoLayout → Option VideoLayout
unfolding recalculate
on_child_added c s =
    let s' = record s { children = push_back s.children c } in
    if c.has_aspect then recalculate s' else some s'

unfoldable pub on_child_removed : ℕ → VideoLayout → Option VideoLayout
unfolding clear_focused
on_child_removed i s =
    let s' = record s { children = remove_child i s.children } in
    if is_focused s.focused i
    then elim (clear_focused s') [ none ↦ none | some t ↦ recalculate t ]
    else recalculate s'

unfoldable pub on_resized : Bool → VideoLayout → Option VideoLayout
unfolding recalculate
on_resized b s = recalculate (record s { has_size = b })

abbrev pub initial : VideoLayout
initial = record { has_size = false; children = []; layout_ = grid; focused = none; calls = [] }
