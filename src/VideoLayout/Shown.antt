-- ===== src/VideoLayout/Shown.antt =====
-- What is shown after every operation.
use fubble.Base.{
  ℕ, ◌≡◌, refl, ap, sym, ◌∙◌, true, false, ◌||◌, not, Option, none, some, List, [], ◌∷◌, arith,
  if◌then◌else◌, Option-cases, Bool-cases, inl, inr, subst,
}
use fubble.VideoLayout.{
  Layout, grid, enlarged, full, same_layout, Child, VideoLayout, with_aspect, without, show_all,
  show_only, actual_layout, calculate_items, Area, whole, strip, rest, draw, draw_some, recalculate,
  is_focused, show,
}

-- Each item with an aspect is visible exactly if this layout shows it.
abbrev pub AreShown : Layout → Option ℕ → List Child → Type 0
AreShown l f [] = Unit {0}
AreShown l f (c ∷ cs) =
    ((if c.has_aspect then c.visible else true)
      ≡ (if c.has_aspect then not (same_layout l full) || is_focused f c.item else true))
    × AreShown l f cs

show_all-AreShown :
    (l : Layout) (f : Option ℕ) (cs : List Child)
    → same_layout l full ≡ false
    → AreShown l f (show_all cs)
unfolding show_all same_layout
show_all-AreShown l f [] h = tt
show_all-AreShown l f (c ∷ cs) h = (ground arith, show_all-AreShown l f cs h)

show_only-AreShown : (f : ℕ) (cs : List Child) → AreShown full (some f) (show_only f cs)
unfolding show_only same_layout
show_only-AreShown f [] = tt
show_only-AreShown f (c ∷ cs) = (ground arith, show_only-AreShown f cs)

pub show_all_aspects : (cs : List Child) → with_aspect (show_all cs) ≡ with_aspect cs
unfolding with_aspect show_all
show_all_aspects [] = refl
show_all_aspects (c ∷ cs) = ground (arith, show_all_aspects cs)

pub show_only_aspects : (f : ℕ) (cs : List Child) → with_aspect (show_only f cs) ≡ with_aspect cs
unfolding with_aspect show_only
show_only_aspects f [] = refl
show_only_aspects f (c ∷ cs) = ground (arith, show_only_aspects f cs)

no_aspect-AreShown :
    (l : Layout) (f : Option ℕ) (cs : List Child) → with_aspect cs ≡ [] → AreShown l f cs
unfolding with_aspect
no_aspect-AreShown l f [] h = tt
no_aspect-AreShown l f (c ∷ cs) h = elim (Bool-cases c.has_aspect) [
  | inl e ↦ cc
  | inr e ↦ (ground arith, no_aspect-AreShown l f cs (ground arith))
]

-- While there is an area, what is visible is what the layout says.
abbrev pub IsShown : VideoLayout → Type 0
IsShown s =
    s.has_size ≡ true
    → AreShown (actual_layout s.layout_ (with_aspect s.children)) s.focused s.children

-- What drawing leaves alone, and that the children are these.
abbrev Redrawn : List Child → VideoLayout → VideoLayout → Type 0
Redrawn cs s s' =
    (s'.children ≡ cs)
    × (s'.layout_ ≡ s.layout_)
    × (s'.focused ≡ s.focused)
    × (s'.has_size ≡ s.has_size)

calculate_items-Redrawn :
    (items : List ℕ) (a : Area) (s : VideoLayout) {s' : VideoLayout}
    → calculate_items items a s ≡ some s'
    → Redrawn s.children s s'
unfolding calculate_items
calculate_items-Redrawn [] a s h = cc
calculate_items-Redrawn (i ∷ l) a s h = ground arith

-- The children as a layout shows them.
abbrev shown_children : Layout → Option ℕ → List Child → List Child
shown_children full none cs = cs
shown_children full (some f) cs = show_only f cs
shown_children _ f cs = show_all cs

draw-Redrawn :
    (l : Layout) (f : Option ℕ) (items : List ℕ) (s : VideoLayout) {s' : VideoLayout}
    → draw l f items s ≡ some s'
    → Redrawn (shown_children l f s.children) s s'
unfolding draw
draw-Redrawn grid f items s h = calculate_items-Redrawn items whole (show s) h
draw-Redrawn enlarged none items s h = cc
draw-Redrawn enlarged (some f) items s {s'} h =
    elim (Option-cases (calculate_items (without f items) strip (show s))) [
      | inl e ↦ cc
      | inr (t, e) ↦ ground (
        arith,
        calculate_items-Redrawn (without f items) strip (show s) e,
        calculate_items-Redrawn (f ∷ []) rest t {s' = s'},
      )
    ]
draw-Redrawn full none items s h = cc
draw-Redrawn full (some f) items s h =
    calculate_items-Redrawn (f ∷ []) whole (record s { children = show_only f s.children }) h

shown_children-AreShown :
    (l : Layout) (f : Option ℕ) (items : List ℕ) (s : VideoLayout) {s' : VideoLayout}
    → draw l f items s ≡ some s'
    → AreShown l f (shown_children l f s.children)
unfolding draw
shown_children-AreShown grid f items s h =
    show_all-AreShown grid f s.children (unfold same_layout in refl)
shown_children-AreShown enlarged f items s h =
    show_all-AreShown enlarged f s.children (unfold same_layout in refl)
shown_children-AreShown full none items s h = cc
shown_children-AreShown full (some f) items s h = show_only-AreShown f s.children

shown_children_aspects :
    (l : Layout) (f : Option ℕ) (cs : List Child)
    → with_aspect (shown_children l f cs) ≡ with_aspect cs
shown_children_aspects grid f cs = show_all_aspects cs
shown_children_aspects enlarged f cs = show_all_aspects cs
shown_children_aspects full none cs = refl
shown_children_aspects full (some f) cs = show_only_aspects f cs

AreShown-eq :
    {l l' : Layout} {f f' : Option ℕ} {cs cs' : List Child}
    → l ≡ l'
    → f ≡ f'
    → cs ≡ cs'
    → AreShown l f cs
    → AreShown l' f' cs'
AreShown-eq {l} {l'} {f} {f'} {cs} {cs'} a b c h =
    subst (AreShown l' f') c (subst (λ g. AreShown l' g cs) b (subst (λ k. AreShown k f cs) a h))

draw_some-IsShown :
    (items : List ℕ) (s : VideoLayout) {s' : VideoLayout}
    → with_aspect s.children ≡ items
    → draw_some items s ≡ some s'
    → IsShown s'
unfolding draw_some
draw_some-IsShown [] s {s'} e h size =
    no_aspect-AreShown (actual_layout s'.layout_ (with_aspect s'.children)) s'.focused s'.children
      (ground arith)
draw_some-IsShown (i ∷ l) s {s'} e h size =
    let k = actual_layout s.layout_ (i ∷ l) in
    let (children, same_layout_, focus, same_size) = draw-Redrawn k s.focused (i ∷ l) s h in
    let aspects = ap with_aspect children ∙ shown_children_aspects k s.focused s.children ∙ e in
    AreShown-eq
      (ap (λ t. actual_layout t (i ∷ l)) (sym same_layout_)
        ∙ ap (actual_layout s'.layout_) (sym aspects))
      (sym focus) (sym children) (shown_children-AreShown k s.focused (i ∷ l) s h)

-- Whatever was visible before.
pub recalculate-IsShown :
    (s : VideoLayout) {s' : VideoLayout} → recalculate s ≡ some s' → IsShown s'
unfolding recalculate
recalculate-IsShown s {s'} h = elim (Bool-cases s.has_size) [
  | inl e ↦ draw_some-IsShown (with_aspect s.children) s {s' = s'} refl (ground arith)
  | inr e ↦ λ size. absurd (ground arith)
]
