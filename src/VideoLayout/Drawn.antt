-- ===== src/VideoLayout/Drawn.antt =====
-- What drawing needs: a focus outside the grid, and no item twice.
use fubble.Base.{
  ℕ, ◌≡◌, refl, ◌≢◌, sym, ◌∙◌, Bool, true, false, Option, none, some, is_some, List, [], ◌∷◌, arith,
  ◌==◌, if◌then◌else◌, Bool-cases, inl, inr,
}
use fubble.VideoLayout.{
  Layout, grid, enlarged, full, same_layout, VideoLayout, strip, rest, with_aspect, without, show,
  actual_layout, calculate_items, draw, draw_some, recalculate, set_layout_property, call,
  layout_changed,
}
use fubble.VideoLayout.Shown.{show_all_aspects, show_only_aspects}

abbrev pub contains : ℕ → List ℕ → Bool
contains i [] = false
contains i (j ∷ l) = if j == i then true else contains i l

abbrev pub HasNoRepeats : List ℕ → Type 0
HasNoRepeats [] = Unit {0}
HasNoRepeats (i ∷ l) = (contains i l ≡ false) × HasNoRepeats l

-- Outside the grid something is focused.
abbrev pub has_focus : Layout → Option ℕ → Bool
has_focus l f = if same_layout l grid then true else is_some f

-- There is a state, with this layout and focus, and no item twice.
abbrev pub Drawn : Layout → Option ℕ → Option VideoLayout → Type 0
Drawn l f none = ⊥
Drawn l f (some s) = (s.layout_ ≡ l) × (s.focused ≡ f) × HasNoRepeats (with_aspect s.children)

same_layout→eq : (a b : Layout) → same_layout a b ≡ true → a ≡ b
unfolding same_layout
same_layout→eq a b h = ground arith

without_two : (f i j : ℕ) (l : List ℕ) → contains i (j ∷ l) ≡ false → without f (i ∷ j ∷ l) ≢ []
unfolding without
without_two f i j l h e = ground arith

enlarged-Drawn :
    (f : ℕ) (small : List ℕ) (s : VideoLayout)
    → small ≢ []
    → HasNoRepeats (with_aspect s.children)
    → Drawn s.layout_ s.focused (elim (calculate_items small strip (show s)) [
      | none ↦ none
      | some s' ↦ calculate_items (f ∷ []) rest s'
    ])
unfolding calculate_items
enlarged-Drawn f [] s ne v = absurd (ne refl)
enlarged-Drawn f (i ∷ l) s ne v = (refl, refl, rw (show_all_aspects s.children) v)

draw-Drawn :
    (i : ℕ) (l : List ℕ) (k : Layout) (f : Option ℕ) (s : VideoLayout)
    → has_focus k f ≡ true
    → HasNoRepeats (i ∷ l)
    → HasNoRepeats (with_aspect s.children)
    → Drawn s.layout_ s.focused (draw (actual_layout k (i ∷ l)) f (i ∷ l) s)
unfolding draw actual_layout calculate_items same_layout
draw-Drawn i [] k f s h u v = (refl, refl, rw (show_all_aspects s.children) v)
draw-Drawn i (j ∷ l) grid f s h u v = (refl, refl, rw (show_all_aspects s.children) v)
draw-Drawn i (j ∷ l) enlarged none s h u v = absurd (ground arith)
draw-Drawn i (j ∷ l) enlarged (some f) s h u v =
    enlarged-Drawn f (without f (i ∷ j ∷ l)) s (without_two f i j l u.0) v
draw-Drawn i (j ∷ l) full none s h u v = absurd (ground arith)
draw-Drawn i (j ∷ l) full (some f) s h u v = (refl, refl, rw (show_only_aspects f s.children) v)

pub recalculate-Drawn :
    (s : VideoLayout)
    → has_focus s.layout_ s.focused ≡ true
    → HasNoRepeats (with_aspect s.children)
    → Drawn s.layout_ s.focused (recalculate s)
unfolding recalculate
recalculate-Drawn s h u = sized s.has_size
  where
    items : (l : List ℕ) → HasNoRepeats l → Drawn s.layout_ s.focused (draw_some l s)
    items [] v = unfold draw_some in (refl, refl, u)
    items (i ∷ l) v = unfold draw_some in draw-Drawn i l s.layout_ s.focused s h v u

    sized :
        (b : Bool)
        → Drawn s.layout_ s.focused (if b then draw_some (with_aspect s.children) s else some s)
    sized true = items (with_aspect s.children) u
    sized false = (refl, refl, u)

pub set_layout_property-Drawn :
    (l : Layout) (s : VideoLayout)
    → has_focus l s.focused ≡ true
    → HasNoRepeats (with_aspect s.children)
    → Drawn l s.focused (set_layout_property l s)
unfolding set_layout_property
set_layout_property-Drawn l s h u = elim (Bool-cases (same_layout l s.layout_)) [
  | inl e ↦ rw (e, set_layout_property) (sym (same_layout→eq l s.layout_ e), refl, u)
  | inr e ↦
      rw (e, set_layout_property)
        (recalculate-Drawn (call (layout_changed l) (record s { layout_ = l })) h u)
]

-- What holds between the operations.
abbrev pub IsSound : VideoLayout → Type 0
IsSound s = (has_focus s.layout_ s.focused ≡ true) × HasNoRepeats (with_aspect s.children)

abbrev pub IsGood : Option VideoLayout → Type 0
IsGood none = ⊥
IsGood (some s) = IsSound s

pub Drawn-IsGood :
    (l : Layout) (f : Option ℕ) (o : Option VideoLayout)
    → has_focus l f ≡ true
    → Drawn l f o
    → IsGood o
Drawn-IsGood l f none h d = elim d [ ]
Drawn-IsGood l f (some s) h d = (ap2_focus d.0 d.1 ∙ h, d.2)
  where
    ap2_focus : s.layout_ ≡ l → s.focused ≡ f → has_focus s.layout_ s.focused ≡ has_focus l f
    ap2_focus a b = rw (a, b) refl
