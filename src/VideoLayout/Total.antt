-- ===== src/VideoLayout/Total.antt =====
-- No operation dereferences a missing item.
use fubble.Base.{
  ℕ, ◌≡◌, refl, ap, ◌∙◌, Bool, true, false, ◌&&◌, ◌||◌, Option, none, some, is_some, List, [], ◌∷◌,
  arith, ◌==◌, if◌then◌else◌,
}
use fubble.VideoLayout.{
  Layout, grid, enlarged, full, same_layout, Child, VideoLayout, with_aspect, recalculate,
  set_layout_property, is_focused, next_layout, enlarge, shrink, shrink_to, clear_focused,
  remove_child, push_back, on_child_added, on_child_removed, on_resized, initial,
}
use fubble.VideoLayout.History.{
  Event, added, removed, resized, aspect_changed, enlarges, shrinks, sets, step, run, go_on,
}
use fubble.VideoLayout.Drawn.{
  contains, HasNoRepeats, has_focus, Drawn, recalculate-Drawn, set_layout_property-Drawn, IsSound,
  IsGood, Drawn-IsGood,
}

contains-push_back :
    (i : ℕ) (c : Child) (cs : List Child)
    → contains i (with_aspect (push_back cs c))
      ≡ (contains i (with_aspect cs) || (c.has_aspect && c.item == i))
unfolding with_aspect
contains-push_back i c [] = ground arith
contains-push_back i c (x ∷ cs) = ground (arith, contains-push_back i c cs)

push_back-HasNoRepeats :
    (c : Child) (cs : List Child)
    → contains c.item (with_aspect cs) ≡ false
    → HasNoRepeats (with_aspect cs)
    → HasNoRepeats (with_aspect (push_back cs c))
unfolding with_aspect
push_back-HasNoRepeats c [] h u = ground arith
push_back-HasNoRepeats c (x ∷ cs) h u =
    ground (arith, push_back-HasNoRepeats c cs, contains-push_back x.item c cs)

contains-remove_child :
    (i k : ℕ) (cs : List Child)
    → contains i (with_aspect cs) ≡ false
    → contains i (with_aspect (remove_child k cs)) ≡ false
unfolding with_aspect remove_child
contains-remove_child i k [] h = refl
contains-remove_child i k (x ∷ cs) h = ground (arith, contains-remove_child i k cs)

remove_child-HasNoRepeats :
    (k : ℕ) (cs : List Child)
    → HasNoRepeats (with_aspect cs)
    → HasNoRepeats (with_aspect (remove_child k cs))
unfolding with_aspect remove_child
remove_child-HasNoRepeats k [] u = tt
remove_child-HasNoRepeats k (x ∷ cs) u =
    ground (arith, remove_child-HasNoRepeats k cs, contains-remove_child x.item k cs)

-- An item that is added is not there already, and a layout other than the grid is only set while
-- something is focused.
abbrev pub IsProper : Event → VideoLayout → Type 0
IsProper (added c) s = contains c.item (with_aspect s.children) ≡ false
IsProper (sets l) s = has_focus l s.focused ≡ true
IsProper _ s = Unit {0}

recalculate-IsGood : (s : VideoLayout) → IsSound s → IsGood (recalculate s)
recalculate-IsGood s v = Drawn-IsGood s.layout_ s.focused _ v.0 (recalculate-Drawn s v.0 v.1)

set_layout_property-IsGood :
    (l : Layout) (s : VideoLayout)
    → has_focus l s.focused ≡ true
    → IsSound s
    → IsGood (set_layout_property l s)
set_layout_property-IsGood l s h v =
    Drawn-IsGood l s.focused _ h (set_layout_property-Drawn l s h v.1)

enlarge-IsGood : (i : ℕ) (s : VideoLayout) → IsSound s → IsGood (enlarge i s)
unfolding enlarge same_layout
enlarge-IsGood i s v = branch (if is_focused s.focused i then true else same_layout s.layout_ grid)
  where
    t : VideoLayout
    t = record s { focused = some i }

    focus : (l : Layout) → has_focus l (some i) ≡ true
    focus l = ground arith

    branch :
        (b : Bool)
        → IsGood (if b then set_layout_property (next_layout s.layout_) t else recalculate t)
    branch true = set_layout_property-IsGood (next_layout s.layout_) t (focus _) (focus _, v.1)
    branch false = recalculate-IsGood t (focus s.layout_, v.1)

on_child_added-IsGood :
    (c : Child) (s : VideoLayout)
    → contains c.item (with_aspect s.children) ≡ false
    → IsSound s
    → IsGood (on_child_added c s)
unfolding on_child_added
on_child_added-IsGood c s h v = branch c.has_aspect
  where
    t : VideoLayout
    t = record s { children = push_back s.children c }

    sound : IsSound t
    sound = (v.0, push_back-HasNoRepeats c s.children h v.1)

    branch : (b : Bool) → IsGood (if b then recalculate t else some t)
    branch true = recalculate-IsGood t sound
    branch false = sound

clear_focused-IsGood :
    (s : VideoLayout)
    → HasNoRepeats (with_aspect s.children)
    → IsGood (elim (clear_focused s) [ none ↦ none | some t ↦ recalculate t ])
unfolding clear_focused same_layout
clear_focused-IsGood s u =
    cleared (set_layout_property grid s)
      (set_layout_property-Drawn grid s (unfold same_layout in refl) u)
  where
    cleared :
        (o : Option VideoLayout)
        → Drawn grid s.focused o
        → IsGood
            (elim (elim o as (λ x. Option VideoLayout) [
              | none ↦ none
              | some s' ↦ some (record s' { focused = none })
            ]) [ none ↦ none | some t ↦ recalculate t ])
    cleared none d = elim d [ ]
    cleared (some t) d =
        recalculate-IsGood (record t { focused = none }) (ap (λ l. has_focus l none) d.0, d.2)

on_child_removed-IsGood : (i : ℕ) (s : VideoLayout) → IsSound s → IsGood (on_child_removed i s)
unfolding on_child_removed
on_child_removed-IsGood i s v = branch (is_focused s.focused i)
  where
    t : VideoLayout
    t = record s { children = remove_child i s.children }

    branch :
        (b : Bool)
        → IsGood (
            if b
            then elim (clear_focused t) [ none ↦ none | some t' ↦ recalculate t' ]
            else recalculate t)
    branch true = clear_focused-IsGood t (remove_child-HasNoRepeats i s.children v.1)
    branch false = recalculate-IsGood t (v.0, remove_child-HasNoRepeats i s.children v.1)

shrink_to-IsGood :
    (l : Layout) (s : VideoLayout) → l ≡ s.layout_ → IsSound s → IsGood (shrink_to l s)
unfolding shrink_to
shrink_to-IsGood grid s e v = v
shrink_to-IsGood enlarged s e v = set_layout_property-IsGood grid s (unfold same_layout in refl) v
shrink_to-IsGood full s e v =
    set_layout_property-IsGood full s (ap (λ l. has_focus l s.focused) e ∙ v.0) v

step-IsGood : (e : Event) (s : VideoLayout) → IsProper e s → IsSound s → IsGood (step e s)
unfolding step on_resized shrink
step-IsGood (added c) s p v = on_child_added-IsGood c s p v
step-IsGood (removed i) s p v = on_child_removed-IsGood i s v
step-IsGood (resized b) s p v = recalculate-IsGood (record s { has_size = b }) v
step-IsGood aspect_changed s p v = recalculate-IsGood s v
step-IsGood (enlarges i) s p v = enlarge-IsGood i s v
step-IsGood (shrinks i) s p v = shrink_to-IsGood s.layout_ s refl v
step-IsGood (sets l) s p v = set_layout_property-IsGood l s p v

-- A property of the state that a step leads to, if there is one.
abbrev pub Afterwards : (VideoLayout → Type 0) → Option VideoLayout → Type 0
Afterwards P none = Unit {0}
Afterwards P (some t) = P t

abbrev pub AreProper : List Event → VideoLayout → Type 0
AreProper [] s = Unit {0}
AreProper (e ∷ es) s = IsProper e s × Afterwards (AreProper es) (step e s)

run-IsGood : (es : List Event) (s : VideoLayout) → AreProper es s → IsSound s → IsGood (run es s)
unfolding run
run-IsGood [] s p v = v
run-IsGood (e ∷ es) s p v =
    next (λ t q g. run-IsGood es t q g) (step e s) p.1 (step-IsGood e s p.0 v)
  where
    next :
        ((t : VideoLayout) → AreProper es t → IsSound t → IsGood (run es t))
        → (o : Option VideoLayout) → Afterwards (AreProper es) o
        → IsGood o
        → IsGood (go_on o (run es))
    next go none q g = elim g [ ]
    next go (some t) q g = go t q g

-- No history dereferences a missing item, as long as no item is added twice and no layout but the
-- grid is set while nothing is focused.
pub run-initial-some : (es : List Event) → AreProper es initial → is_some (run es initial) ≡ true
run-initial-some es p =
    good (run es initial) (run-IsGood es initial p (unfold same_layout with_aspect in (refl, tt)))
  where
    good : (o : Option VideoLayout) → IsGood o → is_some o ≡ true
    good none g = elim g [ ]
    good (some s) g = refl
