-- ===== src/Previews/Started.antt =====
-- That the previews run exactly between start and stop.
use fubble.Base.{
  ℕ, ◌≤◌, ◌≡◌, ◌∙◌, Bool, true, false, Bool-cases, inl, inr, sym, subst, Option, none, some, List,
  [], All, arith, if◌then◌else◌,
}
use fubble.Base.Runs.{Holds, Fits, run, run-Fits}
use fubble.Previews.{
  Preview, Previews, CaptureResult, success, error_temporary, error_permanent, stop_all, start_all,
  has_id, create_previews, enumerate, start, stop, on_capturer_stopped, on_captured,
}
use fubble.Previews.Kept.{
  AreStarted, AreOf, count, count_id, stop_all-AreStarted, start_all-AreStarted, count-start_all,
  start_all-AreOf, IsKept, create_previews-IsKept, erased-AreStarted, erased-AreOf, count-erased,
  set_stopped-none, has_id-set_stopped, erase-none, has_id-of,
}

pub data Event : Type 0 where
  starts ticks : (ℕ → Bool) → (ℕ → Bool) → List ℕ → List ℕ → Event
  stops : Event
  captures : Bool → ℕ → CaptureResult → Event

-- `s.1` is whether the user looks at the previews, between start and stop.
unfoldable pub step : Event → Previews × Bool → Option (Previews × Bool)
unfolding start enumerate stop on_captured
step (starts cs cw ss ws) (s, b) = some ((start cs cw ss ws s).1, true)
step (ticks cs cw ss ws) (s, b) = some ((enumerate cs cw ss ws s).1, b)
step stops (s, b) = elim (stop s) as (λ _. Option (Previews × Bool)) [
  | none ↦ none
  | some t ↦ some (t, false)
]
step (captures is_screen id r) (s, b) = some (on_captured is_screen id r s, b)

module _ (is_screen : ℕ → Bool) where
  -- The enumerator finds each source once, and ids tell screens from windows.
  abbrev pub IsEnumerated : List ℕ → List ℕ → Type 0
  IsEnumerated ss ws =
      All (λ i. is_screen i ≡ true) ss
      × All (λ i. is_screen i ≡ false) ws
      × ((id : ℕ) → count_id id ss ≤ 1)
      × ((id : ℕ) → count_id id ws ≤ 1)

  -- It is started when it is stopped, and stopped when it is started; the timer and the capturers
  -- come in between.
  abbrev pub Needs : Event → Previews × Bool → Type 0
  Needs (starts cs cw ss ws) s = IsEnumerated ss ws × (s.1 ≡ false)
  Needs (ticks cs cw ss ws) s = IsEnumerated ss ws × (s.1 ≡ true)
  Needs stops s = s.1 ≡ true
  Needs (captures b id r) s = (s.1 ≡ true) × (is_screen id ≡ b)

  -- Every preview runs exactly while the user looks, is of its kind, and is there once.
  pub record AreRunning (s : Previews × Bool) : Type 0 where
    pub windows : AreStarted s.1 s.0.window_previews
    pub screens : AreStarted s.1 s.0.screen_previews
    pub windows_of : AreOf is_screen false s.0.window_previews
    pub screens_of : AreOf is_screen true s.0.screen_previews
    pub windows_once : (id : ℕ) → count id s.0.window_previews ≤ 1
    pub screens_once : (id : ℕ) → count id s.0.screen_previews ≤ 1

  of_kept :
      (s : Previews)
      → IsKept is_screen false s.window_previews
      → IsKept is_screen true s.screen_previews
      → AreRunning (s, true)
  of_kept s w r = record {
    windows = w.0;
    screens = r.0;
    windows_of = w.1;
    screens_of = r.1;
    windows_once = w.2;
    screens_once = r.2;
  }

  enumerate-AreRunning :
      (cs cw : ℕ → Bool) (ss ws : List ℕ) (s : Previews)
      → IsEnumerated ss ws
      → IsKept is_screen false s.window_previews
      → IsKept is_screen true s.screen_previews
      → AreRunning ((enumerate cs cw ss ws s).1, true)
  unfolding enumerate
  enumerate-AreRunning cs cw ss ws s e w r = branch (create_previews cs ss s.screen_previews).0
    where
      branch :
          (c : Bool)
          → let r : Bool × Previews =
              if c
              then (
                (create_previews cw ws s.window_previews).0,
                record {
                  window_previews = (create_previews cw ws s.window_previews).1;
                  screen_previews = (create_previews cs ss s.screen_previews).1;
                  timer = s.timer;
                },
              )
              else (
                false,
                record s { screen_previews = (create_previews cs ss s.screen_previews).1 },
              ) in
            AreRunning (r.1, true)
      branch true =
          of_kept _ (create_previews-IsKept cw is_screen false ws s.window_previews w e.1 e.3)
            (create_previews-IsKept cs is_screen true ss s.screen_previews r e.0 e.2)
      branch false =
          of_kept _ w (create_previews-IsKept cs is_screen true ss s.screen_previews r e.0 e.2)

  start-AreRunning :
      (cs cw : ℕ → Bool) (ss ws : List ℕ) (s : Previews)
      → IsEnumerated ss ws
      → AreRunning (s, false)
      → AreRunning ((start cs cw ss ws s).1, true)
  unfolding start
  start-AreRunning cs cw ss ws s e v =
      let t : Previews = record s {
        window_previews = start_all s.window_previews;
        screen_previews = start_all s.screen_previews;
      } in
      let w =
        enumerate-AreRunning cs cw ss ws t e
          (
            start_all-AreStarted s.window_previews,
            start_all-AreOf is_screen false s.window_previews v.windows_of,
            λ id. omega (arith, v.windows_once id, count-start_all id s.window_previews),
          )
          (
            start_all-AreStarted s.screen_previews,
            start_all-AreOf is_screen true s.screen_previews v.screens_of,
            λ id. omega (arith, v.screens_once id, count-start_all id s.screen_previews),
          ) in
      record {
        windows = w.windows;
        screens = w.screens;
        windows_of = w.windows_of;
        screens_of = w.screens_of;
        windows_once = w.windows_once;
        screens_once = w.screens_once;
      }

  stop_lem :
      (s : Previews) (w r : List Preview)
      → stop_all s.window_previews ≡ some w
      → stop_all s.screen_previews ≡ some r
      → stop s ≡ some (record { window_previews = w; screen_previews = r; timer = false })
  unfolding stop
  stop_lem s w r a e = rw (a, e, stop)

  stop-AreRunning : (s : Previews) → AreRunning (s, true) → Holds AreRunning (step stops (s, true))
  unfolding step
  stop-AreRunning s v =
      let (w, a, b, c, d) = stop_all-AreStarted s.window_previews v.windows in
      let (r, e, f, g, h) = stop_all-AreStarted s.screen_previews v.screens in
      rw (step, stop_lem s w r a e)
        (record {
          windows = b;
          screens = f;
          windows_of = d is_screen false v.windows_of;
          screens_of = h is_screen true v.screens_of;
          windows_once = λ id. omega (arith, c id, v.windows_once id);
          screens_once = λ id. omega (arith, g id, v.screens_once id);
        })

  captured-AreRunning :
      (b : Bool) (id : ℕ) (r : CaptureResult) (s : Previews)
      → is_screen id ≡ b
      → AreRunning (s, true)
      → AreRunning (on_captured b id r s, true)
  unfolding on_captured on_capturer_stopped
  captured-AreRunning b id success s k v = v
  captured-AreRunning b id error_temporary s k v = v
  captured-AreRunning true id error_permanent s k v =
      rw (has_id-of is_screen false id s.window_previews v.windows_of (k)) (record {
        windows = v.windows;
        screens = erased-AreStarted id s.screen_previews v.screens;
        windows_of = v.windows_of;
        screens_of = erased-AreOf is_screen true id s.screen_previews v.screens_of;
        windows_once = v.windows_once;
        screens_once = λ i. omega (arith, v.screens_once i, count-erased id i s.screen_previews);
      })
  captured-AreRunning false id error_permanent s k v =
      elim (Bool-cases (has_id id s.window_previews)) [
        | inl h ↦ rw (has_id-set_stopped id s.window_previews ∙ h) (record {
          windows = erased-AreStarted id s.window_previews v.windows;
          screens = v.screens;
          windows_of = erased-AreOf is_screen false id s.window_previews v.windows_of;
          screens_of = v.screens_of;
          windows_once = λ i. omega (arith, v.windows_once i, count-erased id i s.window_previews);
          screens_once = v.screens_once;
        })
        | inr h ↦
            rw
              (
                has_id-set_stopped id s.window_previews ∙ h,
                set_stopped-none id s.window_previews h,
                erase-none id s.screen_previews
                    (has_id-of is_screen true id s.screen_previews v.screens_of (k)),
              )
              (record {
                windows = v.windows;
                screens = v.screens;
                windows_of = v.windows_of;
                screens_of = v.screens_of;
                windows_once = v.windows_once;
                screens_once = v.screens_once;
              })
      ]

  step-AreRunning :
      (e : Event) (s : Previews × Bool) → Needs e s → AreRunning s → Holds AreRunning (step e s)
  unfolding step
  step-AreRunning (starts cs cw ss ws) (s, b) n v =
      start-AreRunning cs cw ss ws s n.0 (subst (λ (c : Bool). AreRunning (s, c)) n.1 v)
  step-AreRunning (ticks cs cw ss ws) (s, b) n v =
      let w = subst (λ (c : Bool). AreRunning (s, c)) n.1 v in
      subst (λ (c : Bool). AreRunning ((enumerate cs cw ss ws s).1, c)) (sym n.1)
        (enumerate-AreRunning cs cw ss ws s n.0 (w.windows, w.windows_of, w.windows_once)
          (w.screens, w.screens_of, w.screens_once))
  step-AreRunning stops (s, b) n v =
      subst (λ (c : Bool). Holds AreRunning (step stops (s, c))) (sym n)
        (stop-AreRunning s (subst (λ (c : Bool). AreRunning (s, c)) n v))
  step-AreRunning (captures k id r) (s, b) n v =
      subst (λ (c : Bool). AreRunning (on_captured k id r s, c)) (sym n.0)
        (captured-AreRunning k id r s n.1 (subst (λ (c : Bool). AreRunning (s, c)) n.0 v))

  abbrev pub initial : Previews × Bool
  initial = (record { window_previews = []; screen_previews = []; timer = false }, false)

  -- Whatever sources come and go, whichever of them cannot be captured, at first or later, and
  -- however often the user looks and turns away, if no window has the id of a screen: no null promise
  -- is asked, there is one preview for each source that has one, and all previews run exactly while
  -- the user looks.
  pub run-initial-AreRunning :
      (es : List Event)
      → Fits step Needs es initial
      → (s : Previews × Bool) × (run step es initial ≡ some s) × AreRunning s
  run-initial-AreRunning es f =
      run-Fits step Needs AreRunning step-AreRunning es initial f (record {
        windows = tt;
        screens = tt;
        windows_of = tt;
        screens_of = tt;
        windows_once = λ i. omega arith;
        screens_once = λ i. omega arith;
      })
