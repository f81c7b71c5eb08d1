-- ===== src/Video/Sharing.antt =====
-- The operations of desktop sharing keep what holds of it and of the camera.
use fubble.Base.{
  ℕ, suc, ◌≡◌, refl, sym, ap, ◌∙◌, subst, Bool, true, false, String, Option, none, some, is_some,
  arith, if◌then◌else◌,
}
use fubble.Video.{Video, Outcome, done, and_then}
use fubble.Video.Settings.{pause}
use fubble.Video.Desktop.{stop_or_reset, unpause_video, reset, on_video_paused, on_paused}
use fubble.Video.Sound.{On, and_then-On, weaken, IsRegistered, Kept}
use fubble.Video.Pause.{unpausing-On}
use fubble.Video.Stopped.{IsCapturer, IsConsistent, IsStopped, stop_or_reset-On}

-- Nothing is shared.
pub record IsQuiet (s : Video) : Type 0 where
  pub sound : IsConsistent s
  pub set_capturer : s.set_capturer ≡ none
  pub video_adder : s.video_adder ≡ none

-- And nothing is to be unpaused.
pub record IsReset (s : Video) : Type 0 where
  pub quiet : IsQuiet s
  pub did_pause : s.did_pause ≡ false

quieted :
    (s : Video)
    → IsRegistered s
    → s.set_capturer ≡ none
    → s.video_adder ≡ none
    → s.started ≡ false
    → IsQuiet s
quieted s v n a b = record {
  sound = record { set = v; capturer = rw (n, a) b };
  set_capturer = n;
  video_adder = a;
}

let_go-IsRegistered :
    (b : Bool) (s : Video) → IsRegistered s → IsRegistered (record s { did_pause = b })
let_go-IsRegistered b s v = record {
  camera = v.camera;
  tracks = v.tracks;
  attached = v.attached;
  videos = v.videos;
}

-- A state of which the desktop's part is that of a reset one.
follows-IsReset : (s t : Video) → IsReset s → Kept s t → IsReset t
follows-IsReset s t v h = record {
  quiet =
      quieted t h.set (h.same.set_capturer ∙ v.quiet.set_capturer)
        (h.same.video_adder ∙ v.quiet.video_adder)
        (h.same.started
          ∙ not_started s.set_capturer s.video_adder v.quiet.set_capturer v.quiet.sound.capturer);
  did_pause = h.same.did_pause ∙ v.did_pause;
}
  where
    not_started : (n a : Option ℕ) → n ≡ none → IsCapturer n a s.started → s.started ≡ false
    not_started none none e c = c
    not_started none (some a) e c = elim c [ ]
    not_started (some n) a e c = ground arith

empty :
    (n a : Option ℕ) (b : Bool)
    → is_some n ≡ false
    → IsCapturer n a b
    → (n ≡ none) × (a ≡ none) × (b ≡ false)
empty none none b e c = (refl, refl, c)
empty none (some a) b e c = elim c [ ]
empty (some n) a b e c = ground arith

pub none-IsQuiet : (s : Video) → IsConsistent s → is_some s.set_capturer ≡ false → IsQuiet s
none-IsQuiet s v e =
    let (n, a, b) = empty s.set_capturer s.video_adder s.started e v.capturer in
    record { sound = v; set_capturer = n; video_adder = a }

unpause_video-done :
    (opens : String → Bool) (l : Bool → Video → Outcome) (s : Video)
    → s.did_pause ≡ false
    → unpause_video opens l s ≡ done s
unfolding unpause_video
unpause_video-done opens l s e = rw e refl

-- Nobody listens any deeper: what was paused by the desktop is forgotten first.
module _ (opens : String → Bool) (n : ℕ) where
  -- The video goes on: whatever is shared ends.
  pub unpaused-On :
      (s : Video)
      → IsRegistered s
      → IsCapturer s.set_capturer s.video_adder s.started
      → On IsReset (λ t. ⊥) (on_paused (suc n) opens false s)
  unfolding on_paused on_video_paused reset
  unpaused-On s v c = branch (is_some s.set_capturer) refl
    where
      s' : Video
      s' = record s { did_pause = false }

      branch :
          (b : Bool)
          → is_some s.set_capturer ≡ b
          → On IsReset
              (λ t. ⊥)
              (if b
                then and_then (stop_or_reset s') (unpause_video opens (on_paused n opens))
                else done s')
      branch true e =
          and_then-On (IsStopped s') IsReset (λ t. ⊥) (stop_or_reset s') _
            (stop_or_reset-On s' (let_go-IsRegistered false s v) c)
            (λ t h.
              subst (On IsReset (λ u. ⊥))
                (sym (unpause_video-done opens (on_paused n opens) t h.did_pause))
                (record {
                  quiet = quieted t h.set h.set_capturer h.video_adder h.started;
                  did_pause = h.did_pause;
                }))
      branch false e =
          let (m, a, b) = empty s.set_capturer s.video_adder s.started e c in
          record { quiet = quieted s' (let_go-IsRegistered false s v) m a b; did_pause = refl }

  unpause_video-On :
      (s : Video) → IsQuiet s → On IsReset IsReset (unpause_video opens (on_paused (suc n) opens) s)
  unfolding unpause_video
  unpause_video-On s v = branch s.did_pause refl
    where
      s' : Video
      s' = record s { did_pause = false }

      reset' : IsReset s'
      reset' = record {
        quiet =
            quieted s' (let_go-IsRegistered false s v.sound.set) v.set_capturer v.video_adder
              (empty s.set_capturer s.video_adder s.started (ap (λ o. is_some o) v.set_capturer)
                v.sound.capturer).2;
        did_pause = refl;
      }

      branch :
          (b : Bool)
          → s.did_pause ≡ b
          → On IsReset IsReset
              (if b then pause opens (on_paused (suc n) opens) false s' else done s)
      branch false e = record { quiet = v; did_pause = e }
      branch true e =
          unpausing-On IsReset IsReset opens (on_paused (suc n) opens) s'
            (let_go-IsRegistered false s v.sound.set) (λ _. reset')
            (λ _ h. follows-IsReset s' _ reset' h) (λ t h p. follows-IsReset s' t reset' h)
            (λ t h p.
              weaken IsReset IsReset (λ _. ⊥) IsReset (on_paused (suc n) opens false t) (λ u w. w)
                (λ u w. elim w [ ])
                (unpaused-On t h.set (follows-IsReset s' t reset' h).quiet.sound.capturer))

  pub reset-On :
      (s : Video) → IsConsistent s → On IsReset IsReset (reset opens (on_paused (suc n) opens) s)
  unfolding reset
  reset-On s v =
      and_then-On (IsStopped s) IsReset IsReset (stop_or_reset s) _
        (weaken (IsStopped s) (IsStopped s) (λ _. ⊥) IsReset (stop_or_reset s) (λ u w. w)
          (λ u w. elim w [ ]) (stop_or_reset-On s v.set v.capturer))
        (λ t h. unpause_video-On t (quieted t h.set h.set_capturer h.video_adder h.started))
