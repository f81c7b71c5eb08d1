-- ===== src/AudioVolume/Current.antt =====
-- Every audio track is as the flags say, after every operation.
use fubble.Base.{
  ◌≡◌, refl, ◌≢◌, Bool, true, false, not, ◌||◌, String, same, Option, none, some, List, [], ◌∷◌,
  arith, if◌then◌else◌, text_discrete,
}
use fubble.Base.Map.{lookup, HasUniqueKeys}
use fubble.AudioVolume.{
  AudioTrack, AudioVolume, get_volume, get_muted, update_audio, update_audios, update_each,
  update_first,
}

module _ {Volume : Type 0} (full : Volume) where
  abbrev pub is_audible : AudioVolume Volume → String → Bool
  is_audible s id = not (s.muted_all_except_self || (s.deafned || get_muted full id s))

  -- A track of another participant is enabled exactly if nothing mutes it, and then has its volume.
  abbrev pub IsTuned : AudioVolume Volume → String → String → AudioTrack Volume → Type 0
  IsTuned s own_id id t = elim (same id own_id) [
    | true ↦ Unit {0}
    | false ↦
        (t.enabled ≡ is_audible s id)
        × (t.volume ≡ (if is_audible s id then get_volume full id s else t.volume))
  ]

  abbrev pub AllSet : AudioVolume Volume → String → String → List (AudioTrack Volume) → Type 0
  AllSet s own_id id [] = Unit {0}
  AllSet s own_id id (t ∷ l) = IsTuned s own_id id t × AllSet s own_id id l

  abbrev pub EachSet :
      AudioVolume Volume → String → List (String × List (AudioTrack Volume)) → Type 0
  EachSet s own_id [] = Unit {0}
  EachSet s own_id ((id, l) ∷ ps) = AllSet s own_id id l × EachSet s own_id ps

  abbrev pub AreSet :
      AudioVolume Volume → Option String → List (String × List (AudioTrack Volume)) → Type 0
  AreSet s none ps = Unit {0}
  AreSet s (some own_id) ps = EachSet s own_id ps × HasUniqueKeys text_discrete ps

  -- The participants' tracks are set, and the own one is enabled unless it is muted or deafened.
  pub record IsCurrent (s : AudioVolume Volume) : Type 0 where
    pub others : AreSet s s.room_ s.participants
    pub self_muted : s.actually_muted ≡ (s.muted_self || s.deafned)
    pub own_track : s.own_enabled ≡ not s.actually_muted

  pub update_audio-IsTuned :
      (s : AudioVolume Volume) (own_id id : String) (t : AudioTrack Volume)
      → IsTuned s own_id id (update_audio full s own_id id t)
  unfolding update_audio
  update_audio-IsTuned s own_id id t = ground arith

  update_audios-AllSet :
      (s : AudioVolume Volume) (own_id id : String) (l : List (AudioTrack Volume))
      → AllSet s own_id id (update_audios full s own_id id l)
  unfolding update_audios
  update_audios-AllSet s own_id id [] = tt
  update_audios-AllSet s own_id id (t ∷ l) =
      (update_audio-IsTuned s own_id id t, update_audios-AllSet s own_id id l)

  pub update_each-EachSet :
      (s : AudioVolume Volume) (own_id : String) (ps : List (String × List (AudioTrack Volume)))
      → EachSet s own_id (update_each full s own_id ps)
  unfolding update_each
  update_each-EachSet s own_id [] = tt
  update_each-EachSet s own_id ((id, l) ∷ ps) =
      (update_audios-AllSet s own_id id l, update_each-EachSet s own_id ps)

  update_each-lookup :
      (s : AudioVolume Volume) (own_id i : String) (ps : List (String × List (AudioTrack Volume)))
      → lookup text_discrete i ps ≡ none
      → lookup text_discrete i (update_each full s own_id ps) ≡ none
  unfolding update_each
  update_each-lookup s own_id i [] e = refl
  update_each-lookup s own_id i ((id, l) ∷ ps) e = ground (arith, update_each-lookup s own_id i ps)

  pub update_each-HasUniqueKeys :
      (s : AudioVolume Volume) (own_id : String) (ps : List (String × List (AudioTrack Volume)))
      → HasUniqueKeys text_discrete ps
      → HasUniqueKeys text_discrete (update_each full s own_id ps)
  unfolding update_each
  update_each-HasUniqueKeys s own_id [] u = tt
  update_each-HasUniqueKeys s own_id ((id, l) ∷ ps) u =
      (update_each-lookup s own_id id ps u.0, update_each-HasUniqueKeys s own_id ps u.1)

  -- Two states that agree on what the tracks of a participant depend on.
  abbrev pub Agree : AudioVolume Volume → AudioVolume Volume → String → Type 0
  Agree s s' id =
      (is_audible s id ≡ is_audible s' id) × (get_volume full id s ≡ get_volume full id s')

  pub AllSet-Agree :
      (s s' : AudioVolume Volume) (own_id id : String) (l : List (AudioTrack Volume))
      → Agree s s' id
      → AllSet s own_id id l
      → AllSet s' own_id id l
  AllSet-Agree s s' own_id id [] a h = tt
  AllSet-Agree s s' own_id id (t ∷ l) a h = (ground arith, AllSet-Agree s s' own_id id l a h.1)

  EachSet-Agree :
      (s s' : AudioVolume Volume) (own_id id : String)
      (ps : List (String × List (AudioTrack Volume)))
      → ((j : String) → j ≢ id → Agree s s' j)
      → lookup text_discrete id ps ≡ none
      → EachSet s own_id ps
      → EachSet s' own_id ps
  EachSet-Agree s s' own_id id [] a n h = tt
  EachSet-Agree s s' own_id id ((j, l) ∷ ps) a n h = (
    AllSet-Agree s s' own_id j l (a j (λ e. ground arith)) h.0,
    EachSet-Agree s s' own_id id ps a (ground arith) h.1,
  )

  pub update_first-EachSet :
      (s s' : AudioVolume Volume) (own_id id : String)
      (ps : List (String × List (AudioTrack Volume)))
      → ((j : String) → j ≢ id → Agree s s' j)
      → HasUniqueKeys text_discrete ps
      → EachSet s own_id ps
      → EachSet s' own_id (update_first full s' own_id id ps)
  unfolding update_first
  update_first-EachSet s s' own_id id [] a u h = tt
  update_first-EachSet s s' own_id id ((j, l) ∷ ps) a u h =
      elim (text_discrete j id)
        as (λ d. EachSet s' own_id (
          if (elim d [ yes _ ↦ true | no _ ↦ false ])
          then (j, update_audios full s' own_id j l) ∷ ps
          else (j, l) ∷ update_first full s' own_id id ps)) [
            | yes e ↦ (
              update_audios-AllSet s' own_id j l,
              EachSet-Agree s s' own_id id ps a (rw (← e) u.0) h.1,
            )
            | no ne ↦ (
              AllSet-Agree s s' own_id j l (a j ne) h.0,
              update_first-EachSet s s' own_id id ps a u.1 h.1,
            )
          ]

  update_first-lookup :
      (s : AudioVolume Volume) (own_id id i : String)
      (ps : List (String × List (AudioTrack Volume)))
      → lookup text_discrete i ps ≡ none
      → lookup text_discrete i (update_first full s own_id id ps) ≡ none
  unfolding update_first
  update_first-lookup s own_id id i [] e = refl
  update_first-lookup s own_id id i ((j, l) ∷ ps) e =
      ground (arith, update_first-lookup s own_id id i ps)

  pub update_first-HasUniqueKeys :
      (s : AudioVolume Volume) (own_id id : String) (ps : List (String × List (AudioTrack Volume)))
      → HasUniqueKeys text_discrete ps
      → HasUniqueKeys text_discrete (update_first full s own_id id ps)
  unfolding update_first
  update_first-HasUniqueKeys s own_id id [] u = tt
  update_first-HasUniqueKeys s own_id id ((j, l) ∷ ps) u =
      ground
        (arith, update_first-HasUniqueKeys s own_id id ps u.1, update_first-lookup s own_id id j ps)
