-- ===== src/AudioVolume/Operations.antt =====
-- Every operation keeps the tracks as the flags say.
use fubble.Base.{
  ◌≡◌, refl, ◌≢◌, Bool, not, ◌||◌, String, same, Option, none, some, List, [], ◌∷◌, arith,
  text_discrete, inl, inr, Bool-cases, sym, subst,
}
use mathlib.Core.Option.{some-injective}
use fubble.Base.Map.{lookup, lookup-insert, HasUniqueKeys}
use fubble.AudioVolume.{
  AudioTrack, AudioSetting, AudioVolume, get_volume, get_muted, update_all_participants, update_in,
  equal, update_first, update_participant_in, set_setting, update_self_muted, mute_all_except_self,
  mute_self, deafen, add_audio, add_audio_in, on_audio_added, remove_id, participant_removed,
}
use fubble.AudioVolume.Current.{
  IsCurrent, AreSet, EachSet, Agree, AllSet-Agree, update_first-EachSet, update_first-HasUniqueKeys,
  update_each-EachSet, update_each-HasUniqueKeys, update_audio-IsTuned,
}

module _ {Volume : Type 0} (full : Volume) where
  pub update_in-AreSet :
      (o : Option String) (s : AudioVolume Volume) (ps : List (String × List (AudioTrack Volume)))
      → HasUniqueKeys text_discrete ps
      → AreSet full s o (update_in full o s ps)
  unfolding update_in
  update_in-AreSet none s ps u = tt
  update_in-AreSet (some own_id) s ps u =
      (update_each-EachSet full s own_id ps, update_each-HasUniqueKeys full s own_id ps u)

  -- The tracks do not depend on how they were before.
  redo-AreSet :
      (o : Option String) (s s' : AudioVolume Volume)
      (ps : List (String × List (AudioTrack Volume)))
      → AreSet full s o ps
      → AreSet full s' o (update_in full o s' ps)
  redo-AreSet none s s' ps h = unfold update_in in tt
  redo-AreSet (some own_id) s s' ps h = update_in-AreSet (some own_id) s' ps h.1

  pub mute_all-IsCurrent :
      (b : Bool) (s : AudioVolume Volume)
      → IsCurrent full s
      → IsCurrent full (mute_all_except_self full b s)
  unfolding mute_all_except_self update_all_participants update_in get_muted get_volume
  mute_all-IsCurrent b s v = elim (Bool-cases (equal full s.muted_all_except_self b)) [
    | inl e ↦ rw (e, mute_all_except_self) v
    | inr e ↦
        rw (e, mute_all_except_self)
          (record {
            others =
                redo-AreSet s.room_ s (record s { muted_all_except_self = b }) s.participants
                  v.others;
            self_muted = v.self_muted;
            own_track = v.own_track;
          })
  ]

  EachSet-all :
      (s s' : AudioVolume Volume) (own_id : String) (ps : List (String × List (AudioTrack Volume)))
      → ((j : String) → Agree full s s' j)
      → EachSet full s own_id ps
      → EachSet full s' own_id ps
  EachSet-all s s' own_id [] a h = tt
  EachSet-all s s' own_id ((j, l) ∷ ps) a h =
      (AllSet-Agree full s s' own_id j l (a j) h.0, EachSet-all s s' own_id ps a h.1)

  pub AreSet-all :
      (o : Option String) (s s' : AudioVolume Volume)
      (ps : List (String × List (AudioTrack Volume)))
      → ((j : String) → Agree full s s' j)
      → AreSet full s o ps
      → AreSet full s' o ps
  AreSet-all none s s' ps a h = tt
  AreSet-all (some own_id) s s' ps a h = (EachSet-all s s' own_id ps a h.0, h.1)

  abbrev self_updated : AudioVolume Volume → AudioVolume Volume
  self_updated s =
      let target = s.muted_self || s.deafned in
      record s { actually_muted = target; own_enabled = not target }

  -- `update_self_muted` touches nothing that the others' tracks depend on.
  update_self_muted-IsCurrent :
      (s : AudioVolume Volume)
      → AreSet full s s.room_ s.participants
      → s.own_enabled ≡ not s.actually_muted
      → IsCurrent full (update_self_muted full s)
  unfolding update_self_muted get_muted get_volume
  update_self_muted-IsCurrent s h own =
      elim (Bool-cases (equal full s.actually_muted (s.muted_self || s.deafned))) [
        | inl e ↦
            rw (e, update_self_muted)
              (record { others = h; self_muted = ground arith; own_track = own })
        | inr e ↦
            rw (e, update_self_muted)
              (record {
                others = AreSet-all s.room_ s (self_updated s) s.participants (λ j. (refl, refl)) h;
                self_muted = refl;
                own_track = refl;
              })
      ]

  pub mute_self-IsCurrent :
      (b : Bool) (s : AudioVolume Volume) → IsCurrent full s → IsCurrent full (mute_self full b s)
  unfolding mute_self get_muted get_volume
  mute_self-IsCurrent b s v = elim (Bool-cases (equal full b s.muted_self)) [
    | inl e ↦ rw (e, mute_self) v
    | inr e ↦
        rw (e, mute_self)
          (update_self_muted-IsCurrent (record s { muted_self = b })
            (AreSet-all s.room_ s (record s { muted_self = b }) s.participants (λ j. (refl, refl))
              v.others)
            v.own_track)
  ]

  pub deafen-IsCurrent :
      (b : Bool) (s : AudioVolume Volume) → IsCurrent full s → IsCurrent full (deafen full b s)
  unfolding deafen update_all_participants update_in get_muted get_volume
  deafen-IsCurrent b s v = elim (Bool-cases (equal full s.deafned b)) [
    | inl e ↦ rw (e, deafen) v
    | inr e ↦
        rw (e, deafen)
          (update_self_muted-IsCurrent _
            (redo-AreSet s.room_ s (record s { deafned = b }) s.participants v.others) v.own_track)
  ]

  set_setting_others :
      (id j : String) (x : AudioSetting Volume) (s : AudioVolume Volume)
      → j ≢ id
      → Agree full s (set_setting full id x s) j
  unfolding set_setting get_muted get_volume
  set_setting_others id j x s ne = ground (arith, lookup-insert text_discrete id j x s.settings)

  pub set_setting-IsCurrent :
      (o : Option String) (id : String) (x : AudioSetting Volume) (s : AudioVolume Volume)
      {s' : AudioVolume Volume}
      → s.room_ ≡ o
      → IsCurrent full s
      → update_participant_in full o id (set_setting full id x s) ≡ some s'
      → IsCurrent full s'
  unfolding update_participant_in set_setting update_first get_muted get_volume
  set_setting-IsCurrent none id x s e v h = cc
  set_setting-IsCurrent (some own_id) id x s {s'} e v h =
      let t = set_setting full id x s in
      let others : AreSet full s (some own_id) s.participants =
        subst (λ o. AreSet full s o s.participants) e v.others in
      subst (IsCurrent full) (some-injective _ _ h) (record {
        others =
            subst (λ o. AreSet full t o (update_first full t own_id id s.participants)) (sym e)
              (
                update_first-EachSet full s t own_id id s.participants
                    (λ j ne. set_setting_others id j x s ne) others.1 others.0,
                update_first-HasUniqueKeys full t own_id id s.participants others.1,
              );
        self_muted = v.self_muted;
        own_track = v.own_track;
      })

  add_audio-lookup :
      (s : AudioVolume Volume) (own_id id i : String) (t : AudioTrack Volume)
      (ps : List (String × List (AudioTrack Volume)))
      → lookup text_discrete i ps ≡ none
      → lookup text_discrete i (add_audio full s own_id id t ps) ≡ none
  unfolding add_audio
  add_audio-lookup s own_id id i t [] e = refl
  add_audio-lookup s own_id id i t ((j, l) ∷ ps) e =
      ground (arith, add_audio-lookup s own_id id i t ps)

  add_audio-HasUniqueKeys :
      (s : AudioVolume Volume) (own_id id : String) (t : AudioTrack Volume)
      (ps : List (String × List (AudioTrack Volume)))
      → HasUniqueKeys text_discrete ps
      → HasUniqueKeys text_discrete (add_audio full s own_id id t ps)
  unfolding add_audio
  add_audio-HasUniqueKeys s own_id id t [] u = tt
  add_audio-HasUniqueKeys s own_id id t ((j, l) ∷ ps) u =
      ground
        (arith, add_audio-HasUniqueKeys s own_id id t ps u.1, add_audio-lookup s own_id id j t ps)

  add_audio-EachSet :
      (s : AudioVolume Volume) (own_id id : String) (t : AudioTrack Volume)
      (ps : List (String × List (AudioTrack Volume)))
      → EachSet full s own_id ps
      → EachSet full s own_id (add_audio full s own_id id t ps)
  unfolding add_audio
  add_audio-EachSet s own_id id t [] h = tt
  add_audio-EachSet s own_id id t ((j, l) ∷ ps) h = elim (Bool-cases (same j id)) [
    | inl e ↦ rw (e, add_audio) ((update_audio-IsTuned full s own_id j t, h.0), h.1)
    | inr e ↦ rw (e, add_audio) (h.0, add_audio-EachSet s own_id id t ps h.1)
  ]

  add_audio_in-AreSet :
      (o : Option String) (s : AudioVolume Volume) (id : String) (t : AudioTrack Volume)
      (ps : List (String × List (AudioTrack Volume)))
      → AreSet full s o ps
      → AreSet full s o (add_audio_in full o s id t ps)
  unfolding add_audio_in
  add_audio_in-AreSet none s id t ps h = tt
  add_audio_in-AreSet (some own_id) s id t ps h =
      (add_audio-EachSet s own_id id t ps h.0, add_audio-HasUniqueKeys s own_id id t ps h.1)

  pub on_audio_added-IsCurrent :
      (id : String) (t : AudioTrack Volume) (s : AudioVolume Volume)
      → IsCurrent full s
      → IsCurrent full (on_audio_added full id t s)
  unfolding on_audio_added get_muted get_volume
  on_audio_added-IsCurrent id t s v = record {
    others =
        AreSet-all s.room_ s (on_audio_added full id t s) _ (λ j. (refl, refl))
          (add_audio_in-AreSet s.room_ s id t s.participants v.others);
    self_muted = v.self_muted;
    own_track = v.own_track;
  }

  remove_id-lookup :
      (id i : String) (ps : List (String × List (AudioTrack Volume)))
      → lookup text_discrete i ps ≡ none
      → lookup text_discrete i (remove_id full id ps) ≡ none
  unfolding remove_id
  remove_id-lookup id i [] e = refl
  remove_id-lookup id i ((j, l) ∷ ps) e = ground (arith, remove_id-lookup id i ps)

  remove_id-HasUniqueKeys :
      (id : String) (ps : List (String × List (AudioTrack Volume)))
      → HasUniqueKeys text_discrete ps
      → HasUniqueKeys text_discrete (remove_id full id ps)
  unfolding remove_id
  remove_id-HasUniqueKeys id [] u = tt
  remove_id-HasUniqueKeys id ((j, l) ∷ ps) u =
      ground (arith, remove_id-HasUniqueKeys id ps u.1, remove_id-lookup id j ps)

  remove_id-EachSet :
      (s : AudioVolume Volume) (own_id id : String) (ps : List (String × List (AudioTrack Volume)))
      → EachSet full s own_id ps
      → EachSet full s own_id (remove_id full id ps)
  unfolding remove_id
  remove_id-EachSet s own_id id [] h = tt
  remove_id-EachSet s own_id id ((j, l) ∷ ps) h = elim (Bool-cases (same j id)) [
    | inl e ↦ rw (e, remove_id) h.1
    | inr e ↦ rw (e, remove_id) (h.0, remove_id-EachSet s own_id id ps h.1)
  ]

  remove_id-AreSet :
      (o : Option String) (s : AudioVolume Volume) (id : String)
      (ps : List (String × List (AudioTrack Volume)))
      → AreSet full s o ps
      → AreSet full s o (remove_id full id ps)
  remove_id-AreSet none s id ps h = tt
  remove_id-AreSet (some own_id) s id ps h =
      (remove_id-EachSet s own_id id ps h.0, remove_id-HasUniqueKeys id ps h.1)

  pub removed-IsCurrent :
      (id : String) (s : AudioVolume Volume)
      → IsCurrent full s
      → IsCurrent full (participant_removed full id s)
  unfolding participant_removed get_muted get_volume
  removed-IsCurrent id s v = record {
    others =
        AreSet-all s.room_ s (participant_removed full id s) _ (λ j. (refl, refl))
          (remove_id-AreSet s.room_ s id s.participants v.others);
    self_muted = v.self_muted;
    own_track = v.own_track;
  }
