-- ===== src/Receiving/Tracks.antt =====
-- The receiving tracks and what is found and erased in them.
use fubble.Base.{
  ℕ, suc, ◌≤◌, ◌≡◌, refl, Bool, true, false, not, some, List, [], ◌∷◌, ◌++◌, arith, if◌then◌else◌,
}
use fubble.Receiving.{ReceivingTrack, erase, find_receiving_track, erase_receiving}

-- The tracks of a kind, in their order.
abbrev pub tracks : Bool → List ReceivingTrack → List ℕ
tracks b [] = []
tracks true (r ∷ l) = if r.is_video then r.track ∷ tracks true l else tracks true l
tracks false (r ∷ l) = if r.is_video then tracks false l else r.track ∷ tracks false l

-- Tracks from `n` on, ascending, below `m`.
abbrev pub Between : ℕ → ℕ → List ReceivingTrack → Type 0
Between n m [] = n ≤ m
Between n m (r ∷ l) = (n ≤ r.track) × Between (suc r.track) m l

pub Between-append :
    (n m : ℕ) (l : List ReceivingTrack) (rtp : ℕ) (b : Bool)
    → Between n m l
    → Between n (suc m) (l ++ record { rtp = rtp; track = m; is_video = b } ∷ [])
Between-append n m [] rtp b h = omega arith
Between-append n m (r ∷ l) rtp b h = (h.0, Between-append (suc r.track) m l rtp b h.1)

Between-weaken : (k n m : ℕ) (l : List ReceivingTrack) → k ≤ n → Between n m l → Between k m l
Between-weaken k n m [] h b = omega arith
Between-weaken k n m (r ∷ l) h b = (omega arith, b.1)

pub Between-erase :
    (n m rtp : ℕ) (l : List ReceivingTrack) → Between n m l → Between n m (erase_receiving rtp l)
unfolding erase_receiving
Between-erase n m rtp [] h = h
Between-erase n m rtp (r ∷ l) h =
    ground (arith, Between-erase (suc r.track) m rtp l h.1, Between-weaken n (suc r.track) m l)

pub tracks-append :
    (b : Bool) (l r : List ReceivingTrack) → tracks b (l ++ r) ≡ tracks b l ++ tracks b r
tracks-append b [] r = refl
tracks-append true (x ∷ l) r = ground (arith, tracks-append true l r)
tracks-append false (x ∷ l) r = ground (arith, tracks-append false l r)

-- The other kind is left as it is, and of its own kind the track is erased.
pub tracks-erase_other :
    (rtp : ℕ) (b : Bool) (l : List ReceivingTrack) (found : ReceivingTrack)
    → find_receiving_track rtp l ≡ some found
    → found.is_video ≡ not b
    → tracks b (erase_receiving rtp l) ≡ tracks b l
unfolding erase_receiving find_receiving_track
tracks-erase_other rtp b [] found e k = absurd (ground arith)
tracks-erase_other rtp true (r ∷ l) found e k = ground (arith, tracks-erase_other rtp true l found)
tracks-erase_other rtp false (r ∷ l) found e k =
    ground (arith, tracks-erase_other rtp false l found)

find-track-le :
    (n m rtp : ℕ) (l : List ReceivingTrack) (found : ReceivingTrack)
    → Between n m l
    → find_receiving_track rtp l ≡ some found
    → n ≤ found.track
unfolding find_receiving_track
find-track-le n m rtp [] found h e = absurd (ground arith)
find-track-le n m rtp (r ∷ l) found h e =
    ground (arith, find-track-le (suc r.track) m rtp l found h.1)

pub erase-tracks :
    (n m rtp : ℕ) (b : Bool) (l : List ReceivingTrack) (found : ReceivingTrack)
    → Between n m l
    → find_receiving_track rtp l ≡ some found
    → found.is_video ≡ b
    → erase found.track (tracks b l) ≡ some (tracks b (erase_receiving rtp l))
unfolding erase_receiving find_receiving_track erase
erase-tracks n m rtp b [] found h e k = absurd (ground arith)
erase-tracks n m rtp true (r ∷ l) found h e k = ground (
  arith,
  find-track-le (suc r.track) m rtp l found h.1,
  erase-tracks (suc r.track) m rtp true l found h.1,
)
erase-tracks n m rtp false (r ∷ l) found h e k = ground (
  arith,
  find-track-le (suc r.track) m rtp l found h.1,
  erase-tracks (suc r.track) m rtp false l found h.1,
)
