-- ===== src/Capture.antt =====
-- fubble/v4l2_hw_h264/reader.cpp: the camera that encodes by itself, over calls of the kernel. Whether a
-- call goes well is a parameter, which is asked with the call, with whether the device is open and with
-- the number of calls so far. An exception ends an operation and leaves the state as it is at that point.
pub mod Controls
pub mod Buffers
pub mod Lifetime
pub mod Frames
use fubble.Base.{
  ℕ, suc, zero, Bool, true, false, not, Option, none, some, List, [], ◌∷◌, length, ltb, ◌==◌,
  if◌then◌else◌,
}
use fubble.Capture.Controls.{Answer, Enumerated, available, interrupted, enumerate_ctrls}

pub data Call : Type 0 where
  stat open_ querycap cropcap s_crop s_fmt s_parm reqbufs streamon streamoff close_ : Call
  s_ctrl : ℕ → ℕ → Call
  querybuf mmap qbuf munmap : ℕ → Call

pub data Outcome : Type 0 where
  done threw : Outcome

-- The device: its answers, what it is capable of, how many buffers it gives, and what it answers to
-- the queries for its controls.
pub record Device : Type 0 where
  pub answer : Call → Bool → ℕ → Bool
  pub is_character : Bool
  pub captures : Bool
  pub streams : Bool
  pub count : ℕ
  pub query : ℕ → Bool → Answer

-- `fd >= 0`, the buffers, whether the thread runs, `available_ctrls`, and the calls, newest first, but
-- for the queries.
pub record Reader : Type 0 where
  pub fd : Bool
  pub buffers : ℕ
  pub run : Bool
  pub ctrls : List ℕ
  pub calls : List Call

-- `V4L2_CID_MPEG_VIDEO_REPEAT_SEQ_HEADER`, `V4L2_CID_MPEG_VIDEO_BITRATE_MODE`,
-- `V4L2_CID_MPEG_VIDEO_BITRATE` and `V4L2_MPEG_VIDEO_BITRATE_MODE_CBR`.
abbrev pub repeat_seq_header : ℕ
repeat_seq_header = 0x009909e2

abbrev pub bitrate_mode : ℕ
bitrate_mode = 0x009909ce

abbrev pub bitrate_control : ℕ
bitrate_control = 0x009909cf

abbrev pub constant_bitrate : ℕ
constant_bitrate = 1

abbrev pub contains : ℕ → List ℕ → Bool
contains id [] = false
contains id (x ∷ l) = if x == id then true else contains id l

module _ (device : Device) where
  -- A call whose failure throws.
  unfoldable pub xioctl_throw : Call → Reader → Outcome × Reader
  xioctl_throw c s = (
    if device.answer c s.fd (length s.calls) then done else threw,
    record s { calls = c ∷ s.calls },
  )

  -- What follows, unless there was an exception.
  abbrev pub and_then : Outcome × Reader → (Reader → Outcome × Reader) → Outcome × Reader
  and_then (done, s) f = f s
  and_then (threw, s) f = (threw, s)

  unfoldable pub throw_unless : Bool → Reader → Outcome × Reader
  throw_unless true s = (done, s)
  throw_unless false s = (threw, s)

  -- `open` sets `fd`, also when it fails: to -1.
  unfoldable pub open_fd : Reader → Outcome × Reader
  unfolding xioctl_throw
  open_fd s =
      let (o, t) = xioctl_throw open_ s in
      (o, record t { fd = device.answer open_ s.fd (length s.calls) })

  unfoldable pub open_device : Reader → Outcome × Reader
  unfolding xioctl_throw throw_unless open_fd
  open_device s =
      and_then (xioctl_throw stat s) (λ t. and_then (throw_unless device.is_character t) open_fd)

  -- The loop over the buffers, from this one on: `n` of them are left.
  unfoldable pub map_buffers : ℕ → ℕ → Reader → Outcome × Reader
  unfolding xioctl_throw
  map_buffers index zero s = (done, s)
  map_buffers index (suc n) s =
      and_then (xioctl_throw (querybuf index) s)
        (λ t. and_then (xioctl_throw (mmap index) t) (λ u. map_buffers (suc index) n u))

  unfoldable pub init_mmap : Reader → Outcome × Reader
  unfolding xioctl_throw throw_unless map_buffers
  init_mmap s = and_then (xioctl_throw reqbufs s) (λ t.
      and_then (throw_unless (not (ltb device.count 2)) t)
        (λ u. map_buffers 0 device.count (record u { buffers = device.count })))

  -- Cropping is reset if it can be; errors are ignored.
  unfoldable pub reset_crop : Reader → Reader
  unfolding xioctl_throw
  reset_crop s =
      let (o, t) = xioctl_throw cropcap s in
      elim o as (λ _. Reader) [ done ↦ record t { calls = s_crop ∷ t.calls } | threw ↦ t ]

  unfoldable pub set_repeat_header : Reader → Outcome × Reader
  unfolding xioctl_throw
  set_repeat_header s =
      if contains repeat_seq_header s.ctrls
      then xioctl_throw (s_ctrl repeat_seq_header 1) s
      else (done, s)

  unfoldable pub init_device : Reader → Outcome × Reader
  unfolding xioctl_throw throw_unless reset_crop set_repeat_header init_mmap
  init_device s = and_then (xioctl_throw querycap s) (λ t.
      and_then (throw_unless device.captures t) (λ u. and_then (throw_unless device.streams u) (λ v.
        and_then (xioctl_throw s_fmt (reset_crop v))
          (λ w. and_then (xioctl_throw s_parm w) (λ x. and_then (set_repeat_header x) init_mmap)))))

  unfoldable pub set_bitrate : ℕ → Reader → Outcome × Reader
  unfolding xioctl_throw
  set_bitrate bitrate s =
      if contains bitrate_control s.ctrls
      then and_then
          (if contains bitrate_mode s.ctrls
            then xioctl_throw (s_ctrl bitrate_mode constant_bitrate) s
            else (done, s))
          (xioctl_throw (s_ctrl bitrate_control bitrate))
      else (done, s)

  unfoldable pub queue_buffers : ℕ → ℕ → Reader → Outcome × Reader
  unfolding xioctl_throw
  queue_buffers index zero s = (done, s)
  queue_buffers index (suc n) s =
      and_then (xioctl_throw (qbuf index) s) (λ t. queue_buffers (suc index) n t)

  unfoldable pub start_capturing : Reader → Outcome × Reader
  unfolding queue_buffers xioctl_throw
  start_capturing s = and_then (queue_buffers 0 s.buffers s) (xioctl_throw streamon)

  -- What follows when the controls are known.
  unfoldable pub set_up : ℕ → Reader → Outcome × Reader
  unfolding init_device set_bitrate start_capturing
  set_up start_bitrate s =
      and_then (init_device s) (λ t. and_then (set_bitrate start_bitrate t) start_capturing)

  unfoldable pub after_controls : ℕ → Option Enumerated → Reader → Option (Outcome × Reader)
  unfolding set_up
  after_controls start_bitrate none s = none
  after_controls start_bitrate (some (interrupted l)) s = some (threw, record s { ctrls = l })
  after_controls start_bitrate (some (available l)) s =
      some (set_up start_bitrate (record s { ctrls = l }))

  unfoldable pub after_open : ℕ → ℕ → Outcome × Reader → Option (Outcome × Reader)
  unfolding after_controls enumerate_ctrls
  after_open fuel start_bitrate (threw, s) = some (threw, s)
  after_open fuel start_bitrate (done, s) =
      after_controls start_bitrate (enumerate_ctrls device.query fuel s.ctrls) s

  -- The fuel is for the loop over the controls; `none` when it is used up.
  unfoldable pub initialise : ℕ → ℕ → Reader → Option (Outcome × Reader)
  unfolding open_device after_open
  initialise fuel start_bitrate s =
      if s.fd then some (done, s) else after_open fuel start_bitrate (open_device s)

  unfoldable pub mainloop : Reader → Reader
  mainloop s = if s.run then s else record s { run = true }

  unfoldable pub stop_capturing : Reader → Outcome × Reader
  unfolding xioctl_throw
  stop_capturing s = xioctl_throw streamoff (record s { run = false })

  unfoldable pub unmap_buffers : ℕ → ℕ → Reader → Outcome × Reader
  unfolding xioctl_throw
  unmap_buffers index zero s = (done, s)
  unmap_buffers index (suc n) s =
      and_then (xioctl_throw (munmap index) s) (λ t. unmap_buffers (suc index) n t)

  unfoldable pub uninit_device : Reader → Outcome × Reader
  unfolding unmap_buffers
  uninit_device s = and_then (unmap_buffers 0 s.buffers s) (λ t. (done, record t { buffers = 0 }))

  unfoldable pub close_device : Reader → Outcome × Reader
  unfolding xioctl_throw
  close_device s = and_then (xioctl_throw close_ s) (λ t. (done, record t { fd = false }))

  -- The destructor calls it as well.
  unfoldable pub stop : Reader → Outcome × Reader
  unfolding stop_capturing uninit_device close_device
  stop s = and_then (stop_capturing s) (λ t. and_then (uninit_device t) close_device)
