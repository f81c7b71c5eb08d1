-- ===== src/Capture/Frames.antt =====
-- fubble/v4l2_hw_h264/video_encoder.cpp: what the encoder makes of a packet of the camera, and its calls
-- of the reader. The bytes of the packet are numbers below 256; finding the units of a packet, and the
-- type of frame that a new image has, are the library's.
use fubble.Base.{
  ℕ, ◌%◌, ◌/◌, ◌≡◌, refl, Bool, true, false, not, ◌&&◌, ◌||◌, List, [], ◌∷◌, length, ◌==◌,
  if◌then◌else◌,
}
use fubble.Capture.{streamoff, threw, Device, Reader, xioctl_throw, stop, stop_capturing}

pub data FrameType : Type 0 where
  delta key : FrameType

abbrev pub same_type : FrameType → FrameType → Bool
same_type delta delta = true
same_type key key = true
same_type _ _ = false

-- `is_h264_i_frame`, on the bytes behind the start code.
unfoldable pub is_h264_i_frame : ℕ → ℕ → Bool
is_h264_i_frame first second =
    let fragment_type = first % 32 in
    let nal_type = second % 32 in
    let start_bit = second / 128 % 2 in
    if first == 0x27
    then true
    else (fragment_type == 28 || fragment_type == 29) && (nal_type == 5 && start_bit == 1)
      || fragment_type == 5

-- What is passed to the callback.
pub record Encoded : Type 0 where
  pub frame_type : FrameType
  pub idr_frame : Bool

pub record Encoder : Type 0 where
  pub got_first_iframe : Bool
  pub callback : Bool
  pub encoded : List Encoded

-- `on_data`, with the type of a new image and whether units were found.
unfoldable pub on_data : FrameType → Bool → ℕ → ℕ → Encoder → Encoder
unfolding is_h264_i_frame
on_data fresh has_units first second s =
    let intra = is_h264_i_frame first second in
    let frame_type = if intra then key else delta in
    let t : Encoder = record s { got_first_iframe = intra || s.got_first_iframe } in
    if has_units && s.callback
    then record t {
      encoded =
          record { frame_type = frame_type; idr_frame = same_type fresh frame_type } ∷ s.encoded;
    }
    else t

-- Where a new image is a delta frame, what is passed on says that it is an instantaneous refresh
-- exactly if it is no key frame.
abbrev pub IsInverted : Encoded → Type 0
IsInverted e = e.idr_frame ≡ not (same_type e.frame_type key)

abbrev pub AreInverted : List Encoded → Type 0
AreInverted [] = Unit {0}
AreInverted (e ∷ l) = IsInverted e × AreInverted l

abbrev pub on_packets : List (ℕ × ℕ) → Encoder → Encoder
on_packets [] s = s
on_packets (p ∷ l) s = on_packets l (on_data delta true p.0 p.1 s)

pub on_packets-AreInverted :
    (l : List (ℕ × ℕ)) (s : Encoder) → AreInverted s.encoded → AreInverted (on_packets l s).encoded
unfolding on_data
on_packets-AreInverted [] s h = h
on_packets-AreInverted (p ∷ l) s h =
    on_packets-AreInverted l (on_data delta true p.0 p.1 s)
      (one (is_h264_i_frame p.0 p.1) s.callback)
  where
    one :
        (i c : Bool)
        → AreInverted
            (if true && c
              then record (record s { got_first_iframe = i || s.got_first_iframe }) {
                encoded =
                    record {
                      frame_type = if i then key else delta;
                      idr_frame = same_type delta (if i then key else delta);
                    }
                    ∷ s.encoded;
              }
              else record s { got_first_iframe = i || s.got_first_iframe }).encoded
    one true true = (refl, h)
    one false true = (refl, h)
    one true false = h
    one false false = h

-- A reader whose device is not open: the destructor throws, when the kernel refuses calls on a closed
-- descriptor.
pub stop_closed :
    (device : Device) (s : Reader)
    → ((n : ℕ) → device.answer streamoff false n ≡ false)
    → s.fd ≡ false
    → (stop device s).0 ≡ threw
unfolding stop stop_capturing xioctl_throw
stop_closed device s k f = rw (f, k (length s.calls)) refl
