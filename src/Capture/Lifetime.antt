-- ===== src/Capture/Lifetime.antt =====
-- That a device which can be used is set up and taken down.
use fubble.Base.{
  ℕ, suc, zero, ◌≤◌, ◌≡◌, refl, Bool, true, false, not, some, List, length, ltb, arith,
  if◌then◌else◌,
}
use fubble.Capture.{
  Call, stat, open_, querycap, s_fmt, s_parm, reqbufs, streamon, streamoff, close_, s_ctrl,
  querybuf, mmap, qbuf, munmap, Outcome, done, threw, Device, Reader, xioctl_throw, and_then,
  throw_unless, open_fd, open_device, map_buffers, init_mmap, reset_crop, set_repeat_header,
  init_device, set_bitrate, queue_buffers, start_capturing, set_up, after_controls, after_open,
  initialise, stop_capturing, contains, unmap_buffers, uninit_device, close_device, stop,
  repeat_seq_header, bitrate_mode, bitrate_control, constant_bitrate,
}
use fubble.Base.Runs.{Holds}
use fubble.Capture.Controls.{Control, Enumerates, AreEnabled, ids, enumerate_ctrls-ids}
use fubble.Capture.Buffers.{Ensures, Adds, open_device-Adds, set_up-stop-Adds}

module _ (device : Device) where
  -- Every call goes well, and the device is one that can be used.
  pub record IsGood : Type 0 where
    pub answers : (c : Call) (b : Bool) (n : ℕ) → device.answer c b n ≡ true
    pub character : device.is_character ≡ true
    pub captures : device.captures ≡ true
    pub streams : device.streams ≡ true
    pub enough : 2 ≤ device.count

  and_then-done :
      (x : Outcome × Reader) (f : Reader → Outcome × Reader)
      → x.0 ≡ done
      → ((t : Reader) → (f t).0 ≡ done)
      → (and_then device x f).0 ≡ done
  and_then-done (done, t) f p k = k t
  and_then-done (threw, t) f p k = p

  Ensures-done : (P : Reader → Type 0) (x : Outcome × Reader) → x.0 ≡ done → Ensures P x → P x.1
  Ensures-done P (done, t) p h = h
  Ensures-done P (threw, t) p h = absurd (ground arith)

  module _ (good : IsGood) where
    call-done : (c : Call) (s : Reader) → (xioctl_throw device c s).0 ≡ done
    unfolding xioctl_throw
    call-done c s = rw (good.answers c s.fd (length s.calls)) refl

    unless-done : (c : Bool) (s : Reader) → c ≡ true → (throw_unless device c s).0 ≡ done
    unfolding throw_unless
    unless-done c s e = rw (e, throw_unless)

    map_buffers-done : (i n : ℕ) (s : Reader) → (map_buffers device i n s).0 ≡ done
    unfolding map_buffers
    map_buffers-done i zero s = refl
    map_buffers-done i (suc n) s =
        and_then-done _ _ (call-done (querybuf i) s)
          (λ t. and_then-done _ _ (call-done (mmap i) t) (λ u. map_buffers-done (suc i) n u))

    queue_buffers-done : (i n : ℕ) (s : Reader) → (queue_buffers device i n s).0 ≡ done
    unfolding queue_buffers
    queue_buffers-done i zero s = refl
    queue_buffers-done i (suc n) s =
        and_then-done _ _ (call-done (qbuf i) s) (λ t. queue_buffers-done (suc i) n t)

    unmap_buffers-done : (i n : ℕ) (s : Reader) → (unmap_buffers device i n s).0 ≡ done
    unfolding unmap_buffers
    unmap_buffers-done i zero s = refl
    unmap_buffers-done i (suc n) s =
        and_then-done _ _ (call-done (munmap i) s) (λ t. unmap_buffers-done (suc i) n t)

    open_device-done : (s : Reader) → (open_device device s).0 ≡ done
    unfolding open_device open_fd
    open_device-done s = and_then-done _ _ (call-done stat s) (λ t.
        and_then-done _ _ (unless-done device.is_character t good.character)
          (λ u. call-done open_ u))

    init_device-done : (s : Reader) → (init_device device s).0 ≡ done
    unfolding init_device init_mmap
    init_device-done s = and_then-done _ _ (call-done querycap s) (λ t.
        and_then-done _ _ (unless-done device.captures t good.captures) (λ t.
          and_then-done _ _ (unless-done device.streams t good.streams) (λ t.
            and_then-done _ _ (call-done s_fmt (reset_crop device t)) (λ t.
              and_then-done _ _ (call-done s_parm t) (λ t. and_then-done _ _ (header t) (λ t.
                and_then-done _ _ (call-done reqbufs t) (λ t.
                  and_then-done _ _
                    (unless-done (not (ltb device.count 2)) t (ground (arith, good.enough)))
                    (λ u.
                      map_buffers-done 0 device.count (record u { buffers = device.count })))))))))
      where
        branch :
            (b : Bool) (t : Reader)
            → (if b then xioctl_throw device (s_ctrl repeat_seq_header 1) t else (done, t)).0 ≡ done
        branch true t = call-done (s_ctrl repeat_seq_header 1) t
        branch false t = refl

        header : (t : Reader) → (set_repeat_header device t).0 ≡ done
        header t = branch (contains repeat_seq_header t.ctrls) t

    set_bitrate-done : (b : ℕ) (s : Reader) → (set_bitrate device b s).0 ≡ done
    unfolding set_bitrate
    set_bitrate-done b s = has (contains bitrate_control s.ctrls) (contains bitrate_mode s.ctrls)
      where
        has :
            (c d : Bool)
            → (if c
                then and_then device
                    (if d
                      then xioctl_throw device (s_ctrl bitrate_mode constant_bitrate) s
                      else (done, s))
                    (xioctl_throw device (s_ctrl bitrate_control b))
                else (done, s)).0
              ≡ done
        has true true =
            and_then-done _ _ (call-done (s_ctrl bitrate_mode constant_bitrate) s)
              (λ t. call-done (s_ctrl bitrate_control b) t)
        has true false = call-done (s_ctrl bitrate_control b) s
        has false d = refl

    set_up-done : (bitrate : ℕ) (s : Reader) → (set_up device bitrate s).0 ≡ done
    unfolding set_up start_capturing
    set_up-done bitrate s = and_then-done _ _ (init_device-done s) (λ t.
        and_then-done _ _ (set_bitrate-done bitrate t)
          (λ t. and_then-done _ _ (queue_buffers-done 0 t.buffers t) (λ t. call-done streamon t)))

    stop-done : (s : Reader) → (stop device s).0 ≡ done
    unfolding stop stop_capturing uninit_device close_device
    stop-done s = and_then-done _ _ (call-done streamoff (record s { run = false })) (λ t.
        and_then-done _ _ (and_then-done _ _ (unmap_buffers-done 0 t.buffers t) (λ u. refl))
          (λ t. and_then-done _ _ (call-done close_ t) (λ u. refl)))

-- Initialised and stopped, on a device that has been opened.
abbrev pub IsClosedAgain : Device → Reader → Outcome × Reader → Type 0
IsClosedAgain device s x =
    let r = and_then device x (stop device) in
    (r.0 ≡ done) × Adds device.count device.count device.count false 0 s r.1

opened-IsClosedAgain :
    (device : Device)
    → IsGood device
    → (l : List Control) → Enumerates device.query 0 l
    → AreEnabled l
    → (bitrate : ℕ) (s : Reader) (x : Outcome × Reader) → x.0 ≡ done
    → Ensures (Adds 0 0 0 true s.buffers s) x
    → Holds (IsClosedAgain device s) (after_open device (suc (length l)) bitrate x)
unfolding after_open after_controls
opened-IsClosedAgain device good l e h bitrate s (threw, t) d v = absurd (ground arith)
opened-IsClosedAgain device good l e h bitrate s (done, t) d v =
    let n = device.count in
    let u : Reader = record t { ctrls = ids l t.ctrls } in
    let w = and_then-done device _ _ (set_up-done device good bitrate u) (stop-done device good) in
    let a =
      Ensures-done device (Adds n n n false 0 u) _ w
        (set_up-stop-Adds device bitrate s.buffers u v.is_open v.has_buffers) in
    rw (enumerate_ctrls-ids device.query l t.ctrls e h, after_controls) (w, ground arith)

-- With a device that can be used, none of whose controls is disabled, and on which every call goes
-- well, a closed reader can be initialised, with one round more than there are controls for their
-- enumeration, and stopped: it is closed again, holds no buffer, and of the device's buffers as many
-- were queued and unmapped as were mapped.
pub initialise-stop_lem :
    (device : Device)
    → IsGood device
    → (l : List Control) → Enumerates device.query 0 l
    → AreEnabled l
    → (bitrate : ℕ) (s : Reader) → s.fd ≡ false
    → Holds (IsClosedAgain device s) (initialise device (suc (length l)) bitrate s)
unfolding initialise
initialise-stop_lem device good l e h bitrate s f = closed s.fd f (
    opened-IsClosedAgain device good l e h bitrate s (open_device device s)
      (open_device-done device good s) (open_device-Adds device s))
  where
    closed :
        (b : Bool)
        → b ≡ false
        → Holds
            (IsClosedAgain device s)
            (after_open device (suc (length l)) bitrate (open_device device s))
        → Holds (IsClosedAgain device s) (
            if b
            then some (done, s)
            else after_open device (suc (length l)) bitrate (open_device device s))
    closed true e v = absurd (ground (arith, e))
    closed false e v = v
