-- ===== src/Capture/Buffers.antt =====
-- What an operation leaves behind when no exception ends it.
use fubble.Base.{
  ℕ, suc, zero, ◌+◌, ◌≡◌, refl, sym, subst, Bool, true, false, not, List, [], ◌∷◌, ltb, arith,
}
use fubble.Capture.{
  Call, querycap, s_fmt, s_parm, reqbufs, streamon, streamoff, close_, querybuf, mmap, qbuf, munmap,
  Outcome, done, threw, Device, Reader, xioctl_throw, and_then, throw_unless, open_fd, open_device,
  map_buffers, init_mmap, reset_crop, set_repeat_header, init_device, set_bitrate, queue_buffers,
  start_capturing, set_up, stop_capturing, unmap_buffers, uninit_device, close_device, stop,
}

-- How many buffers were mapped, queued and unmapped.
abbrev pub mapped : List Call → ℕ
mapped [] = 0
mapped (mmap i ∷ l) = suc (mapped l)
mapped (_ ∷ l) = mapped l

abbrev pub queued : List Call → ℕ
queued [] = 0
queued (qbuf i ∷ l) = suc (queued l)
queued (_ ∷ l) = queued l

abbrev pub unmapped : List Call → ℕ
unmapped [] = 0
unmapped (munmap i ∷ l) = suc (unmapped l)
unmapped (_ ∷ l) = unmapped l

-- What holds if there was no exception.
abbrev pub Ensures : (Reader → Type 0) → Outcome × Reader → Type 0
Ensures P (done, t) = P t
Ensures P (threw, t) = Unit

bind :
    (device : Device) (P Q : Reader → Type 0) (m : Outcome × Reader) (f : Reader → Outcome × Reader)
    → Ensures P m
    → ((t : Reader) → P t → Ensures Q (f t))
    → Ensures Q (and_then device m f)
bind device P Q (done, t) f p q = q t p
bind device P Q (threw, t) f p q = tt

-- From one state to another: so many buffers mapped, queued and unmapped, the device as open, and
-- this many buffers.
pub record Adds (m q u : ℕ) (fd : Bool) (buffers : ℕ) (s t : Reader) : Type 0 where
  pub adds_mapped : mapped t.calls ≡ mapped s.calls + m
  pub adds_queued : queued t.calls ≡ queued s.calls + q
  pub adds_unmapped : unmapped t.calls ≡ unmapped s.calls + u
  pub is_open : t.fd ≡ fd
  pub has_buffers : t.buffers ≡ buffers

Ensures-map :
    (P Q : Reader → Type 0) (m : Outcome × Reader)
    → ((t : Reader) → P t → Q t)
    → Ensures P m
    → Ensures Q m
Ensures-map P Q (done, t) f p = f t p
Ensures-map P Q (threw, t) f p = tt

module _ (device : Device) where
  -- One part after another.
  and_then-Adds :
      (m q u m' q' u' : ℕ) (fd fd' : Bool) (b b' M Q U : ℕ) (s : Reader) (x : Outcome × Reader)
      (f : Reader → Outcome × Reader)
      → Ensures (Adds m q u fd b s) x
      → ((t : Reader) → t.fd ≡ fd → t.buffers ≡ b → Ensures (Adds m' q' u' fd' b' t) (f t))
      → (M ≡ m + m') × (Q ≡ q + q') × (U ≡ u + u')
      → Ensures (Adds M Q U fd' b' s) (and_then device x f)
  and_then-Adds m q u m' q' u' fd fd' b b' M Q U s x f p k e =
      bind device (Adds m q u fd b s) (Adds M Q U fd' b' s) x f p (λ t v.
        Ensures-map (Adds m' q' u' fd' b' t) (Adds M Q U fd' b' s) (f t) (λ r w. ground arith)
          (k t v.is_open v.has_buffers))

  call-Adds :
      (c : Call) (s : Reader)
      → Ensures
          (Adds (mapped (c ∷ [])) (queued (c ∷ [])) (unmapped (c ∷ [])) s.fd s.buffers s)
          (xioctl_throw device c s)
  unfolding xioctl_throw
  call-Adds (mmap i) s = ground arith
  call-Adds (qbuf i) s = ground arith
  call-Adds (munmap i) s = ground arith
  call-Adds _ s = ground arith

  -- The calls of the loops, from a state that is known so far.
  call-Adds_at :
      (c : Call) (fd : Bool) (b : ℕ) (s : Reader)
      → s.fd ≡ fd
      → s.buffers ≡ b
      → Ensures
          (Adds (mapped (c ∷ [])) (queued (c ∷ [])) (unmapped (c ∷ [])) fd b s)
          (xioctl_throw device c s)
  call-Adds_at c fd b s f g = rw (← f, ← g) (call-Adds c s)

  map_buffers-Adds :
      (i n : ℕ) (fd : Bool) (b : ℕ) (s : Reader)
      → s.fd ≡ fd
      → s.buffers ≡ b
      → Ensures (Adds n 0 0 fd b s) (map_buffers device i n s)
  unfolding map_buffers
  map_buffers-Adds i zero fd b s f g = ground arith
  map_buffers-Adds i (suc n) fd b s f g =
      and_then-Adds 0 0 0 (suc n) 0 0 fd fd b b (suc n) 0 0 s _ _
        (call-Adds_at (querybuf i) fd b s f g)
        (λ t f' g'.
          and_then-Adds 1 0 0 n 0 0 fd fd b b (suc n) 0 0 t _ _ (call-Adds_at (mmap i) fd b t f' g')
            (λ u f'' g''. map_buffers-Adds (suc i) n fd b u f'' g'') (omega arith))
        (omega arith)

  queue_buffers-Adds :
      (i n : ℕ) (fd : Bool) (b : ℕ) (s : Reader)
      → s.fd ≡ fd
      → s.buffers ≡ b
      → Ensures (Adds 0 n 0 fd b s) (queue_buffers device i n s)
  unfolding queue_buffers
  queue_buffers-Adds i zero fd b s f g = ground arith
  queue_buffers-Adds i (suc n) fd b s f g =
      and_then-Adds 0 1 0 0 n 0 fd fd b b 0 (suc n) 0 s _ _ (call-Adds_at (qbuf i) fd b s f g)
        (λ t f' g'. queue_buffers-Adds (suc i) n fd b t f' g') (omega arith)

  unmap_buffers-Adds :
      (i n : ℕ) (fd : Bool) (b : ℕ) (s : Reader)
      → s.fd ≡ fd
      → s.buffers ≡ b
      → Ensures (Adds 0 0 n fd b s) (unmap_buffers device i n s)
  unfolding unmap_buffers
  unmap_buffers-Adds i zero fd b s f g = ground arith
  unmap_buffers-Adds i (suc n) fd b s f g =
      and_then-Adds 0 0 1 0 0 n fd fd b b 0 0 (suc n) s _ _ (call-Adds_at (munmap i) fd b s f g)
        (λ t f' g'. unmap_buffers-Adds (suc i) n fd b t f' g') (omega arith)

  pub open_device-Adds : (s : Reader) → Ensures (Adds 0 0 0 true s.buffers s) (open_device device s)
  unfolding open_device open_fd xioctl_throw throw_unless
  open_device-Adds s = ground arith

  set_bitrate-Adds :
      (b : ℕ) (s : Reader) → Ensures (Adds 0 0 0 s.fd s.buffers s) (set_bitrate device b s)
  unfolding set_bitrate xioctl_throw
  set_bitrate-Adds b s = ground arith

  unless-Adds :
      (c fd : Bool) (b : ℕ) (s : Reader)
      → s.fd ≡ fd
      → s.buffers ≡ b
      → Ensures (Adds 0 0 0 fd b s) (throw_unless device c s)
  unfolding throw_unless
  unless-Adds true fd b s f g = ground arith
  unless-Adds false fd b s f g = tt

  -- Enough buffers are required before they are mapped.
  init_mmap-Adds :
      (fd : Bool) (b : ℕ) (s : Reader)
      → s.fd ≡ fd
      → s.buffers ≡ b
      → Ensures (Adds device.count 0 0 fd device.count s) (init_mmap device s)
  unfolding init_mmap
  init_mmap-Adds fd b s f g =
      and_then-Adds 0 0 0 device.count 0 0 fd fd b device.count device.count 0 0 s _ _
        (call-Adds_at reqbufs fd b s f g)
        (λ t f' g'.
          and_then-Adds 0 0 0 device.count 0 0 fd fd b device.count device.count 0 0 t _ _
            (unless-Adds (not (ltb device.count 2)) fd b t f' g')
            (λ u f'' g''.
              Ensures-map
                (Adds device.count 0 0 fd device.count (record u { buffers = device.count }))
                (Adds device.count 0 0 fd device.count u)
                (map_buffers device 0 device.count (record u { buffers = device.count }))
                (λ r w. ground arith)
                (map_buffers-Adds 0 device.count fd device.count
                  (record u { buffers = device.count }) f'' refl))
            (omega arith))
        (omega arith)

  -- A part that maps, queues and unmaps nothing, and then another one.
  then-Adds :
      (m q u : ℕ) (fd : Bool) (b b' : ℕ) (s : Reader) (x : Outcome × Reader)
      (f : Reader → Outcome × Reader)
      → Ensures (Adds 0 0 0 fd b s) x
      → ((t : Reader) → t.fd ≡ fd → t.buffers ≡ b → Ensures (Adds m q u fd b' t) (f t))
      → Ensures (Adds m q u fd b' s) (and_then device x f)
  then-Adds m q u fd b b' s x f p k =
      and_then-Adds 0 0 0 m q u fd fd b b' m q u s x f p k (omega arith)

  format-Adds :
      (fd : Bool) (b : ℕ) (s : Reader)
      → s.fd ≡ fd
      → s.buffers ≡ b
      → Ensures (Adds 0 0 0 fd b s) (xioctl_throw device s_fmt (reset_crop device s))
  unfolding xioctl_throw reset_crop
  format-Adds fd b s f g = ground arith

  header-Adds :
      (fd : Bool) (b : ℕ) (s : Reader)
      → s.fd ≡ fd
      → s.buffers ≡ b
      → Ensures (Adds 0 0 0 fd b s) (set_repeat_header device s)
  unfolding xioctl_throw set_repeat_header
  header-Adds fd b s f g = ground arith

  init_device-Adds :
      (fd : Bool) (b : ℕ) (s : Reader)
      → s.fd ≡ fd
      → s.buffers ≡ b
      → Ensures (Adds device.count 0 0 fd device.count s) (init_device device s)
  unfolding init_device
  init_device-Adds fd b s f g =
      let n = device.count in
      then-Adds n 0 0 fd b n s _ _ (call-Adds_at querycap fd b s f g) (λ t f g.
        then-Adds n 0 0 fd b n t _ _ (unless-Adds device.captures fd b t f g) (λ t f g.
          then-Adds n 0 0 fd b n t _ _ (unless-Adds device.streams fd b t f g) (λ t f g.
            then-Adds n 0 0 fd b n t _ _ (format-Adds fd b t f g) (λ t f g.
              then-Adds n 0 0 fd b n t _ _ (call-Adds_at s_parm fd b t f g) (λ t f g.
                then-Adds n 0 0 fd b n t _ _ (header-Adds fd b t f g)
                  (λ t f g. init_mmap-Adds fd b t f g))))))

  start_capturing-Adds :
      (fd : Bool) (b : ℕ) (s : Reader)
      → s.fd ≡ fd
      → s.buffers ≡ b
      → Ensures (Adds 0 b 0 fd b s) (start_capturing device s)
  unfolding start_capturing
  start_capturing-Adds fd b s f g =
      and_then-Adds 0 b 0 0 0 0 fd fd b b 0 b 0 s _ _
        (subst (λ (n : ℕ). Ensures (Adds 0 b 0 fd b s) (queue_buffers device 0 n s)) (sym g)
          (queue_buffers-Adds 0 b fd b s f g))
        (λ t f g. call-Adds_at streamon fd b t f g) (omega arith)

  -- When a reader could be set up, it has as many buffers as the device gives, has mapped and queued
  -- each of them, and has unmapped none.
  set_up-Adds :
      (bitrate b : ℕ) (s : Reader)
      → s.fd ≡ true
      → s.buffers ≡ b
      → Ensures (Adds device.count device.count 0 true device.count s) (set_up device bitrate s)
  unfolding set_up
  set_up-Adds bitrate b s f g =
      let n = device.count in
      and_then-Adds n 0 0 0 n 0 true true n n n n 0 s _ _ (init_device-Adds true b s f g)
        (λ t f g.
          then-Adds 0 n 0 true n n t _ _ (bitrate_at t f g)
            (λ t f g. start_capturing-Adds true n t f g))
        (omega arith)
    where
      bitrate_at :
          (t : Reader)
          → t.fd ≡ true
          → t.buffers ≡ device.count
          → Ensures (Adds 0 0 0 true device.count t) (set_bitrate device bitrate t)
      bitrate_at t f g = rw (← f, ← g) (set_bitrate-Adds bitrate t)

  stop-Adds :
      (b : ℕ) (s : Reader)
      → s.fd ≡ true
      → s.buffers ≡ b
      → Ensures (Adds 0 0 b false 0 s) (stop device s)
  unfolding stop stop_capturing uninit_device close_device
  stop-Adds b s f g =
      and_then-Adds 0 0 0 0 0 b true false b 0 0 0 b s _ _
        (Ensures-map (Adds 0 0 0 true b (record s { run = false })) (Adds 0 0 0 true b s)
          (xioctl_throw device streamoff (record s { run = false })) (λ t w. ground arith)
          (call-Adds_at streamoff true b (record s { run = false }) f g))
        (λ t f g.
          and_then-Adds 0 0 b 0 0 0 true false 0 0 0 0 b t _ _ (uninit t f g)
            (λ t f g. closes t f g) (omega arith))
        (omega arith)
    where
      uninit :
          (t : Reader)
          → t.fd ≡ true
          → t.buffers ≡ b
          → Ensures (Adds 0 0 b true 0 t) (uninit_device device t)
      uninit t f g =
          bind device (Adds 0 0 b true b t) (Adds 0 0 b true 0 t)
            (unmap_buffers device 0 t.buffers t) _
            (subst (λ (n : ℕ). Ensures (Adds 0 0 b true b t) (unmap_buffers device 0 n t)) (sym g)
              (unmap_buffers-Adds 0 b true b t f g))
            (λ u w. ground arith)

      closes :
          (t : Reader)
          → t.fd ≡ true
          → t.buffers ≡ 0
          → Ensures (Adds 0 0 0 false 0 t) (close_device device t)
      closes t f g =
          bind device (Adds 0 0 0 true 0 t) (Adds 0 0 0 false 0 t) (xioctl_throw device close_ t) _
            (call-Adds_at close_ true 0 t f g) (λ u w. ground arith)

  -- When an open reader could be set up and stopped, it is closed, and of the device's buffers, which
  -- were all queued, as many were unmapped as were mapped.
  pub set_up-stop-Adds :
      (bitrate b : ℕ) (s : Reader)
      → s.fd ≡ true
      → s.buffers ≡ b
      → Ensures
          (Adds device.count device.count device.count false 0 s)
          (and_then device (set_up device bitrate s) (stop device))
  set_up-stop-Adds bitrate b s f g =
      let n = device.count in
      and_then-Adds n n 0 0 0 n true false n 0 n n n s (set_up device bitrate s) (stop device)
        (set_up-Adds bitrate b s f g) (λ t f g. stop-Adds n t f g) (omega arith)
