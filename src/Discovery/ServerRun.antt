-- ===== src/Discovery/ServerRun.antt =====
-- Start and stop of the server's part: `svr_model_start` and `svr_model_stop`.
use udpboardcast.Base.{ℕ, ◌≡◌, ap, ◌∙◌, ◌⊎◌, inl, inr, Bool, true, false, ◌∷◌, Option, none, some}
use udpboardcast.Discovery.{
  Os, Net, Discovery, ◌>>=◌, is_open, running, stopped, cleansocket, sem_init, sem_wait, sem_post,
  sem_destroy, thread_create, thread_join,
}
use udpboardcast.Discovery.Sockets.{
  Fresh, Creates, close-head, close-second, create_udp_socket-Creates,
  create_boardcast_socket-Creates, create_listen_udp_socket-Creates,
}
use udpboardcast.Discovery.Server.{
  svr_boardcast_on, svr_boardcast_start, svr_boardcast_stop, svr_feedback_on, svr_listen_on,
  svr_listen_start, svr_listen_stop, both_or_none, svr_model_start, svr_model_stop,
}

-- The listening half runs on the sockets `l` and `f`.
abbrev pub listen_up : ℕ → ℕ → ℕ → Discovery → Discovery
listen_up l f c d = record d {
  net = record d.net { opened = f ∷ l ∷ d.net.opened; calls = c };
  svr_listen = running l;
  svr_feedback = some f;
}

abbrev pub listen_refused : ℕ → Discovery → Discovery
listen_refused c d = record d {
  net = record d.net { calls = c };
  svr_listen = stopped;
  svr_feedback = none;
}

-- The broadcasting half runs on the socket `b`.
abbrev pub boardcast_up : ℕ → ℕ → Discovery → Discovery
boardcast_up b c d = record d {
  net = record d.net { opened = b ∷ d.net.opened; calls = c };
  svr_bc = running b;
}

abbrev pub boardcast_refused : ℕ → Discovery → Discovery
boardcast_refused c d = record d { net = record d.net { calls = c }; svr_bc = stopped }

abbrev ListenStarts : Discovery → Option (Bool × Discovery) → Type 0
ListenStarts d r =
    ((c : ℕ) × (r ≡ some (false, listen_refused c d)))
    ⊎ ((l f c : ℕ) × (is_open f (l ∷ d.net.opened) ≡ false) × (r ≡ some (true, listen_up l f c d)))

abbrev BoardcastStarts : Discovery → Option (Bool × Discovery) → Type 0
BoardcastStarts d r =
    ((c : ℕ) × (r ≡ some (false, boardcast_refused c d)))
    ⊎ ((b c : ℕ) × (r ≡ some (true, boardcast_up b c d)))

-- Both halves run, or neither.
abbrev pub SvrStarts : Discovery → Option (Bool × Discovery) → Type 0
SvrStarts d r =
    ((c : ℕ) × (r ≡ some (false, boardcast_refused c (listen_refused c d))))
    ⊎ ((l f b c : ℕ) × (is_open f (l ∷ d.net.opened) ≡ false)
        × (r ≡ some (true, boardcast_up b c (listen_up l f c d))))

svr_feedback_on-ListenStarts :
    (d : Discovery) (l c : ℕ) (r : Option ℕ × Net)
    → d.svr_listen ≡ stopped
    → Creates (record d.net { opened = l ∷ d.net.opened; calls = c }) r
    → ListenStarts d (
        svr_feedback_on r (record d {
          net = record d.net { opened = l ∷ d.net.opened; calls = c };
          svr_listen = record d.svr_listen { sockfd = some l };
        }))
unfolding svr_feedback_on sem_init sem_wait thread_create cleansocket
svr_feedback_on-ListenStarts d l c r off (inl (c', e)) =
    inl (c', rw (e, off, close-head l d.net.opened))
svr_feedback_on-ListenStarts d l c r off (inr (f, c', new, e)) = inr (l, f, c', new, rw e)

svr_listen_on-ListenStarts :
    (os : Os) (d : Discovery) (r : Option ℕ × Net)
    → Fresh os
    → d.svr_listen ≡ stopped
    → d.svr_feedback ≡ none
    → Creates d.net r
    → ListenStarts d (svr_listen_on os r d)
unfolding svr_listen_on
svr_listen_on-ListenStarts os d r fresh off quiet (inl (c, e)) = inl (c, rw (e, off, quiet))
svr_listen_on-ListenStarts os d r fresh off quiet (inr (l, c, _, e)) =
    rw e (svr_feedback_on-ListenStarts d l c _ off (create_udp_socket-Creates os _ fresh))

svr_listen_start-ListenStarts :
    (os : Os) (d : Discovery)
    → Fresh os
    → d.svr_listen ≡ stopped
    → d.svr_feedback ≡ none
    → ListenStarts d (svr_listen_start os d)
unfolding svr_listen_start
svr_listen_start-ListenStarts os d fresh off quiet =
    svr_listen_on-ListenStarts os d _ fresh off quiet
      (create_listen_udp_socket-Creates os d.net fresh)

svr_boardcast_on-BoardcastStarts :
    (d : Discovery) (r : Option ℕ × Net)
    → d.svr_bc ≡ stopped
    → Creates d.net r
    → BoardcastStarts d (svr_boardcast_on r (record d { svr_bc = sem_init 1 d.svr_bc }))
unfolding svr_boardcast_on sem_init sem_wait sem_destroy thread_create
svr_boardcast_on-BoardcastStarts d r off (inl (c, e)) = inl (c, rw (e, off))
svr_boardcast_on-BoardcastStarts d r off (inr (b, c, _, e)) = inr (b, c, rw e)

svr_boardcast_start-BoardcastStarts :
    (os : Os) (d : Discovery)
    → Fresh os
    → d.svr_bc ≡ stopped
    → BoardcastStarts d (svr_boardcast_start os d)
unfolding svr_boardcast_start
svr_boardcast_start-BoardcastStarts os d fresh off =
    svr_boardcast_on-BoardcastStarts d _ off (create_boardcast_socket-Creates os d.net fresh)

pub svr_listen_stop-listen_up :
    (l f c : ℕ) (d : Discovery)
    → is_open f (l ∷ d.net.opened) ≡ false
    → svr_listen_stop (listen_up l f c d) ≡ some (listen_refused c d)
unfolding svr_listen_stop sem_post thread_join sem_wait sem_destroy cleansocket
svr_listen_stop-listen_up l f c d new =
    rw (close-second l f d.net.opened new, close-head f d.net.opened)

pub svr_boardcast_stop-boardcast_up :
    (b c : ℕ) (d : Discovery)
    → svr_boardcast_stop (boardcast_up b c d) ≡ some (boardcast_refused c d)
unfolding svr_boardcast_stop sem_post thread_join sem_wait sem_destroy cleansocket
svr_boardcast_stop-boardcast_up b c d = rw (close-head b d.net.opened)

-- What `svr_model_start` does after its listening half.
finish_start : Os → Bool × Discovery → Option (Bool × Discovery)
finish_start os (l, d) = svr_boardcast_start os d >>= λ (b, d). both_or_none l b d

finish_start-listen_up :
    (os : Os) (d : Discovery) (l f c : ℕ)
    → Fresh os
    → d.svr_bc ≡ stopped
    → is_open f (l ∷ d.net.opened) ≡ false
    → SvrStarts d (finish_start os (true, listen_up l f c d))
unfolding finish_start both_or_none
finish_start-listen_up os d l f c fresh off new =
    elim (svr_boardcast_start-BoardcastStarts os (listen_up l f c d) fresh off) [
      | inl (c', e) ↦ inl (
        c',
        ap (λ r. r >>= λ x. both_or_none true x.0 x.1) e
            ∙ ap (λ r. r >>= λ d. some (false, d))
                (svr_listen_stop-listen_up l f c' (record d { svr_bc = stopped }) new),
      )
      | inr (b, c', e) ↦ inr (l, f, b, c', new, rw e)
    ]

finish_start-listen_refused :
    (os : Os) (d : Discovery) (c : ℕ)
    → Fresh os
    → d.svr_bc ≡ stopped
    → SvrStarts d (finish_start os (false, listen_refused c d))
unfolding finish_start both_or_none
finish_start-listen_refused os d c fresh off =
    elim (svr_boardcast_start-BoardcastStarts os (listen_refused c d) fresh off) [
      | inl (c', e) ↦ inl (c', rw e)
      | inr (b, c', e) ↦ inl (
        c',
        ap (λ r. r >>= λ x. both_or_none false x.0 x.1) e
            ∙ ap (λ r. r >>= λ d. some (false, d))
                (svr_boardcast_stop-boardcast_up b c' (listen_refused c d)),
      )
    ]

pub svr_model_start-SvrStarts :
    (os : Os) (d : Discovery)
    → Fresh os
    → d.svr_bc ≡ stopped
    → d.svr_listen ≡ stopped
    → d.svr_feedback ≡ none
    → SvrStarts d (svr_model_start os d)
unfolding svr_model_start finish_start
svr_model_start-SvrStarts os d fresh bc listen quiet =
    elim (svr_listen_start-ListenStarts os d fresh listen quiet) [
      | inl (c, e) ↦ rw e (finish_start-listen_refused os d c fresh bc)
      | inr (l, f, c, new, e) ↦ rw e (finish_start-listen_up os d l f c fresh bc new)
    ]

pub svr_model_stop-up :
    (l f b c : ℕ) (d : Discovery)
    → is_open f (l ∷ d.net.opened) ≡ false
    → svr_model_stop (boardcast_up b c (listen_up l f c d))
      ≡ some (boardcast_refused c (listen_refused c d))
unfolding svr_model_stop
svr_model_stop-up l f b c d new =
    ap (λ r. r >>= svr_listen_stop) (svr_boardcast_stop-boardcast_up b c (listen_up l f c d))
    ∙ (svr_listen_stop-listen_up l f c (record d { svr_bc = stopped }) new)
