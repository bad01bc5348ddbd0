-- ===== src/Discovery/ClientRun.antt =====
-- Start and stop of the client's part: `clt_model_start` and `clt_model_stop`.
use udpboardcast.Base.{
  ℕ, ◌≡◌, refl, ◌⊎◌, inl, inr, Bool, true, false, List, ◌∷◌, Option, none, some,
}
use udpboardcast.Discovery.{
  Datagram, Os, Net, Discovery, is_open, running, stopped, cleansocket, sem_init, sem_wait,
  sem_post, sem_destroy, thread_create, thread_join,
}
use udpboardcast.Discovery.Sockets.{
  Fresh, Creates, close-head, close-second, sendto-opened, create_boardcast_socket-Creates,
  create_listen_udp_socket-Creates,
}
use udpboardcast.Discovery.Client.{
  startup_boardcast, client_startup_boardcast, clt_run, clt_clean, clt_boardcast, clt_listen_on,
  clt_model_start, clt_model_stop,
}

-- The client's part runs on the sockets `l` and `b`, over what was open before.
abbrev pub clt_up : ℕ → ℕ → ℕ → List Datagram → Discovery → Discovery
clt_up l b c sent d = record d {
  net = record { opened = b ∷ l ∷ d.net.opened; calls = c; sent = sent };
  clt_listen = running l;
  clt_startup = some b;
}

-- A failed start leaves no socket behind.
abbrev pub clt_refused : ℕ → Discovery → Discovery
clt_refused c d = record d {
  net = record d.net { calls = c };
  clt_listen = record d.clt_listen { sockfd = none };
  clt_startup = none;
}

abbrev pub CltStarts : Discovery → Option (Bool × Discovery) → Type 0
CltStarts d r =
    ((c : ℕ) × (r ≡ some (false, clt_refused c d)))
    ⊎ ((l b c : ℕ) × (sent : List Datagram) × (is_open b (l ∷ d.net.opened) ≡ false)
        × (r ≡ some (true, clt_up l b c sent d)))

pub clt_run_lem :
    (os : Os) (d : Discovery) (l : ℕ)
    → d.clt_listen.sockfd ≡ some l
    → (c : ℕ) × (sent : List Datagram) × (clt_run os d
        ≡ some (
          true,
          record d { net = record d.net { calls = c; sent = sent }; clt_listen = running l },
        ))
unfolding clt_run sem_init sem_wait thread_create client_startup_boardcast
clt_run_lem os d l at =
    let (c, sent, e) = sendto-opened os (startup_boardcast os) d.net in (c, sent, rw (e, at))

clt_boardcast-CltStarts :
    (os : Os) (d : Discovery) (l c : ℕ) (r : Option ℕ × Net)
    → Creates (record d.net { opened = l ∷ d.net.opened; calls = c }) r
    → CltStarts d (
        clt_boardcast os r (record d {
          net = record d.net { opened = l ∷ d.net.opened; calls = c };
          clt_listen = record d.clt_listen { sockfd = some l };
        }))
unfolding clt_boardcast clt_clean cleansocket
clt_boardcast-CltStarts os d l c r (inl (c', e)) = inl (c', rw (e, close-head l d.net.opened))
clt_boardcast-CltStarts os d l c r (inr (b, c', new, e)) =
    let d' : Discovery = record d {
      net = record d.net { opened = b ∷ l ∷ d.net.opened; calls = c' };
      clt_listen = record d.clt_listen { sockfd = some l };
      clt_startup = some b;
    } in
    let (k, sent, e') = clt_run_lem os d' l refl in inr (l, b, k, sent, new, rw (e, e'))

clt_listen_on-CltStarts :
    (os : Os) (d : Discovery) (r : Option ℕ × Net)
    → Fresh os
    → d.clt_startup ≡ none
    → Creates d.net r
    → CltStarts d (clt_listen_on os r d)
unfolding clt_listen_on clt_clean cleansocket
clt_listen_on-CltStarts os d r fresh off (inl (c, e)) = inl (c, rw (e, off))
clt_listen_on-CltStarts os d r fresh off (inr (l, c, _, e)) =
    rw e (clt_boardcast-CltStarts os d l c _ (create_boardcast_socket-Creates os _ fresh))

pub clt_model_start-CltStarts :
    (os : Os) (d : Discovery) → Fresh os → d.clt_startup ≡ none → CltStarts d (clt_model_start os d)
unfolding clt_model_start
clt_model_start-CltStarts os d fresh off =
    clt_listen_on-CltStarts os d _ fresh off (create_listen_udp_socket-Creates os d.net fresh)

pub clt_model_stop-clt_up :
    (l b c : ℕ) (sent : List Datagram) (d : Discovery)
    → is_open b (l ∷ d.net.opened) ≡ false
    → clt_model_stop (clt_up l b c sent d)
      ≡ some (record d {
        net = record d.net { calls = c; sent = sent };
        clt_listen = stopped;
        clt_startup = none;
      })
unfolding clt_model_stop sem_post thread_join sem_wait sem_destroy cleansocket
clt_model_stop-clt_up l b c sent d new =
    rw (close-second l b d.net.opened new, close-head b d.net.opened)
