-- ===== src/Discovery/Reliable.antt =====
-- Starts under an operating system whose calls all succeed.
use udpboardcast.Base.{ℕ, ◌≡◌, refl, ap, ◌∙◌, Bool, true, Option, none, some, arith}
use udpboardcast.Discovery.{
  Os, Net, Discovery, ◌>>=◌, create_udp_socket, sem_init, sem_wait, create_boardcast_socket,
}
use udpboardcast.Discovery.Sockets.{
  Reliable, create_udp_socket-Reliable, create_boardcast_socket-Reliable,
  create_listen_udp_socket-Reliable,
}
use udpboardcast.Discovery.Client.{clt_boardcast, clt_listen_on, clt_model_start}
use udpboardcast.Discovery.ClientRun.{clt_run_lem}
use udpboardcast.Discovery.Server.{
  svr_boardcast_on, svr_boardcast_start, svr_feedback_on, svr_listen_on, svr_listen_start,
  both_or_none, svr_model_start,
}

abbrev Succeeds : Option (Bool × Discovery) → Type 0
Succeeds r = (d : Discovery) × (r ≡ some (true, d))

clt_boardcast-Succeeds :
    (os : Os) (r : Option ℕ × Net) (d : Discovery) (l : ℕ)
    → ((fd : ℕ) × (r.0 ≡ some fd))
    → d.clt_listen.sockfd ≡ some l
    → Succeeds (clt_boardcast os r d)
unfolding clt_boardcast
clt_boardcast-Succeeds os (none, n) d l (_, e) at = absurd (ground (arith, e))
clt_boardcast-Succeeds os (some b, n) d l _ at =
    let (_, _, e) = clt_run_lem os (record d { net = n; clt_startup = some b }) l at in (_, e)

clt_listen_on-Succeeds :
    (os : Os) (r : Option ℕ × Net) (d : Discovery)
    → Reliable os
    → ((fd : ℕ) × (r.0 ≡ some fd))
    → Succeeds (clt_listen_on os r d)
unfolding clt_listen_on
clt_listen_on-Succeeds os (none, n) d good (_, e) = absurd (ground (arith, e))
clt_listen_on-Succeeds os (some l, n) d good _ =
    clt_boardcast-Succeeds os (create_boardcast_socket os n)
      (record d { net = n; clt_listen = record d.clt_listen { sockfd = some l } }) l
      (create_boardcast_socket-Reliable os n good) refl

pub clt_model_start-Succeeds :
    (os : Os) (d : Discovery) → Reliable os → Succeeds (clt_model_start os d)
unfolding clt_model_start
clt_model_start-Succeeds os d good =
    clt_listen_on-Succeeds os _ d good (create_listen_udp_socket-Reliable os d.net good)

svr_feedback_on-Succeeds :
    (r : Option ℕ × Net) (d : Discovery)
    → ((fd : ℕ) × (r.0 ≡ some fd))
    → Succeeds (svr_feedback_on r d)
unfolding svr_feedback_on sem_init sem_wait
svr_feedback_on-Succeeds (none, n) d (_, e) = absurd (ground (arith, e))
svr_feedback_on-Succeeds (some f, n) d _ = (_, refl)

svr_listen_on-Succeeds :
    (os : Os) (r : Option ℕ × Net) (d : Discovery)
    → Reliable os
    → ((fd : ℕ) × (r.0 ≡ some fd))
    → Succeeds (svr_listen_on os r d)
unfolding svr_listen_on
svr_listen_on-Succeeds os (none, n) d good (_, e) = absurd (ground (arith, e))
svr_listen_on-Succeeds os (some l, n) d good _ =
    svr_feedback_on-Succeeds (create_udp_socket os n)
      (record d { net = n; svr_listen = record d.svr_listen { sockfd = some l } })
      (create_udp_socket-Reliable os n good)

svr_listen_start-Succeeds :
    (os : Os) (d : Discovery) → Reliable os → Succeeds (svr_listen_start os d)
unfolding svr_listen_start
svr_listen_start-Succeeds os d good =
    svr_listen_on-Succeeds os _ d good (create_listen_udp_socket-Reliable os d.net good)

svr_boardcast_on-Succeeds :
    (r : Option ℕ × Net) (d : Discovery)
    → ((fd : ℕ) × (r.0 ≡ some fd))
    → Succeeds (svr_boardcast_on r (record d { svr_bc = sem_init 1 d.svr_bc }))
unfolding svr_boardcast_on sem_init sem_wait
svr_boardcast_on-Succeeds (none, n) d (_, e) = absurd (ground (arith, e))
svr_boardcast_on-Succeeds (some b, n) d _ = (_, refl)

svr_boardcast_start-Succeeds :
    (os : Os) (d : Discovery) → Reliable os → Succeeds (svr_boardcast_start os d)
unfolding svr_boardcast_start
svr_boardcast_start-Succeeds os d good =
    svr_boardcast_on-Succeeds _ d (create_boardcast_socket-Reliable os d.net good)

pub svr_model_start-Succeeds :
    (os : Os) (d : Discovery) → Reliable os → Succeeds (svr_model_start os d)
unfolding svr_model_start both_or_none
svr_model_start-Succeeds os d good =
    let (d₁, e₁) = svr_listen_start-Succeeds os d good in
    let (d₂, e₂) = svr_boardcast_start-Succeeds os d₁ good in
    (
      d₂,
      ap (λ r. r >>= λ x. svr_boardcast_start os x.1 >>= λ y. both_or_none x.0 y.0 y.1) e₁
          ∙ ap (λ r. r >>= λ y. both_or_none true y.0 y.1) e₂,
    )
