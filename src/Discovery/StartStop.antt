-- ===== src/Discovery/StartStop.antt =====
-- A stop gives back what a start took.
use udpboardcast.Base.{◌≡◌, refl, inl, inr, subst, true, none, some, arith}
use udpboardcast.Discovery.{Os, Discovery, stopped}
use udpboardcast.Discovery.Sockets.{Fresh}
use udpboardcast.Discovery.Client.{clt_model_start, clt_model_stop}
use udpboardcast.Discovery.ClientRun.{clt_up, clt_model_start-CltStarts, clt_model_stop-clt_up}
use udpboardcast.Discovery.Server.{svr_model_start, svr_model_stop}
use udpboardcast.Discovery.ServerRun.{
  listen_up, boardcast_up, svr_model_start-SvrStarts, svr_model_stop-up,
}

abbrev pub ClientStops : Discovery → Discovery → Type 0
ClientStops d d' =
    (d'' : Discovery) × (clt_model_stop d' ≡ some d'')
    × (d''.net.opened ≡ d.net.opened)
    × (d''.clt_listen ≡ stopped)
    × (d''.clt_startup ≡ none)

abbrev pub ServerStops : Discovery → Discovery → Type 0
ServerStops d d' =
    (d'' : Discovery) × (svr_model_stop d' ≡ some d'')
    × (d''.net.opened ≡ d.net.opened)
    × (d''.svr_bc ≡ stopped)
    × (d''.svr_listen ≡ stopped)
    × (d''.svr_feedback ≡ none)

-- After a start of the client's part that succeeded, a stop neither faults nor blocks, ends the
-- thread, and leaves the sockets open that were open before the start.
pub clt_model_stop-clt_model_start :
    (os : Os) (d d' : Discovery)
    → Fresh os
    → d.clt_startup ≡ none
    → clt_model_start os d ≡ some (true, d')
    → ClientStops d d'
clt_model_stop-clt_model_start os d d' fresh off e =
    elim (clt_model_start-CltStarts os d fresh off) [
      | inl (c, e') ↦ absurd (ground (arith, e, e'))
      | inr (l, b, c, sent, new, e') ↦
          let same : clt_up l b c sent d ≡ d' = cc (e, e') in
          subst (ClientStops d) same (_, clt_model_stop-clt_up l b c sent d new, refl, refl, refl)
    ]

-- After a start of the server's part that succeeded, a stop neither faults nor blocks, ends both
-- threads, and leaves the sockets open that were open before the start.
pub svr_model_stop-svr_model_start :
    (os : Os) (d d' : Discovery)
    → Fresh os
    → d.svr_bc ≡ stopped
    → d.svr_listen ≡ stopped
    → d.svr_feedback ≡ none
    → svr_model_start os d ≡ some (true, d')
    → ServerStops d d'
svr_model_stop-svr_model_start os d d' fresh bc listen quiet e =
    elim (svr_model_start-SvrStarts os d fresh bc listen quiet) [
      | inl (c, e') ↦ absurd (ground (arith, e, e'))
      | inr (l, f, b, c, new, e') ↦
          let same : boardcast_up b c (listen_up l f c d) ≡ d' = cc (e, e') in
          subst (ServerStops d) same (_, svr_model_stop-up l f b c d new, refl, refl, refl, refl)
    ]
