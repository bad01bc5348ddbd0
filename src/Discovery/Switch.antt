-- ===== src/Discovery/Switch.antt =====
-- `ssn_set_boardcast_model`: the parts that run are those of the run type, while no start fails.
use udpboardcast.Base.{
  ℕ, zero, suc, ◌/◌, ◌%◌, ◌≡◌, refl, ap, ◌∙◌, ◌⊎◌, inl, inr, Option, none, some, arith,
}
use udpboardcast.Discovery.{
  Os, Net, Discovery, ◌>>=◌, running, stopped, cleansocket, sem_wait, sem_post, sem_destroy,
  thread_join,
}
use udpboardcast.Discovery.Sockets.{Fresh, Reliable}
use udpboardcast.Discovery.Client.{clt_model_start, clt_model_stop}
use udpboardcast.Discovery.ClientRun.{clt_model_start-CltStarts}
use udpboardcast.Discovery.Server.{
  svr_model_start, svr_model_stop, svr_boardcast_stop, svr_listen_stop,
}
use udpboardcast.Discovery.ServerRun.{svr_model_start-SvrStarts}
use udpboardcast.Discovery.Reliable.{clt_model_start-Succeeds, svr_model_start-Succeeds}
use udpboardcast.Discovery.Model.{clt_bit, svr_bit, set_clt, set_svr, set_boardcast_model}

-- The client's part, by its bit of the run type: stopped, or running on two sockets.
abbrev pub ClientIs : ℕ → Discovery → Type 0
ClientIs zero d = (d.clt_listen ≡ stopped) × (d.clt_startup ≡ none)
ClientIs (suc _) d = (l b : ℕ) × (d.clt_listen ≡ running l) × (d.clt_startup ≡ some b)

-- The server's part, on three sockets.
abbrev pub ServerIs : ℕ → Discovery → Type 0
ServerIs zero d = (d.svr_bc ≡ stopped) × (d.svr_listen ≡ stopped) × (d.svr_feedback ≡ none)
ServerIs (suc _) d =
    (l f b : ℕ) × (d.svr_bc ≡ running b) × (d.svr_listen ≡ running l) × (d.svr_feedback ≡ some f)

abbrev pub Matches : ℕ → Discovery → Type 0
Matches r d = ClientIs (clt_bit r) d × ServerIs (svr_bit r) d

-- A result with the client's part so, and the rest as it was.
abbrev ClientTo : ℕ → Discovery → Option Discovery → Type 0
ClientTo k d r =
    (d' : Discovery) × (r ≡ some d')
    × ClientIs k d'
    × (d'.svr_bc ≡ d.svr_bc)
    × (d'.svr_listen ≡ d.svr_listen)
    × (d'.svr_feedback ≡ d.svr_feedback)
    × (d'.run_type ≡ d.run_type)

abbrev ServerTo : ℕ → Discovery → Option Discovery → Type 0
ServerTo k d r =
    (d' : Discovery) × (r ≡ some d')
    × ServerIs k d'
    × (d'.clt_listen ≡ d.clt_listen)
    × (d'.clt_startup ≡ d.clt_startup)

bit-cases : (x : ℕ) → (x % 2 ≡ 0) ⊎ (x % 2 ≡ 1)
bit-cases x = ground arith

clt_stop-ClientTo : (d : Discovery) → ClientIs 1 d → ClientTo 0 d (clt_model_stop d)
unfolding clt_model_stop sem_post thread_join sem_wait sem_destroy
clt_stop-ClientTo d (l, b, on, some_b) =
    let net : Net = cleansocket (some b) (cleansocket (some l) d.net) in
    (
      record d { net = net; clt_listen = stopped; clt_startup = none },
      rw (on, some_b),
      (refl, refl),
      refl,
      refl,
      refl,
      refl,
    )

clt_start-ClientTo :
    (os : Os) (d : Discovery)
    → Fresh os
    → Reliable os
    → ClientIs 0 d
    → ClientTo 1 d (clt_model_start os d >>= λ x. some x.1)
clt_start-ClientTo os d fresh good (off, none_b) =
    elim (clt_model_start-CltStarts os d fresh none_b) [
      | inl (c, e) ↦
          let (d', e') = clt_model_start-Succeeds os d good in absurd (ground (arith, e, e'))
      | inr (l, b, c, sent, _, e) ↦
          (_, ap (λ r. r >>= λ x. some x.1) e, (l, b, refl, refl), refl, refl, refl, refl)
    ]

svr_stop-ServerTo : (d : Discovery) → ServerIs 1 d → ServerTo 0 d (svr_model_stop d)
unfolding svr_model_stop svr_boardcast_stop svr_listen_stop sem_post thread_join sem_wait
    sem_destroy
svr_stop-ServerTo d (l, f, b, bc, listen, fb) =
    let net : Net = cleansocket (some f) (cleansocket (some l) (cleansocket (some b) d.net)) in
    (
      record d { net = net; svr_bc = stopped; svr_listen = stopped; svr_feedback = none },
      rw (bc, listen, fb),
      (refl, refl, refl),
      refl,
      refl,
    )

svr_start-ServerTo :
    (os : Os) (d : Discovery)
    → Fresh os
    → Reliable os
    → ServerIs 0 d
    → ServerTo 1 d (svr_model_start os d >>= λ x. some x.1)
svr_start-ServerTo os d fresh good (bc, listen, fb) =
    elim (svr_model_start-SvrStarts os d fresh bc listen fb) [
      | inl (c, e) ↦
          let (d', e') = svr_model_start-Succeeds os d good in absurd (ground (arith, e, e'))
      | inr (l, f, b, c, _, e) ↦
          (_, ap (λ r. r >>= λ x. some x.1) e, (l, f, b, refl, refl, refl), refl, refl)
    ]

set_clt-ClientTo :
    (os : Os) (r : ℕ) (d : Discovery)
    → Fresh os
    → Reliable os
    → ClientIs (clt_bit d.run_type) d
    → ClientTo (clt_bit r) d (set_clt os r d)
unfolding set_clt
set_clt-ClientTo os r d fresh good is = elim (bit-cases d.run_type) [
  | inl e ↦ elim (bit-cases r) [
    | inl e' ↦ rw (e, e') (d, refl, rw e at is, refl, refl, refl, refl)
    | inr e' ↦ rw (e, e') (clt_start-ClientTo os d fresh good (rw e at is))
  ]
  | inr e ↦ elim (bit-cases r) [
    | inl e' ↦ rw (e, e') (clt_stop-ClientTo d (rw e at is))
    | inr e' ↦ rw (e, e') (d, refl, rw e at is, refl, refl, refl, refl)
  ]
]

set_svr-ServerTo :
    (os : Os) (r : ℕ) (d : Discovery)
    → Fresh os
    → Reliable os
    → ServerIs (svr_bit d.run_type) d
    → ServerTo (svr_bit r) d (set_svr os r d)
unfolding set_svr
set_svr-ServerTo os r d fresh good is = elim (bit-cases (d.run_type / 2)) [
  | inl e ↦ elim (bit-cases (r / 2)) [
    | inl e' ↦ rw (e, e') (d, refl, rw e at is, refl, refl)
    | inr e' ↦ rw (e, e') (svr_start-ServerTo os d fresh good (rw e at is))
  ]
  | inr e ↦ elim (bit-cases (r / 2)) [
    | inl e' ↦ rw (e, e') (svr_stop-ServerTo d (rw e at is))
    | inr e' ↦ rw (e, e') (d, refl, rw e at is, refl, refl)
  ]
]

ServerIs-same :
    (k : ℕ) (d d' : Discovery)
    → d'.svr_bc ≡ d.svr_bc
    → d'.svr_listen ≡ d.svr_listen
    → d'.svr_feedback ≡ d.svr_feedback
    → ServerIs k d
    → ServerIs k d'
ServerIs-same zero d d' e₁ e₂ e₃ (bc, listen, fb) = (e₁ ∙ bc, e₂ ∙ listen, e₃ ∙ fb)
ServerIs-same (suc _) d d' e₁ e₂ e₃ (l, f, b, bc, listen, fb) =
    (l, f, b, e₁ ∙ bc, e₂ ∙ listen, e₃ ∙ fb)

ClientIs-same :
    (k : ℕ) (d d' : Discovery)
    → d'.clt_listen ≡ d.clt_listen
    → d'.clt_startup ≡ d.clt_startup
    → ClientIs k d
    → ClientIs k d'
ClientIs-same zero d d' e₁ e₂ (off, quiet) = (e₁ ∙ off, e₂ ∙ quiet)
ClientIs-same (suc _) d d' e₁ e₂ (l, b, on, some_b) = (l, b, e₁ ∙ on, e₂ ∙ some_b)

-- While every call of the operating system succeeds, `ssn_set_boardcast_model` never faults or
-- blocks: from a state whose running parts are those of its run type it leads to one whose running
-- parts are those of the new run type, which it stores.
pub set_boardcast_model-Matches :
    (os : Os) (r : ℕ) (d : Discovery)
    → Fresh os
    → Reliable os
    → Matches d.run_type d
    → (d' : Discovery) × (set_boardcast_model os r d ≡ some d') × (d'.run_type ≡ r) × Matches r d'
unfolding set_boardcast_model
set_boardcast_model-Matches os r d fresh good (clt, svr) =
    let (d₁, e₁, c₁, bc, listen, fb, run) = set_clt-ClientTo os r d fresh good clt in
    let svr₁ = ServerIs-same (svr_bit d.run_type) d d₁ bc listen fb svr in
    let (d₂, e₂, s₂, cl, cs) = set_svr-ServerTo os r d₁ fresh good (rw run svr₁) in
    let store : Discovery → Option Discovery = λ d. some (record d { run_type = r }) in
    (
      record d₂ { run_type = r },
      ap (λ x. x >>= λ d. set_svr os r d >>= store) e₁ ∙ ap (λ x. x >>= store) e₂,
      refl,
      (
        ClientIs-same (clt_bit r) d₁ (record d₂ { run_type = r }) cl cs c₁,
        ServerIs-same (svr_bit r) d₂ (record d₂ { run_type = r }) refl refl refl s₂,
      ),
    )
