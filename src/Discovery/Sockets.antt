-- ===== src/Discovery/Sockets.antt =====
-- The creation of a socket: a new one on success, and the sockets as they were on a failure.
use udpboardcast.Base.{
  ℕ, ◌+◌, ◌≡◌, refl, ◌⊎◌, inl, inr, true, false, List, ◌∷◌, Option, none, some, Bool-cases,
  Option-cases, arith,
}
use udpboardcast.Discovery.{
  Datagram, Os, Net, sendto, is_open, close, cleansocket, call, check, check_none, check_one,
  check_two, create_udp_socket, when_created, create_boardcast_socket, create_listen_udp_socket,
}

-- The operating system never returns a socket that is open.
abbrev pub Fresh : Os → Type 0
Fresh os = (k : ℕ) (fs : List ℕ) (fd : ℕ) → os.socket k fs ≡ some fd → is_open fd fs ≡ false

-- Every call succeeds.
abbrev pub Reliable : Os → Type 0
Reliable os =
    ((k : ℕ) (fs : List ℕ) → (fd : ℕ) × (os.socket k fs ≡ some fd))
    × ((k : ℕ) → os.accepts k ≡ true)

-- A failed creation: only the count of calls has changed.
abbrev pub Refused : Net → Option ℕ × Net → Type 0
Refused n r = (c : ℕ) × (r ≡ (none, record n { calls = c }))

abbrev pub Opened : Net → Option ℕ × Net → Type 0
Opened n r =
    (fd : ℕ) × (c : ℕ) × (is_open fd n.opened ≡ false)
    × (r ≡ (some fd, record n { opened = fd ∷ n.opened; calls = c }))

abbrev pub Creates : Net → Option ℕ × Net → Type 0
Creates n r = Refused n r ⊎ Opened n r

pub close-head : (fd : ℕ) (fs : List ℕ) → close fd (fd ∷ fs) ≡ fs
unfolding close
close-head fd fs = ground arith

pub close-second :
    (a b : ℕ) (fs : List ℕ) → is_open b (a ∷ fs) ≡ false → close a (b ∷ a ∷ fs) ≡ b ∷ fs
unfolding close
close-second a b fs h = ground (arith, h)

pub create_udp_socket-Creates : (os : Os) (n : Net) → Fresh os → Creates n (create_udp_socket os n)
unfolding create_udp_socket call
create_udp_socket-Creates os n fresh = elim (Option-cases (os.socket n.calls n.opened)) [
  | inl e ↦ inl (n.calls + 1, rw (e, create_udp_socket))
  | inr (fd, e) ↦ inr (fd, n.calls + 1, fresh _ _ fd e, rw (e, create_udp_socket))
]

-- A call on a socket just opened passes it on, or closes it.
check-Creates :
    (os : Os) (n : Net) (fd c : ℕ) (next : ℕ → Net → Option ℕ × Net)
    → ((c : ℕ) → Creates n (next fd (record n { opened = fd ∷ n.opened; calls = c })))
    → Creates n (check os fd (record n { opened = fd ∷ n.opened; calls = c }) next)
unfolding check call cleansocket
check-Creates os n fd c next h = elim (Bool-cases (os.accepts c)) [
  | inl e ↦ rw e (h (c + 1))
  | inr e ↦ inl (c + 1, rw (e, close-head fd n.opened))
]

when_created-Creates :
    (n : Net) (r : Option ℕ × Net) (next : ℕ → Net → Option ℕ × Net)
    → Creates n r
    → ((fd c : ℕ)
        → is_open fd n.opened ≡ false
        → Creates n (next fd (record n { opened = fd ∷ n.opened; calls = c })))
    → Creates n (when_created r next)
unfolding when_created
when_created-Creates n r next (inl (c, e)) h = rw e (inl (c, refl))
when_created-Creates n r next (inr (fd, c, new, e)) h = rw e (h fd c new)

check_none-Creates :
    (n : Net) (fd c : ℕ)
    → is_open fd n.opened ≡ false
    → Creates n (check_none fd (record n { opened = fd ∷ n.opened; calls = c }))
unfolding check_none
check_none-Creates n fd c new = inr (fd, c, new, refl)

check_one-Creates :
    (os : Os) (n : Net) (fd c : ℕ)
    → is_open fd n.opened ≡ false
    → Creates n (check_one os fd (record n { opened = fd ∷ n.opened; calls = c }))
unfolding check_one
check_one-Creates os n fd c new =
    check-Creates os n fd c check_none λ c. check_none-Creates n fd c new

pub create_boardcast_socket-Creates :
    (os : Os) (n : Net) → Fresh os → Creates n (create_boardcast_socket os n)
unfolding create_boardcast_socket
create_boardcast_socket-Creates os n fresh =
    when_created-Creates n (create_udp_socket os n) (check_one os)
      (create_udp_socket-Creates os n fresh) (check_one-Creates os n)

check_two-Creates :
    (os : Os) (n : Net) (fd c : ℕ)
    → is_open fd n.opened ≡ false
    → Creates n (check_two os fd (record n { opened = fd ∷ n.opened; calls = c }))
unfolding check_two
check_two-Creates os n fd c new =
    check-Creates os n fd c (check_one os) λ c. check_one-Creates os n fd c new

pub create_listen_udp_socket-Creates :
    (os : Os) (n : Net) → Fresh os → Creates n (create_listen_udp_socket os n)
unfolding create_listen_udp_socket
create_listen_udp_socket-Creates os n fresh =
    when_created-Creates n (create_udp_socket os n) (check_two os)
      (create_udp_socket-Creates os n fresh) (check_two-Creates os n)

-- With a reliable operating system no creation fails.
pub create_udp_socket-Reliable :
    (os : Os) (n : Net) → Reliable os → (fd : ℕ) × ((create_udp_socket os n).0 ≡ some fd)
unfolding create_udp_socket
create_udp_socket-Reliable os n (opens, _) =
    let (fd, e) = opens n.calls n.opened in (fd, rw (e, create_udp_socket))

when_created-Reliable :
    (r : Option ℕ × Net) (next : ℕ → Net → Option ℕ × Net)
    → ((fd : ℕ) × (r.0 ≡ some fd))
    → ((fd : ℕ) (n : Net) → (next fd n).0 ≡ some fd)
    → (fd : ℕ) × ((when_created r next).0 ≡ some fd)
unfolding when_created
when_created-Reliable (none, n) next (fd, e) h = absurd (ground (arith, e))
when_created-Reliable (some x, n) next (fd, e) h = (x, h x n)

check_one-Reliable : (os : Os) (fd : ℕ) (n : Net) → Reliable os → (check_one os fd n).0 ≡ some fd
unfolding check_none check_one
check_one-Reliable os fd n (_, accepts) = rw (accepts n.calls, check_one, check)

check_two-Reliable : (os : Os) (fd : ℕ) (n : Net) → Reliable os → (check_two os fd n).0 ≡ some fd
unfolding check_two
check_two-Reliable os fd n (opens, accepts) =
    rw (accepts n.calls, check_two, check) (check_one-Reliable os fd (call n) (opens, accepts))

pub create_boardcast_socket-Reliable :
    (os : Os) (n : Net) → Reliable os → (fd : ℕ) × ((create_boardcast_socket os n).0 ≡ some fd)
unfolding create_boardcast_socket
create_boardcast_socket-Reliable os n good =
    when_created-Reliable (create_udp_socket os n) (check_one os)
      (create_udp_socket-Reliable os n good) (λ fd n. check_one-Reliable os fd n good)

pub create_listen_udp_socket-Reliable :
    (os : Os) (n : Net) → Reliable os → (fd : ℕ) × ((create_listen_udp_socket os n).0 ≡ some fd)
unfolding create_listen_udp_socket
create_listen_udp_socket-Reliable os n good =
    when_created-Reliable (create_udp_socket os n) (check_two os)
      (create_udp_socket-Reliable os n good) (λ fd n. check_two-Reliable os fd n good)

-- Sending a package opens and closes nothing.
pub sendto-opened :
    (os : Os) (d : Datagram) (n : Net)
    → (c : ℕ) × (sent : List Datagram) × ((sendto os d n).1 ≡ record n { calls = c; sent = sent })
unfolding sendto call
sendto-opened os d n = elim (Bool-cases (os.accepts n.calls)) [
  | inl e ↦ (n.calls + 1, d ∷ n.sent, rw (e, sendto))
  | inr e ↦ (n.calls + 1, n.sent, rw (e, sendto))
]
