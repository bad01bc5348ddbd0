-- ===== src/ConnReq.antt =====
-- HostChangeReq of bridge/connreq_mgr.cpp: the servers whose connection is requested, and the jobs
-- that the pool of threads runs for them.
pub mod Jobs
pub mod Refused
use udpboardcast.Base.{
  ℕ, suc, ◌<◌, ◌≡◌, Bool, true, false, List, [], ◌∷◌, ◌++◌, Option, none, some, length, ◌==◌,
  if◌then◌else◌,
}
use udpboardcast.ThreadPool.{push_work, pop_work}

-- `peer_info_t`; the ip is the address that the string is written from.
pub record Peer : Type 0 where
  pub ip : ℕ
  pub port : ℕ

-- The list `reqs`, the queue of the pool, and the jobs that its threads run at the moment.
pub record ConnReq : Type 0 where
  pub reqs : List Peer
  pub queue : List Peer
  pub running : List Peer

-- The search of `addsvrconn`.
unfoldable pub requested : ℕ → List Peer → Bool
requested ip [] = false
requested ip (p ∷ ps) = if p.ip == ip then true else requested ip ps

-- The loop of `delsvrconn`.
unfoldable pub without : ℕ → List Peer → List Peer
without ip [] = []
without ip (p ∷ ps) = let rest = without ip ps in if p.ip == ip then rest else p ∷ rest

-- `addsvrconn`; the result of `threadpool_push_work` is dropped.
unfoldable pub addsvrconn : ℕ → ℕ → ConnReq → ConnReq
unfolding requested push_work
addsvrconn ip port s =
    let peer : Peer = record { ip = ip; port = port } in
    if requested ip s.reqs
    then s
    else record s { reqs = s.reqs ++ peer ∷ []; queue = (push_work peer s.queue).1 }

unfoldable pub delsvrconn : ℕ → ConnReq → ConnReq
unfolding without
delsvrconn ip s = record s { reqs = without ip s.reqs }

-- `deliver_addsvr_msg`; `none` is a null pointer.
unfoldable pub deliver_addsvr_msg : Option ℕ → ℕ → ConnReq → ConnReq
unfolding addsvrconn
deliver_addsvr_msg none port s = s
deliver_addsvr_msg (some ip) port s = addsvrconn ip port s

-- A thread takes the next job, if there is one.
unfoldable pub take_job : ConnReq → ConnReq
unfolding pop_work
take_job s = elim (pop_work s.queue) [
  | none ↦ s
  | some (p, queue) ↦ record s { queue = queue; running = p ∷ s.running }
]

-- What the threads of the program do, one at a time under the locks. The constructor of the
-- handler gives its pool 4 threads. A job ends, whatever `ssn_connect` returned, with `delsvrconn`.
pub data Step : ConnReq → ConnReq → Type 0 where
  add : (ip port : ℕ) (s : ConnReq) → Step s (addsvrconn ip port s)
  take : (s : ConnReq) → length s.running < 4 → Step s (take_job s)
  finish :
      (p : Peer) (xs ys : List Peer) (s : ConnReq)
      → s.running ≡ xs ++ p ∷ ys
      → Step s (delsvrconn p.ip (record s { running = xs ++ ys }))

pub data Steps : ConnReq → ConnReq → Type 0 where
  done : (s : ConnReq) → Steps s s
  next : (s t u : ConnReq) → Step s t → Steps t u → Steps s u

abbrev pub no_requests : ConnReq
no_requests = record { reqs = []; queue = []; running = [] }
