-- ===== src/ConnReq/Refused.antt =====
-- What becomes of a request whose job the pool refuses.
use udpboardcast.Base.{
  ℕ, ◌≤◌, ◌<◌, ◌≡◌, ap, subst, ◌∙◌, inl, inr, false, List, [], ◌∷◌, ◌++◌, length, ◌==◌, Bool-cases,
  arith,
}
use udpboardcast.ThreadPool.{pop_work, push_work-full}
use udpboardcast.ConnReq.{
  Peer, ConnReq, requested, addsvrconn, delsvrconn, take_job, Steps, add, take, finish, done, next,
  no_requests,
}
use udpboardcast.ConnReq.Jobs.{
  count, jobs, count-append, count-requested, count-push_work, count-middle, without-cases, Inv,
  Steps-Inv,
}

-- A request without a job.
abbrev pub Stuck : ℕ → ConnReq → Type 0
Stuck ip s = (1 ≤ count ip s.reqs) × (jobs ip s ≡ 0)

count-other :
    (ip : ℕ) (p : Peer) (ps : List Peer)
    → count p.ip ps ≡ 0
    → 1 ≤ count ip ps
    → count ip (p ∷ []) ≡ 0
unfolding count
count-other ip p ps gone there = elim (Bool-cases (p.ip == ip)) [
  | inl e ↦
      let same : p.ip ≡ ip = ground (arith, e) in
      let zero_there : count ip ps ≡ 0 = subst (λ i. count i ps ≡ 0) same gone in
      absurd (omega (arith, zero_there, there))
  | inr e ↦ ground (arith, e)
]

add-Stuck : (ip x port : ℕ) (s : ConnReq) → Stuck ip s → Stuck ip (addsvrconn x port s)
unfolding addsvrconn jobs count
add-Stuck ip x port s (there, none_left) = elim (Bool-cases (requested x s.reqs)) [
  | inl e ↦ rw e (there, none_left)
  | inr e ↦
      let p : Peer = record { ip = x; port = port } in
      let kept = count-append ip s.reqs (p ∷ []) in
      let gone = count-requested x s.reqs e in
      let other = count-other ip p s.reqs gone there in
      let more = count-push_work ip p s.queue in
      rw e (omega (arith, there, kept), omega (arith, more, other, none_left))
]

take_from-Stuck :
    (ip : ℕ) (queue : List Peer) (s : ConnReq)
    → Stuck ip (record s { queue = queue })
    → Stuck ip (take_job (record s { queue = queue }))
unfolding take_job pop_work jobs count
take_from-Stuck ip [] s h = h
take_from-Stuck ip (p ∷ queue) s (there, none_left) = (there, ground (arith, none_left))

finish-Stuck :
    (ip : ℕ) (p : Peer) (xs ys : List Peer) (s : ConnReq)
    → s.running ≡ xs ++ p ∷ ys
    → Stuck ip s
    → Stuck ip (delsvrconn p.ip (record s { running = xs ++ ys }))
unfolding delsvrconn jobs
finish-Stuck ip p xs ys s e (there, none_left) =
    let left = ap (count ip) e ∙ count-middle ip p xs ys in
    elim (without-cases ip p s.reqs) [
      | inl (_, one) ↦ absurd (omega (arith, one, left, none_left))
      | inr same ↦ (omega (arith, same, there), omega (arith, left, none_left))
    ]

kept-Stuck : {s t : ConnReq} (ip : ℕ) → Steps s t → Stuck ip s → Stuck ip t
kept-Stuck ip (done s) h = h
kept-Stuck ip (next s t u (add x port _) hs) h = kept-Stuck ip hs (add-Stuck ip x port s h)
kept-Stuck ip (next s t u (take _ room) hs) h = kept-Stuck ip hs (take_from-Stuck ip s.queue s h)
kept-Stuck ip (next s t u (finish p xs ys _ e) hs) h =
    kept-Stuck ip hs (finish-Stuck ip p xs ys s e h)

count-own : (p : Peer) → count p.ip (p ∷ []) ≡ 1
unfolding count
count-own p = ground arith

refused-Stuck :
    (ip port : ℕ) (s : ConnReq)
    → Inv s
    → requested ip s.reqs ≡ false
    → 64 < length s.queue
    → Stuck ip (addsvrconn ip port s)
unfolding addsvrconn jobs
refused-Stuck ip port s v new full =
    let p : Peer = record { ip = ip; port = port } in
    let kept = count-append ip s.reqs (p ∷ []) in
    let own : count ip (p ∷ []) ≡ 1 = count-own p in
    let queue_kept = ap (λ r. count ip r.1) (push_work-full p s.queue full) in
    let none_yet = count-requested ip s.reqs new in
    rw new (omega (arith, kept, own), omega (arith, queue_kept, none_yet, v.backed ip))

-- A server that is found while more than 64 jobs wait is never connected: its request is noted,
-- and whatever the threads do from there, it stays noted and no job for it waits or runs.
pub addsvrconn-refused :
    (ip port : ℕ) (s t : ConnReq)
    → Steps no_requests s
    → requested ip s.reqs ≡ false
    → 64 < length s.queue
    → Steps (addsvrconn ip port s) t
    → Stuck ip t
addsvrconn-refused ip port s t before new full after =
    kept-Stuck ip after (refused-Stuck ip port s (Steps-Inv before) new full)
