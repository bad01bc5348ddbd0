-- ===== src/ConnReq/Jobs.antt =====
-- At most one job for a server at a time.
use udpboardcast.Base.{
  ℕ, suc, ◌+◌, ◌≤◌, ◌<◌, ◌≡◌, refl, ap, ◌∙◌, ◌⊎◌, inl, inr, true, false, List, [], ◌∷◌, ◌++◌,
  length, ◌==◌, if◌then◌else◌, length-append, Bool-cases, arith,
}
use udpboardcast.ThreadPool.{push_work, pop_work, length-push_work}
use udpboardcast.ConnReq.{
  Peer, ConnReq, requested, without, addsvrconn, delsvrconn, take_job, Step, Steps, add, take,
  finish, done, next, no_requests,
}

-- How many of the peers have this ip.
unfoldable pub count : ℕ → List Peer → ℕ
count ip [] = 0
count ip (p ∷ ps) = let rest = count ip ps in if p.ip == ip then suc rest else rest

-- How many jobs for this ip wait or run.
unfoldable pub jobs : ℕ → ConnReq → ℕ
unfolding count
jobs ip s = count ip s.queue + count ip s.running

pub count-append : (ip : ℕ) (ps qs : List Peer) → count ip (ps ++ qs) ≡ count ip ps + count ip qs
unfolding count
count-append ip [] qs = omega arith
count-append ip (p ∷ ps) qs = ground (arith, count-append ip ps qs)

pub count-requested : (ip : ℕ) (ps : List Peer) → requested ip ps ≡ false → count ip ps ≡ 0
unfolding count requested
count-requested ip [] h = refl
count-requested ip (p ∷ ps) h = ground (arith, h, count-requested ip ps)

requested-count : (ip : ℕ) (ps : List Peer) → requested ip ps ≡ true → 1 ≤ count ip ps
unfolding count requested
requested-count ip [] h = ground (arith, h)
requested-count ip (p ∷ ps) h = ground (arith, h, requested-count ip ps)

count-without_other :
    (x ip : ℕ) (ps : List Peer) → (x == ip) ≡ false → count x (without ip ps) ≡ count x ps
unfolding count without
count-without_other x ip [] h = refl
count-without_other x ip (p ∷ ps) h = ground (arith, h, count-without_other x ip ps h)

count-without_self : (ip : ℕ) (ps : List Peer) → count ip (without ip ps) ≡ 0
unfolding count without
count-without_self ip [] = refl
count-without_self ip (p ∷ ps) = ground (arith, count-without_self ip ps)

pub count-push_work :
    (ip : ℕ) (p : Peer) (queue : List Peer)
    → count ip (push_work p queue).1 ≤ count ip queue + count ip (p ∷ [])
unfolding push_work
count-push_work ip p queue = ground (arith, count-append ip queue (p ∷ []))

-- No server is requested twice, there are no more jobs for it than requests, the queue has at most
-- 65 jobs and at most 4 run.
pub record Inv (s : ConnReq) : Type 0 where
  pub one : (ip : ℕ) → count ip s.reqs ≤ 1
  pub backed : (ip : ℕ) → jobs ip s ≤ count ip s.reqs
  pub short : length s.queue ≤ 65
  pub few : length s.running ≤ 4

no_requests-Inv : Inv no_requests
unfolding jobs count
no_requests-Inv = record {
  one = λ ip. omega arith;
  backed = λ ip. omega arith;
  short = omega arith;
  few = omega arith;
}

count-add_one :
    (x : ℕ) (p : Peer) (ps : List Peer)
    → count p.ip ps ≡ 0
    → count x ps ≤ 1
    → count x (ps ++ p ∷ []) ≤ 1
unfolding count
count-add_one x p ps none_yet one = elim (Bool-cases (p.ip == x)) [
  | inl e ↦
      let same : p.ip ≡ x = ground (arith, e) in
      ground (arith, e, count-append x ps (p ∷ []), none_yet, same)
  | inr e ↦ ground (arith, e, count-append x ps (p ∷ []), one)
]

add-Inv : (ip port : ℕ) (s : ConnReq) → Inv s → Inv (addsvrconn ip port s)
unfolding addsvrconn jobs
add-Inv ip port s v = elim (Bool-cases (requested ip s.reqs)) [
  | inl e ↦ rw e v
  | inr e ↦
      let p : Peer = record { ip = ip; port = port } in
      let v' : Inv (record s { reqs = s.reqs ++ p ∷ []; queue = (push_work p s.queue).1 }) =
        record {
          one = λ x. count-add_one x p s.reqs (count-requested ip s.reqs e) (v.one x);
          backed = λ x.
              omega
                (arith, v.backed x, count-push_work x p s.queue, count-append x s.reqs (p ∷ []));
          short = length-push_work p s.queue v.short;
          few = v.few;
        } in
      rw e v'
]

take_from-Inv :
    (queue : List Peer) (s : ConnReq)
    → length s.running < 4
    → Inv (record s { queue = queue })
    → Inv (take_job (record s { queue = queue }))
unfolding take_job pop_work jobs count
take_from-Inv [] s room v = v
take_from-Inv (p ∷ queue) s room v = record {
  one = v.one;
  backed = λ x. ground (arith, v.backed x);
  short = omega (arith, v.short);
  few = omega arith;
}

-- The job at `p` taken out of those that run.
pub count-middle :
    (x : ℕ) (p : Peer) (xs ys : List Peer)
    → count x (xs ++ p ∷ ys) ≡ count x (xs ++ ys) + count x (p ∷ [])
unfolding count
count-middle x p xs ys = ground (arith, count-append x xs (p ∷ ys), count-append x xs ys)

pub without-cases :
    (x : ℕ) (p : Peer) (ps : List Peer)
    → ((count x (without p.ip ps) ≡ 0) × (count x (p ∷ []) ≡ 1))
      ⊎ (count x (without p.ip ps) ≡ count x ps)
unfolding count
without-cases x p ps = elim (Bool-cases (x == p.ip)) [
  | inl h ↦
      let same : x ≡ p.ip = ground (arith, h) in
      inl (ap (λ y. count y (without p.ip ps)) same ∙ count-without_self p.ip ps, ground (arith, h))
  | inr h ↦ inr (count-without_other x p.ip ps h)
]

finish-Inv :
    (p : Peer) (xs ys : List Peer) (s : ConnReq)
    → s.running ≡ xs ++ p ∷ ys
    → Inv s
    → Inv (delsvrconn p.ip (record s { running = xs ++ ys }))
unfolding delsvrconn jobs
finish-Inv p xs ys s e v = record {
  one = λ x. elim (without-cases x p s.reqs) [
    | inl (gone, _) ↦ omega (arith, gone)
    | inr same ↦ omega (arith, same, v.one x)
  ];
  backed = λ x.
      let left = ap (count x) e ∙ count-middle x p xs ys in
      elim (without-cases x p s.reqs) [
        | inl (gone, one) ↦ omega (arith, gone, one, left, v.backed x, v.one x)
        | inr same ↦ omega (arith, same, left, v.backed x)
      ];
  short = v.short;
  few =
      let full = ap length e in
      omega (arith, v.few, full, length-append xs (p ∷ ys), length-append xs ys);
}

Step-Inv : {s t : ConnReq} → Step s t → Inv s → Inv t
Step-Inv (add ip port s) v = add-Inv ip port s v
Step-Inv (take s room) v = take_from-Inv s.queue s room v
Step-Inv (finish p xs ys s e) v = finish-Inv p xs ys s e v

kept-Inv : {s t : ConnReq} → Steps s t → Inv s → Inv t
kept-Inv (done s) v = v
kept-Inv (next s t u h hs) v = kept-Inv hs (Step-Inv h v)

-- Whatever the threads do, from the start no server is requested twice, at most one job for it
-- waits or runs, and none without its request; at most 65 jobs wait, and at most 4 run.
pub Steps-Inv : {s : ConnReq} → Steps no_requests s → Inv s
Steps-Inv h = kept-Inv h no_requests-Inv
