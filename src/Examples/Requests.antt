-- ===== src/Examples/Requests.antt =====
-- The requests of connections on a concrete run.
use udpboardcast.Base.{ℕ, zero, suc, refl, length, ltb→lt}
use udpboardcast.ThreadPool.{push_work}
use udpboardcast.ConnReq.{ConnReq, requested, addsvrconn, Step, Steps, add, done, next, no_requests}
use udpboardcast.ConnReq.Jobs.{Inv, Steps-Inv}
use udpboardcast.ConnReq.Refused.{Stuck, addsvrconn-refused}

Steps-last : {s t u : ConnReq} → Steps s t → Step t u → Steps s u
Steps-last (done s) h = next _ _ _ h (done _)
Steps-last (next s t u h hs) last = next s t _ h (Steps-last hs last)

-- So many servers are found before a thread takes its first job.
found : ℕ → ConnReq
unfolding addsvrconn
found zero = no_requests
found (suc n) = addsvrconn n 10038 (found n)

found-Steps : (n : ℕ) → Steps no_requests (found n)
unfolding found
found-Steps zero = done _
found-Steps (suc n) = Steps-last (found-Steps n) (add n 10038 (found n))

Steps-Inv_example : Inv (found 70)
Steps-Inv_example = Steps-Inv (found-Steps 70)

addsvrconn-refused_example : Stuck 100 (addsvrconn 100 10038 (found 65))
unfolding found requested push_work
addsvrconn-refused_example =
    addsvrconn-refused 100 10038 (found 65) (addsvrconn 100 10038 (found 65)) (found-Steps 65) refl
      (ltb→lt 64 (length (found 65).queue) refl) (done (addsvrconn 100 10038 (found 65)))
