-- ===== src/ServerLoop/Sound/Reach.antt =====
-- What holds in every state that a server reaches until it is closed.
use udpboardcast.Base.{ℕ, ◌∙◌, ◌≡◌, refl, sym, subst, List, Option, arith}
use udpboardcast.Table.{find}
use udpboardcast.ServerLoop.{ServerLoop, Outcome, ok}
use udpboardcast.ServerLoop.Steps.{
  started, Step, Steps, accepts, reads, closes, takes, works, works_end, pushes, push_ends,
  responds, sends_push, written, push_is_written, idles, stop, step,
}
use udpboardcast.ServerLoop.Shutdown.{asleep_at}
use udpboardcast.ServerLoop.Sound.{Sound, Holds, Sound-Frame}
use udpboardcast.ServerLoop.Sound.Conns.{listen_cb-Sound, read_cb-Sound, close_cb-Sound}
use udpboardcast.ServerLoop.Sound.Tasks.{
  Sound-Responds, Sound-Pushes, Sound-Mailed, take_job-Sound, svr_work_end-Sound,
  call_returns-Sound, resp_written-Sound, push_written-Sound, dozing-Sound, ssn_push-Sound,
}

started-Sound : Sound started
unfolding find
started-Sound = record {
  life = record { one = λ p. refl; fresh = λ p new. refl };
  rows = record { rows = λ id c there. cc; keys = tt; fresh = λ c new. refl };
  running = refl;
  inited = refl;
  short = omega arith;
}

ends : (s s' : ServerLoop) (r : Outcome) → r ≡ ok s' → Holds Sound r → Sound s'
ends s s' r e h = subst (Holds Sound) e h

Step-Sound : (cb : Option (List ℕ → List ℕ)) (s s' : ServerLoop) → Step cb s s' → Sound s → Sound s'
Step-Sound cb s s' (accepts a e) v = ends s s' _ e (listen_cb-Sound a s v)
Step-Sound cb s s' (reads stale c nread e) v = ends s s' _ e (read_cb-Sound stale c nread s v)
Step-Sound cb s s' (closes c e) v = ends s s' _ e (close_cb-Sound c s v)
Step-Sound cb s s' takes v = take_job-Sound s v
Step-Sound cb s s' (works p there e) v =
    let (t, at, _) = asleep_at s v.life p (omega (arith, there)) in
    let m = Sound-Mailed cb p t s v at there in
    ends s s' _ (sym m.result ∙ e) (Sound-Frame s m.next m.frame m.life v)
Step-Sound cb s s' (works_end p t at woken) v = svr_work_end-Sound p t s at woken v
Step-Sound cb s s' (pushes stale indata p e) v = ssn_push-Sound stale indata p s s' e v
Step-Sound cb s s' (push_ends p t at woken) v = call_returns-Sound p t s at woken v
Step-Sound cb s s' (responds p t uv at kind there e) v =
    let r = Sound-Responds cb p t uv s v at kind there in
    ends s s' _ (sym r.result ∙ e) (Sound-Frame s r.next r.frame r.life v)
Step-Sound cb s s' (sends_push p t uv at kind there e) v =
    let r = Sound-Pushes cb p t uv s v at kind there in
    ends s s' _ (sym r.result ∙ e) (Sound-Frame s r.next r.frame r.life v)
Step-Sound cb s s' (written p t status at there e) v =
    ends s s' _ e (resp_written-Sound p t status s at there v)
Step-Sound cb s s' push_is_written v = push_written-Sound s v
Step-Sound cb s s' (idles b) v = dozing-Sound b s v

-- In every state that a server reaches by handlers that return, so until it is closed or a request
-- finds more than 64 jobs waiting (`server_handler_req` then returns no more), each task is in exactly one place: it
-- waits for a thread, is worked on, is on the way to the loop, is being written, or its waiter has
-- been woken once; each entry of the table leads to a connection in memory with that id; and at
-- most 65 jobs wait for a thread.
pub Steps-Sound : (cb : Option (List ℕ → List ℕ)) (s : ServerLoop) → Steps cb started s → Sound s
Steps-Sound cb s stop = started-Sound
Steps-Sound cb s (step {s' = s'} run last) = Step-Sound cb s' s last (Steps-Sound cb s' run)
