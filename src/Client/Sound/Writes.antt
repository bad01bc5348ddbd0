-- ===== src/Client/Sound/Writes.antt =====
-- The end of a write, which may start a timer: `write_cb`.
use udpboardcast.Base.{ℕ, ◌≡◌, refl, inl, inr, true, false, none, ltb, ◌==◌, Bool-cases, arith}
use udpboardcast.ClientLoop.{Ptr}
use udpboardcast.ClientLoop.Tasks.{start_timer, rw_written, write_cb}
use udpboardcast.ClientLoop.Written.{write_cb_lem}
use udpboardcast.Client.{Client, mark}
use udpboardcast.Client.Sound.{Sound}
use udpboardcast.Client.Sound.Rules.{Goes, Goes-by, Sound-fails, Sound-start_timer}

-- Fewer writes are in flight.
Sound-written :
    (k : Client) (p : Ptr) → Sound k → Sound (record k { writing = mark k.writing p false })
Sound-written k p v = record {
  running = v.running;
  inited = v.inited;
  placed = v.placed;
  timed = v.timed;
  links = v.links;
  asked = v.asked;
  attempts = v.attempts;
  numbered = v.numbered;
  small = v.small;
  written = λ q on. v.written q (ground (arith, on));
}

module _ (k : Client) (p : Ptr) (status : ℕ) (v : Sound k) (on : k.writing p ≡ true) where
  unmarked : (q : Ptr) → mark k.writing p false q ≡ true → (k.writing q ≡ true) × ((q == p) ≡ false)
  unmarked q left = ground (arith, left)

  -- The end of a write in flight.
  pub write_cb-Goes :
      Goes (λ s. record k { loop = s; writing = mark k.writing p false }) (write_cb p status k.loop)
  unfolding rw_written
  write_cb-Goes =
      let (t, at, kind, there, idle) = v.written p on in
      Goes-by (write_cb_lem p t status k.loop at kind) (elim (Bool-cases (status == 0)) [
        | inl good ↦ elim (Bool-cases (ltb 0 t.timeout)) [
          | inl limited ↦
              rw (good, limited)
                (record {
                  next = start_timer t.task_id none k.loop;
                  result = refl;
                  sound =
                      Sound-start_timer k v t.task_id p there none idle (λ c e. cc)
                        (mark k.writing p false) unmarked;
                })
          | inr endless ↦
              rw (good, endless)
                (record { next = k.loop; result = refl; sound = Sound-written k p v })
        ]
        | inr bad ↦
            rw bad (Sound-fails k v t.task_id p there status (mark k.writing p false) unmarked)
      ])
