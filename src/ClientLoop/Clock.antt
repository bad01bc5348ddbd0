-- ===== src/ClientLoop/Clock.antt =====
-- What the end of a task does to the timers of the client loop.
use udpboardcast.Base.{ℕ, ◌≡◌, ◌≢◌, refl, ◌∙◌, true, Option, none, some, ◌==◌, if◌then◌else◌, arith}
use udpboardcast.Table.{Table, find, erase, IsMap}
use udpboardcast.Table.Laws.{find-erase, IsMap-erase}
use udpboardcast.ClientLoop.{Ptr, put, TimerData}

-- No timer is left under `id`: the one that was there is closed, and the others go on.
pub record Stops (id : ℕ) (m m' : Table Ptr) (timers timers' : Ptr → Option TimerData)
    : Type 0 where
  pub finds : (j : ℕ) → find j m' ≡ (if j == id then none else find j m)
  pub keys : IsMap m → IsMap m'
  pub kept : (q : Ptr) → find id m ≢ some q → timers' q ≡ timers q
  pub shut :
      (q : Ptr) (td : TimerData)
      → find id m ≡ some q
      → timers q ≡ some td
      → timers' q ≡ some (record td { closing = true })

pub Stops-none :
    (id : ℕ) (m : Table Ptr) (timers : Ptr → Option TimerData)
    → find id m ≡ none
    → Stops id m m timers timers
Stops-none id m timers absent = record {
  finds = λ j. ground (arith, absent);
  keys = λ k. k;
  kept = λ q other. refl;
  shut = λ q td there at. cc (absent, there);
}

pub Stops-erase :
    (id : ℕ) (q : Ptr) (td : TimerData) (m : Table Ptr) (timers : Ptr → Option TimerData)
    → find id m ≡ some q
    → timers q ≡ some td
    → Stops id m (erase id m) timers (put timers q (some (record td { closing = true })))
Stops-erase id q td m timers there at = record {
  finds = λ j. find-erase j id m;
  keys = λ k. IsMap-erase id m k;
  kept = λ q' other. ground (arith, there, other);
  shut = λ q' td' there' at'. ground (arith, there, there', at, at');
}

-- What follows when nothing is left under `id`.
pub Stops-then :
    {id : ℕ} {m m' m'' : Table Ptr} {timers timers' timers'' : Ptr → Option TimerData}
    → Stops id m m' timers timers'
    → Stops id m' m'' timers' timers''
    → Stops id m m'' timers timers''
Stops-then {id} {m} {m'} {m''} {timers} {timers'} {timers''} a b =
    let gone : find id m' ≡ none = ground (arith, a.finds id) in
    record {
      finds = λ j. ground (arith, a.finds j, b.finds j);
      keys = λ k. b.keys (a.keys k);
      kept = λ q other. b.kept q (λ e. cc (gone, e)) ∙ a.kept q other;
      shut = λ q td there at. b.kept q (λ e. cc (gone, e)) ∙ a.shut q td there at;
    }
