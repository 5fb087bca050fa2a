-- ===== src/Balancer/Locking.antt =====
-- load_balancer.go: `backendMutex`, as the goroutines of the balancer take it. The mutex is that of
-- package sync: a goroutine that calls `Lock` waits in a queue until no other writer is ahead of it;
-- then it stops readers that come after it, and waits until those that came before have unlocked. A
-- reader that was stopped may be overtaken by a further writer, which package sync does not let
-- happen; so the model has every run of the program, and some more.
pub mod Exclusion
pub mod Deadlock
use distributed_messaging_sy.Base.{ℕ, ◌≡◌, Bool, true, false, ◌==◌, if◌then◌else◌}

-- Where a goroutine stands
pub data Pc : Type 0 where
  idle : Pc
  outer : Pc  -- in `proxyHandler`, after its `RLock`
  calling : Pc  -- in `getNextBackend`, before its `RLock`
  inner : Pc  -- in `getNextBackend`, after its `RLock`
  scraping : Pc  -- in the metrics handler, after its `RLock`
  queued : Pc  -- in `registerHandler` or the pruning, after the call of `Lock`, behind other writers
  waiting : Pc  -- there, with no writer ahead, until the readers have unlocked
  writing : Pc  -- there, once `Lock` has returned

abbrev pub reads : Pc → Bool
reads outer = true
reads calling = true
reads inner = true
reads scraping = true
reads _ = false

abbrev pub blocks : Pc → Bool
blocks waiting = true
blocks writing = true
blocks _ = false

-- The goroutines, by number
abbrev pub Threads : Type 0
Threads = ℕ → Pc

abbrev pub update : Threads → ℕ → Pc → Threads
update s i p j = if i == j then p else s j

abbrev pub NoWriter : Threads → Type 0
NoWriter s = (j : ℕ) → blocks (s j) ≡ false

abbrev pub NoReader : Threads → Type 0
NoReader s = (j : ℕ) → reads (s j) ≡ false

-- One step of one goroutine
pub data Move (s : Threads) : Pc → Pc → Type 0 where
  enter : NoWriter s → Move s idle outer
  call : Move s outer calling
  nest : NoWriter s → Move s calling inner
  picked : Move s inner outer
  answer : Move s outer idle
  scrape : NoWriter s → Move s idle scraping
  scraped : Move s scraping idle
  lock : Move s idle queued
  announce : NoWriter s → Move s queued waiting
  locked : NoReader s → Move s waiting writing
  unlock : Move s writing idle

pub data Step (s : Threads) : Threads → Type 0 where
  pick : (i : ℕ) {p : Pc} → Move s (s i) p → Step s (update s i p)

abbrev pub start : Threads
start _ = idle

-- The states that some steps lead to
pub data Reach (s : Threads) : Threads → Type 0 where
  here : Reach s s
  later : {t u : Threads} → Reach s t → Step t u → Reach s u
