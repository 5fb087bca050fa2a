-- ===== src/Balancer/Locking/Exclusion.antt =====
-- load_balancer.go: while the registry is written, nobody else reads or writes it.
use distributed_messaging_sy.Base.{ℕ, ◌≡◌, refl, true, false, arith}
use distributed_messaging_sy.Balancer.Locking.{
  Pc, writing, reads, blocks, Threads, update, Move, enter, call, nest, picked, scrape, announce,
  locked, Step, pick, start, Reach, here, later,
}

-- At most one goroutine is past the queue of writers, and while it writes there is no reader.
pub record IsExclusive (s : Threads) : Type 0 where
  pub one : (i j : ℕ) → blocks (s i) ≡ true → blocks (s j) ≡ true → i ≡ j
  pub alone : (i j : ℕ) → s j ≡ writing → reads (s i) ≡ false

module _ (s : Threads) (h : IsExclusive s) where
  one-update :
      (k : ℕ) {p q : Pc}
      → s k ≡ q
      → Move s q p
      → (i j : ℕ) → blocks (update s k p i) ≡ true
      → blocks (update s k p j) ≡ true
      → i ≡ j
  one-update k e (announce free) i j = ground (arith, free i, free j)
  one-update k e (locked free) i j = ground (arith, e, h.one i j, h.one k j, h.one i k)
  one-update k e (enter free) i j = ground (arith, h.one i j)
  one-update k e (nest free) i j = ground (arith, h.one i j)
  one-update k e (scrape free) i j = ground (arith, h.one i j)
  one-update k e _ i j = ground (arith, h.one i j)

  alone-update :
      (k : ℕ) {p q : Pc}
      → s k ≡ q
      → Move s q p
      → (i j : ℕ) → update s k p j ≡ writing
      → reads (update s k p i) ≡ false
  alone-update k e (enter free) i j = ground (arith, free j, h.alone i j)
  alone-update k e (nest free) i j = ground (arith, free j, h.alone i j)
  alone-update k e (scrape free) i j = ground (arith, free j, h.alone i j)
  alone-update k e (announce free) i j = ground (arith, h.alone i j)
  alone-update k e (locked free) i j = ground (arith, free i, h.alone i j)
  alone-update k e call i j = ground (arith, e, h.alone k j, h.alone i j)
  alone-update k e picked i j = ground (arith, e, h.alone k j, h.alone i j)
  alone-update k e _ i j = ground (arith, h.alone i j)

Step-IsExclusive : {s t : Threads} → Step s t → IsExclusive s → IsExclusive t
Step-IsExclusive {s} (pick i mv) h = record {
  one = one-update s h i refl mv;
  alone = alone-update s h i refl mv;
}

start-IsExclusive : IsExclusive start
start-IsExclusive = record { one = λ i j p q. cc; alone = λ i j p. cc }

pub Reach-IsExclusive : {s : Threads} → Reach start s → IsExclusive s
Reach-IsExclusive here = start-IsExclusive
Reach-IsExclusive (later r st) = Step-IsExclusive st (Reach-IsExclusive r)

-- In every reachable state, however the goroutines interleave: while one writes the registry, no
-- goroutine reads it, and no other one writes it.
pub writing-IsExclusive :
    {s : Threads}
    → Reach start s
    → (j : ℕ) → s j ≡ writing
    → (i : ℕ) → (reads (s i) ≡ false) × (s i ≡ writing → i ≡ j)
writing-IsExclusive {s} r j e i =
    let h = Reach-IsExclusive r in (h.alone i j e, λ w. h.one i j (rw w) (rw e))
