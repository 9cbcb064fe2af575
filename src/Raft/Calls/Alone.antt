-- ===== src/Raft/Calls/Alone.antt =====
-- A call of `append_log` that nothing interrupts, and `append_own`.
use scrape_grid.Prelude.{ℕ}
use scrape_grid.Raft.System.{System, Event, proceeds}

module _ {F C : Type 0} (i k : ℕ) where
  abbrev once : Event F C
  once = proceeds i k
