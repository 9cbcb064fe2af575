-- ===== src/Raft/Calls.antt =====
-- What a call of `append_log` relies on between its steps, whatever the threads do meanwhile.
pub mod Steps
pub mod Alone
use scrape_grid.Prelude.{
  ℕ, ◌+◌, ◌≤◌, ◌≡◌, refl, sym, ap, ◌∙◌, subst, List, [], ◌∷◌, ◌++◌, arith, length, length-append,
  not, ◌||◌, ltb, ◌==◌, Bool, true, false, if◌then◌else◌, Bool-cases, inl, inr,
}
use scrape_grid.Prelude.Int.{sub_ℕ}
use scrape_grid.Raft.{
  Node, Entry, init, force_crash, recover, stand, request_vote, wins, lead, receive_heartbeat,
  accept_leader, is_leader,
}
use scrape_grid.Raft.System.{
  System, Phase, idle, asking, announcing, beating, update, Event, actor, starts, asks, concludes,
  announces, beats, delivers, crashes, recovers, appends, proceeds, Next, counts, tells, Call,
  returned, tested, writing, measuring, indexing, counting, noting, telling, after, start, ask,
  conclude, announce, beat, deliver, append, proceed, at_node, at_call, peers, act, step, run, boot,
}
use scrape_grid.Raft.Closed.{
  IsClosed, start-all, ask-all, conclude-all, announce-all, beat-all, deliver-all, at_update,
}

module _ {F C : Type 0} where
  -- The commit index is -1, or that of an entry of the log.
  pub record IsLogged (m : Node F C) : Type 0 where
    pub length_at : ℕ
    pub at : m.commit_index ≡ sub_ℕ length_at 1
    pub within : length_at ≤ length m.log

  -- The node has lost no entry of a log of `low` entries.
  abbrev pub Holds : ℕ → Node F C → Type 0
  Holds low m = (low ≤ length m.log) × IsLogged m

  kept :
      (low : ℕ) (m m' : Node F C)
      → m'.log ≡ m.log
      → m'.commit_index ≡ m.commit_index
      → Holds low m
      → Holds low m'
  kept low m m' same commit (l, h) = (
    omega (arith, ap length same, l),
    record {
      length_at = h.length_at;
      at = commit ∙ h.at;
      within = omega (arith, ap length same, h.within);
    },
  )

  pub logs-IsClosed : (low : ℕ → ℕ) → IsClosed {F = F} {C = C} (λ j m. Holds (low j) m)
  unfolding stand request_vote lead receive_heartbeat accept_leader force_crash recover
  logs-IsClosed low = record {
    stands = λ i m now timeout h. kept (low i) m (stand i m now timeout) refl refl h;
    votes = λ j m t i l now h.
        kept (low j) m (request_vote m t i l now).1 (ground arith) (ground arith) h;
    leads = λ i m h. kept (low i) m (lead i m) refl refl h;
    hears = λ j m t i c now timeout h.
        kept (low j) m (receive_heartbeat m t i c now timeout) (ground arith) (ground arith) h;
    accepts =
        λ j m i t now h. kept (low j) m (accept_leader m i t now) (ground arith) (ground arith) h;
    crash = λ j m h. kept (low j) m (force_crash m) refl refl h;
    recovery = λ j m now timeout h. kept (low j) m (recover m now timeout) refl refl h;
  }

  -- What a call of `append_log` relies on: the length that it has read, the log still has.
  abbrev pub Relies : (ℕ → Node F C) → Call C → Type 0
  Relies node returned = Unit {0}
  Relies node (tested command) = Unit {0}
  Relies node (writing p e next) = Unit {0}
  Relies node (measuring p e next) = Unit {0}
  Relies node (indexing p e len next) = len ≤ length (node p).log
  Relies node (counting e) = Unit {0}
  Relies node (noting e count) = Unit {0}
  Relies node (telling e todo) = Unit {0}

  Relies-grows :
      (node node' : ℕ → Node F C) (c : Call C)
      → ((j : ℕ) → length (node j).log ≤ length (node' j).log)
      → Relies node c
      → Relies node' c
  Relies-grows node node' returned g h = tt
  Relies-grows node node' (tested command) g h = tt
  Relies-grows node node' (writing p e next) g h = tt
  Relies-grows node node' (measuring p e next) g h = tt
  Relies-grows node node' (indexing p e len next) g h = omega (arith, g p)
  Relies-grows node node' (counting e) g h = tt
  Relies-grows node node' (noting e count) g h = tt
  Relies-grows node node' (telling e todo) g h = tt

  pub record IsSound (s : System F C) : Type 0 where
    pub logged : (j : ℕ) → IsLogged (s.node j)
    pub relies : (i k : ℕ) → Relies s.node (s.calls i k)

  abbrev pub low_of : System F C → ℕ → ℕ
  low_of s j = length (s.node j).log

  -- A step of the threads, which changes no call.
  pub threads-IsSound :
      (s s' : System F C)
      → s'.calls ≡ s.calls
      → ((j : ℕ) → Holds (length (s.node j).log) (s'.node j))
      → IsSound s
      → IsSound s'
  threads-IsSound s s' same all h = record {
    logged = λ j. (all j).1;
    relies = λ i k.
        subst (λ calls. Relies s'.node (calls i k)) (sym same)
          (Relies-grows s.node s'.node (s.calls i k) (λ j. (all j).0) (h.relies i k));
  }

  -- A write of `append_log` to the node `p`.
  pub node-IsSound :
      (s : System F C) (p : ℕ) (m : Node F C)
      → length (s.node p).log ≤ length m.log
      → IsLogged m
      → IsSound s
      → IsSound (at_node s p m)
  node-IsSound s p m grows logged h =
      threads-IsSound s (at_node s p m) refl
        (at_update (λ j x. Holds (length (s.node j).log) x) (logs-IsClosed (low_of s)) s.node p m
          (λ j. (omega arith, h.logged j)) (λ x. (grows, logged)))
        h

  call_at :
      (node : ℕ → Node F C) (calls : ℕ → ℕ → Call C) (i k : ℕ) (c : Call C)
      → Relies node c
      → ((i k : ℕ) → Relies node (calls i k))
      → (j l : ℕ) → Relies node (update calls i (update (calls i) k c) j l)
  call_at node calls i k c r all j l = elim (Bool-cases (i == j)) [
    | inl same ↦
        rw same
          (elim (Bool-cases (k == l)) [ inl this ↦ rw this r | inr other ↦ rw other (all i l) ])
    | inr other ↦ rw other (all j l)
  ]

  pub call-IsSound :
      (s : System F C) (i k : ℕ) (c : Call C)
      → Relies s.node c
      → IsSound s
      → IsSound (at_call s i k c)
  call-IsSound s i k c r h = record {
    logged = h.logged;
    relies = call_at s.node s.calls i k c r h.relies;
  }
