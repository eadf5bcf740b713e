-- ===== src/Agent/Start/Connections.antt =====
-- How many connections src-tauri/src/agent/start.rs serves at once.
use keynoxis.Base.{
  ℕ, ◌+◌, ◌≤◌, ◌-◌, ◌%◌, ◌≡◌, refl, arith, true, false, List, [], ◌∷◌, Nat_eq, contains, length,
  ltb, Bool-cases, inl, inr, ◌∙◌, sym,
}
use keynoxis.Activity.{u64_mod}
use keynoxis.Agent.Start.{
  Listener, start, accept, close, without, try_acquire, release, max_agent_connections,
}

-- The states of the listener: connections come in while it is not stopped, and end in any order.
pub data Reachable : Listener → Type 0 where
  started : Reachable start
  accepted : {s : Listener} (id : ℕ) → s.is_stopped ≡ false → Reachable s → Reachable (accept id s)
  closed :
      {s : Listener} (id : ℕ) → contains s.served id ≡ true → Reachable s → Reachable (close id s)
  stopped : {s : Listener} → Reachable s → Reachable (record s { is_stopped = true })

-- The counter counts the connections, and they are within the limit.
pub record IsCounted (s : Listener) : Type 0 where
  pub counts : s.connections.active ≡ length s.served
  pub within : length s.served ≤ max_agent_connections
  pub limited : s.connections.limit ≡ max_agent_connections

length-without :
    (id : ℕ) (ids : List ℕ) → contains ids id ≡ true → length (without id ids) + 1 ≡ length ids
length-without id [] h = ground arith
length-without id (x ∷ xs) h = ground (arith, length-without id xs)

accept-IsCounted : (id : ℕ) (s : Listener) → IsCounted s → IsCounted (accept id s)
unfolding accept try_acquire
accept-IsCounted id s c = elim (Bool-cases (ltb s.connections.active s.connections.limit)) [
  | inl free ↦ rw free (record {
    counts = ground (arith, c.counts);
    within = ground (arith, c.counts, c.limited, free);
    limited = c.limited;
  })
  | inr full ↦ rw full (record { counts = c.counts; within = c.within; limited = c.limited })
]

released :
    (n : ℕ) {m : ℕ} → n ≡ m + 1 → m ≤ max_agent_connections → (n + (u64_mod - 1)) % u64_mod ≡ m
released n {m} h k = omega (arith, h, k)

close-IsCounted :
    (id : ℕ) (s : Listener) → contains s.served id ≡ true → IsCounted s → IsCounted (close id s)
unfolding close release
close-IsCounted id s h c = record {
  counts =
      released s.connections.active (c.counts ∙ sym (length-without id s.served h))
        (ground (arith, c.within, length-without id s.served h));
  within = ground (arith, c.within, length-without id s.served h);
  limited = c.limited;
}

-- Over any connections that come in and end, at most 32 are served at once, and the limiter's
-- counter, which would wrap around below 0, is exactly their number.
pub Reachable-IsCounted : (s : Listener) → Reachable s → IsCounted s
Reachable-IsCounted s started = record { counts = refl; within = ground arith; limited = refl }
Reachable-IsCounted s (accepted {s = s0} id h p) = accept-IsCounted id s0 (Reachable-IsCounted s0 p)
Reachable-IsCounted s (closed {s = s0} id h p) = close-IsCounted id s0 h (Reachable-IsCounted s0 p)
Reachable-IsCounted s (stopped {s = s0} p) =
    let c = Reachable-IsCounted s0 p in
    record { counts = c.counts; within = c.within; limited = c.limited }

contains-head : (id : ℕ) (ids : List ℕ) → contains (id ∷ ids) id ≡ true
contains-head id ids = ground arith

accept-room :
    (id : ℕ) (s : Listener)
    → ltb s.connections.active s.connections.limit ≡ true
    → contains (accept id s).served id ≡ true
unfolding accept try_acquire
accept-room id s h = rw h (contains-head id s.served)

-- When a connection ends, there is room: the next that comes in is served, whoever else is.
pub accept-close :
    (s : Listener) (ended id : ℕ)
    → Reachable s
    → contains s.served ended ≡ true
    → contains (accept id (close ended s)).served id ≡ true
unfolding close
accept-close s ended id p h =
    let c = Reachable-IsCounted s p in
    let c' = close-IsCounted ended s h c in accept-room id (close ended s) (room c c')
  where
    room :
        IsCounted s
        → IsCounted (close ended s)
        → ltb (close ended s).connections.active (close ended s).connections.limit ≡ true
    room c c' = ground (arith, c.within, c'.counts, c'.limited, length-without ended s.served h)
