-- ===== src/Store/Memory/Calls.antt =====
-- Sequences of calls on the in-process store.
use krab_pub.Common.{ℕ, List, [], ◌∷◌}
use krab_pub.Common.Text.{Text}
use krab_pub.Store.Interface.{Times}
use krab_pub.Store.Memory.{
  MemoryStore, get_reap, get, set, incr, incr_with_ttl, expire, delete, set_if_absent,
}

-- What a caller can ask of the store. `reaps` is the write half of a `get` that another task may
-- have overtaken.
pub data Call : Type 0 where
  gets reaps deletes : Text → Call
  sets leases : Text → Text → ℕ → Call
  incrs : Text → ℕ → Call
  incrs_with_ttl : Text → ℕ → ℕ → Call
  expires : Text → ℕ → Call

unfoldable pub step : MemoryStore → Times × Call → MemoryStore
step s (t, gets key) = (get s key t.call).0
step s (t, reaps key) = get_reap s key
step s (t, deletes key) = (delete s key).0
step s (t, sets key value ttl) = set s t key value ttl
step s (t, leases key value ttl) = (set_if_absent s t key value ttl).0
step s (t, incrs key delta) = (incr s t key delta).0
step s (t, incrs_with_ttl key delta ttl) = (incr_with_ttl s t key delta ttl).0
step s (t, expires key ttl) = expire s t.call key ttl

unfoldable pub run : MemoryStore → List (Times × Call) → MemoryStore
run s [] = s
run s (c ∷ cs) = run (step s c) cs
