-- ===== src/Agents/Pool/Balance.antt =====
-- No client is lost and none is kept twice: each goes from the caller to a pool or to the closed ones,
-- and from a pool to a caller or to the closed ones.
use rooben.Prelude.{
  ℕ, ◌+◌, ◌==◌, ◌≡◌, refl, false, String, none, some, List, [], ◌∷◌, ◌++◌, sum_of, cond, length,
  ltb, is_empty, arith, Bool-cases, Option-cases, inl, inr, ◌⊎◌,
}
use rooben.Dict.{Dict, get, put, values}
use rooben.Dict.Laws.{sum_of-put}
use rooben.Orchestrator.Core.{Reply, returned, failed}
use rooben.Agents.Pool.{
  PooledConnection, ConnectionPool, Servers, Taken, nothing_live, live, close_raised, is_stale,
  close, look, set_pool, pool_of, checkin,
}

-- 1 for the client itself.
unfoldable pub unit_of : ℕ → ℕ → ℕ
unit_of x client = cond (client == x) 1 0

unfoldable pub held_in : ℕ → List PooledConnection → ℕ
unfolding unit_of
held_in x conns = sum_of (λ (c : PooledConnection). unit_of x c.client) conns

-- How often the client is in a pool, or among the closed ones.
unfoldable pub accounted : ℕ → ConnectionPool → ℕ
unfolding held_in values unit_of
accounted x s = sum_of (held_in x) (values s.pools) + sum_of (unit_of x) s.closed

accounted_lem :
    (x : ℕ) (s : ConnectionPool)
    → accounted x s ≡ sum_of (held_in x) (values s.pools) + sum_of (unit_of x) s.closed
unfolding accounted
accounted_lem x s = refl

sum_of-put_new :
    {V : Type 0} (f : V → ℕ) (d : Dict V) (k : String) (v : V)
    → get d k ≡ none
    → sum_of f (values (put d k v)) ≡ sum_of f (values d) + f v
unfolding get put values
sum_of-put_new f [] k v h = omega arith
sum_of-put_new f ((j, u) ∷ d) k v h = ground (arith, sum_of-put_new f d k v)

held_in-snoc :
    (x : ℕ) (conns : List PooledConnection) (c : PooledConnection)
    → held_in x (conns ++ c ∷ []) ≡ held_in x conns + unit_of x c.client
unfolding held_in
held_in-snoc x [] c = omega arith
held_in-snoc x (d ∷ conns) c = omega (arith, held_in-snoc x conns c)

accounted-close :
    (x client : ℕ) (s : ConnectionPool)
    → accounted x (close client s) ≡ accounted x s + unit_of x client
unfolding accounted close
accounted-close x client s = omega arith

accounted-look : (x : ℕ) (s : ConnectionPool) → accounted x (look s) ≡ accounted x s
unfolding accounted look
accounted-look x s = refl

abbrev pooled : ℕ → List String → String → ℕ → PooledConnection
pooled client tools key now = record {
  client = client;
  tools = tools;
  key = key;
  in_use = false;
  last_used = now;
}

abbrev found_unit : ℕ → Taken → ℕ
found_unit x nothing_live = 0
found_unit x (live c) = unit_of x c.client
found_unit x (close_raised e) = 0

pub Taken-cases :
    (t : Taken)
    → (t ≡ nothing_live)
      ⊎ ((c : PooledConnection) × (t ≡ live c))
      ⊎ ((e : String) × (t ≡ close_raised e))
Taken-cases nothing_live = inl refl
Taken-cases (live c) = inr (inl (c, refl))
Taken-cases (close_raised e) = inr (inr (e, refl))

module _ {Config : Type 0} (w : Servers Config) where
  -- A connection that was looked at and found neither stale nor with dead servers.
  abbrev IsLive : PooledConnection → Type 0
  IsLive c = (n : ℕ) × (is_stale w n c ≡ false) × (w.has_dead_servers n c.client ≡ false)

  -- What is known of what was found.
  abbrev IsFound : Taken → Type 0
  IsFound nothing_live = Unit
  IsFound (live c) = IsLive c
  IsFound (close_raised e) = (n : ℕ) × (client : ℕ) × (w.close_error n client ≡ some e)

  set_pool-accounted :
      (x : ℕ) (key : String) (old conns : List PooledConnection) (s s1 : ConnectionPool)
      → get s.pools key ≡ some old
      → s1.pools ≡ s.pools
      → accounted x (set_pool key conns s1) + held_in x old
        ≡ sum_of (held_in x) (values s.pools) + held_in x conns + sum_of (unit_of x) s1.closed
  unfolding accounted set_pool
  set_pool-accounted x key old conns s s1 there same =
      rw same (omega (arith, sum_of-put (held_in x) s.pools key {old = old} conns there))

  set_pool-accounted_new :
      (x : ℕ) (key : String) (conns : List PooledConnection) (s s1 : ConnectionPool)
      → get s.pools key ≡ none
      → s1.pools ≡ s.pools
      → accounted x (set_pool key conns s1)
        ≡ sum_of (held_in x) (values s.pools) + held_in x conns + sum_of (unit_of x) s1.closed
  unfolding accounted set_pool
  set_pool-accounted_new x key conns s s1 absent same =
      rw same (omega (arith, sum_of-put_new (held_in x) s.pools key conns absent))

  -- A client comes out of a pool, live, or is new and connected; every other client stays in a pool or
  -- is closed. If the checkout raises, the exception is that of a `close` or of the new client's
  -- connection, and no client has left the pools but to be closed.
  abbrev pub IsCheckedOut :
      List Config → ConnectionPool → ConnectionPool → Reply (ℕ × List String) → Type 0
  IsCheckedOut configs s s' (returned (client, tools)) =
      ((c : PooledConnection) × (client ≡ c.client)
        × (tools ≡ c.tools)
        × IsLive c
        × ((x : ℕ) → accounted x s' + unit_of x client ≡ accounted x s))
      ⊎ ((n : ℕ) × (client ≡ w.create n configs)
          × (w.connect n client ≡ returned tools)
          × ((x : ℕ) → accounted x s' ≡ accounted x s))
  IsCheckedOut configs s s' (failed e) =
      (((n : ℕ) × (client : ℕ) × (w.close_error n client ≡ some e))
        ⊎ ((n : ℕ) × (w.connect n (w.create n configs) ≡ failed e)))
      × ((x : ℕ) → accounted x s' ≡ accounted x s)

  pool_of-accounted :
      (x : ℕ) (key : String) (conns : List PooledConnection) (s : ConnectionPool)
      → accounted x (set_pool key conns (look s)) + held_in x (pool_of w key s)
        ≡ accounted x s + held_in x conns
  unfolding pool_of held_in look
  pool_of-accounted x key conns s = elim (Option-cases (get s.pools key)) [
    | inl absent ↦
        let new = set_pool-accounted_new x key conns s (look s) absent refl in
        rw (absent, pool_of) (omega (arith, new, accounted_lem x s))
    | inr (old, there) ↦
        let kept = set_pool-accounted x key old conns s (look s) there refl in
        rw (there, pool_of) (omega (arith, kept, accounted_lem x s))
  ]

  -- For any servers and any pool: a client that is checked in for some configuration is then in a pool
  -- or closed, also when `close` raises, and as many of all other clients are as before.
  pub checkin-accounted :
      (configs : List Config) (client : ℕ) (tools : List String) (s : ConnectionPool) (x : ℕ)
      → is_empty configs ≡ false
      → accounted x (checkin w configs client tools s).0 ≡ accounted x s + unit_of x client
  unfolding checkin
  checkin-accounted configs client tools s x some_config =
      let key = w.config_key configs in
      let conns = pool_of w key s in
      elim (Bool-cases (w.has_dead_servers s.looks client)) [
        | inl dead ↦
            rw (some_config, dead, checkin)
              (omega (arith, accounted-close x client (look s), accounted-look x s))
        | inr alive ↦ elim (Bool-cases (ltb (length conns) s.max_idle)) [
          | inl room ↦
              rw (some_config, alive, room, checkin)
                (omega (
                  arith,
                  pool_of-accounted x key (conns ++ pooled client tools key (w.clock s.looks) ∷ [])
                      s,
                  held_in-snoc x conns (pooled client tools key (w.clock s.looks)),
                ))
          | inr full ↦
              rw (some_config, alive, full, checkin)
                (omega (
                  arith,
                  accounted-close x client (set_pool key conns (look s)),
                  pool_of-accounted x key conns s,
                ))
        ]
      ]
