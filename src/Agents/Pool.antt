-- ===== src/Agents/Pool.antt =====
-- src/rooben/agents/mcp_pool.py. A client is a number; the processes behind it are a parameter, with
-- the clock in milliseconds. What is logged is left out. An exception is its name.
pub mod Balance
pub mod Bounds
use rooben.Prelude.{
  ℕ, suc, ◌+◌, ◌-◌, Bool, true, false, String, Option, none, some, List, [], ◌∷◌, ◌++◌, length, ltb,
  is_empty, ◌||◌,
}
use rooben.Dict.{Dict, get, put}
use rooben.Orchestrator.Core.{Reply, returned, failed}

pub record PooledConnection : Type 0 where
  pub client : ℕ
  pub tools : List String
  pub key : String
  pub in_use : Bool
  pub last_used : ℕ

-- The pools, the clients on which `close` was called, the last one first, and the number of looks at the
-- world.
pub record ConnectionPool : Type 0 where
  pub pools : Dict (List PooledConnection)
  pub max_idle : ℕ
  pub closed : List ℕ
  pub looks : ℕ

-- At each look: the clock, `dead_servers`, the client that `MCPClient(configs)` gives, what its
-- `connect` and `list_tools` come to, and the exception of a `close`, if it raises one.
pub record Servers (Config : Type 0) : Type 0 where
  pub clock : ℕ → ℕ
  pub has_dead_servers : ℕ → ℕ → Bool
  pub create : ℕ → List Config → ℕ
  pub connect : ℕ → ℕ → Reply (List String)
  pub close_error : ℕ → ℕ → Option String
  pub config_key : List Config → String

-- client.close(): that it was called. Whether it raises, `close_error` says at the look before.
unfoldable pub close : ℕ → ConnectionPool → ConnectionPool
close client s = record s { closed = client ∷ s.closed; looks = suc s.looks }

unfoldable pub look : ConnectionPool → ConnectionPool
look s = record s { looks = suc s.looks }

unfoldable pub set_pool : String → List PooledConnection → ConnectionPool → ConnectionPool
unfolding put
set_pool key conns s = record s { pools = put s.pools key conns }

-- What the search for a live connection comes to.
pub data Taken : Type 0 where
  nothing_live : Taken
  live : PooledConnection → Taken
  close_raised : String → Taken

-- MAX_IDLE_AGE
abbrev max_idle_age : ℕ
max_idle_age = 300_000

module _ {Config : Type 0} (w : Servers Config) where
  -- age > MAX_IDLE_AGE
  unfoldable pub is_stale : ℕ → PooledConnection → Bool
  is_stale n c = ltb max_idle_age (w.clock n - c.last_used)

  -- `while pool:`, with the connections that it leaves. The exception of a `close` ends it.
  unfoldable pub take_live :
      List PooledConnection → ConnectionPool → ConnectionPool × List PooledConnection × Taken
  unfolding is_stale close look
  take_live [] s = (s, [], nothing_live)
  take_live (c ∷ cs) s = elim (is_stale s.looks c || w.has_dead_servers s.looks c.client) [
    | true ↦
        let s1 = close c.client (look s) in
        elim (w.close_error (look s).looks c.client) [
          | none ↦ take_live cs s1
          | some e ↦ (s1, cs, close_raised e)
        ]
    | false ↦ (look s, cs, live (record c { in_use = true }))
  ]

  -- A new client with its tools, or the exception of `connect` or `list_tools`.
  unfoldable pub open_client :
      List Config → ConnectionPool → ConnectionPool × Reply (ℕ × List String)
  unfolding look
  open_client configs s =
      let client = w.create s.looks configs in
      (
        look s,
        elim (w.connect s.looks client) [
          | failed e ↦ failed e
          | returned tools ↦ returned (client, tools)
        ],
      )

  -- checkout
  unfoldable pub checkout : List Config → ConnectionPool → ConnectionPool × Reply (ℕ × List String)
  unfolding take_live open_client set_pool get
  checkout configs s = elim (is_empty configs) [
    | true ↦ (look s, returned (w.create s.looks [], []))
    | false ↦ elim (get s.pools (w.config_key configs)) [
      | none ↦ open_client configs s
      | some conns ↦
          let (s1, rest, taken) = take_live conns s in
          let s2 = set_pool (w.config_key configs) rest s1 in
          elim taken [
            | nothing_live ↦ open_client configs s2
            | live c ↦ (s2, returned (c.client, c.tools))
            | close_raised e ↦ (s2, failed e)
          ]
    ]
  ]

  -- self._pools.setdefault(key, deque())
  unfoldable pub pool_of : String → ConnectionPool → List PooledConnection
  unfolding get
  pool_of key s = elim (get s.pools key) [ none ↦ [] | some conns ↦ conns ]

  -- checkin, with the exception of its `close`, if it raises one.
  unfoldable pub checkin :
      List Config → ℕ → List String → ConnectionPool → ConnectionPool × Option String
  unfolding pool_of set_pool close look
  checkin configs client tools s = elim (is_empty configs) [
    | true ↦ (s, none)
    | false ↦ elim (w.has_dead_servers s.looks client) [
      | true ↦ (close client (look s), w.close_error (look s).looks client)
      | false ↦
          let key = w.config_key configs in
          let conns = pool_of key s in
          elim (ltb (length conns) s.max_idle) [
            | true ↦ (
              set_pool key
                  (conns
                    ++ record {
                      client = client;
                      tools = tools;
                      key = key;
                      in_use = false;
                      last_used = w.clock s.looks;
                    }
                      ∷ [])
                  (look s),
              none,
            )
            | false ↦
                (close client (set_pool key conns (look s)), w.close_error (look s).looks client)
          ]
    ]
  ]

  -- The loop over one pool, in which the exceptions of `close` are caught.
  unfoldable pub close_each : List PooledConnection → ConnectionPool → ConnectionPool
  unfolding close
  close_each [] s = s
  close_each (c ∷ cs) s = close_each cs (close c.client s)

  -- close_all
  unfoldable pub close_pools : Dict (List PooledConnection) → ConnectionPool → ConnectionPool
  unfolding close_each
  close_pools [] s = record s { pools = [] }
  close_pools ((key, conns) ∷ d) s = close_pools d (close_each conns s)

  unfoldable pub close_all : ConnectionPool → ConnectionPool
  unfolding close_pools
  close_all s = close_pools s.pools s
