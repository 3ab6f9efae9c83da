-- ===== src/Agents/Pool/Bounds.antt =====
-- However the pool is used, no pool holds more than `max_idle` connections.
use rooben.Prelude.{
  ℕ, ◌≤◌, ◌<◌, ◌≡◌, ◌∙◌, refl, ltb→lt, String, List, [], ◌∷◌, length, length-append, ltb, is_empty,
  ◌||◌, arith, Bool-cases, Option-cases, inl, inr, All,
}
use rooben.Dict.{Dict, get, values}
use rooben.Dict.Laws.{All-put, All-get}
use rooben.Agents.Pool.Balance.{Taken-cases}
use rooben.Agents.Pool.{
  PooledConnection, ConnectionPool, Servers, close, look, set_pool, is_stale, take_live,
  open_client, checkout, pool_of, checkin, close_each, close_pools, close_all,
}

pub data Use (Config : Type 0) : Type 0 where
  check_out : List Config → Use Config
  check_in : List Config → ℕ → List String → Use Config
  shut_down : Use Config

abbrev pub IsBounded : ℕ → ConnectionPool → Type 0
IsBounded m s =
    All (λ (l : List PooledConnection). length l ≤ m) (values s.pools) × (s.max_idle ≡ m)

module _ {Config : Type 0} (w : Servers Config) (m : ℕ) where
  unfoldable pub perform : Use Config → ConnectionPool → ConnectionPool
  perform (check_out configs) s = (checkout w configs s).0
  perform (check_in configs client tools) s = (checkin w configs client tools s).0
  perform shut_down s = close_all w s

  unfoldable pub perform_all : List (Use Config) → ConnectionPool → ConnectionPool
  unfolding perform
  perform_all [] s = s
  perform_all (u ∷ us) s = perform_all us (perform u s)

  set_pool-IsBounded :
      (key : String) (conns : List PooledConnection) (s : ConnectionPool)
      → IsBounded m s
      → length conns ≤ m
      → IsBounded m (set_pool key conns s)
  unfolding set_pool
  set_pool-IsBounded key conns s (h, same) le =
      (All-put (λ (l : List PooledConnection). length l ≤ m) s.pools key conns h le, same)

  take_live-IsBounded :
      (conns : List PooledConnection) (s : ConnectionPool)
      → IsBounded m s
      → IsBounded m (take_live w conns s).0 × (length (take_live w conns s).1 ≤ length conns)
  unfolding take_live close look
  take_live-IsBounded [] s h = (h, omega arith)
  take_live-IsBounded (c ∷ cs) s h =
      let (rest, le) = take_live-IsBounded cs (close c.client (look s)) h in
      elim (Bool-cases (is_stale w s.looks c || w.has_dead_servers s.looks c.client)) [
        | inl useless ↦ elim (Option-cases (w.close_error (look s).looks c.client)) [
          | inl quiet ↦ rw (useless, quiet, take_live) (rest, omega (arith, le))
          | inr (e, raised) ↦ rw (useless, raised, take_live) (h, omega arith)
        ]
        | inr fine ↦ rw (fine, take_live) (h, omega arith)
      ]

  checkout-IsBounded :
      (configs : List Config) (s : ConnectionPool)
      → IsBounded m s
      → IsBounded m (checkout w configs s).0
  unfolding checkout open_client look
  checkout-IsBounded configs s h = elim (Bool-cases (is_empty configs)) [
    | inl no_config ↦ rw (no_config, checkout) h
    | inr some_config ↦ elim (Option-cases (get s.pools (w.config_key configs))) [
      | inl absent ↦ rw (some_config, absent, checkout) h
      | inr (conns, there) ↦
          let (kept, le) = take_live-IsBounded conns s h in
          let short =
            All-get (λ (l : List PooledConnection). length l ≤ m) s.pools (w.config_key configs)
              {v = conns} h.0 there in
          let put_back =
            set_pool-IsBounded (w.config_key configs) (take_live w conns s).1
              (take_live w conns s).0 kept (omega (arith, le, short)) in
          elim (Taken-cases (take_live w conns s).2) [
            | inl nothing ↦ rw (some_config, there, nothing, checkout) put_back
            | inr (inl (c, found)) ↦ rw (some_config, there, found, checkout) put_back
            | inr (inr (e, raised)) ↦ rw (some_config, there, raised, checkout) put_back
          ]
    ]
  ]

  pool_of-le_max :
      (key : String) (s : ConnectionPool) → IsBounded m s → length (pool_of w key s) ≤ m
  unfolding pool_of
  pool_of-le_max key s h = elim (Option-cases (get s.pools key)) [
    | inl absent ↦ rw (absent, pool_of) (omega arith)
    | inr (conns, there) ↦
        rw (there, pool_of)
          (All-get (λ (l : List PooledConnection). length l ≤ m) s.pools key {v = conns} h.0 there)
  ]

  checkin-IsBounded :
      (configs : List Config) (client : ℕ) (tools : List String) (s : ConnectionPool)
      → IsBounded m s
      → IsBounded m (checkin w configs client tools s).0
  unfolding checkin look close
  checkin-IsBounded configs client tools s h = elim (Bool-cases (is_empty configs)) [
    | inl no_config ↦ rw (no_config, checkin) h
    | inr some_config ↦
        let key = w.config_key configs in
        let conns = pool_of w key s in
        let short = pool_of-le_max key s h in
        elim (Bool-cases (w.has_dead_servers s.looks client)) [
          | inl dead ↦ rw (some_config, dead, checkin) h
          | inr alive ↦ elim (Bool-cases (ltb (length conns) s.max_idle)) [
            | inl room ↦
                let fits : length conns < m = rw h.1 at (ltb→lt (length conns) s.max_idle room) in
                rw (some_config, alive, room, checkin)
                  (set_pool-IsBounded key _ (look s) h (rw length-append (omega (arith, fits))))
            | inr full ↦
                rw (some_config, alive, full, checkin)
                  (set_pool-IsBounded key conns (look s) h short)
          ]
        ]
  ]

  close_each-max :
      (conns : List PooledConnection) (s : ConnectionPool)
      → (close_each w conns s).max_idle ≡ s.max_idle
  unfolding close_each close
  close_each-max [] s = refl
  close_each-max (c ∷ cs) s = close_each-max cs (close c.client s)

  close_pools-IsBounded :
      (d : Dict (List PooledConnection)) (s : ConnectionPool)
      → s.max_idle ≡ m
      → IsBounded m (close_pools w d s)
  unfolding close_pools values
  close_pools-IsBounded [] s same = (tt, same)
  close_pools-IsBounded ((key, conns) ∷ d) s same =
      close_pools-IsBounded d (close_each w conns s) (close_each-max conns s ∙ same)

  close_all-IsBounded : (s : ConnectionPool) → IsBounded m s → IsBounded m (close_all w s)
  unfolding close_all
  close_all-IsBounded s h = close_pools-IsBounded s.pools s h.1

  perform-IsBounded :
      (u : Use Config) (s : ConnectionPool) → IsBounded m s → IsBounded m (perform u s)
  unfolding perform
  perform-IsBounded (check_out configs) s h = checkout-IsBounded configs s h
  perform-IsBounded (check_in configs client tools) s h = checkin-IsBounded configs client tools s h
  perform-IsBounded shut_down s h = close_all-IsBounded s h

  -- Whatever checkouts, checkins and shutdowns come one after the other, from a pool within its limit
  -- no pool ever holds more than `max_idle` connections, and the limit stays.
  pub perform_all-IsBounded :
      (us : List (Use Config)) (s : ConnectionPool) → IsBounded m s → IsBounded m (perform_all us s)
  unfolding perform_all
  perform_all-IsBounded [] s h = h
  perform_all-IsBounded (u ∷ us) s h =
      perform_all-IsBounded us (perform u s) (perform-IsBounded u s h)
