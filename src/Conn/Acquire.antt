-- ===== src/Conn/Acquire.antt =====
-- The loop of `dpiConn__getSession` of src/dpiConn.c: that it ends, and which session it leaves.
use alpha_odpi.Prelude.{
  ℕ, zero, suc, ◌≤◌, ◌<◌, ◌≡◌, refl, subst, Bool, true, false, Option, none, some, leb,
  if◌then◌else◌, arith, Bool-cases, inl, inr,
}
use alpha_odpi.Error.{Result, Error, ok, err}
use alpha_odpi.Conn.{
  Pool, Conn, SessionClient, Outcome, stops, again, is_fresh, set_network, hurried, saved_timeout,
  saved_break, pinged, ping_round, cache_set, with_last, with_pool, with_server, with_session,
  with_handle, round, unless_again, get_session,
}

-- The sessions that were used before and wait in the pool of the client: taking one makes them
-- fewer, and the other calls add none. No connection gives a session back meanwhile.
pub record Drains {S : Type 0} (client : SessionClient S) (idle : S → ℕ) : Type 0 where
  pub taken :
      (s : S) (h last : ℕ)
      → (client.session_get s).1 ≡ ok h
      → client.last_time_used (client.session_get s).0 h ≡ ok (some last)
      → idle (client.session_get s).0 < idle s
  pub timeout_set : (s : S) (server n : ℕ) → idle (client.set_timeout s server n) ≤ idle s
  pub break_set : (s : S) (server n : ℕ) → idle (client.set_break s server n) ≤ idle s
  pub answered : (s : S) (h : ℕ) → idle (client.ping s h).0 ≤ idle s
  pub dropped : (s : S) (h : ℕ) → idle (client.drop_session s h) ≤ idle s

module _ {S : Type 0} (client : SessionClient S) where
  -- What the call leaves: an error; or the handles of a session that stands alone, or is new, with
  -- the size of its statement cache set, or was used recently, or was not and has answered a ping, after
  -- which the network parameters of its server are set to what was read before the ping.
  pub data Usable : (S × Conn) × Result Bool → Type 0 where
    failed : (s : S) (conn : Conn) (e : Error) → Usable ((s, conn), err e)
    alone :
        (s : S) (conn : Conn) (h server : ℕ)
        → conn.handle ≡ some h
        → conn.server_handle ≡ some server
        → conn.pool ≡ none
        → Usable ((s, conn), ok true)
    is_new :
        (s t : S) (conn : Conn) (pool : Pool) (h : ℕ)
        → conn.handle ≡ some h
        → conn.pool ≡ some pool
        → client.last_time_used t h ≡ ok none
        → client.set_stmt_cache_size t h pool.stmt_cache_size ≡ (s, ok tt)
        → Usable ((s, conn), ok true)
    recent :
        (s : S) (conn : Conn) (pool : Pool) (h last : ℕ)
        → conn.handle ≡ some h
        → conn.pool ≡ some pool
        → client.last_time_used s h ≡ ok (some last)
        → is_fresh pool.ping_interval last (client.time s) ≡ true
        → Usable ((s, conn), ok false)
    alive :
        (s t : S) (conn : Conn) (pool : Pool) (h server last : ℕ)
        → conn.handle ≡ some h
        → conn.server_handle ≡ some server
        → conn.pool ≡ some pool
        → client.last_time_used t h ≡ ok (some last)
        → is_fresh pool.ping_interval last (client.time t) ≡ false
        → client.ping (hurried client t pool server) h ≡ (s, true)
        → Usable (
          (
            set_network client s server
                (saved_timeout client t server)
                (saved_break client t pool server),
            conn,
          ),
          ok false,
        )

  -- The loop has ended, and left a usable session or an error.
  abbrev pub Ended : Option ((S × Conn) × Result Bool) → Type 0
  Ended none = ⊥
  Ended (some x) = Usable x

  module _ (idle : S → ℕ) (drains : Drains client idle) where
    -- What a round leaves from a state in which `n` sessions wait.
    abbrev Left : ℕ → (S × Conn) × Outcome → Type 0
    Left n (x, stops r) = Usable (x, r)
    Left n (x, again) = idle x.0 < n

    hurried-le : (s : S) (pool : Pool) (server : ℕ) → idle (hurried client s pool server) ≤ idle s
    hurried-le s pool server = choose (leb 12 client.version_num)
      where
        t : S
        t = client.set_timeout s server pool.ping_timeout

        choose : (b : Bool) → idle (if b then client.set_break t server 0 else t) ≤ idle s
        choose true =
            omega
              (arith, drains.break_set t server 0, drains.timeout_set s server pool.ping_timeout)
        choose false = drains.timeout_set s server pool.ping_timeout

    module _ (n : ℕ) (t : S) (conn : Conn) (pool : Pool) (h server last : ℕ)
        (handle : conn.handle ≡ some h) (server_handle : conn.server_handle ≡ some server)
        (pooled : conn.pool ≡ some pool) (used : client.last_time_used t h ≡ ok (some last))
        (old : is_fresh pool.ping_interval last (client.time t) ≡ false) (fewer : idle t < n) where
      pinged-Left :
          (x : S × Bool)
          → client.ping (hurried client t pool server) h ≡ x
          → Left n (
              pinged client conn h server
                (saved_timeout client t server)
                (saved_break client t pool server)
                x)
      pinged-Left (v, true) g =
          alive v t conn pool h server last handle server_handle pooled used old g
      pinged-Left (v, false) g =
          let u = hurried client t pool server in
          let a : idle v ≤ idle u = subst (λ x. idle x.0 ≤ idle u) g (drains.answered u h) in
          omega (arith, drains.dropped v h, hurried-le t pool server)

      ping_round-Left : Left n (ping_round client t conn pool h server)
      ping_round-Left = pinged-Left (client.ping (hurried client t pool server) h) refl

    cache_set-Left :
        (n : ℕ) (t : S) (conn : Conn) (pool : Pool) (h : ℕ) (x : S × Result (Unit {0}))
        → conn.handle ≡ some h
        → conn.pool ≡ some pool
        → client.last_time_used t h ≡ ok none
        → client.set_stmt_cache_size t h pool.stmt_cache_size ≡ x
        → Left n (cache_set client conn x)
    cache_set-Left n t conn pool h (s, err x) e f g k = failed s conn x
    cache_set-Left n t conn pool h (s, ok tt) e f g k = is_new s t conn pool h e f g k

    with_last-Left :
        (n : ℕ) (s : S) (conn : Conn) (pool : Pool) (h server : ℕ) (r : Result (Option ℕ))
        → conn.handle ≡ some h
        → conn.server_handle ≡ some server
        → conn.pool ≡ some pool
        → client.last_time_used s h ≡ r
        → ((last : ℕ) → client.last_time_used s h ≡ ok (some last) → idle s < n)
        → Left n (with_last client s conn pool h server r)
    with_last-Left n s conn pool h server (err x) e f p k l = failed s conn x
    with_last-Left n s conn pool h server (ok none) e f p k l =
        cache_set-Left n s conn pool h _ e p k refl
    with_last-Left n s conn pool h server (ok (some last)) e f p k l =
        elim (Bool-cases (is_fresh pool.ping_interval last (client.time s))) [
          | inl t ↦ rw t (recent s conn pool h last e p k t)
          | inr t ↦ rw t (ping_round-Left n s conn pool h server last e f p k t (l last k))
        ]

    with_pool-Left :
        (n : ℕ) (s : S) (conn : Conn) (p : Option Pool) (h server : ℕ)
        → conn.pool ≡ p
        → conn.handle ≡ some h
        → conn.server_handle ≡ some server
        → ((last : ℕ) → client.last_time_used s h ≡ ok (some last) → idle s < n)
        → Left n (with_pool client s conn p h server)
    with_pool-Left n s conn none h server p e f l = alone s conn h server e f p
    with_pool-Left n s conn (some pool) h server p e f l =
        with_last-Left n s conn pool h server _ e f p refl l

    with_server-Left :
        (n : ℕ) (s : S) (conn : Conn) (h : ℕ) (r : Result ℕ)
        → conn.handle ≡ some h
        → ((last : ℕ) → client.last_time_used s h ≡ ok (some last) → idle s < n)
        → Left n (with_server client s conn h r)
    with_server-Left n s conn h (err x) e l = failed s conn x
    with_server-Left n s conn h (ok server) e l =
        with_pool-Left n s (record conn { server_handle = some server }) conn.pool h server refl e
          refl l

    with_session-Left :
        (n : ℕ) (s : S) (conn : Conn) (h : ℕ) (r : Result ℕ)
        → conn.handle ≡ some h
        → ((last : ℕ) → client.last_time_used s h ≡ ok (some last) → idle s < n)
        → Left n (with_session client s conn h r)
    with_session-Left n s conn h (err x) e l = failed s conn x
    with_session-Left n s conn h (ok session) e l =
        with_server-Left n s (record conn { session_handle = some session }) h _ e l

    with_handle-Left :
        (n : ℕ) (conn : Conn) (x : S × Result ℕ)
        → ((h last : ℕ) → x.1 ≡ ok h → client.last_time_used x.0 h ≡ ok (some last) → idle x.0 < n)
        → Left n (with_handle client conn x)
    with_handle-Left n conn (s, err x) l = failed s (record conn { handle = none }) x
    with_handle-Left n conn (s, ok h) l =
        with_session-Left n s (record conn { handle = some h }) h _ refl (λ last k. l h last refl k)

    unless_again-Ended :
        (n : ℕ) (x : (S × Conn) × Outcome) (rest : Option ((S × Conn) × Result Bool))
        → Left n x
        → (idle x.0.0 < n → Ended rest)
        → Ended (unless_again client x rest)
    unless_again-Ended n (x, stops r) rest l k = l
    unless_again-Ended n (x, again) rest l k = k l

    -- For a connection of a pool or a standalone one, and a client that, whatever it is asked in
    -- between, has fewer used sessions waiting after it has given out one, with more rounds than
    -- used sessions that wait the loop of dpiConn__getSession ends: with an error, or with the
    -- handle of a session that can be used: a standalone one, or a new one of the pool whose
    -- statement cache was set to the size of the pool, or one that was used within the ping
    -- interval, or one that was not and has answered a ping under the timeout of the pool, after
    -- which the network parameters of its server were set to what had been read before the ping.
    pub get_session-Ended :
        (fuel : ℕ) (s : S) (conn : Conn) → idle s < fuel → Ended (get_session client fuel s conn)
    unfolding get_session round
    get_session-Ended zero s conn b = omega arith
    get_session-Ended (suc fuel) s conn b =
        unless_again-Ended (idle s) (round client s conn) _
          (with_handle-Left (idle s) conn (client.session_get s) (λ h last. drains.taken s h last))
          (λ l. get_session-Ended fuel _ _ (omega arith))
