-- ===== src/Conn.antt =====
-- How a connection takes a session: `dpiConn__getSession` and `dpiConn__getHandles` of src/dpiConn.c.
pub mod Acquire
pub mod Release
mod Tests
use alpha_odpi.Prelude.{
  ℕ, zero, suc, ◌+◌, Bool, true, false, Option, none, some, ltb, leb, if◌then◌else◌,
}
use alpha_odpi.Prelude.Int.{ℤ, pos, negsuc}
use alpha_odpi.Error.{Result, Error, ok, err}

-- What `dpiPool` tells of the pings and of the statement cache.
pub record Pool : Type 0 where
  pub ping_interval : ℤ
  pub ping_timeout : ℕ
  pub stmt_cache_size : ℕ

-- `dpiConn`: a handle that is NULL is `none`.
pub record Conn : Type 0 where
  pub handle : Option ℕ
  pub session_handle : Option ℕ
  pub server_handle : Option ℕ
  pub dead_session : Bool
  pub pool : Option Pool

-- The client with state `S`, where the clock, the pool of sessions and the attributes of handles
-- are. The answers to the calls that set the attributes of the network are not looked at; `unset` is
-- what a variable holds that no call has written.
pub record SessionClient (S : Type 0) : Type 0 where
  pub session_get : S → S × Result ℕ
  pub session_of : S → ℕ → Result ℕ
  pub server_of : S → ℕ → Result ℕ
  pub last_time_used : S → ℕ → Result (Option ℕ)
  pub set_stmt_cache_size : S → ℕ → ℕ → S × Result (Unit {0})
  pub time : S → ℕ
  pub get_timeout : S → ℕ → Result ℕ
  pub set_timeout : S → ℕ → ℕ → S
  pub get_break : S → ℕ → Result ℕ
  pub set_break : S → ℕ → ℕ → S
  pub ping : S → ℕ → S × Bool
  pub drop_session : S → ℕ → S
  pub version_num : ℕ
  pub unset : ℕ

-- How a round of the loop ends: it leaves the loop with an error, or with the flag of a new session;
-- or it goes on.
pub data Outcome : Type 0 where
  stops : Result Bool → Outcome
  again : Outcome

-- The ping interval is negative, or has not passed yet.
abbrev pub is_fresh : ℤ → ℕ → ℕ → Bool
is_fresh (negsuc n) last now = true
is_fresh (pos n) last now = ltb now (last + n)

module _ {S : Type 0} (client : SessionClient S) where
  abbrev pub saved : Result ℕ → ℕ
  saved (err e) = client.unset
  saved (ok n) = n

  -- `original network parameters`: the timeout, and from version 12 on the flag of breaks.
  abbrev pub set_network : S → ℕ → ℕ → ℕ → S
  set_network s server timeout on_break =
      let t = client.set_timeout s server timeout in
      if leb 12 client.version_num then client.set_break t server on_break else t

  abbrev pub pinged : Conn → ℕ → ℕ → ℕ → ℕ → S × Bool → (S × Conn) × Outcome
  pinged conn h server timeout on_break (s, true) =
      ((set_network s server timeout on_break, conn), stops (ok false))
  pinged conn h server timeout on_break (s, false) = (
    (
      client.drop_session s h,
      record conn {
        handle = none;
        server_handle = none;
        session_handle = none;
        dead_session = false;
      },
    ),
    again,
  )

  -- The network parameters for the ping: it must not take too long to complete.
  abbrev pub hurried : S → Pool → ℕ → S
  hurried s pool server =
      let t = client.set_timeout s server pool.ping_timeout in
      if leb 12 client.version_num then client.set_break t server 0 else t

  abbrev pub saved_timeout : S → ℕ → ℕ
  saved_timeout s server = saved (client.get_timeout s server)

  abbrev pub saved_break : S → Pool → ℕ → ℕ
  saved_break s pool server =
      saved (client.get_break (client.set_timeout s server pool.ping_timeout) server)

  -- From `ping needs to be done at this point` on.
  abbrev pub ping_round : S → Conn → Pool → ℕ → ℕ → (S × Conn) × Outcome
  ping_round s conn pool h server =
      pinged conn h server (saved_timeout s server) (saved_break s pool server)
        (client.ping (hurried s pool server) h)

  abbrev pub cache_set : Conn → S × Result (Unit {0}) → (S × Conn) × Outcome
  cache_set conn (s, err e) = ((s, conn), stops (err e))
  cache_set conn (s, ok u) = ((s, conn), stops (ok true))

  abbrev pub with_last : S → Conn → Pool → ℕ → ℕ → Result (Option ℕ) → (S × Conn) × Outcome
  with_last s conn pool h server (err e) = ((s, conn), stops (err e))
  with_last s conn pool h server (ok none) =
      cache_set conn (client.set_stmt_cache_size s h pool.stmt_cache_size)
  with_last s conn pool h server (ok (some last)) =
      if is_fresh pool.ping_interval last (client.time s)
      then ((s, conn), stops (ok false))
      else ping_round s conn pool h server

  -- For standalone connections, nothing more needs to be done.
  abbrev pub with_pool : S → Conn → Option Pool → ℕ → ℕ → (S × Conn) × Outcome
  with_pool s conn none h server = ((s, conn), stops (ok true))
  with_pool s conn (some pool) h server = with_last s conn pool h server (client.last_time_used s h)

  -- `dpiConn__getHandles`
  abbrev pub with_server : S → Conn → ℕ → Result ℕ → (S × Conn) × Outcome
  with_server s conn h (err e) = ((s, conn), stops (err e))
  with_server s conn h (ok server) =
      with_pool s (record conn { server_handle = some server }) conn.pool h server

  abbrev pub with_session : S → Conn → ℕ → Result ℕ → (S × Conn) × Outcome
  with_session s conn h (err e) = ((s, conn), stops (err e))
  with_session s conn h (ok session) =
      with_server s (record conn { session_handle = some session }) h (client.server_of s h)

  abbrev pub with_handle : Conn → S × Result ℕ → (S × Conn) × Outcome
  with_handle conn (s, err e) = ((s, record conn { handle = none }), stops (err e))
  with_handle conn (s, ok h) =
      with_session s (record conn { handle = some h }) h (client.session_of s h)

  -- A round of the loop.
  unfoldable pub round : S → Conn → (S × Conn) × Outcome
  round s conn = with_handle conn (client.session_get s)

  abbrev pub unless_again :
      (S × Conn) × Outcome → Option ((S × Conn) × Result Bool) → Option ((S × Conn) × Result Bool)
  unless_again (x, stops r) rest = some (x, r)
  unless_again (x, again) rest = rest

  -- `dpiConn__getSession` with fuel for its loop; `none` means that the fuel ran out.
  unfoldable pub get_session : ℕ → S → Conn → Option ((S × Conn) × Result Bool)
  unfolding round
  get_session zero s conn = none
  get_session (suc fuel) s conn =
      let r = round s conn in let rest = get_session fuel r.0.0 r.0.1 in unless_again r rest
