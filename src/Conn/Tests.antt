-- ===== src/Conn/Tests.antt =====
-- A pool with a dead and a live session, and a server of release 19.3.
use alpha_odpi.Prelude.{
  ℕ, ◌≡◌, ◌<◌, refl, sym, subst, Bool, true, false, List, [], ◌∷◌, Option, none, some, ◌==◌, length,
  if◌then◌else◌, arith,
}
use alpha_odpi.Prelude.Int.{pos}
use alpha_odpi.Error.{Result, ok, err, oracle}
use alpha_odpi.Conn.{Conn, SessionClient, get_session, round}
use alpha_odpi.Conn.Acquire.{Drains, Ended, get_session-Ended}
use alpha_odpi.Conn.Release.{
  ReleaseClient, Known, ServerVersion, numbered, get_server_version, process_version,
}
use alpha_odpi.Conn.Release.Kept.{Keeps, IsPacked, newer, pack, get_server_version-Keeps}

-- The handles of the sessions that wait, all last used at time 0; a new one is 100. Session 1 does not
-- answer. The state also keeps the timeout of each server.
abbrev Sessions : Type 0
Sessions = List ℕ × (ℕ → ℕ)

abbrev take_session : Sessions → Sessions × Result ℕ
take_session ([], n) = (([], n), ok 100)
take_session (h ∷ hs, n) = ((hs, n), ok h)

abbrev client : SessionClient Sessions
client = record {
  session_get = take_session;
  session_of = λ s h. ok h;
  server_of = λ s h. ok h;
  last_time_used = λ s h. ok (if h == 100 then none else some 0);
  set_stmt_cache_size = λ s h n. (s, ok tt);
  time = λ s. 1000;
  get_timeout = λ s h. ok (s.1 h);
  set_timeout = λ s h n. (s.0, λ k. if k == h then n else s.1 k);
  get_break = λ s h. ok 1;
  set_break = λ s h n. s;
  ping = λ s h. (s, if h == 1 then false else true);
  drop_session = λ s h. s;
  version_num = 19;
  unset = 77;
}

abbrev no_session : Conn
no_session = record {
  handle = none;
  session_handle = none;
  server_handle = none;
  dead_session = false;
  pool = some (record { ping_interval = pos 60; ping_timeout = 5000; stmt_cache_size = 20 });
}

-- Session 1 is dropped, session 2 answers, and the timeout is 30 again.
abbrev result : Option ((Sessions × Conn) × Result Bool) → List ℕ × Option ℕ × ℕ × Result Bool
result none = ([], none, 0, err (oracle 0))
result (some ((s, conn), r)) = (s.0, conn.handle, s.1 2, r)

second :
    result (get_session client 3 (1 ∷ 2 ∷ 3 ∷ [], λ h. 30) no_session)
    ≡ (3 ∷ [], some 2, 30, ok false)
unfolding get_session round
second = refl

abbrev waiting : Sessions → ℕ
waiting s = length s.0

taken :
    (s : Sessions) (h last : ℕ)
    → (client.session_get s).1 ≡ ok h
    → client.last_time_used (client.session_get s).0 h ≡ ok (some last)
    → waiting (client.session_get s).0 < waiting s
taken ([], n) h last e f =
    let new : 100 ≡ h = cc in
    let none_used : ◌≡◌ {A = Result (Option ℕ)} (ok none) (ok (some last)) =
      subst (λ k. client.last_time_used ([], n) k ≡ ok (some last)) (sym new) f in
    cc
taken (k ∷ ks, n) h last e f = omega arith

client-Drains : Drains client waiting
client-Drains = record {
  taken = taken;
  timeout_set = λ s server n. omega arith;
  break_set = λ s server n. omega arith;
  answered = λ s h. omega arith;
  dropped = λ s h. omega arith;
}

get_session-Ended_example : Ended client (get_session client 4 (1 ∷ 2 ∷ 3 ∷ [], λ h. 30) no_session)
get_session-Ended_example =
    get_session-Ended client waiting client-Drains 4 (1 ∷ 2 ∷ 3 ∷ [], λ h. 30) no_session
      (omega arith)

abbrev release_19_3 : ServerVersion
release_19_3 = numbered 19 3 0 0 0

abbrev server : ReleaseClient ℕ
server = record {
  client_version = record { version_num = 19; release_num = 3 };
  context_get = λ s. ok none;
  server_release = λ s cached. ok (pack release_19_3, b'1' ∷ b'9' ∷ []);
  memory_alloc = λ s. ok tt;
  context_set = λ s i. (s, ok tt);
}

abbrev unknown : Known
unknown = record { release_string = none; info = numbered 0 0 0 0 0; pooled = false }

-- 0x0c200400 is 12.2.0.4.0: the older layout.
older_layout : process_version 0x0c200400 ≡ numbered 12 2 0 4 0
unfolding process_version
older_layout = refl

release_19_3-IsPacked : IsPacked release_19_3
release_19_3-IsPacked =
    newer (omega arith) (omega arith) (omega arith) (omega arith) (omega arith) (omega arith)

get_server_version-Keeps_example :
    Keeps server release_19_3 (get_server_version server true true 0 unknown)
get_server_version-Keeps_example =
    get_server_version-Keeps server true release_19_3 (omega arith) 0 unknown (b'1' ∷ b'9' ∷ [])
      refl refl refl release_19_3-IsPacked refl refl
