-- ===== src/Conn/Release/Kept.antt =====
-- The version of the server that a connection has found: `dpiConn__getServerVersion` of src/dpiConn.c.
use alpha_odpi.Prelude.{
  ℕ, ◌+◌, ◌*◌, ◌/◌, ◌%◌, ◌^◌, ◌≤◌, ◌<◌, ◌≡◌, refl, sym, ap, subst, Bool, true, false, not, ◌&&◌,
  ◌||◌, List, none, some, ltb, leb, if◌then◌else◌, arith, Bool-cases, inl, inr,
}
use alpha_odpi.Error.{Result, ok}
use alpha_odpi.Conn.Release.{
  ServerVersion, ReleaseClient, Known, version_to_number, numbered, process_version, is_given,
  can_cache, with_memory, keep_on_session, with_release, with_context, get_server_version,
}

-- The number of a release: up to version 17, and from version 18 on.
abbrev pub pack : ServerVersion → ℕ
pack i =
    if leb 18 i.version
    then i.version * 2 ^ 24
      + i.release * 2 ^ 16
      + i.update * 2 ^ 12
      + i.port_release * 2 ^ 4
      + i.port_update
    else i.version * 2 ^ 24
      + i.release * 2 ^ 20
      + i.update * 2 ^ 12
      + i.port_release * 2 ^ 8
      + i.port_update

-- The parts that there is room for.
pub data IsPacked (i : ServerVersion) : Type 0 where
  older :
      i.version < 18
      → i.release < 16
      → i.update < 256
      → i.port_release < 16
      → i.port_update < 256
      → IsPacked i
  newer :
      18 ≤ i.version
      → i.version < 256
      → i.release < 256
      → i.update < 16
      → i.port_release < 256
      → i.port_update < 16
      → IsPacked i

abbrev pub full_number : ServerVersion → ℕ
full_number i = version_to_number i.version i.release i.update i.port_release i.port_update

same_version :
    (i : ServerVersion) (v r u pr pu : ℕ)
    → v ≡ i.version
    → r ≡ i.release
    → u ≡ i.update
    → pr ≡ i.port_release
    → pu ≡ i.port_update
    → i.full_version ≡ full_number i
    → numbered v r u pr pu ≡ i
same_version i v r u pr pu a b c d e f =
    rw (a, b, c, d, e) (ap (λ n. record i { full_version = n }) (sym f))

process_older :
    (n : ℕ) (i : ServerVersion)
    → n / 2 ^ 24 % 256 ≡ i.version
    → i.version < 18
    → numbered i.version (n / 2 ^ 20 % 16) (n / 2 ^ 12 % 256) (n / 2 ^ 8 % 16) (n % 256) ≡ i
    → process_version n ≡ i
unfolding process_version
process_older n i a l e = let t : leb 18 i.version ≡ false = ground arith in rw (a, t) e

process_newer :
    (n : ℕ) (i : ServerVersion)
    → n / 2 ^ 24 % 256 ≡ i.version
    → 18 ≤ i.version
    → numbered i.version (n / 2 ^ 16 % 256) (n / 2 ^ 12 % 16) (n / 2 ^ 4 % 256) (n % 16) ≡ i
    → process_version n ≡ i
unfolding process_version
process_newer n i a l e = let t : leb 18 i.version ≡ true = ground arith in rw (a, t) e

process_version-pack :
    (i : ServerVersion) → IsPacked i → i.full_version ≡ full_number i → process_version (pack i) ≡ i
process_version-pack i (older a b c d e) f =
    let t : leb 18 i.version ≡ false = ground arith in
    let n : ℕ =
      i.version * 2 ^ 24
      + i.release * 2 ^ 20
      + i.update * 2 ^ 12
      + i.port_release * 2 ^ 8
      + i.port_update in
    rw t (
      process_older n i (omega arith) a
        (same_version i _ _ _ _ _ refl (omega arith) (omega arith) (omega arith) (omega arith) f))
process_version-pack i (newer a g b c d e) f =
    let t : leb 18 i.version ≡ true = ground arith in
    let n : ℕ =
      i.version * 2 ^ 24
      + i.release * 2 ^ 16
      + i.update * 2 ^ 12
      + i.port_release * 2 ^ 4
      + i.port_update in
    rw t (
      process_newer n i (omega arith) a
        (same_version i _ _ _ _ _ refl (omega arith) (omega arith) (omega arith) (omega arith) f))

module _ {S : Type 0} (client : ReleaseClient S) where
  -- The version is `i`, and is not asked for again.
  pub record Keeps (i : ServerVersion) (x : (S × Known) × Result (Unit {0})) : Type 0 where
    pub succeeds : x.1 ≡ ok tt
    pub found : x.0.1.info ≡ i
    pub kept :
        (memory : Bool) (s : S)
        → get_server_version client memory false s x.0.1 ≡ ((s, x.0.1), ok tt)

  known-kept :
      (memory : Bool) (s : S) (k : Known)
      → 0 < k.info.version
      → get_server_version client memory false s k ≡ ((s, k), ok tt)
  unfolding get_server_version
  known-kept memory s k h =
      let t : ltb 0 k.info.version ≡ true = ground arith in
      elim (Bool-cases (is_given k.release_string)) [ inl e ↦ rw e refl | inr e ↦ rw (e, t) refl ]

  module _ (wants : Bool) (i : ServerVersion) (positive : 0 < i.version) where
    keep_on_session-Keeps :
        (s : S) (k : Known)
        → k.pooled ≡ false
        → k.info ≡ i
        → Keeps i (keep_on_session client true wants s k)
    keep_on_session-Keeps s k p e = choose k.pooled p
      where
        choose :
            (b : Bool)
            → b ≡ false
            → Keeps i (
                if b && not (can_cache client true wants)
                then with_memory client true wants s k (client.memory_alloc s)
                else ((s, k), ok tt))
        choose true q = cc
        choose false q = record {
          succeeds = refl;
          found = e;
          kept = λ memory t.
              known-kept memory t k (subst (λ (j : ServerVersion). 0 < j.version) (sym e) positive);
        }

    with_release-Keeps :
        (s : S) (k : Known) (text : List ℕ)
        → k.pooled ≡ false
        → IsPacked i
        → i.full_version ≡ full_number i
        → Keeps i (with_release client true wants s k (ok (pack i, text)))
    with_release-Keeps s k text p h f = choose (can_cache client true wants)
      where
        same : process_version (pack i) ≡ i
        same = process_version-pack i h f

        choose :
            (b : Bool)
            → Keeps i (
                if b
                then keep_on_session client true wants s
                    (record k { info = process_version (pack i) })
                else keep_on_session client true wants s
                    (record k { info = process_version (pack i); release_string = some text }))
        choose true = keep_on_session-Keeps s _ p same
        choose false = keep_on_session-Keeps s _ p same

    -- For a connection that is not of a pool and whose version is not known yet, with memory at
    -- hand: when the number that the server gives packs a version in the layout of its release, the
    -- call succeeds and finds this version, and a later call that does not want the text succeeds
    -- at once and changes nothing.
    pub get_server_version-Keeps :
        (s : S) (k : Known) (text : List ℕ)
        → k.pooled ≡ false
        → k.release_string ≡ none
        → k.info.version ≡ 0
        → IsPacked i
        → i.full_version ≡ full_number i
        → client.server_release s (can_cache client true wants) ≡ ok (pack i, text)
        → Keeps i (get_server_version client true wants s k)
    unfolding get_server_version
    get_server_version-Keeps s k text p n z h f e =
        let unknown : (is_given k.release_string || (ltb 0 k.info.version && not wants)) ≡ false =
          rw (n, z) refl in
        let no_context : (k.pooled && not (can_cache client true wants) && not wants) ≡ false =
          rw p refl in
        choose _ _ unknown no_context
      where
        choose :
            (a b : Bool)
            → a ≡ false
            → b ≡ false
            → Keeps i (
                if a
                then ((s, k), ok tt)
                else if b
                then with_context client true wants s k (client.context_get s)
                else with_release client true wants s k
                    (client.server_release s (can_cache client true wants)))
        choose true b c d = cc
        choose false true c d = cc
        choose false false c d =
            subst (λ r. Keeps i (with_release client true wants s k r)) (sym e)
              (with_release-Keeps s k text p h f)
