-- ===== src/Transaction/Own.antt =====
-- Which transaction a connection may manipulate: src/dpiUtils.c.
use alpha_odpi.Prelude.{
  ℕ, ◌≡◌, refl, ap, ◌∙◌, ◌⊎◌, inl, inr, false, Option, none, some, ◌==◌, if◌then◌else◌, Bool-cases,
  arith,
}
use alpha_odpi.Error.{Result, Error, ok, err}
use alpha_odpi.Transaction.{
  TransactionClient, Answer, associated, allocated, is_own, with_current, get_transaction_handle,
}

-- A transaction handle that is associated is the one of the service context from then on.
pub record Associates {S : Type 0} (client : TransactionClient S) : Type 0 where
  pub becomes_current :
      (s : S) (h : ℕ)
      → (client.associate s h).1 ≡ ok tt
      → client.current (client.associate s h).0 ≡ ok (some h)

module _ {S : Type 0} (client : TransactionClient S) where
  -- What the call comes to: a transaction of the server's is left alone, and NULL is given; or the
  -- connection's own is given, kept, and the one of the service context, which had that or none; or
  -- the call fails.
  pub data Obtained (own : Option ℕ) (s : S) : Answer client → Type 0 where
    foreign :
        (t : ℕ)
        → client.current s ≡ ok (some t)
        → is_own client t own ≡ false
        → Obtained own s ((s, own), ok none)
    already :
        (h : ℕ)
        → own ≡ some h
        → client.current s ≡ ok (some h)
        → Obtained own s ((s, some h), ok (some h))
    newly_set :
        (s' : S) (h : ℕ)
        → client.current s ≡ ok none
        → (own ≡ none) ⊎ (own ≡ some h)
        → client.current s' ≡ ok (some h)
        → Obtained own s ((s', some h), ok (some h))
    fails : (s' : S) (own' : Option ℕ) (e : Error) → Obtained own s ((s', own'), err e)

  module _ (associates : Associates client) (s : S) where
    associated-Obtained :
        (own : Option ℕ) (s' : S) (h : ℕ)
        → client.current s ≡ ok none
        → (own ≡ none) ⊎ (own ≡ some h)
        → Obtained own s (associated client h (client.associate s' h))
    associated-Obtained own s' h c k =
        choose (client.associate s' h) (associates.becomes_current s' h)
      where
        choose :
            (x : S × Result (Unit {0}))
            → (x.1 ≡ ok tt → client.current x.0 ≡ ok (some h))
            → Obtained own s (associated client h x)
        choose (s'', err e) f = fails s'' (some h) e
        choose (s'', ok tt) f = newly_set s'' h c k (f refl)

    allocated-Obtained :
        (x : S × Result ℕ) → client.current s ≡ ok none → Obtained none s (allocated client x)
    allocated-Obtained (s', err e) c = fails s' none e
    allocated-Obtained (s', ok h) c = associated-Obtained none s' h c (inl refl)

    own-Obtained :
        (own : Option ℕ) (t : ℕ)
        → client.current s ≡ ok (some t)
        → Obtained own s ((s, own), ok (if is_own client t own then own else none))
    own-Obtained none t c = foreign t c refl
    own-Obtained (some h) t c = elim (Bool-cases (t == h)) [
      | inl e ↦
          let same : t ≡ h = ground arith in rw e (already h refl (c ∙ ap (λ n. ok (some n)) same))
      | inr f ↦ rw f (foreign t c f)
    ]

    with_current-Obtained :
        (own : Option ℕ) (r : Result (Option ℕ))
        → client.current s ≡ r
        → Obtained own s (with_current client r own s)
    with_current-Obtained own (err e) c = fails s own e
    with_current-Obtained none (ok none) c = allocated-Obtained (client.handle_alloc s) c
    with_current-Obtained (some h) (ok none) c = associated-Obtained (some h) s h c (inr refl)
    with_current-Obtained own (ok (some t)) c = own-Obtained own t c

    -- With a client for which an associated transaction handle becomes that of the service context,
    -- the call either leaves a transaction of the server alone and gives NULL; or gives the own
    -- handle of the connection, which is then kept and is the one of the service context, where
    -- there was either that or none, and where the connection had either that or none; or fails.
    pub get_transaction_handle-Obtained :
        (own : Option ℕ) → Obtained own s (get_transaction_handle client own s)
    unfolding get_transaction_handle
    get_transaction_handle-Obtained own = with_current-Obtained own (client.current s) refl
