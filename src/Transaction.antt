-- ===== src/Transaction.antt =====
-- The transaction of a connection: `dpiUtils__getTransactionHandle` of src/dpiUtils.c.
pub mod Own
mod Tests
use alpha_odpi.Prelude.{ℕ, Bool, true, false, Option, none, some, ◌==◌, if◌then◌else◌}
use alpha_odpi.Error.{Result, ok, err}

-- The client with state `S`: the transaction handle of the service context, `none` where it is NULL,
-- a new transaction handle, and the association of one with the service context.
pub record TransactionClient (S : Type 0) : Type 0 where
  pub current : S → Result (Option ℕ)
  pub handle_alloc : S → S × Result ℕ
  pub associate : S → ℕ → S × Result (Unit {0})

module _ {S : Type 0} (client : TransactionClient S) where
  -- The state of the client, `transactionHandle` of the connection, and the answer.
  abbrev pub Answer : Type 0
  Answer = (S × Option ℕ) × Result (Option ℕ)

  abbrev pub associated : ℕ → S × Result (Unit {0}) → Answer
  associated h (s, err e) = ((s, some h), err e)
  associated h (s, ok u) = ((s, some h), ok (some h))

  abbrev pub allocated : S × Result ℕ → Answer
  allocated (s, err e) = ((s, none), err e)
  allocated (s, ok h) = associated h (client.associate s h)

  -- `allocate a new transaction handle, if needed` and associate it.
  abbrev pub set_own : Option ℕ → S → Answer
  set_own (some h) s = associated h (client.associate s h)
  set_own none s = allocated (client.handle_alloc s)

  abbrev pub is_own : ℕ → Option ℕ → Bool
  is_own t none = false
  is_own t (some h) = t == h

  abbrev pub with_current : Result (Option ℕ) → Option ℕ → S → Answer
  with_current (err e) own s = ((s, own), err e)
  with_current (ok none) own s = set_own own s
  with_current (ok (some t)) own s = ((s, own), ok (if is_own t own then own else none))

  -- `dpiUtils__getTransactionHandle`
  unfoldable pub get_transaction_handle : Option ℕ → S → Answer
  get_transaction_handle own s = with_current (client.current s) own s
