-- ===== src/Transaction/Tests.antt =====
-- Transactions of a client that keeps the one of the service context.
use alpha_odpi.Prelude.{ℕ, ◌≡◌, refl, Option, none, some}
use alpha_odpi.Error.{ok}
use alpha_odpi.Transaction.{TransactionClient, get_transaction_handle}
use alpha_odpi.Transaction.Own.{Associates, Obtained, get_transaction_handle-Obtained}

abbrev client : TransactionClient (Option ℕ)
client = record {
  current = λ s. ok s;
  handle_alloc = λ s. (s, ok 5);
  associate = λ s h. (some h, ok tt);
}

client-Associates : Associates client
client-Associates = record { becomes_current = λ s h e. refl }

first : get_transaction_handle client none none ≡ ((some 5, some 5), ok (some 5))
unfolding get_transaction_handle
first = refl

again : get_transaction_handle client (some 5) (some 5) ≡ ((some 5, some 5), ok (some 5))
unfolding get_transaction_handle
again = refl

of_server : get_transaction_handle client (some 5) (some 9) ≡ ((some 9, some 5), ok none)
unfolding get_transaction_handle
of_server = refl

get_transaction_handle-Obtained_example :
    Obtained client (some 5) none (get_transaction_handle client (some 5) none)
get_transaction_handle-Obtained_example =
    get_transaction_handle-Obtained client client-Associates none (some 5)
