-- ===== src/Payments/Credit.antt =====
-- src/modules/billing/payments/payments.service.ts, `approveCorporateCredit`: no account is charged
-- past its limit.
use transport_api.Common.{
  All, All-update_where_given, Option, Option-cases, arith, count_where, none, not, some, subst,
  sym, true, update_where, ℕ, ◌==◌, ◌∷◌, ◌≡◌, ◌≤◌,
}
use transport_api.Common.Action.{Action, modify, pure, resource_conflict, resource_not_found, ◌>>◌}
use transport_api.Common.Int.{lt_ℤ, pos, pos_part, ◌+ℤ◌}
use transport_api.Common.Respects.{
  Respects, StateFrame, bind-Respects, given-Respects, guarded-Respects, last_write-Respects,
  reading-Respects, transaction-Respects,
}
use transport_api.Domain.{
  PaymentMethod, PaymentStatus, PaymentTransactionsType, PaymentsTransactionsStatus,
}
use transport_api.Payments.{
  add_transaction, insert_payment, lock_and_price, new_payment, price_payment,
  sync_order_after_payment,
}
use transport_api.Payments.Authorized.{check_credit_customer-Respects}
use transport_api.Payments.Limits.{lock_and_price-Respects, price_payment-Respects, untouched}
use transport_api.Payments.Manual.{
  approve_corporate_credit, book_credit, can_charge, charge, charge_account, check_credit_customer,
  credit_account, credit_movement, write_credit,
}
use transport_api.World.{
  AuthenticatedUser, CustomerCreditAccount, Payment, TransportOrder, World, order_of,
}

-- The balance of the account is within its limit.
abbrev pub IsWithinLimit : CustomerCreditAccount → Type 0
IsWithinLimit a = pos_part a.balance_used ≤ a.credit_limit

charge-IsWithinLimit :
    (account : CustomerCreditAccount) (amount : ℕ) (a : CustomerCreditAccount)
    → can_charge account amount a ≡ true
    → IsWithinLimit (charge amount a)
unfolding ◌+ℤ◌
charge-IsWithinLimit account amount a fits = ground arith

abbrev pub limits_frame : StateFrame World
limits_frame = record {
  Rel = λ w w'. All IsWithinLimit w.credit_accounts → All IsWithinLimit w'.credit_accounts;
  reflexive = λ w h. h;
  transitive = λ u v w f g h. g (f h);
}

charge_account-Respects :
    (account : CustomerCreditAccount) (amount : ℕ)
    → Respects limits_frame (charge_account account amount)
unfolding charge_account
charge_account-Respects account amount =
    reading-Respects limits_frame (λ w. count_where (can_charge account amount) w.credit_accounts) _
      (λ charged. guarded-Respects limits_frame (not (charged == 1)) resource_conflict _ (λ _.
        last_write-Respects limits_frame
          (λ w. record w {
            credit_accounts =
                update_where (can_charge account amount) (charge amount) w.credit_accounts;
          })
          (λ w within.
            All-update_where_given IsWithinLimit IsWithinLimit (can_charge account amount)
              (charge amount) w.credit_accounts
              (λ a _ _ fits. charge-IsWithinLimit account amount a fits) within within)))

sync_order_after_payment-accounts :
    (id : ℕ) (w : World) → (sync_order_after_payment id w).credit_accounts ≡ w.credit_accounts
unfolding sync_order_after_payment
sync_order_after_payment-accounts id w = ground (arith, Option-cases (order_of id w))

sync-Respects :
    (id : ℕ) (w : World)
    → All IsWithinLimit w.credit_accounts
    → All IsWithinLimit (sync_order_after_payment id w).credit_accounts
sync-Respects id w within =
    subst (All IsWithinLimit) (sym (sync_order_after_payment-accounts id w)) within

reads-Respects : {A : Type 0} (m : Action World A) → Respects untouched m → Respects limits_frame m
reads-Respects m reads = record {
  holds = λ w within.
      subst (λ (z : World). All IsWithinLimit z.credit_accounts) (sym (reads.holds w)) within;
}

book_credit-Respects :
    (account : CustomerCreditAccount) (order : TransportOrder) (p : Payment)
    → Respects limits_frame (book_credit account order p)
unfolding book_credit
book_credit-Respects account order p =
    bind-Respects limits_frame (charge_account account p.amount) _
      (charge_account-Respects account p.amount)
      (λ _. reading-Respects limits_frame (credit_account account.id) _ (λ found.
        given-Respects limits_frame found resource_not_found _ (λ charged. finish charged)))
  where
    finish :
        (charged : CustomerCreditAccount)
        → Respects limits_frame (
            modify (λ w. record w {
              credit_movements =
                  credit_movement account.id p charged.balance_used ∷ w.credit_movements;
            })
            >> (modify (sync_order_after_payment order.id) >> pure p))
    finish charged = record {
      holds = λ v within_v.
          sync-Respects order.id
            (record v {
              credit_movements =
                  credit_movement account.id p charged.balance_used ∷ v.credit_movements;
            })
            within_v;
    }

write_credit-Respects :
    (user : AuthenticatedUser) (order : TransportOrder) (account : CustomerCreditAccount)
    (requested : Option ℕ)
    → Respects limits_frame (write_credit user order account requested)
unfolding write_credit
write_credit-Respects user order account requested =
    bind-Respects limits_frame (lock_and_price order.id (some user) requested) _
      (reads-Respects (lock_and_price order.id (some user) requested)
        (lock_and_price-Respects order.id (some user) requested))
      (λ amount.
        reading-Respects limits_frame
          (new_payment order amount PaymentMethod.corporate_credit PaymentStatus.authorized none) _
          (λ p. finish amount p))
  where
    finish :
        (amount : ℕ) (p : Payment)
        → Respects limits_frame (
            modify (insert_payment p)
            >> (modify (
                  add_transaction p.id PaymentTransactionsType.authorization amount
                    PaymentsTransactionsStatus.success)
                >> book_credit account order p))
    finish amount p = record {
      holds = λ w. (book_credit-Respects account order p).holds (
          add_transaction p.id PaymentTransactionsType.authorization amount
            PaymentsTransactionsStatus.success (insert_payment p w));
    }

-- An approval of corporate credit, whether it goes through or not, keeps the balance of every account
-- within the account's limit.
pub approve_corporate_credit-IsWithinLimit :
    (user : AuthenticatedUser) (order_id : ℕ) (requested : Option ℕ) (w : World)
    → All IsWithinLimit w.credit_accounts
    → All IsWithinLimit (approve_corporate_credit user order_id requested w).1.credit_accounts
unfolding approve_corporate_credit
approve_corporate_credit-IsWithinLimit user order_id requested w =
    (reading-Respects limits_frame (order_of order_id) _ (λ found.
        given-Respects limits_frame found resource_not_found _ (λ o.
          bind-Respects limits_frame (check_credit_customer user o) _
            (reads-Respects (check_credit_customer user o) (check_credit_customer-Respects user o))
            (λ account.
              bind-Respects limits_frame (price_payment o (some user) requested) _
                (reads-Respects (price_payment o (some user) requested)
                  (price_payment-Respects o (some user) requested))
                (λ estimate.
                  guarded-Respects limits_frame
                    (lt_ℤ (pos account.credit_limit) (account.balance_used +ℤ pos estimate))
                    resource_conflict _
                    (λ _.
                      transaction-Respects limits_frame (write_credit user o account requested)
                        (write_credit-Respects user o account requested))))))).holds
      w
