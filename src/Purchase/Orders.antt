-- ===== src/Purchase/Orders.antt =====
-- What confirming a purchase does.
use frixel_connect.Base.{
  ◌≡◌, ◌≢◌, refl, ap, true, false, String, ◌∷◌, Option, some, arith, is_empty, prepend, truthy,
}
use frixel_connect.Auth.Sessions.{truthy_of_ne}
use frixel_connect.Purchase.{
  BuyPage, StkPush, handle_buy_click, handle_confirm_payment, on_payment, on_payment_failed,
}

confirm_eq :
    (p : BuyPage) (id : String)
    → is_empty p.phone_number ≡ false
    → p.is_pending ≡ false
    → truthy p.selected_package_id ≡ some id
    → handle_confirm_payment p ≡ record p {
      is_pending = true;
      sent = record { package_id = id; phone = p.phone_number } ∷ p.sent;
    }
unfolding handle_confirm_payment
confirm_eq p id h k e = ground (arith, h, k, e)

confirm_pending : (p : BuyPage) → p.is_pending ≡ true → handle_confirm_payment p ≡ p
unfolding handle_confirm_payment
confirm_pending p h = ground (arith, h)

-- While no request is under way, confirming the purchase of a package with a number sends one request for this package to this
-- number, also when the button is pressed twice. The answer opens the page of its payment; an error
-- leaves the dialog with the package and the number, to be confirmed again.
pub confirmed_order :
    (p : BuyPage) (id payment_id : String) (detail : Option String)
    → id ≢ ""
    → is_empty p.phone_number ≡ false
    → p.is_pending ≡ false
    → let order : StkPush = record { package_id = id; phone = p.phone_number } in
      let q = handle_confirm_payment (handle_buy_click id p) in
      (q.sent ≡ order ∷ p.sent)
      × (handle_confirm_payment q ≡ q)
      × ((on_payment payment_id q).location ≡ prepend "/customer/status/" payment_id)
      × ((on_payment payment_id q).is_dialog_open ≡ false)
      × ((on_payment_failed detail q).is_dialog_open ≡ true)
      × ((handle_confirm_payment (on_payment_failed detail q)).sent ≡ order ∷ order ∷ p.sent)
unfolding handle_buy_click on_payment on_payment_failed
confirmed_order p id payment_id detail e h k =
    let own : truthy (some id) ≡ some id = truthy_of_ne id e in
    rw (confirm_eq (handle_buy_click id p) id h k own) (
      refl,
      confirm_pending _ refl,
      refl,
      refl,
      refl,
      ap (λ q. q.sent) (confirm_eq _ id h refl own),
    )
