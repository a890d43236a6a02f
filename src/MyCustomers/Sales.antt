-- ===== src/MyCustomers/Sales.antt =====
-- To whom a reseller sells from the list of customers.
use frixel_connect.Base.{
  if-holds, all-keep, ℕ, ◌≡◌, refl, ap, ◌∙◌, Bool, true, false, not, ◌&&◌, ◌||◌, String, List, [],
  ◌∷◌, Option, none, some, arith, if◌then◌else◌, ◌===◌, find-all, all, All, is_empty, truthy,
  get_or,
}
use frixel_connect.Portal.{AuthUser}
use frixel_connect.VoucherDialog
use frixel_connect.VoucherDialog.{
  Package, Dialog, GenerateRequest, open_dialog, opens, customer_created, selects_customer,
  selects_package, searches, quick_adds, next, back, answered, step, on_customer_created,
  select_customer, search, set_quick_adding, handle_next_step, select_package, go_back,
  on_generated, handle_confirm_generate,
}
use frixel_connect.VoucherDialog.Steps.{requested}
use frixel_connect.MyCustomers.{
  Customer, MyCustomersPage, first_render, filtered_customers, handle_open_dialog,
  handle_close_dialog, on_submit, on_created, on_create_failed, set_voucher_open, handle_sell_plan,
  sell_to, inside, confirm, Event, loaded, searched, sold, added, created, submitted, create_failed,
  dialog_open, voucher_open, in_dialog, confirmed, handle, handle_all,
}

module _ (buyer : String → Bool) where
  abbrev is_buyer : Customer → Bool
  is_buyer c = not c.is_active || buyer c.id

  abbrev pub IsSold : GenerateRequest → Type 0
  IsSold r = buyer r.customer_id ≡ true

  -- The active customers that the server lists are buyers, and those who are created or clicked in the dialog.
  abbrev pub Names : Event → Type 0
  Names (loaded customers) = all (λ c. not c.is_active || buyer c.id) (get_or customers []) ≡ true
  Names (in_dialog (customer_created c)) = buyer c ≡ true
  Names (in_dialog (selects_customer c)) = buyer c ≡ true
  Names _ = true ≡ true

  abbrev IsNamed : String → Type 0
  IsNamed id = (is_empty id || buyer id) ≡ true

  abbrev IsSafe : MyCustomersPage → Type 0
  IsSafe p =
      (all is_buyer (get_or p.customers []) ≡ true)
      × IsNamed (get_or p.voucher_cust_id "")
      × IsNamed p.dialog.selected_customer_id
      × All IsSold p.asked

  opened-IsNamed :
      (o : Option String)
      → IsNamed (get_or o "")
      → IsNamed (open_dialog (truthy o)).selected_customer_id
  unfolding open_dialog
  opened-IsNamed none h = refl
  opened-IsNamed (some String.[]) h = refl
  opened-IsNamed (some (String.◌∷◌ c s)) h = h

  inside-IsNamed :
      (e : VoucherDialog.Event) (d : Dialog)
      → Names (in_dialog e)
      → IsNamed d.selected_customer_id
      → IsNamed (inside e d).selected_customer_id
  unfolding inside step on_customer_created select_customer search set_quick_adding handle_next_step
      select_package go_back on_generated
  inside-IsNamed (opens preselected) d n h = h
  inside-IsNamed (customer_created c) d n h = ground (arith, n)
  inside-IsNamed (selects_customer c) d n h = ground (arith, n, h)
  inside-IsNamed (selects_package c) d n h = ground (arith, h)
  inside-IsNamed (searches c) d n h = ground (arith, h)
  inside-IsNamed (quick_adds b) d n h = ground (arith, h)
  inside-IsNamed next d n h = ground (arith, h)
  inside-IsNamed back d n h = ground (arith, h)
  inside-IsNamed (answered voucher) d n h = ground (arith, h)

  kept-IsNamed :
      (b : Bool) (d : Dialog) (id : String)
      → IsNamed d.selected_customer_id
      → IsNamed id
      → IsNamed (if b then d else open_dialog (truthy (some id))).selected_customer_id
  kept-IsNamed true d id h n = h
  kept-IsNamed false d id h n = opened-IsNamed (some id) n

  sell_to-IsSafe :
      (o : Option Customer) (p : MyCustomersPage)
      → ((c : Customer) → o ≡ some c → is_buyer c ≡ true)
      → IsSafe p
      → IsSafe (sell_to o p)
  unfolding sell_to handle_sell_plan
  sell_to-IsSafe none p h v = v
  sell_to-IsSafe (some c) p h v =
      if-holds IsSafe c.is_active (handle_sell_plan c.id p) p
        (λ e.
          let n : IsNamed c.id = ground (arith, e, h c refl) in
          (
            v.0,
            n,
            kept-IsNamed (p.is_voucher_open && (get_or p.voucher_cust_id "" === c.id)) p.dialog c.id
                v.2 n,
            v.3,
          ))
        (λ e. v)

  asked-IsSafe :
      (o : Option GenerateRequest) (p : MyCustomersPage)
      → ((r : GenerateRequest) → o ≡ some r → IsSold r)
      → IsSafe p
      → IsSafe (elim o [ none ↦ p | some r ↦ record p { asked = r ∷ p.asked } ])
  asked-IsSafe none p h v = v
  asked-IsSafe (some r) p h (known, row, chosen, sales) = (known, row, chosen, (h r refl, sales))

  IsNamed-full : (id : String) → is_empty id ≡ false → IsNamed id → buyer id ≡ true
  IsNamed-full id e h = ground (arith, e, h)

  confirm-IsSafe :
      (balance : Option ℕ) (packages : List Package) (p : MyCustomersPage)
      → IsSafe p
      → IsSafe (confirm balance packages p)
  unfolding confirm
  confirm-IsSafe balance packages p v =
      if-holds IsSafe p.is_voucher_open _ p
        (λ e.
          asked-IsSafe (handle_confirm_generate balance packages p.dialog) p
            (λ r e.
              let (own, bought, full, full', covered) = requested balance packages p.dialog r e in
              ap buyer own ∙ IsNamed-full p.dialog.selected_customer_id full v.2)
            v)
        (λ e. v)

  handle-IsSafe :
      (to_lower_case : String → String) (is_email : String → Bool) (user : Option AuthUser)
      (p : MyCustomersPage) (e : Event)
      → Names e
      → IsSafe p
      → IsSafe (handle to_lower_case is_email user p e)
  unfolding handle handle_open_dialog handle_close_dialog on_submit on_created on_create_failed
      set_voucher_open filtered_customers
  handle-IsSafe f t user p (loaded customers) n v = (n, v.1, v.2, v.3)
  handle-IsSafe f t user p (searched q) n v = v
  handle-IsSafe f t user p (sold id) n v =
      sell_to-IsSafe _ p
        (λ c e.
          find-all is_buyer (λ c. c.id === id) (filtered_customers f p) c
            (all-keep is_buyer _ (get_or p.customers []) v.0) e)
        v
  handle-IsSafe f t user p added n v = v
  handle-IsSafe f t user p created n v = v
  handle-IsSafe f t user p (submitted values) n v = if-holds IsSafe _ _ p (λ e. v) (λ e. v)
  handle-IsSafe f t user p (create_failed status) n v = if-holds IsSafe _ _ _ (λ e. v) (λ e. v)
  handle-IsSafe f t user p (dialog_open b) n v = v
  handle-IsSafe f t user p (voucher_open b) n v =
      if-holds IsSafe (b && not p.is_voucher_open) _ _
        (λ e. (v.0, v.1, opened-IsNamed p.voucher_cust_id v.1, v.3)) (λ e. v)
  handle-IsSafe f t user p (in_dialog e) n v = (v.0, v.1, inside-IsNamed e p.dialog n v.2, v.3)
  handle-IsSafe f t user p (confirmed balance packages) n v = confirm-IsSafe balance packages p v

  handle_all-IsSafe :
      (to_lower_case : String → String) (is_email : String → Bool) (user : Option AuthUser)
      (p : MyCustomersPage) (es : List Event)
      → All Names es
      → IsSafe p
      → IsSafe (handle_all to_lower_case is_email user p es)
  unfolding handle_all
  handle_all-IsSafe f t user p [] ns v = v
  handle_all-IsSafe f t user p (e ∷ es) (n, ns) v =
      handle_all-IsSafe f t user (handle f t user p e) es ns (handle-IsSafe f t user p e n v)

-- Whatever the reseller does on the page and in its dialog, and whatever the server answers, a voucher is asked for only for
-- a customer that was listed as active, or was clicked or created in the dialog.
pub vouchers-IsSold :
    (buyer : String → Bool) (to_lower_case : String → String) (is_email : String → Bool)
    (user : Option AuthUser) (es : List Event)
    → All (Names buyer) es
    → All (IsSold buyer) (handle_all to_lower_case is_email user first_render es).asked
unfolding open_dialog
vouchers-IsSold buyer to_lower_case is_email user es ns =
    (handle_all-IsSafe buyer to_lower_case is_email user first_render es ns
      (refl, refl, refl, tt)).3
