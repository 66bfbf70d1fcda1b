-- ===== src/Database/Subscriptions/Renew.antt =====
-- AutoRenewSubscription by a plan that costs nothing here, when the driver refuses nothing.
use xraytool_go.Prelude.{
  ℕ, ◌≡◌, refl, ◌∙◌, inl, inr, Bool, false, none, some, List, [], String, arith, first, first_sound,
  Bool-cases, ◌∷◌, update_where, first-update_where, str_eq, ◌==◌, eq_iff,
}
use xraytool_go.Prelude.Int.{ℤ, pos}
use xraytool_go.GoLib.{GoLib, Clock}
use xraytool_go.Result.{ok}
use xraytool_go.Domain.{Subscription, Plan, Metadata}
use xraytool_go.Database.Tables.{Db, Faults}
use xraytool_go.Database.Subscriptions.{
  latest, base_time, routed, renewed, find_subscription_row, next_end, debit, write_subscription,
  reset_notifications, write_metadata, auto_renew_subscription,
}

abbrev pub no_faults : Faults
no_faults = λ _. false

abbrev pub by_id : String → Subscription → Bool
by_id id s = str_eq s.id id

reset_lem :
    (go : GoLib) (t : ℕ) (id : String) (e : ℕ) (db : Db)
    → ((reset_notifications go no_faults t id (some e) [] db).0 ≡ ok tt)
      × ((reset_notifications go no_faults t id (some e) [] db).1.subscriptions ≡ db.subscriptions)
unfolding reset_notifications
reset_lem go t id e db = ground arith

abbrev pub renewed_rows : GoLib → Clock → Subscription → Plan → ℤ → Db → List Subscription
renewed_rows go clock s plan n db =
    update_where (by_id s.id) (λ t. record t { metadata = routed plan s.metadata })
      (update_where (by_id s.id)
        (renewed (go.add_months (base_time s (clock 0)) plan.months) n (clock 1)) db.subscriptions)

module _ (go : GoLib) (clock : Clock) (u : String) (plan_id : ℕ) (n : ℤ) (db : Db) where
  pub auto_renew_lem :
      (s : Subscription) (plan : Plan)
      → latest u db.subscriptions ≡ some s
      → first (λ q. q.id == plan_id) db.plans ≡ some plan
      → let r =
          auto_renew_subscription go clock no_faults false u (some plan_id) (pos 0) none n db in
        (r.0 ≡ ok tt) × (r.1.subscriptions ≡ renewed_rows go clock s plan n db)
  unfolding auto_renew_subscription find_subscription_row next_end debit write_subscription
      write_metadata
  auto_renew_lem s plan e f = ground (
    arith,
    reset_lem go (clock 2) s.id (go.add_months (base_time s (clock 0)) plan.months) (record db {
      subscriptions =
          update_where (by_id s.id)
            (renewed (go.add_months (base_time s (clock 0)) plan.months) n (clock 1))
            db.subscriptions;
    }),
  )

-- The newest subscription of a user is a row of the table.
latest-first :
    (u : String) (ss : List Subscription) (s : Subscription)
    → latest u ss ≡ some s
    → (t : Subscription) × (first (by_id s.id) ss ≡ some t)
latest-first u [] s e = cc
latest-first u (x ∷ ss) s e = elim (Bool-cases (str_eq x.id s.id)) [
  | inl same ↦ (x, rw same)
  | inr other ↦
      let (t, found) = latest-first u ss s (ground (arith, eq_iff x.id s.id)) in (t, rw other found)
]

-- A renewed row: active until the new end, with the new device limit and the plan's routing.
abbrev pub IsRenewed : ℕ → ℤ → Metadata → Subscription → Type 0
IsRenewed ends_at n metadata t =
    (t.status ≡ "active")
    × (t.ends_at ≡ some ends_at)
    × (t.max_devices ≡ n)
    × (t.metadata ≡ metadata)

pub renewed_rows-first :
    (go : GoLib) (clock : Clock) (u : String) (s : Subscription) (plan : Plan) (n : ℤ) (db : Db)
    → latest u db.subscriptions ≡ some s
    → (t : Subscription) × (first (by_id s.id) (renewed_rows go clock s plan n db) ≡ some t)
      × IsRenewed (go.add_months (base_time s (clock 0)) plan.months) n (routed plan s.metadata) t
renewed_rows-first go clock u s plan n db e =
    let ends = go.add_months (base_time s (clock 0)) plan.months in
    let once = renewed ends n (clock 1) in
    let again : Subscription → Subscription = λ t. record t { metadata = routed plan s.metadata } in
    let (t, found) = latest-first u db.subscriptions s e in
    (
      again (once t),
      first-update_where (by_id s.id) (by_id s.id) again (λ x. refl)
            (update_where (by_id s.id) once db.subscriptions)
          ∙ ground (
            arith,
            found,
            first-update_where (by_id s.id) (by_id s.id) once (λ x. refl) db.subscriptions,
            first_sound (by_id s.id) db.subscriptions found,
          ),
      (refl, refl, refl, refl),
    )
