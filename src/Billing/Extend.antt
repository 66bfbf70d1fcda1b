-- ===== src/Billing/Extend.antt =====
-- What a settled payment for a plan brings to the payer's subscription.
use xraytool_go.Prelude.{
  ℕ, ◌+◌, ◌-◌, refl, ◌∙◌, false, ◌≡◌, ap, Option, none, some, List, [], ◌∷◌, String, arith, first,
  str_eq, eq_iff, if◌then◌else◌, exists-of-first, ◌==◌,
}
use xraytool_go.Prelude.Int.{ℤ, pos, negsuc, ltb_ℤ}
use xraytool_go.GoLib.{GoLib, Clock}
use xraytool_go.Result.{ok}
use xraytool_go.Domain.{
  Payment, Subscription, Plan, Metadata, Value, int_value, float_value, text_value, texts_value,
  other_value, get_value, set_value, delete_value,
}
use xraytool_go.Database.{Db}
use xraytool_go.Database.Payments.{
  payment_of, set_status, not_completed, holds, find_by_external_id, update_status_if_not_completed,
}
use xraytool_go.Database.Subscriptions.{latest, base_time, routed, find_latest_by_user_id}
use xraytool_go.Database.Subscriptions.Renew.{
  no_faults, by_id, renewed_rows, renewed_rows-first, auto_renew_lem,
}
use xraytool_go.Billing.Settle.{
  complete, complete_by, completed, devices_for, event_of, extend_subscription, mapped_status,
  process_external_payment_status, settle_found,
}

-- The later of now and the end of a subscription, if it has one.
abbrev pub running_until : ℕ → Option ℕ → ℕ
running_until now none = now
running_until now (some ends_at) = now + (ends_at - now)

-- The device limit that a payment asks for; a float64 is cut to an int.
abbrev pub wanted_devices : GoLib → ℤ → Option Value → ℤ
wanted_devices go current none = current
wanted_devices go current (some (int_value n)) = n
wanted_devices go current (some (float_value x)) = go.int_of_float x
wanted_devices go current (some (text_value _)) = current
wanted_devices go current (some (texts_value _)) = current
wanted_devices go current (some other_value) = current

abbrev pub three_or_more : ℤ → ℤ
three_or_more (pos n) = pos (3 + (n - 3))
three_or_more (negsuc n) = pos 3

abbrev pub plan_engines : List String → Option Value
plan_engines [] = none
plan_engines (e ∷ es) = some (texts_value (e ∷ es))

-- What the plan and the payment make of the subscription `s` at `now`.
pub record IsExtended (go : GoLib) (now : ℕ) (p : Payment) (plan : Plan) (s t : Subscription)
    : Type 0 where
  status : t.status ≡ "active"
  ends_at : t.ends_at ≡ some (go.add_months (running_until now s.ends_at) plan.months)
  max_devices :
      t.max_devices
      ≡ three_or_more (wanted_devices go s.max_devices (get_value "max_devices" p.custom_data))
  engines : get_value "plan_engine_ids" t.metadata ≡ plan_engines plan.engine_ids
  others :
      (key : String)
      → str_eq key "plan_engine_ids" ≡ false
      → get_value key t.metadata ≡ get_value key s.metadata

base_time-running_until :
    (s : Subscription) (now : ℕ) (e : Option ℕ)
    → s.ends_at ≡ e
    → base_time s now ≡ running_until now e
base_time-running_until s now none q = rw q refl
base_time-running_until s now (some ends_at) q = rw q (ground arith)

three_or_more_lem : (n : ℤ) → (if ltb_ℤ n (pos 3) then pos 3 else n) ≡ three_or_more n
three_or_more_lem (pos n) = ground arith
three_or_more_lem (negsuc n) = ground arith

devices_for-wanted :
    (go : GoLib) (p : Payment) (s : Subscription) (db : Db) (asked : Option Value)
    → latest p.user_id db.subscriptions ≡ some s
    → get_value "max_devices" p.custom_data ≡ asked
    → devices_for go no_faults p db ≡ three_or_more (wanted_devices go s.max_devices asked)
unfolding devices_for find_latest_by_user_id
devices_for-wanted go p s db none l q = rw l (rw q (three_or_more_lem s.max_devices))
devices_for-wanted go p s db (some (int_value n)) l q = rw l (rw q (three_or_more_lem n))
devices_for-wanted go p s db (some (float_value x)) l q =
    rw l (rw q (three_or_more_lem (go.int_of_float x)))
devices_for-wanted go p s db (some (text_value x)) l q =
    rw l (rw q (three_or_more_lem s.max_devices))
devices_for-wanted go p s db (some (texts_value x)) l q =
    rw l (rw q (three_or_more_lem s.max_devices))
devices_for-wanted go p s db (some other_value) l q = rw l (rw q (three_or_more_lem s.max_devices))

get-set_value :
    (j k : String) (v : Value) (m : Metadata)
    → get_value j (set_value k v m) ≡ (if str_eq k j then some v else get_value j m)
get-set_value j k v [] = ground arith
get-set_value j k v ((i, w) ∷ m) =
    ground (arith, get-set_value j k v m, eq_iff i k, eq_iff i j, eq_iff k j)

get-delete_value :
    (j k : String) (m : Metadata)
    → get_value j (delete_value k m) ≡ (if str_eq k j then none else get_value j m)
get-delete_value j k [] = ground arith
get-delete_value j k ((i, w) ∷ m) =
    ground (arith, get-delete_value j k m, eq_iff i k, eq_iff i j, eq_iff k j)

routed-engines :
    (plan : Plan) (m : Metadata) (es : List String)
    → plan.engine_ids ≡ es
    → get_value "plan_engine_ids" (routed plan m) ≡ plan_engines es
routed-engines plan m [] q = rw q (get-delete_value "plan_engine_ids" "plan_engine_ids" m)
routed-engines plan m (e ∷ es) q =
    rw q (get-set_value "plan_engine_ids" "plan_engine_ids" (texts_value (e ∷ es)) m)

routed-others :
    (plan : Plan) (m : Metadata) (key : String)
    → str_eq key "plan_engine_ids" ≡ false
    → get_value key (routed plan m) ≡ get_value key m
routed-others plan m key n = ground (
  arith,
  get-delete_value key "plan_engine_ids" m,
  get-set_value key "plan_engine_ids" (texts_value plan.engine_ids) m,
  eq_iff key "plan_engine_ids",
  eq_iff "plan_engine_ids" key,
)

module _ (go : GoLib) (clock : Clock) (p : Payment) (plan_id : ℕ) (s : Subscription)
    (plan : Plan) where
  settle_found-extends :
      (ext_id : String) (db : Db)
      → payment_of ext_id db ≡ some p
      → p.plan_id ≡ some plan_id
      → str_eq p.status "completed" ≡ false
      → latest p.user_id db.subscriptions ≡ some s
      → first (λ q. q.id == plan_id) db.plans ≡ some plan
      → let r = settle_found go clock no_faults "completed" p db in
        (r.0 ≡ ok (some p))
        × (r.1.subscriptions
            ≡ renewed_rows go clock s plan
                (devices_for go no_faults p (set_status (not_completed p.id) "completed" db))
                db)
  unfolding settle_found update_status_if_not_completed completed complete extend_subscription
      complete_by
  settle_found-extends ext_id db e pl c l f =
      let db' = set_status (not_completed p.id) "completed" db in
      ground (
        arith,
        exists-of-first (λ q. holds q.external_id ext_id) (not_completed p.id) db.payments p e
            (ground arith),
        auto_renew_lem go clock p.user_id plan_id (devices_for go no_faults p db') db' s plan l f,
      )

-- A payment for a plan that exists, of a user with a subscription, not completed yet: a call that
-- reports one of the settled statuses, with no statement refused, returns no error, dispatches one
-- event, and leaves the newest subscription of the payer active, until the plan's months after the
-- later of now and its end, with the device limit that the payment asks for or else its own, at
-- least 3, and with its metadata changed only in the plan's engines, which are removed if the plan
-- names none.
pub plan_payment_extends :
    (go : GoLib) (clock : Clock) (p : Payment) (plan_id : ℕ) (s : Subscription) (plan : Plan)
    (ext_id status : String) (db : Db)
    → payment_of ext_id db ≡ some p
    → p.plan_id ≡ some plan_id
    → str_eq p.status "completed" ≡ false
    → mapped_status status ≡ "completed"
    → latest p.user_id db.subscriptions ≡ some s
    → first (λ q. q.id == plan_id) db.plans ≡ some plan
    → let out = process_external_payment_status go clock no_faults ext_id status db in
      (out.result ≡ ok tt)
      × (out.events ≡ event_of p ∷ [])
      × (t : Subscription) × (first (by_id s.id) out.db.subscriptions ≡ some t)
      × IsExtended go (clock 0) p plan s t
unfolding process_external_payment_status find_by_external_id
plan_payment_extends go clock p plan_id s plan ext_id status db e pl c m l f =
    let extended = settle_found-extends go clock p plan_id s plan ext_id db e pl c l f in
    let paid = set_status (not_completed p.id) "completed" db in
    let n = devices_for go no_faults p paid in
    let (t, found, (active, ends, devices, metadata)) =
      renewed_rows-first go clock p.user_id s plan n db l in
    let same = ap (λ x. settle_found go clock no_faults x p db) m in
    (
      ground (arith, same, extended),
      ground (arith, same, extended),
      t,
      ground (arith, same, extended, found),
      record {
        status = active;
        ends_at =
            ends
            ∙ ap (λ b. some (go.add_months b plan.months))
                (base_time-running_until s (clock 0) s.ends_at refl);
        max_devices =
            devices ∙ devices_for-wanted go p s paid (get_value "max_devices" p.custom_data) l refl;
        engines =
            ap (get_value "plan_engine_ids") metadata
            ∙ routed-engines plan s.metadata plan.engine_ids refl;
        others = λ key n. ap (get_value key) metadata ∙ routed-others plan s.metadata key n;
      },
    )
