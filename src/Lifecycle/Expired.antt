-- ===== src/Lifecycle/Expired.antt =====
-- expiry.go: how often the end of a subscription is announced.
use xraytool_go.Prelude.{
  ℕ, suc, ◌+◌, ◌≤◌, Bool, true, false, ◌≡◌, refl, ap, str_eq_sound, List, [], ◌∷◌, ◌++◌, String,
  arith, exists, update_where, str_eq, if◌then◌else◌, Bool-cases, inl, inr,
}
use mathlib.Core.Path.{subst}
use xraytool_go.Domain.{Subscription}
use xraytool_go.Database.{Db, Faults}
use xraytool_go.Database.Expiry.{update_status_if_active, is_active_row, with_status}
use xraytool_go.Lifecycle.{
  Event, expired, expiring, rm_user, expired_subs, expire, expire_all, handle_expired_bulk,
}

-- How often the events announce the end of a subscription.
abbrev pub announcements : String → List Event → ℕ
announcements id [] = 0
announcements id (expired user_id sub_id email ends_at metadata ∷ es) =
    let rest = announcements id es in if str_eq sub_id id then suc rest else rest
announcements id (expiring user_id sub_id email level left ends_at metadata ∷ es) =
    announcements id es
announcements id (rm_user email ∷ es) = announcements id es

announcements-append :
    (id : String) (ds es : List Event)
    → announcements id (ds ++ es) ≡ announcements id ds + announcements id es
announcements-append id [] es = omega arith
announcements-append id (expired user_id sub_id email ends_at metadata ∷ ds) es =
    ground (arith, announcements-append id ds es)
announcements-append id (expiring user_id sub_id email level left ends_at metadata ∷ ds) es =
    announcements-append id ds es
announcements-append id (rm_user email ∷ ds) es = announcements-append id ds es

-- 1 for a subscription that has an active row.
abbrev pub active_count : String → Db → ℕ
active_count id db = if exists (is_active_row id) db.subscriptions then 1 else 0

no_active :
    (id : String) (now : ℕ) (ss : List Subscription)
    → exists (is_active_row id) (update_where (is_active_row id) (with_status "expired" now) ss)
      ≡ false
no_active id now [] = refl
no_active id now (s ∷ ss) = elim (Bool-cases (is_active_row id s)) [
  | inl active ↦ rw active (ground (arith, no_active id now ss))
  | inr other ↦ rw other (rw other (no_active id now ss))
]

other_active :
    (id other : String) (now : ℕ) (ss : List Subscription)
    → exists (is_active_row id) ss ≡ false
    → exists (is_active_row id) (update_where (is_active_row other) (with_status "expired" now) ss)
      ≡ false
other_active id other now [] h = refl
other_active id other now (s ∷ ss) h = ground (arith, other_active id other now ss)

same_active :
    (id other : String) (now : ℕ) (ss : List Subscription)
    → str_eq other id ≡ true
    → exists (is_active_row id) (update_where (is_active_row other) (with_status "expired" now) ss)
      ≡ false
same_active id other now ss q =
    subst
      (λ i.
        exists (is_active_row i) (update_where (is_active_row other) (with_status "expired" now) ss)
        ≡ false)
      (str_eq_sound other id q) (no_active other now ss)

expire-count :
    (id : String) (faults : Faults) (is_master : Bool) (now : ℕ) (sub : Subscription) (ends_at : ℕ)
    (db : Db)
    → let r = expire faults is_master now sub ends_at db in
      announcements id r.0 + active_count id r.1 ≤ active_count id db
unfolding expire update_status_if_active
expire-count id faults is_master now sub ends_at db = elim (Bool-cases (str_eq sub.id id)) [
  | inl same ↦
      let rows : exists (is_active_row sub.id) db.subscriptions
          ≡ exists (is_active_row id) db.subscriptions =
        ap (λ i. exists (is_active_row i) db.subscriptions) (str_eq_sound sub.id id same) in
      ground (arith, rows, same_active id sub.id now db.subscriptions same)
  | inr other ↦ ground (arith, other_active id sub.id now db.subscriptions)
]

expire_all-count :
    (id : String) (faults : ℕ → Faults) (clock : ℕ → ℕ) (is_master : Bool) (n : ℕ)
    (subs : List (Subscription × ℕ)) (db : Db)
    → let r = expire_all faults clock is_master n subs db in
      announcements id r.0 + active_count id r.1 ≤ active_count id db
expire_all-count id faults clock is_master n [] db = omega arith
expire_all-count id faults clock is_master n ((sub, ends_at) ∷ subs) db =
    let one = expire (faults n) is_master (clock n) sub ends_at db in
    omega (
      arith,
      announcements-append id one.0 (expire_all faults clock is_master (suc n) subs one.1).0,
      expire-count id (faults n) is_master (clock n) sub ends_at db,
      expire_all-count id faults clock is_master (suc n) subs one.1,
    )

-- A tick of the worker: the subscriptions that it has read, when it looks at their ends, and how
-- the engine, the driver and the clock behave from then on.
pub record Tick : Type 0 where
  pub subs : List Subscription
  pub now : ℕ
  pub engine_refuses : Bool
  pub is_master : Bool
  pub faults : ℕ → Faults
  pub clock : ℕ → ℕ

abbrev pub tick : Tick → Db → List Event × Db
tick t db =
    handle_expired_bulk t.faults t.clock t.engine_refuses t.is_master (expired_subs t.now t.subs) db

abbrev pub tick_all : List Tick → Db → List Event × Db
tick_all [] db = ([], db)
tick_all (t ∷ ts) db =
    let (events, after) = tick t db in
    let (more, last) = tick_all ts after in (events ++ more, last)

tick-count :
    (id : String) (t : Tick) (db : Db)
    → announcements id (tick t db).0 + active_count id (tick t db).1 ≤ active_count id db
unfolding handle_expired_bulk
tick-count id t db = elim (Bool-cases t.engine_refuses) [
  | inl refused ↦ ground arith
  | inr removed ↦
      ground
        (arith, expire_all-count id t.faults t.clock t.is_master 0 (expired_subs t.now t.subs) db)
]

tick_all-count :
    (id : String) (ts : List Tick) (db : Db)
    → announcements id (tick_all ts db).0 + active_count id (tick_all ts db).1 ≤ active_count id db
tick_all-count id [] db = omega arith
tick_all-count id (t ∷ ts) db = omega (
  arith,
  announcements-append id (tick t db).0 (tick_all ts (tick t db).1).0,
  tick-count id t db,
  tick_all-count id ts (tick t db).1,
)

-- In any ticks of the expiry worker, with nothing else writing to the database, the end of a
-- subscription is announced at most once, and never if it has no active row before them, whatever
-- subscriptions each tick has read, and whatever the engine and the driver refuse.
pub expired_once :
    (id : String) (ts : List Tick) (db : Db)
    → announcements id (tick_all ts db).0
      ≤ (if exists (is_active_row id) db.subscriptions then 1 else 0)
expired_once id ts db = omega (arith, tick_all-count id ts db)
