-- ===== src/Lifecycle/Once.antt =====
-- expiry.go: the worker that looks at the warnings of a subscription for a second time.
use xraytool_go.Prelude.{
  ℕ, Bool, true, false, ◌≡◌, refl, sym, ◌∙◌, List, [], ◌∷◌, ◌++◌, Option, none, some, String, arith,
  exists, exists-append_last, str_eq_refl, All,
}
use xraytool_go.Prelude.Int.{ℤ, leb_ℤ}
use xraytool_go.GoLib.{GoLib}
use xraytool_go.Domain.{Subscription, SubscriptionNotification}
use xraytool_go.Database.{Db, Faults, create_notification}
use xraytool_go.Database.Subscriptions.{is_notification}
use xraytool_go.Database.Expiry.{create_if_not_exists, notification_of}
use xraytool_go.Lifecycle.{handle_warnings, warn_level, warn_levels, warned}

exists-append :
    (p : SubscriptionNotification → Bool) (ns : List SubscriptionNotification)
    (n : SubscriptionNotification)
    → exists p ns ≡ true
    → exists p (ns ++ n ∷ []) ≡ true
exists-append p [] n h = cc
exists-append p (m ∷ ns) n h = ground (arith, exists-append p ns n)

-- A level has come due.
abbrev is_due_at : ℤ → Option ℤ → Bool
is_due_at left none = false
is_due_at left (some d) = leb_ℤ left d

abbrev pub is_due : GoLib → ℤ → String → Bool
is_due go left level = is_due_at left (go.parse_duration level)

abbrev pub is_noted : String → String → Db → Bool
is_noted sub_id level db = exists (is_notification sub_id level) db.notifications

module _ (faults : Faults) (now : ℕ) (sub_id : String) (left : ℤ) where
  level-notes :
      (level : String) (d : Option ℤ) (acc : Option (String × ℤ)) (db : Db)
      → faults create_notification ≡ false
      → is_due_at left d ≡ true
      → is_noted sub_id level (warn_level faults now sub_id left level d acc db).1 ≡ true
  unfolding create_if_not_exists
  level-notes level none acc db f h = cc
  level-notes level (some d) acc db f h = ground (
    arith,
    exists-append_last (is_notification sub_id level) db.notifications
        (notification_of sub_id level now),
    str_eq_refl sub_id,
    str_eq_refl level,
  )

  level-keeps :
      (other level : String) (d : Option ℤ) (acc : Option (String × ℤ)) (db : Db)
      → is_noted sub_id other db ≡ true
      → is_noted sub_id other (warn_level faults now sub_id left level d acc db).1 ≡ true
  unfolding create_if_not_exists
  level-keeps other level none acc db h = h
  level-keeps other level (some d) acc db h = ground (
    arith,
    exists-append (is_notification sub_id other) db.notifications
        (notification_of sub_id level now),
  )

  level-again :
      (level : String) (d : Option ℤ) (acc : Option (String × ℤ)) (db : Db)
      → (is_due_at left d ≡ true → is_noted sub_id level db ≡ true)
      → warn_level faults now sub_id left level d acc db ≡ (acc, db)
  unfolding create_if_not_exists
  level-again level none acc db h = refl
  level-again level (some d) acc db h = ground (arith, h)

abbrev IsNoted : GoLib → String → ℤ → Db → String → Type 0
IsNoted go sub_id left db level = is_due go left level ≡ true → is_noted sub_id level db ≡ true

module _ (go : GoLib) (faults : Faults) (now : ℕ) (sub_id : String) (left : ℤ) where
  levels-keep :
      (other : String) (levels : List String) (state : Option (String × ℤ) × Db)
      → is_noted sub_id other state.1 ≡ true
      → is_noted sub_id other (warn_levels go faults now sub_id left levels state).1 ≡ true
  levels-keep other [] (acc, db) h = h
  levels-keep other (l ∷ ls) (acc, db) h =
      levels-keep other ls (warn_level faults now sub_id left l (go.parse_duration l) acc db)
        (level-keeps faults now sub_id left other l (go.parse_duration l) acc db h)

  All-IsNoted :
      (db : Db) (left' : ℤ) (levels : List String)
      → All (λ l. is_due go left' l ≡ is_due go left l) levels
      → All (IsNoted go sub_id left db) levels
      → All (IsNoted go sub_id left' db) levels
  All-IsNoted db left' [] e h = tt
  All-IsNoted db left' (l ∷ ls) e h =
      ((λ due. h.0 (sym e.0 ∙ due)), All-IsNoted db left' ls e.1 h.1)

  levels-IsNoted :
      (levels : List String) (state : Option (String × ℤ) × Db)
      → faults create_notification ≡ false
      → All (IsNoted go sub_id left (warn_levels go faults now sub_id left levels state).1) levels
  levels-IsNoted [] (acc, db) f = tt
  levels-IsNoted (l ∷ ls) (acc, db) f =
      let next = warn_level faults now sub_id left l (go.parse_duration l) acc db in
      (
        (λ due.
            levels-keep l ls next
              (level-notes faults now sub_id left l (go.parse_duration l) acc db f due)),
        levels-IsNoted ls next f,
      )

  levels-again :
      (levels : List String) (acc : Option (String × ℤ)) (db : Db)
      → All (IsNoted go sub_id left db) levels
      → warn_levels go faults now sub_id left levels (acc, db) ≡ (acc, db)
  levels-again [] acc db h = refl
  levels-again (l ∷ ls) acc db h =
      rw (level-again faults now sub_id left l (go.parse_duration l) acc db h.0)
        (levels-again ls acc db h.1)

warned-db :
    (faults : Faults) (sub : Subscription) (left : ℤ) (state : Option (String × ℤ) × Db)
    → (warned faults sub left state).1 ≡ state.1
warned-db faults sub left (none, db) = refl
warned-db faults sub left (some (l, d), db) = refl

-- After a look at the warnings of a subscription in which the driver refused no notification, the
-- next look at it sends nothing and changes nothing as long as the same levels are due, whichever
-- statements the driver refuses then.
pub warned_once :
    (go : GoLib) (faults faults' : Faults) (now now' : ℕ) (levels : List String)
    (sub : Subscription) (left left' : ℤ) (db : Db)
    → faults create_notification ≡ false
    → All (λ l. is_due go left' l ≡ is_due go left l) levels
    → let r = handle_warnings go faults now levels sub left db in
      handle_warnings go faults' now' levels sub left' r.1 ≡ ([], r.1)
unfolding handle_warnings
warned_once go faults faults' now now' levels sub left left' db f e =
    let first_look = warn_levels go faults now sub.id left levels (none, db) in
    rw (warned-db faults sub left first_look) (
      rw
        (levels-again go faults' now' sub.id left' levels none first_look.1 (
          All-IsNoted go faults now sub.id left first_look.1 left' levels e
            (levels-IsNoted go faults now sub.id left levels (none, db) f)))
        refl)
