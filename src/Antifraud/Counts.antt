-- ===== src/Antifraud/Counts.antt =====
-- state.go: the number of addresses that an observation returns.
use xraytool_go.Prelude.{
  ℕ, ◌≤◌, Bool, false, ◌≡◌, refl, sym, subst, ◌∙◌, Option, none, some, List, [], ◌∷◌, ◌++◌, String,
  arith, length, str_eq, if◌then◌else◌, Bool-cases, inl, inr, All, str_eq_refl, str_eq_sound,
}
use xraytool_go.Prelude.Dict.{
  Dict, lookup, occurs, IsDict, lookup-erase, insert-IsDict, lookup-none, tail-IsDict,
}
use xraytool_go.Antifraud.{
  Ips, State, ips_or_empty, ips_of, see, fresh, set_ips, add_hashed_event_locked, add_hashed_event,
  active_ip_count, clean_users, clean,
}
use xraytool_go.Antifraud.Window.{
  Op, saw, cleaned, time_of, apply, run, record_op, recorded, Agree, see-Agree, fresh-Agree,
  Agree-length,
}

set_ips-ips_of :
    (e email : String) (ips : Ips) (s : State)
    → ips_of email (set_ips e ips s) ≡ (if str_eq e email then ips else ips_of email s)
set_ips-ips_of e email ips s = ground (arith, lookup-erase e email s.users)

fresh_user :
    (ttl now : ℕ) (email e : String) (ips : Ips) (users : Dict Ips)
    → ips_or_empty (lookup email (clean_users ttl now ((e, ips) ∷ users)))
      ≡ ips_or_empty (
          if str_eq e email
          then (elim (fresh ttl now ips) [
            | [] ↦ lookup email (clean_users ttl now users)
            | x ∷ xs ↦ some (x ∷ xs)
          ])
          else lookup email (clean_users ttl now users))
fresh_user ttl now email e ips users = by_fresh (fresh ttl now ips)
  where
    by_fresh :
        (f : Ips)
        → ips_or_empty (
            lookup email (elim f as (λ _. Dict Ips) [
              | [] ↦ clean_users ttl now users
              | x ∷ xs ↦ (e, x ∷ xs) ∷ clean_users ttl now users
            ]))
          ≡ ips_or_empty (
              if str_eq e email
              then (elim f as (λ _. Option Ips) [
                | [] ↦ lookup email (clean_users ttl now users)
                | x ∷ xs ↦ some (x ∷ xs)
              ])
              else lookup email (clean_users ttl now users))
    by_fresh [] = ground arith
    by_fresh (x ∷ xs) = ground arith

occurs-clean_users :
    (ttl now : ℕ) (k : String) (users : Dict Ips)
    → occurs k (clean_users ttl now users) ≤ occurs k users
occurs-clean_users ttl now k [] = omega arith
occurs-clean_users ttl now k ((e, ips) ∷ users) =
    by_fresh (fresh ttl now ips) (occurs-clean_users ttl now k users)
  where
    by_fresh :
        (f : Ips)
        → occurs k (clean_users ttl now users) ≤ occurs k users
        → occurs k (elim f as (λ _. Dict Ips) [
          | [] ↦ clean_users ttl now users
          | x ∷ xs ↦ (e, x ∷ xs) ∷ clean_users ttl now users
        ])
          ≤ occurs k ((e, ips) ∷ users)
    by_fresh [] h = ground arith
    by_fresh (x ∷ xs) h = ground arith

-- The cleaner prunes each user's addresses; a user without any reads as one with none.
clean_users_lem :
    (ttl now : ℕ) (email : String) (users : Dict Ips)
    → IsDict users
    → ips_or_empty (lookup email (clean_users ttl now users))
      ≡ fresh ttl now (ips_or_empty (lookup email users))
clean_users_lem ttl now email [] h = refl
clean_users_lem ttl now email ((e, ips) ∷ users) h =
    fresh_user ttl now email e ips users ∙ elim (Bool-cases (str_eq e email)) [
      | inl s ↦ rw s (
          by_fresh (fresh ttl now ips) (
            lookup-none email (clean_users ttl now users)
              (ground (arith, h email, occurs-clean_users ttl now email users))))
      | inr s ↦ rw s (clean_users_lem ttl now email users (tail-IsDict e ips users h))
    ]
  where
    by_fresh :
        (f : Ips)
        → lookup email (clean_users ttl now users) ≡ none
        → ips_or_empty (elim f as (λ _. Option Ips) [
          | [] ↦ lookup email (clean_users ttl now users)
          | x ∷ xs ↦ some (x ∷ xs)
        ])
          ≡ f
    by_fresh [] gone = rw gone
    by_fresh (x ∷ xs) gone = refl

module _ (ttl n : ℕ) where
  -- A query at the time `n` sees of every user what was recorded.
  record Sees (s : State) (seen : String → Ips) : Type 0 where
    users : IsDict s.users
    agree : (email : String) → Agree ttl n (ips_of email s) (seen email)

  -- The step and its record, by whether the address is empty.
  abbrev Turn : String → String → ℕ → State → (String → Ips) → Bool → Type 0
  Turn e ip now s seen empty =
      Sees (if empty then (active_ip_count e s, s) else add_hashed_event_locked e ip ttl now s).1
        (λ email.
          if empty
          then seen email
          else (if str_eq e email then see ip now (seen email) else seen email))

  apply-Sees :
      (o : Op) (s : State) (seen : String → Ips)
      → time_of o ≤ n
      → Sees s seen
      → Sees (apply ttl o s) (λ email. record_op email o (seen email))
  unfolding add_hashed_event clean
  apply-Sees (saw e ip now) s seen l h = elim (Bool-cases (str_eq ip "")) [
    | inl empty ↦ subst (Turn e ip now s seen) (sym empty) h
    | inr given ↦ subst (Turn e ip now s seen) (sym given) (record {
      users = insert-IsDict e (fresh ttl now (see ip now (ips_of e s))) s.users h.users;
      agree = λ email.
          rw (set_ips-ips_of e email (fresh ttl now (see ip now (ips_of e s))) s)
            (elim (Bool-cases (str_eq e email)) [
              | inl same ↦ rw same (
                  subst
                    (λ (k : String).
                      Agree ttl n (fresh ttl now (see ip now (ips_of k s)))
                        (see ip now (seen email)))
                    (sym (str_eq_sound e email same))
                    (fresh-Agree ttl n now (see ip now (ips_of email s)) (see ip now (seen email)) l
                      (see-Agree ttl n ip now (ips_of email s) (seen email) (h.agree email))))
              | inr other ↦ rw other (h.agree email)
            ]);
    })
  ]
  apply-Sees (cleaned now) s seen l h = record {
    users = λ k. omega (arith, h.users k, occurs-clean_users ttl now k s.users);
    agree = λ email.
        subst (λ (ips : Ips). Agree ttl n ips (seen email))
          (sym (clean_users_lem ttl now email s.users h.users))
          (fresh-Agree ttl n now (ips_of email s) (seen email) l (h.agree email));
  }

  run-Sees :
      (os : List Op) (s : State) (seen : String → Ips)
      → All (λ o. time_of o ≤ n) os
      → Sees s seen
      → Sees (run ttl os s) (λ email. recorded email os (seen email))
  run-Sees [] s seen l h = h
  run-Sees (o ∷ os) s seen l h =
      run-Sees os (apply ttl o s) (λ email. record_op email o (seen email)) l.1
        (apply-Sees o s seen l.0 h)

  start-Sees : Sees (record { users = [] }) (λ email. [])
  start-Sees = record {
    users = λ k. omega arith;
    agree =
        λ email. record { left = λ k. omega arith; right = λ k. omega arith; same = λ ip. refl };
  }

recorded-append :
    (email : String) (os : List Op) (o : Op) (ips : Ips)
    → recorded email (os ++ o ∷ []) ips ≡ record_op email o (recorded email os ips)
recorded-append email [] o ips = refl
recorded-append email (p ∷ os) o ips = recorded-append email os o (record_op email p ips)

-- After any observations and runs of the cleaner in any order, none of them later than `now`, an
-- observation of an address at `now` returns the number of addresses of the user that a record of all
-- observations, never pruned, has within the window: pruning and cleaning do not change the count.
pub add_hashed_event-count :
    (ttl now : ℕ) (os : List Op) (email ip : String)
    → All (λ o. time_of o ≤ now) os
    → str_eq ip "" ≡ false
    → (add_hashed_event email ip ttl now (run ttl os (record { users = [] }))).0
      ≡ length (fresh ttl now (recorded email (os ++ saw email ip now ∷ []) []))
unfolding add_hashed_event
add_hashed_event-count ttl now os email ip l g =
    let s = run ttl os (record { users = [] }) in
    let sees = run-Sees ttl now os (record { users = [] }) (λ e. []) l (start-Sees ttl now) in
    let counted : length (fresh ttl now (see ip now (ips_of email s)))
        ≡ length (fresh ttl now (see ip now (recorded email os []))) =
      Agree-length ttl now (see ip now (ips_of email s)) (see ip now (recorded email os []))
        (see-Agree ttl now ip now (ips_of email s) (recorded email os []) (sees.agree email)) in
    rw (g, recorded-append email os (saw email ip now) [], g, str_eq_refl email) counted
