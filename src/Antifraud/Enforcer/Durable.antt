-- ===== src/Antifraud/Enforcer/Durable.antt =====
-- analyzer.go and module.go: the bans in memory and the table of bans.
use xraytool_go.Prelude.{
  ℕ, ◌+◌, ◌≤◌, Bool, true, false, ◌&&◌, ◌≡◌, refl, subst, Option, none, some, String, arith, ltb,
  str_eq, str_eq_sound, if◌then◌else◌, Bool-cases, inl, inr,
}
use xraytool_go.Prelude.Int.{ℤ, pos, ltb_ℤ, mul64}
use xraytool_go.Prelude.Dict.{
  Dict, lookup, erase, insert, IsDict, lookup-erase, insert-IsDict, erase-IsDict,
}
use xraytool_go.GoLib.{GoLib, Clock}
use xraytool_go.Result.{Result, ok, err, not_found}
use xraytool_go.Domain.{User, Subscription}
use xraytool_go.Antifraud.BanStore.{is_in_force, is_banned, set_ban, clear_ban}
use xraytool_go.Antifraud.Enforcer.{
  AntifraudBan, Faults, upsert_ban, read_ban, delete_ban, Guard, Config, upsert, delete_by_email,
  call, enforce, Event, count_event, hashed_event, handle_event, cleared, discard_expired_ban,
  restore, unban_user_of, try_unban, force_unban, report_or_decide, decide_count, propagate,
  add_duration, duration_or, unban_user, is_ineligible, observed_at,
}

abbrev pub end_of : Option AntifraudBan → Option ℕ
end_of none = none
end_of (some ban) = some ban.expires_at

module _ (n : ℕ) where
  -- Every ban in memory that is in force at the time `n` is so in the table.
  abbrev pub IsBacked : Dict ℕ → Dict AntifraudBan → Type 0
  IsBacked bans rows =
      (email : String)
      → is_in_force n (lookup email bans) ≡ true
      → is_in_force n (end_of (lookup email rows)) ≡ true

  pub record IsDurable (g : Guard) : Type 0 where
    pub keyed : IsDict g.rows
    pub backed : IsBacked g.store.bans g.rows

  -- A row for an address that is not banned in memory.
  insert-row :
      (email : String) (ban : AntifraudBan) (bans : Dict ℕ) (rows : Dict AntifraudBan)
      → is_in_force n (lookup email bans) ≡ false
      → IsBacked bans rows
      → IsBacked bans (insert email ban rows)
  insert-row email ban bans rows out h f b = elim (Bool-cases (str_eq email f)) [
    | inl e ↦
        let same : is_in_force n (lookup f bans) ≡ false =
          subst (λ (k : String). is_in_force n (lookup k bans) ≡ false) (str_eq_sound email f e)
            out in
        cc
    | inr e ↦ ground (arith, h f, lookup-erase email f rows)
  ]

  insert-both :
      (email : String) (ban : AntifraudBan) (bans : Dict ℕ) (rows : Dict AntifraudBan)
      → IsBacked bans rows
      → IsBacked (insert email ban.expires_at bans) (insert email ban rows)
  insert-both email ban bans rows h f b =
      ground (arith, h f, lookup-erase email f rows, lookup-erase email f bans)

  erase-bans :
      (email : String) (bans : Dict ℕ) (rows : Dict AntifraudBan)
      → IsBacked bans rows
      → IsBacked (erase email bans) rows
  erase-bans email bans rows h f b = ground (arith, h f, lookup-erase email f bans)

  erase-both :
      (email : String) (bans : Dict ℕ) (rows : Dict AntifraudBan)
      → IsBacked bans rows
      → IsBacked (erase email bans) (erase email rows)
  erase-both email bans rows h f b =
      ground (arith, h f, lookup-erase email f rows, lookup-erase email f bans)

  propagate-IsDurable :
      (cfg : Config) (command email : String) (g : Guard)
      → IsDurable g
      → IsDurable (propagate cfg command email g)
  propagate-IsDurable cfg command email g d =
      elim (Bool-cases (cfg.is_master && cfg.has_propagator)) [
        | inl sent ↦ rw sent (record { keyed = d.keyed; backed = d.backed })
        | inr silent ↦ rw silent d
      ]

  enforce-IsDurable :
      (lib : GoLib) (cfg : Config) (faults : Faults) (now cache_now : ℕ) (email reason : String)
      (g : Guard)
      → is_in_force n (lookup email g.store.bans) ≡ false
      → IsDurable g
      → IsDurable (enforce lib cfg faults now cache_now email reason g)
  unfolding enforce upsert set_ban
  enforce-IsDurable lib cfg faults now cache_now email reason g out d =
      let ban : AntifraudBan = record {
        banned_at = now;
        expires_at = add_duration now (duration_or (lib.parse_duration cfg.ban_duration));
        reason = reason;
      } in
      let keyed = insert-IsDict email ban g.rows d.keyed in
      elim (Bool-cases (faults upsert_ban)) [
        | inl refused ↦ rw refused (record { keyed = d.keyed; backed = d.backed })
        | inr done ↦ rw done (elim (Bool-cases (faults read_ban)) [
          | inl refused ↦ rw refused (record {
            keyed = keyed;
            backed = insert-row email ban g.store.bans g.rows out d.backed;
          })
          | inr read ↦ rw read (
              propagate-IsDurable cfg "rmuser" email _ (record {
                keyed = keyed;
                backed = insert-both email ban g.store.bans g.rows d.backed;
              }))
        ])
      ]

  cleared-IsDurable :
      (lib : GoLib) (cfg : Config) (faults : Faults) (email : String) (after : Guard → Guard)
      (g : Guard)
      → ((x : Guard) → IsDurable x → IsDurable (after x))
      → IsDurable g
      → IsDurable (cleared lib cfg email after g (delete_by_email faults email g.rows))
  unfolding delete_by_email clear_ban
  cleared-IsDurable lib cfg faults email after g keeps d = elim (Bool-cases (faults delete_ban)) [
    | inl refused ↦ rw refused (record { keyed = d.keyed; backed = d.backed })
    | inr done ↦ rw done (
        keeps _ (record {
          keyed = erase-IsDict email g.rows d.keyed;
          backed = erase-both email g.store.bans g.rows d.backed;
        }))
  ]

  discard-IsDurable :
      (lib : GoLib) (cfg : Config) (faults : Faults) (email : String) (g : Guard)
      → IsDurable g
      → IsDurable (discard_expired_ban lib cfg faults email g)
  unfolding discard_expired_ban
  discard-IsDurable lib cfg faults email g d =
      cleared-IsDurable lib cfg faults email (λ x. x) g (λ x h. h) d

  restore-IsDurable :
      (lib : GoLib) (cfg : Config) (faults : Faults) (unban_fails : String → Bool) (email : String)
      (g : Guard)
      → IsDurable g
      → IsDurable (restore lib cfg faults unban_fails email g)
  restore-IsDurable lib cfg faults unban_fails email g d = elim (Bool-cases (unban_fails email)) [
    | inl failed ↦ rw failed (record { keyed = d.keyed; backed = d.backed })
    | inr back ↦ rw back (
        cleared-IsDurable lib cfg faults email (propagate cfg "newuser" email)
          (call (unban_user email) g) (propagate-IsDurable cfg "newuser" email)
          (record { keyed = d.keyed; backed = d.backed }))
  ]

  unban_user_of-IsDurable :
      (lib : GoLib) (cfg : Config) (faults : Faults) (unban_fails : String → Bool) (now : ℕ)
      (email : String) (sub : Subscription) (r : Result User) (g : Guard)
      → IsDurable g
      → IsDurable (unban_user_of lib cfg faults unban_fails now email sub r g)
  unban_user_of-IsDurable lib cfg faults unban_fails now email sub (ok user) g d =
      elim (Bool-cases (is_ineligible now sub user)) [
        | inl no_more ↦ rw no_more (discard-IsDurable lib cfg faults email g d)
        | inr fine ↦ rw fine (restore-IsDurable lib cfg faults unban_fails email g d)
      ]
  unban_user_of-IsDurable lib cfg faults unban_fails now email sub (err not_found) g d =
      discard-IsDurable lib cfg faults email g d
  unban_user_of-IsDurable lib cfg faults unban_fails now email sub (err _) g d = d

  pub try_unban-IsDurable :
      (lib : GoLib) (cfg : Config) (faults : Faults) (unban_fails : String → Bool) (now : ℕ)
      (r : Result Subscription) (find_by_id : String → Result User) (email : String) (g : Guard)
      → IsDurable g
      → IsDurable (try_unban lib cfg faults unban_fails now r find_by_id email g)
  unfolding try_unban
  try_unban-IsDurable lib cfg faults unban_fails now (ok sub) find_by_id email g d =
      unban_user_of-IsDurable lib cfg faults unban_fails now email sub (find_by_id sub.user_id) g d
  try_unban-IsDurable lib cfg faults unban_fails now (err not_found) find_by_id email g d =
      discard-IsDurable lib cfg faults email g d
  try_unban-IsDurable lib cfg faults unban_fails now (err _) find_by_id email g d = d

  pub force_unban-IsDurable :
      (lib : GoLib) (faults : Faults) (email : String) (g : Guard)
      → IsDurable g
      → IsDurable (force_unban lib faults email g)
  unfolding force_unban delete_by_email clear_ban
  force_unban-IsDurable lib faults email g d = elim (Bool-cases (faults delete_ban)) [
    | inl refused ↦
        rw refused
          (record { keyed = d.keyed; backed = erase-bans email g.store.bans g.rows d.backed })
    | inr done ↦ rw done (record {
      keyed = erase-IsDict email g.rows d.keyed;
      backed = erase-both email g.store.bans g.rows d.backed;
    })
  ]

  either :
      (b : Bool) (x y : Result (Unit {0}) × Guard)
      → IsDurable x.1
      → IsDurable y.1
      → IsDurable (if b then x else y).1
  either true x y h k = h
  either false x y h k = k

  decide-IsDurable :
      (lib : GoLib) (cfg : Config) (faults : Faults) (clock : Clock) (email : String) (count : ℕ)
      (devices : ℤ) (g : Guard)
      → is_in_force n (lookup email g.store.bans) ≡ false
      → IsDurable g
      → IsDurable (decide_count lib cfg faults clock email count devices g).1
  decide-IsDurable lib cfg faults clock email count devices g out d =
      let done =
        enforce-IsDurable lib cfg faults (clock 2) (clock 3) email
          (cfg.fraud_reason email count (mul64 cfg.max_ips devices) devices) g out d in
      either (ltb_ℤ (mul64 cfg.max_ips devices) (pos count)) _ (ok tt, g)
        (either cfg.dry_run (ok tt, g) _ d done) d

  report-IsDurable :
      (lib : GoLib) (cfg : Config) (faults : Faults) (clock : Clock)
      (r : Option (String → String → ℕ → Bool)) (email hash : String) (at count : ℕ) (devices : ℤ)
      (g : Guard)
      → is_in_force n (lookup email g.store.bans) ≡ false
      → IsDurable g
      → IsDurable (report_or_decide lib cfg faults clock r email hash at count devices g).1
  report-IsDurable lib cfg faults clock none email hash at count devices g out d =
      decide-IsDurable lib cfg faults clock email count devices g out d
  report-IsDurable lib cfg faults clock (some accepts) email hash at count devices g out d =
      elim (Bool-cases (accepts email hash at)) [
        | inl taken ↦ rw taken (record { keyed = d.keyed; backed = d.backed })
        | inr refused ↦ rw refused (record { keyed = d.keyed; backed = d.backed })
      ]

  count-IsDurable :
      (lib : GoLib) (cfg : Config) (faults : Faults) (clock : Clock) (email hash : String) (at : ℕ)
      (g : Guard)
      → is_in_force n (lookup email g.store.bans) ≡ false
      → IsDurable g
      → IsDurable (count_event lib cfg faults clock email hash at g).1
  count-IsDurable lib cfg faults clock email hash at g out d =
      report-IsDurable lib cfg faults clock cfg.reporter email hash at _ _ _ out
        (record { keyed = d.keyed; backed = d.backed })

  hashed-IsDurable :
      (lib : GoLib) (cfg : Config) (faults : Faults) (clock : Clock) (e : Event) (at : ℕ)
      (g : Guard)
      → is_in_force n (lookup e.email g.store.bans) ≡ false
      → IsDurable g
      → IsDurable (hashed_event lib cfg faults clock e at g).1
  hashed-IsDurable lib cfg faults clock e at g out d =
      either e.is_hashed _ _ (count-IsDurable lib cfg faults clock e.email e.ip at g out d) (
        either (str_eq (cfg.hash_ip e.ip) "") (ok tt, g) _ d
          (count-IsDurable lib cfg faults clock e.email (cfg.hash_ip e.ip) at g out d))

  pub handle_event-IsDurable :
      (lib : GoLib) (cfg : Config) (faults : Faults) (clock : Clock) (e : Event) (g : Guard)
      → clock 0 ≤ n
      → IsDurable g
      → IsDurable (handle_event lib cfg faults clock e g).1
  unfolding handle_event is_banned
  handle_event-IsDurable lib cfg faults clock e g l d =
      elim (Bool-cases (is_in_force (clock 0) (lookup e.email g.store.bans))) [
        | inl banned ↦ rw banned d
        | inr open_now ↦
            rw open_now
              (elim (Bool-cases
                (ltb (observed_at (clock 1) e.occurred_at + cfg.ip_ttl) (clock 1))) [
                  | inl stale ↦ rw stale d
                  | inr recent ↦ rw recent (
                      hashed-IsDurable lib cfg faults clock e (observed_at (clock 1) e.occurred_at)
                        g (later_out (lookup e.email g.store.bans) open_now) d)
                ])
      ]
    where
      later_out : (o : Option ℕ) → is_in_force (clock 0) o ≡ false → is_in_force n o ≡ false
      later_out none k = refl
      later_out (some t) k = ground arith
