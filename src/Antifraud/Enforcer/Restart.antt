-- ===== src/Antifraud/Enforcer/Restart.antt =====
-- module.go: the bans after a restart.
use xraytool_go.Prelude.{
  ℕ, ◌≤◌, Bool, true, false, ◌≡◌, refl, sym, subst, ap, ◌∙◌, Option, none, some, [], ◌∷◌, String,
  arith, keep, ltb, str_eq, Bool-cases, inl, inr,
}
use xraytool_go.Prelude.Int.{ℤ}
use xraytool_go.Prelude.Dict.{
  Dict, lookup, IsDict, kept_if, lookup-erase, lookup-none, tail-IsDict, lookup-keep, occurs-keep,
}
use xraytool_go.GoLib.{GoLib, Clock}
use xraytool_go.Result.{Result}
use xraytool_go.Domain.{User, Subscription}
use xraytool_go.Antifraud.BanStore.{is_in_force, is_banned, set_ban}
use xraytool_go.Antifraud.Enforcer.{
  AntifraudBan, Faults, find_active, Guard, Config, Event, handle_event, try_unban, force_unban,
  recover_rows, recover_bans_from_db, call, ban_user,
}
use xraytool_go.Antifraud.Enforcer.Durable.{
  end_of, IsDurable, handle_event-IsDurable, try_unban-IsDurable, force_unban-IsDurable,
}

abbrev or_else : Option ℕ → Option ℕ → Option ℕ
or_else none o = o
or_else (some t) o = some t

-- What the recovery of some rows leaves in memory.
recover_rows-lookup :
    (lib : GoLib) (cache_now : ℕ) (email : String) (sub : Dict AntifraudBan) (g : Guard)
    → IsDict sub
    → (lookup email (recover_rows lib cache_now sub g).store.bans
        ≡ or_else (end_of (lookup email sub)) (lookup email g.store.bans))
      × ((recover_rows lib cache_now sub g).rows ≡ g.rows)
unfolding set_ban
recover_rows-lookup lib cache_now email [] g d = (refl, refl)
recover_rows-lookup lib cache_now email ((e, ban) ∷ sub) g d =
    let next =
      call (ban_user e)
        (record g { store = set_ban lib.trim_space cache_now e ban.expires_at g.store }) in
    let rest = recover_rows-lookup lib cache_now email sub next (tail-IsDict e ban sub d) in
    (
      rest.0 ∙ elim (Bool-cases (str_eq e email)) [
        | inl s ↦
            let gone : lookup email sub ≡ none = lookup-none email sub (ground (arith, d email)) in
            rw (gone, s)
        | inr s ↦ rw (s, lookup-erase e email g.store.bans, s)
      ],
      rest.1,
    )

module _ (n : ℕ) where
  -- An end that is in force later is among the active ones.
  active_end :
      (now : ℕ) (o : Option AntifraudBan)
      → now ≤ n
      → is_in_force n (end_of o) ≡ true
      → end_of (kept_if (λ ban. ltb now ban.expires_at) o) ≡ end_of o
  active_end now none l h = refl
  active_end now (some ban) l h = ground arith

  active_sound :
      (now : ℕ) (o : Option AntifraudBan)
      → is_in_force n (end_of (kept_if (λ ban. ltb now ban.expires_at) o)) ≡ true
      → is_in_force n (end_of o) ≡ true
  active_sound now none h = h
  active_sound now (some ban) h = ground arith

  active-IsDict :
      (now : ℕ) (rows : Dict AntifraudBan)
      → IsDict rows
      → IsDict (keep (λ r. ltb now r.1.expires_at) rows)
  active-IsDict now rows d k =
      omega (arith, d k, occurs-keep (λ (ban : AntifraudBan). ltb now ban.expires_at) k rows)

  recovered :
      (lib : GoLib) (now cache_now : ℕ) (email : String) (g : Guard)
      → IsDict g.rows
      → lookup email
          (recover_rows lib cache_now (keep (λ r. ltb now r.1.expires_at) g.rows) g).store.bans
        ≡ or_else
            (end_of (kept_if (λ ban. ltb now ban.expires_at) (lookup email g.rows)))
            (lookup email g.store.bans)
  recovered lib now cache_now email g d =
      (recover_rows-lookup lib cache_now email (keep (λ r. ltb now r.1.expires_at) g.rows) g
        (active-IsDict now g.rows d)).0
      ∙ ap (λ (o : Option AntifraudBan). or_else (end_of o) (lookup email g.store.bans))
          (lookup-keep (λ (ban : AntifraudBan). ltb now ban.expires_at) email g.rows d)

  backed_or :
      (a b : Option ℕ) (r : Option ℕ)
      → (is_in_force n a ≡ true → is_in_force n r ≡ true)
      → (is_in_force n b ≡ true → is_in_force n r ≡ true)
      → is_in_force n (or_else a b) ≡ true
      → is_in_force n r ≡ true
  backed_or none b r h k i = k i
  backed_or (some t) b r h k i = h i

  recover-IsDurable :
      (lib : GoLib) (faults : Faults) (now cache_now : ℕ) (g : Guard)
      → IsDurable n g
      → IsDurable n (recover_bans_from_db lib faults now cache_now g)
  unfolding recover_bans_from_db
  recover-IsDurable lib faults now cache_now g d = elim (Bool-cases (faults find_active)) [
    | inl refused ↦ rw refused d
    | inr read ↦ rw read (
        let sub = keep (λ (r : String × AntifraudBan). ltb now r.1.expires_at) g.rows in
        let rows =
          (recover_rows-lookup lib cache_now "" sub g (active-IsDict now g.rows d.keyed)).1 in
        record {
          keyed = subst IsDict (sym rows) d.keyed;
          backed = λ email b.
              subst (λ (r : Dict AntifraudBan). is_in_force n (end_of (lookup email r)) ≡ true)
                (sym rows)
                (backed_or (end_of (kept_if (λ ban. ltb now ban.expires_at) (lookup email g.rows)))
                  (lookup email g.store.bans) (end_of (lookup email g.rows))
                  (active_sound now (lookup email g.rows)) (d.backed email)
                  (subst (λ (o : Option ℕ). is_in_force n o ≡ true)
                    (recovered lib now cache_now email g d.keyed) b));
        })
  ]

  -- An operation of the module, whichever of its statements and calls fail.
  pub data Step : Guard → Guard → Type 0 where
    handles :
        (lib : GoLib) (cfg : Config) (faults : Faults) (clock : Clock) (e : Event) (g : Guard)
        → clock 0 ≤ n
        → Step g (handle_event lib cfg faults clock e g).1
    unbans :
        (lib : GoLib) (cfg : Config) (faults : Faults) (unban_fails : String → Bool) (now : ℕ)
        (r : Result Subscription) (find_by_id : String → Result User) (email : String) (g : Guard)
        → Step g (try_unban lib cfg faults unban_fails now r find_by_id email g)
    forces :
        (lib : GoLib) (faults : Faults) (email : String) (g : Guard)
        → Step g (force_unban lib faults email g)
    recovers :
        (lib : GoLib) (faults : Faults) (now cache_now : ℕ) (g : Guard)
        → Step g (recover_bans_from_db lib faults now cache_now g)
    reads_limits : (limits : Dict ℤ) (g : Guard) → Step g (record g { limits = limits })

  pub data Reach (a : Guard) : Guard → Type 0 where
    here : Reach a a
    next : {b c : Guard} → Reach a b → Step b c → Reach a c

  Step-IsDurable : {a b : Guard} → Step a b → IsDurable n a → IsDurable n b
  Step-IsDurable (handles lib cfg faults clock e g l) d =
      handle_event-IsDurable n lib cfg faults clock e g l d
  Step-IsDurable (unbans lib cfg faults unban_fails now r find_by_id email g) d =
      try_unban-IsDurable n lib cfg faults unban_fails now r find_by_id email g d
  Step-IsDurable (forces lib faults email g) d = force_unban-IsDurable n lib faults email g d
  Step-IsDurable (recovers lib faults now cache_now g) d =
      recover-IsDurable lib faults now cache_now g d
  Step-IsDurable (reads_limits limits g) d = record { keyed = d.keyed; backed = d.backed }

  Reach-IsDurable : {a b : Guard} → Reach a b → IsDurable n a → IsDurable n b
  Reach-IsDurable here d = d
  Reach-IsDurable (next r s) d = Step-IsDurable s (Reach-IsDurable r d)

-- A module that starts on a table of bans.
abbrev pub started : Dict AntifraudBan → Guard
started rows = record {
  rows = rows;
  store = record { bans = []; sink = none };
  state = record { users = [] };
  limits = [];
  calls = [];
}

-- A restart loses no ban. From a start on a table that has each address at most once, run the
-- operations in any order, whichever of their statements and calls fail, every event handled at a
-- time not later than `n`: whom the module bans at the time `n`, a module bans at `n` too that starts
-- on the table as it is then and recovers at a time not later than `n`, if the active rows can be read.
pub recover-is_banned :
    (n now cache_now : ℕ) (lib : GoLib) (faults : Faults) (rows : Dict AntifraudBan)
    (email : String) {b : Guard}
    → IsDict rows
    → Reach n (started rows) b
    → now ≤ n
    → faults find_active ≡ false
    → is_banned n email b.store ≡ true
    → is_banned n email (recover_bans_from_db lib faults now cache_now (started b.rows)).store
      ≡ true
unfolding is_banned recover_bans_from_db
recover-is_banned n now cache_now lib faults rows email {b} d r l f h =
    let durable = Reach-IsDurable n r (record { keyed = d; backed = λ e k. (cc) }) in
    let in_table : is_in_force n (end_of (lookup email b.rows)) ≡ true = durable.backed email h in
    rw f (
      subst (λ (o : Option ℕ). is_in_force n o ≡ true)
        (sym (recovered n lib now cache_now email (started b.rows) durable.keyed))
        (rw (active_end n now (lookup email b.rows) l in_table)
          (kept (end_of (lookup email b.rows)) in_table)))
  where
    kept : (o : Option ℕ) → is_in_force n o ≡ true → is_in_force n (or_else o none) ≡ true
    kept none k = k
    kept (some t) k = k
