-- ===== src/Otp/Owned.antt =====
-- auth_cache.go: the identifiers of the entries, under any interleaving.
use xraytool_go.Prelude.{
  ℕ, suc, ◌<◌, ◌==◌, ◌&&◌, not, Bool, false, ◌≡◌, refl, sym, ◌∙◌, some, List, [], ◌∷◌, String,
  arith, exists, ltb, leb, ap, str_eq, eq_iff, Bool-cases, Option-cases, inl, inr,
}
use xraytool_go.Prelude.Int.{ℤ}
use xraytool_go.Otp.{
  OtpElement, OtpEntry, OtpState, is_for, find, removed, get, get_or_create, delete, has_key, hold,
  issue, look_up, check, drop, sweep_expired, written, new_entry, issued, refreshed, hmac_equal,
  Step, holds, issues, looks_up, checks, drops, sweeps, Reach, here, next,
}
use xraytool_go.Otp.Lists.{exists-removed}
use xraytool_go.Otp.Invariant.{IsValid, find-is_for}
use xraytool_go.Otp.Sweep.{sweep-none}
use xraytool_go.Otp.Lost.{
  none-find, none-get, none-get_or_create, none-delete, none-removed, points_to, IsLost,
}

-- An element whose entry has not been made, or was made with another identifier.
abbrev is_foreign : ℕ → (ℕ → OtpEntry) → OtpElement → Bool
is_foreign n entries e = not (ltb e.ref n && str_eq (entries e.ref).identifier e.identifier)

abbrev pub IsOwned : OtpState → Type 0
IsOwned s = exists (is_foreign s.next s.entries) s.cache.order ≡ false

none-weaker :
    (p q : OtpElement → Bool) (es : List OtpElement)
    → ((e : OtpElement) → p e ≡ false → q e ≡ false)
    → exists p es ≡ false
    → exists q es ≡ false
none-weaker p q [] w h = refl
none-weaker p q (e ∷ es) w h = ground (arith, none-weaker p q es w, w e)

not_pointed_one :
    (n ref : ℕ) (entries : ℕ → OtpEntry) (i : String) (e : OtpElement)
    → (entries ref).identifier ≡ i
    → is_foreign n entries e ≡ false
    → is_for i e ≡ false
    → points_to ref e ≡ false
not_pointed_one n ref entries i e q f h = elim (Bool-cases (e.ref == ref)) [
  | inr other ↦ other
  | inl same ↦
      let at : e.ref ≡ ref = ground arith in
      let name : (entries e.ref).identifier ≡ (entries ref).identifier =
        ap (λ k. (entries k).identifier) at in
      ground (arith, name, eq_iff (entries e.ref).identifier e.identifier, eq_iff e.identifier i)
]

-- No element of the list has the identifier, so none points to an entry that was made with it.
not_pointed :
    (n ref : ℕ) (entries : ℕ → OtpEntry) (i : String) (es : List OtpElement)
    → (entries ref).identifier ≡ i
    → exists (is_foreign n entries) es ≡ false
    → exists (is_for i) es ≡ false
    → exists (points_to ref) es ≡ false
not_pointed n ref entries i [] q f h = refl
not_pointed n ref entries i (e ∷ es) q f h =
    ground (arith, not_pointed n ref entries i es q, not_pointed_one n ref entries i e q)

-- A deletion under the identifier of an entry takes that entry out of the cache.
pub drop-IsLost :
    (i : String) (ref : ℕ) (s : OtpState)
    → IsValid s.cache
    → IsOwned s
    → ref < s.next
    → (s.entries ref).identifier ≡ i
    → IsLost ref (drop i s)
unfolding drop delete
drop-IsLost i ref s v o l q = elim (Bool-cases (has_key i s.cache.items)) [
  | inl present ↦ (
    l,
    rw present (
        not_pointed s.next ref s.entries i (removed i s.cache.order) q
          (none-removed (is_foreign s.next s.entries) i s.cache.order o)
          (ground (arith, exists-removed i i s.cache.order, eq_iff i i))),
  )
  | inr missing ↦ (
    l,
    rw missing (not_pointed s.next ref s.entries i s.cache.order q o (ground (arith, v.synced i))),
  )
]

write-IsOwned :
    (ref : ℕ) (e : OtpEntry) (s : OtpState)
    → e.identifier ≡ (s.entries ref).identifier
    → IsOwned s
    → IsOwned (record s { entries = written ref e s.entries })
write-IsOwned ref e s q o =
    none-weaker (is_foreign s.next s.entries) (is_foreign s.next (written ref e s.entries))
      s.cache.order (λ x f. weaker x f) o
  where
    weaker :
        (x : OtpElement)
        → is_foreign s.next s.entries x ≡ false
        → is_foreign s.next (written ref e s.entries) x ≡ false
    weaker x f = elim (Bool-cases (x.ref == ref)) [
      | inr other ↦ rw other f
      | inl same ↦
          let at : x.ref ≡ ref = ground arith in
          let name : (s.entries x.ref).identifier ≡ (s.entries ref).identifier =
            ap (λ k. (s.entries k).identifier) at in
          rw same (rw (q ∙ sym name) f)
    ]

-- The entry behind a pointer has been made, with this identifier.
abbrev pub IsNamed : String → ℕ → OtpState → Type 0
IsNamed i ref s = (ref < s.next) × ((s.entries ref).identifier ≡ i)

module _ (mac : String → String) where
  hold-IsOwned : (i : String) (s : OtpState) → IsOwned s → IsOwned (hold i s).1
  unfolding hold
  hold-IsOwned i s o =
      let later = written s.next (new_entry i) s.entries in
      none-get_or_create (is_foreign (suc s.next) later) i s.next s.cache
        (none-weaker (is_foreign s.next s.entries) (is_foreign (suc s.next) later) s.cache.order
          (λ e f. ground arith) o)
        (ground (arith, eq_iff i i))

  issue-IsOwned :
      (now : ℕ) (ttl : ℤ) (code payload : String) (ref : ℕ) (s : OtpState)
      → IsOwned s
      → IsOwned (issue mac now ttl code payload ref s).1
  unfolding issue
  issue-IsOwned now ttl code payload ref s o =
      let e = refreshed now (s.entries ref) in
      elim (Bool-cases (leb 2 e.request_count)) [
        | inl limited ↦ rw limited (write-IsOwned ref e s (ground arith) o)
        | inr allowed ↦
            rw allowed (write-IsOwned ref (issued mac now ttl code payload e) s (ground arith) o)
      ]

  pub check-IsOwned :
      (now : ℕ) (code : String) (ref : ℕ) (s : OtpState)
      → IsOwned s
      → IsOwned (check mac now code ref s).1
  unfolding check
  check-IsOwned now code ref s o = elim (Bool-cases (ltb (s.entries ref).expires_at now)) [
    | inl old ↦ rw old o
    | inr fresh ↦ rw fresh (elim (Bool-cases (hmac_equal (s.entries ref).code_hmac (mac code))) [
      | inl same ↦ rw same o
      | inr other ↦ rw other (
          write-IsOwned ref (record (s.entries ref) { attempts = suc (s.entries ref).attempts }) s
            refl o)
    ])
  ]

  pub step-IsOwned : {s t : OtpState} → Step mac s t → IsOwned s → IsOwned t
  unfolding look_up drop sweep_expired
  step-IsOwned (holds i s) o = hold-IsOwned i s o
  step-IsOwned (issues now ttl code payload ref s) o = issue-IsOwned now ttl code payload ref s o
  step-IsOwned (looks_up i s) o = none-get (is_foreign s.next s.entries) i s.cache o
  step-IsOwned (checks now code ref s) o = check-IsOwned now code ref s o
  step-IsOwned (drops i s) o = none-delete (is_foreign s.next s.entries) i s.cache o
  step-IsOwned (sweeps now s) o =
      sweep-none s.entries now (is_foreign s.next s.entries) s.cache.order s.cache.items o

  step-IsNamed :
      (i : String) (ref : ℕ) {s t : OtpState} → Step mac s t → IsNamed i ref s → IsNamed i ref t
  unfolding hold issue look_up check drop sweep_expired
  step-IsNamed i ref (holds j s) (l, q) = (ground arith, ground arith)
  step-IsNamed i ref (issues now ttl code payload r s) (l, q) = elim (Bool-cases (r == ref)) [
    | inr other ↦ (ground arith, ground arith)
    | inl same ↦
        let at : r ≡ ref = ground arith in
        (ground arith, ground (arith, ap (λ k. (s.entries k).identifier) at))
  ]
  step-IsNamed i ref (looks_up j s) n = n
  step-IsNamed i ref (checks now code r s) (l, q) = elim (Bool-cases (r == ref)) [
    | inr other ↦ (ground arith, ground arith)
    | inl same ↦
        let at : r ≡ ref = ground arith in
        (ground arith, ground (arith, ap (λ k. (s.entries k).identifier) at))
  ]
  step-IsNamed i ref (drops j s) n = n
  step-IsNamed i ref (sweeps now s) n = n

  pub run-IsOwned : {s t : OtpState} → Reach mac s t → IsOwned s → IsOwned t
  run-IsOwned here o = o
  run-IsOwned (next step run) o = run-IsOwned run (step-IsOwned step o)

  pub run-IsNamed :
      (i : String) (ref : ℕ) {s t : OtpState} → Reach mac s t → IsNamed i ref s → IsNamed i ref t
  run-IsNamed i ref here n = n
  run-IsNamed i ref (next step run) n = run-IsNamed i ref run (step-IsNamed i ref step n)

  pub look_up-IsNamed :
      (i : String) (ref : ℕ) (s : OtpState)
      → IsOwned s
      → (look_up i s).0 ≡ some ref
      → IsNamed i ref (look_up i s).1
  unfolding look_up get
  look_up-IsNamed i ref s o h = elim (Option-cases (find i s.cache)) [
    | inl missing ↦ absurd (ground arith)
    | inr (e, f) ↦
        let own = none-find (is_foreign s.next s.entries) i s.cache e o f in
        let name = (find-is_for i s.cache {e = e} f).0 in
        let at : e.ref ≡ ref = ground arith in
        (
          ground arith,
          ground (
            arith,
            ap (λ k. (s.entries k).identifier) at,
            eq_iff (s.entries e.ref).identifier e.identifier,
          ),
        )
  ]

  pub lost-look_up :
      (j : String) (ref : ℕ) (s : OtpState) → IsLost ref s → ¬ ((look_up j s).0 ≡ some ref)
  unfolding look_up get
  lost-look_up j ref s (l, h) q = elim (Option-cases (find j s.cache)) [
    | inl missing ↦ ground arith
    | inr (e, f) ↦ ground (arith, none-find (points_to ref) j s.cache e h f)
  ]

  pub lost-hold : (j : String) (ref : ℕ) (s : OtpState) → IsLost ref s → ¬ ((hold j s).0 ≡ ref)
  unfolding hold get_or_create
  lost-hold j ref s (l, h) q = elim (Option-cases (find j s.cache)) [
    | inl missing ↦ ground arith
    | inr (e, f) ↦ ground (arith, none-find (points_to ref) j s.cache e h f)
  ]
