-- ===== src/Antifraud/Window.antt =====
-- state.go: the pruned addresses against a record of all that was seen.
use xraytool_go.Prelude.{
  ℕ, ◌≤◌, not, ◌≡◌, refl, sym, ap, ◌∙◌, Option, none, some, List, [], ◌∷◌, map, String, arith,
  length, ltb, str_eq, if◌then◌else◌, Bool-cases, inl, inr, str_eq_sound,
}
use xraytool_go.Prelude.Count.{count, length_le}
use xraytool_go.Prelude.Dict.{
  lookup, occurs, IsDict, kept_if, lookup-erase, insert-IsDict, lookup-keep, occurs-keep, has,
  occurs-lookup,
}
use xraytool_go.Antifraud.{Ips, State, is_newer, see, is_stale, fresh, add_hashed_event, clean}

-- An observation of a hashed address, or a run of the cleaner.
pub data Op : Type 0 where
  saw : String → String → ℕ → Op
  cleaned : ℕ → Op

abbrev pub time_of : Op → ℕ
time_of (saw email ip now) = now
time_of (cleaned now) = now

abbrev pub apply : ℕ → Op → State → State
apply ttl (saw email ip now) s = (add_hashed_event email ip ttl now s).1
apply ttl (cleaned now) s = clean ttl now s

-- The operations in a list, the first one first.
abbrev pub run : ℕ → List Op → State → State
run ttl [] s = s
run ttl (o ∷ os) s = run ttl os (apply ttl o s)

-- All that was seen of a user, and never pruned: each address with its latest observation.
abbrev pub record_op : String → Op → Ips → Ips
record_op email (saw e ip now) ips =
    if str_eq ip "" then ips else (if str_eq e email then see ip now ips else ips)
record_op email (cleaned now) ips = ips

abbrev pub recorded : String → List Op → Ips → Ips
recorded email [] ips = ips
recorded email (o ∷ os) ips = recorded email os (record_op email o ips)

-- What a query at the time `n` sees of an address.
abbrev pub visible : ℕ → ℕ → Option ℕ → Option ℕ
visible ttl n = kept_if (λ t. not (is_stale ttl n t))

-- Two maps without repeated keys in which a query at the time `n` sees the same.
pub record Agree (ttl n : ℕ) (c r : Ips) : Type 0 where
  pub left : IsDict c
  pub right : IsDict r
  pub same : (ip : String) → visible ttl n (lookup ip c) ≡ visible ttl n (lookup ip r)

abbrev latest : ℕ → Option ℕ → ℕ
latest now none = now
latest now (some t) = if ltb t now then now else t

lookup-see :
    (ip k : String) (now : ℕ) (d : Ips)
    → lookup k (see ip now d) ≡ (if str_eq ip k then some (latest now (lookup k d)) else lookup k d)
lookup-see ip k now d = elim (Bool-cases (str_eq ip k)) [
  | inl e ↦
      let same : lookup ip d ≡ lookup k d = ap (λ (x : String). lookup x d) (str_eq_sound ip k e) in
      ground (arith, lookup-erase ip k d)
  | inr e ↦ ground (arith, lookup-erase ip k d)
]

see-IsDict : (ip : String) (now : ℕ) (d : Ips) → IsDict d → IsDict (see ip now d)
see-IsDict ip now d h = elim (Bool-cases (is_newer now (lookup ip d))) [
  | inl e ↦ rw e (insert-IsDict ip now d h)
  | inr e ↦ rw e h
]

fresh-IsDict : (ttl now : ℕ) (d : Ips) → IsDict d → IsDict (fresh ttl now d)
fresh-IsDict ttl now d h k =
    omega (arith, h k, occurs-keep (λ (t : ℕ). not (is_stale ttl now t)) k d)

-- Seeing an address keeps the agreement, at any time.
latest-visible :
    (ttl n now : ℕ) (a b : Option ℕ)
    → visible ttl n a ≡ visible ttl n b
    → visible ttl n (some (latest now a)) ≡ visible ttl n (some (latest now b))
latest-visible ttl n now none none h = refl
latest-visible ttl n now none (some b) h = ground arith
latest-visible ttl n now (some a) none h = ground arith
latest-visible ttl n now (some a) (some b) h = ground arith

pub see-Agree :
    (ttl n : ℕ) (ip : String) (now : ℕ) (c r : Ips)
    → Agree ttl n c r
    → Agree ttl n (see ip now c) (see ip now r)
see-Agree ttl n ip now c r h = record {
  left = see-IsDict ip now c h.left;
  right = see-IsDict ip now r h.right;
  same = λ k.
      rw (lookup-see ip k now c, lookup-see ip k now r)
        (elim (Bool-cases (str_eq ip k)) [
          | inl e ↦ rw e (latest-visible ttl n now (lookup k c) (lookup k r) (h.same k))
          | inr e ↦ rw e (h.same k)
        ]);
}

-- Pruning by an earlier time is not seen.
pruned-visible :
    (ttl n now : ℕ) (o : Option ℕ)
    → now ≤ n
    → visible ttl n (kept_if (λ t. not (is_stale ttl now t)) o) ≡ visible ttl n o
pruned-visible ttl n now none l = refl
pruned-visible ttl n now (some t) l = ground arith

pub fresh-Agree :
    (ttl n now : ℕ) (c r : Ips) → now ≤ n → Agree ttl n c r → Agree ttl n (fresh ttl now c) r
fresh-Agree ttl n now c r l h = record {
  left = fresh-IsDict ttl now c h.left;
  right = h.right;
  same = λ k.
      ap (visible ttl n) (lookup-keep (λ (t : ℕ). not (is_stale ttl now t)) k c h.left)
      ∙ pruned-visible ttl n now (lookup k c) l
      ∙ h.same k;
}

abbrev keys : Ips → List String
keys = map (λ e. e.0)

count-keys : (k : String) (d : Ips) → count k (keys d) ≡ occurs k d
count-keys k [] = refl
count-keys k ((j, t) ∷ d) = omega (arith, count-keys k d)

length-keys : (d : Ips) → length (keys d) ≡ length d
length-keys [] = refl
length-keys (e ∷ d) = omega (arith, length-keys d)

-- As many addresses are in the window of the one as of the other.
pub Agree-length :
    (ttl n : ℕ) (c r : Ips) → Agree ttl n c r → length (fresh ttl n c) ≡ length (fresh ttl n r)
Agree-length ttl n c r h =
    let p = λ (t : ℕ). not (is_stale ttl n t) in
    let same : (k : String) → count k (keys (fresh ttl n c)) ≡ count k (keys (fresh ttl n r)) = λ k.
      count-keys k (fresh ttl n c)
      ∙ occurs-lookup k (fresh ttl n c) (fresh-IsDict ttl n c h.left)
      ∙ ap has (lookup-keep p k c h.left ∙ h.same k ∙ sym (lookup-keep p k r h.right))
      ∙ sym (occurs-lookup k (fresh ttl n r) (fresh-IsDict ttl n r h.right))
      ∙ sym (count-keys k (fresh ttl n r)) in
    omega (
      arith,
      length-keys (fresh ttl n c),
      length-keys (fresh ttl n r),
      length_le (keys (fresh ttl n c)) (keys (fresh ttl n r)) (λ k. omega (arith, same k)),
      length_le (keys (fresh ttl n r)) (keys (fresh ttl n c)) (λ k. omega (arith, same k)),
    )
