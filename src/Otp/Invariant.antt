-- ===== src/Otp/Invariant.antt =====
-- auth_cache.go: a valid cache under the operations on its entries.
use xraytool_go.Prelude.{
  ℕ, ◌≤◌, ◌+◌, true, false, ◌≡◌, none, some, String, arith, exists, length, eq_iff, Bool-cases,
  Option-cases, inl, inr, first, first_sound, exists-first, str_eq_sound, leb,
}
use xraytool_go.Otp.{
  OtpElement, OtpLruCache, is_for, has_key, last, find, touch, evict, push, get_or_create, get,
  delete,
}
use xraytool_go.Otp.Lists.{
  IsDistinct, has_key-without_key, exists-removed, length-removed, IsDistinct-removed,
  exists-drop_last, IsDistinct-drop_last, length-drop_last, length-removed_le, last-none,
  none_found,
}

-- A cache within its size, whose keys are the identifiers of its entries, each of one entry.
pub record IsValid (c : OtpLruCache) : Type 0 where
  pub sized : 1 ≤ c.max_size
  pub bounded : length c.order ≤ c.max_size
  pub synced : (j : String) → has_key j c.items ≡ exists (is_for j) c.order
  pub distinct : IsDistinct c.order

pub find-is_for :
    (i : String) (c : OtpLruCache) {e : OtpElement}
    → find i c ≡ some e
    → (e.identifier ≡ i) × (exists (is_for e.identifier) c.order ≡ true)
find-is_for i c {e} h =
    let found : first (is_for i) c.order ≡ some e = ground arith in
    let same : e.identifier ≡ i =
      str_eq_sound e.identifier i (first_sound (is_for i) c.order found) in
    (same, rw same (exists-first (is_for i) c.order found))

touch-IsValid :
    (e : OtpElement) (c : OtpLruCache)
    → exists (is_for e.identifier) c.order ≡ true
    → IsValid c
    → IsValid (touch e c)
touch-IsValid e c h v = record {
  sized = v.sized;
  bounded = omega (arith, length-removed e.identifier c.order h, v.bounded);
  synced = λ j.
      ground (arith, v.synced j, exists-removed e.identifier j c.order, eq_iff e.identifier j, h);
  distinct = (
    ground
        (arith, exists-removed e.identifier e.identifier c.order, eq_iff e.identifier e.identifier),
    IsDistinct-removed e.identifier c.order v.distinct,
  );
}

pub get-IsValid : (i : String) (c : OtpLruCache) → IsValid c → IsValid (get i c).1
unfolding get
get-IsValid i c v = elim (Option-cases (find i c)) [
  | inl missing ↦ (rw missing v)
  | inr (e, h) ↦ (rw h (touch-IsValid e c (find-is_for i c h).1 v))
]

pub delete-IsValid : (i : String) (c : OtpLruCache) → IsValid c → IsValid (delete i c)
unfolding delete
delete-IsValid i c v = elim (Bool-cases (has_key i c.items)) [
  | inl present ↦
      (rw present (record {
        sized = v.sized;
        bounded = omega (arith, length-removed_le i c.order, v.bounded);
        synced = λ j.
            ground (arith, v.synced j, exists-removed i j c.order, has_key-without_key i j c.items);
        distinct = IsDistinct-removed i c.order v.distinct;
      }))
  | inr missing ↦ (rw missing v)
]

-- There is room for one more entry.
record HasRoom (i : String) (c : OtpLruCache) : Type 0 where
  room : length c.order + 1 ≤ c.max_size
  synced : (j : String) → has_key j c.items ≡ exists (is_for j) c.order
  distinct : IsDistinct c.order
  missing : exists (is_for i) c.order ≡ false

evict-HasRoom :
    (i : String) (c : OtpLruCache)
    → IsValid c
    → exists (is_for i) c.order ≡ false
    → HasRoom i (evict c)
unfolding evict
evict-HasRoom i c v m = elim (Bool-cases (leb c.max_size (length c.order))) [
  | inr has_room ↦
      rw has_room
        (record { room = ground arith; synced = v.synced; distinct = v.distinct; missing = m })
  | inl full ↦ rw full (elim (Option-cases (last c.order)) [
    | inl empty ↦ absurd (ground (arith, last-none c.order empty, v.sized))
    | inr (e, h) ↦ rw h (record {
      room = omega (arith, length-drop_last c.order, v.bounded, v.sized);
      synced = λ j. ground (
        arith,
        v.synced j,
        exists-drop_last j c.order e v.distinct h,
        has_key-without_key e.identifier j c.items,
      );
      distinct = IsDistinct-drop_last c.order v.distinct;
      missing = ground (arith, exists-drop_last i c.order e v.distinct h);
    })
  ])
]

push-IsValid : (e : OtpElement) (c : OtpLruCache) → HasRoom e.identifier c → IsValid (push e c)
push-IsValid e c r = record {
  sized = omega (arith, r.room);
  bounded = omega (arith, r.room);
  synced = λ j. ground (arith, r.synced j, eq_iff e.identifier j, eq_iff j e.identifier);
  distinct = (r.missing, r.distinct);
}

find-missing :
    (i : String) (c : OtpLruCache) → IsValid c → find i c ≡ none → exists (is_for i) c.order ≡ false
find-missing i c v h = ground (arith, v.synced i, none_found (is_for i) c.order)

pub get_or_create-IsValid :
    (i : String) (ref : ℕ) (c : OtpLruCache) → IsValid c → IsValid (get_or_create i ref c).1
unfolding get_or_create
get_or_create-IsValid i ref c v = elim (Option-cases (find i c)) [
  | inl missing ↦ rw missing (
      push-IsValid (record { identifier = i; ref = ref }) (evict c)
        (evict-HasRoom i c v (find-missing i c v missing)))
  | inr (e, h) ↦ rw h (touch-IsValid e c (find-is_for i c h).1 v)
]
