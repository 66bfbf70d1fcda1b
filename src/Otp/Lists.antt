-- ===== src/Otp/Lists.antt =====
-- The keys and the entries of the cache under removal, eviction and writing.
use xraytool_go.Prelude.{
  ◌≤◌, ◌+◌, ◌-◌, Bool, true, false, ◌&&◌, not, ◌≡◌, refl, none, some, List, [], ◌∷◌, String, arith,
  exists, length, str_eq, eq_iff, Bool-cases, inl, inr, first,
}
use xraytool_go.Otp.{OtpElement, is_for, has_key, without_key, removed, last, drop_last}

-- No two entries have one identifier.
abbrev pub IsDistinct : List OtpElement → Type 0
IsDistinct [] = Unit
IsDistinct (e ∷ es) = (exists (is_for e.identifier) es ≡ false) × IsDistinct es

pub has_key-without_key :
    (i j : String) (ks : List String)
    → has_key j (without_key i ks) ≡ (has_key j ks && not (str_eq i j))
has_key-without_key i j [] = refl
has_key-without_key i j (k ∷ ks) =
    ground (arith, has_key-without_key i j ks, eq_iff i j, eq_iff i k, eq_iff j k)

pub exists-removed :
    (i j : String) (es : List OtpElement)
    → exists (is_for j) (removed i es) ≡ (exists (is_for j) es && not (str_eq i j))
exists-removed i j [] = refl
exists-removed i j (e ∷ es) =
    ground (arith, exists-removed i j es, eq_iff i j, eq_iff e.identifier i, eq_iff e.identifier j)

pub length-removed_le : (i : String) (es : List OtpElement) → length (removed i es) ≤ length es
length-removed_le i [] = omega arith
length-removed_le i (e ∷ es) = ground (arith, length-removed_le i es)

pub length-removed :
    (i : String) (es : List OtpElement)
    → exists (is_for i) es ≡ true
    → length (removed i es) + 1 ≤ length es
length-removed i [] h = cc
length-removed i (e ∷ es) h = elim (Bool-cases (exists (is_for i) es)) [
  | inl more ↦ ground (arith, length-removed i es more)
  | inr no_more ↦ ground (arith, length-removed_le i es)
]

pub IsDistinct-removed :
    (i : String) (es : List OtpElement) → IsDistinct es → IsDistinct (removed i es)
IsDistinct-removed i [] h = tt
IsDistinct-removed i (e ∷ es) h = elim (Bool-cases (is_for i e)) [
  | inl gone ↦ rw gone (IsDistinct-removed i es h.1)
  | inr stays ↦
      rw stays (ground (arith, exists-removed i e.identifier es, h.0), IsDistinct-removed i es h.1)
]

exists-last :
    (es : List OtpElement) (e : OtpElement)
    → last es ≡ some e
    → exists (is_for e.identifier) es ≡ true
exists-last [] e h = cc
exists-last (x ∷ []) e h = ground (arith, eq_iff e.identifier e.identifier)
exists-last (x ∷ y ∷ es) e h = ground (arith, exists-last (y ∷ es) e h)

pub exists-drop_last :
    (j : String) (es : List OtpElement) (e : OtpElement)
    → IsDistinct es
    → last es ≡ some e
    → exists (is_for j) (drop_last es) ≡ (exists (is_for j) es && not (str_eq e.identifier j))
exists-drop_last j [] e d h = cc
exists-drop_last j (x ∷ []) e d h = ground arith
exists-drop_last j (x ∷ y ∷ es) e d h = ground (
  arith,
  exists-drop_last j (y ∷ es) e d.1 h,
  exists-last (y ∷ es) e h,
  eq_iff e.identifier j,
  eq_iff x.identifier j,
  d.0,
)

pub none-drop_last :
    (p : OtpElement → Bool) (es : List OtpElement)
    → exists p es ≡ false
    → exists p (drop_last es) ≡ false
none-drop_last p [] h = refl
none-drop_last p (x ∷ []) h = refl
none-drop_last p (x ∷ y ∷ es) h = ground (arith, none-drop_last p (y ∷ es))

pub IsDistinct-drop_last : (es : List OtpElement) → IsDistinct es → IsDistinct (drop_last es)
IsDistinct-drop_last [] d = tt
IsDistinct-drop_last (x ∷ []) d = tt
IsDistinct-drop_last (x ∷ y ∷ es) d =
    (none-drop_last (is_for x.identifier) (y ∷ es) d.0, IsDistinct-drop_last (y ∷ es) d.1)

pub length-drop_last : (es : List OtpElement) → length (drop_last es) ≤ length es - 1
length-drop_last [] = omega arith
length-drop_last (x ∷ []) = omega arith
length-drop_last (x ∷ y ∷ es) = omega (arith, length-drop_last (y ∷ es))

pub last-none : (es : List OtpElement) → last es ≡ none → length es ≡ 0
last-none [] h = refl
last-none (x ∷ []) h = cc
last-none (x ∷ y ∷ es) h = ground (arith, last-none (y ∷ es) h)

pub none_found :
    (p : OtpElement → Bool) (es : List OtpElement) → first p es ≡ none → exists p es ≡ false
none_found p [] h = refl
none_found p (x ∷ es) h = ground (arith, none_found p es)
