-- ===== src/PluginHost/Graph/Kahn.antt =====
-- host.go: the loop of `Graph`.
use xraytool_go.Prelude.{
  ℕ, suc, ◌+◌, ◌-◌, ◌≤◌, ◌<◌, ◌==◌, ◌&&◌, ◌≡◌, ap, ◌∙◌, List, [], ◌∷◌, ◌++◌, String, arith, str_eq,
  str_eq_refl, str_eq_sound, if◌then◌else◌, Bool-cases, inl, inr, leb,
}
use xraytool_go.Prelude.Int.{ℤ, pos, ◌-ℤ◌, eqb_ℤ}
use xraytool_go.PluginHost.Graph.{release, update}
use xraytool_go.PluginHost.Graph.Names.{count, count-append}

-- Whether a plugin becomes ready when it waited `k` times and `n` of them are over.
abbrev pub gain : ℕ → ℕ → ℕ
gain n k = if leb 1 n && k == n then 1 else 0

pred_ℤ : (n : ℕ) → pos (suc n) -ℤ pos 1 ≡ pos n
unfolding ◌-ℤ◌
pred_ℤ n = ground arith

pred_pos : (k : ℕ) → 0 < k → pos k -ℤ pos 1 ≡ pos (k - 1)
unfolding ◌-ℤ◌
pred_pos k h = ground arith

abbrev lowered : String → (String → ℕ) → String → ℕ
lowered x k c = if str_eq x c then k c - 1 else k c

-- Each consumer's count falls by its occurrences, and it is ready once when that leaves 0.
pub release_lem :
    (cs : List String) (degree : String → ℤ) (k : String → ℕ) (ready : List String)
    → ((c : String) → degree c ≡ pos (k c))
    → ((c : String) → count c cs ≤ k c)
    → (c : String)
    → ((release cs degree ready).1 c ≡ pos (k c - count c cs))
      × (count c (release cs degree ready).0 ≡ count c ready + gain (count c cs) (k c))
release_lem [] degree k ready d h c = ground (arith, d c)
release_lem (x ∷ cs) degree k ready d h c =
    let at_x : 0 < k x = ground (arith, h x, str_eq_refl x) in
    let less : degree x -ℤ pos 1 ≡ pos (k x - 1) = rw (d x) (pred_pos (k x) at_x) in
    let degree' = update degree x (degree x -ℤ pos 1) in
    let ready' = if eqb_ℤ (degree x -ℤ pos 1) (pos 0) then ready ++ x ∷ [] else ready in
    let d' : (c : String) → degree' c ≡ pos (lowered x k c) =
      λ c. lowered_lem x c degree k less (d c) in
    let h' : (c : String) → count c cs ≤ lowered x k c = λ c. ground (arith, h c) in
    let rest = release_lem cs degree' (lowered x k) ready' d' h' c in
    let more : count c ready' ≡ count c ready + (if str_eq x c && (k x == 1) then 1 else 0) =
      ground (arith, less, count-append c ready (x ∷ [])) in
    elim (Bool-cases (str_eq x c)) [
      | inl e ↦
          let same : x ≡ c = str_eq_sound x c e in
          let here : k x ≡ k c = ap k same in
          (ground (arith, rest.0), ground (arith, rest.1, more, h c))
      | inr e ↦ (ground (arith, rest.0), ground (arith, rest.1, more))
    ]
  where
    lowered_lem :
        (x c : String) (degree : String → ℤ) (k : String → ℕ)
        → degree x -ℤ pos 1 ≡ pos (k x - 1)
        → degree c ≡ pos (k c)
        → update degree x (degree x -ℤ pos 1) c ≡ pos (lowered x k c)
    lowered_lem x c degree k less d = elim (Bool-cases (str_eq x c)) [
      | inl e ↦
          let same : x ≡ c = str_eq_sound x c e in
          let here : k x ≡ k c = ap k same in rw e (less ∙ ap (λ (n : ℕ). pos (n - 1)) here)
      | inr e ↦ rw e d
    ]
