-- ===== src/Antifraud/Enforcer/Unban.antt =====
-- analyzer.go: who comes back to the engine.
use xraytool_go.Prelude.{
  ℕ, Bool, false, ◌≡◌, refl, ◌⊎◌, String, arith, str_eq_sound, Bool-cases, inl, inr,
}
use xraytool_go.GoLib.{GoLib}
use xraytool_go.Result.{Result, ok, err, not_found}
use xraytool_go.Domain.{User, Subscription}
use xraytool_go.Antifraud.Enforcer.{
  Faults, Guard, Config, is_over, is_ineligible, discard_expired_ban, unban_user_of, try_unban,
  delete_by_email,
}

-- Who may come back: an active subscription that has not ended, of a user who is not blocked.
pub record IsEligible (now : ℕ) (r : Result Subscription) (find_by_id : String → Result User)
    : Type 0 where
  pub sub : Subscription
  pub user : User
  pub found : r ≡ ok sub
  pub owner : find_by_id sub.user_id ≡ ok user
  pub admitted : user.is_blocked ≡ false
  pub active : sub.status ≡ "active"
  pub running : is_over now sub.ends_at ≡ false

discard-calls :
    (lib : GoLib) (cfg : Config) (faults : Faults) (email : String) (g : Guard)
    → (discard_expired_ban lib cfg faults email g).calls ≡ g.calls
unfolding discard_expired_ban delete_by_email
discard-calls lib cfg faults email g = ground arith

eligible :
    (now : ℕ) (r : Result Subscription) (find_by_id : String → Result User) (sub : Subscription)
    (user : User)
    → r ≡ ok sub
    → find_by_id sub.user_id ≡ ok user
    → is_ineligible now sub user ≡ false
    → IsEligible now r find_by_id
eligible now r find_by_id sub user f o h = record {
  sub = sub;
  user = user;
  found = f;
  owner = o;
  admitted = ground arith;
  active = str_eq_sound sub.status "active" (ground arith);
  running = ground arith;
}

unban_user_of-IsEligible :
    (lib : GoLib) (cfg : Config) (faults : Faults) (unban_fails : String → Bool) (now : ℕ)
    (email : String) (sub : Subscription) (find_by_id : String → Result User) (u : Result User)
    (g : Guard)
    → find_by_id sub.user_id ≡ u
    → ((unban_user_of lib cfg faults unban_fails now email sub u g).calls ≡ g.calls)
      ⊎ IsEligible now (ok sub) find_by_id
unban_user_of-IsEligible lib cfg faults unban_fails now email sub find_by_id (ok user) g o =
    elim (Bool-cases (is_ineligible now sub user)) [
      | inl no_more ↦
          let unchanged : (unban_user_of lib cfg faults unban_fails now email sub (ok user) g).calls
              ≡ g.calls =
            rw no_more (discard-calls lib cfg faults email g) in
          inl unchanged
      | inr fine ↦ inr (eligible now (ok sub) find_by_id sub user refl o fine)
    ]
unban_user_of-IsEligible lib cfg faults unban_fails now email sub find_by_id (err not_found) g o =
    inl (discard-calls lib cfg faults email g)
unban_user_of-IsEligible lib cfg faults unban_fails now email sub find_by_id (err _) g o = inl refl

-- No ghost comes back: ending a ban makes no call of the engine and sends no command, whatever fails,
-- unless the address has a subscription that is active and has not ended, of a user who is there and
-- is not blocked.
pub try_unban-IsEligible :
    (lib : GoLib) (cfg : Config) (faults : Faults) (unban_fails : String → Bool) (now : ℕ)
    (r : Result Subscription) (find_by_id : String → Result User) (email : String) (g : Guard)
    → ((try_unban lib cfg faults unban_fails now r find_by_id email g).calls ≡ g.calls)
      ⊎ IsEligible now r find_by_id
unfolding try_unban
try_unban-IsEligible lib cfg faults unban_fails now (ok sub) find_by_id email g =
    unban_user_of-IsEligible lib cfg faults unban_fails now email sub find_by_id
      (find_by_id sub.user_id) g refl
try_unban-IsEligible lib cfg faults unban_fails now (err not_found) find_by_id email g =
    inl (discard-calls lib cfg faults email g)
try_unban-IsEligible lib cfg faults unban_fails now (err _) find_by_id email g = inl refl
