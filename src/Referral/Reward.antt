-- ===== src/Referral/Reward.antt =====
-- AddReferralReward of internal/database/repo_gorm.go: the reward of a payment.
use xraytool_go.Prelude.{ℕ, true, false, ◌≡◌, String, arith, exists-append_last, str_eq, ◌==◌}
use xraytool_go.Prelude.Int.{ℤ, ◌+ℤ◌}
use xraytool_go.Result.{ok}
use xraytool_go.Domain.{ReferralReward}
use xraytool_go.Database.{Db, Faults}
use xraytool_go.Database.Users.{
  add_referral_reward, rewarded, balance_of, changed_balance, balance_of-update_where,
}

-- A payment that has its reward: another call changes nothing.
pub again :
    (faults : Faults) (referrer referred : String) (id : ℕ) (reward : ℤ) (db : Db)
    → rewarded id db ≡ true
    → (add_referral_reward faults referrer referred id reward db).1 ≡ db
unfolding add_referral_reward
again faults referrer referred id reward db h = ground arith

module _ (faults : Faults) (referrer referred : String) (id : ℕ) (reward : ℤ) (db : Db) where
  rewarded_after :
      (add_referral_reward faults referrer referred id reward db).0 ≡ ok tt
      → rewarded id (add_referral_reward faults referrer referred id reward db).1 ≡ true
  unfolding add_referral_reward
  rewarded_after h = ground (
    arith,
    exists-append_last (λ r. r.payment_id == id) db.rewards (row db.next_reward) (ground arith),
  )
    where
      row : ℕ → ReferralReward
      row n = record {
        id = n;
        referrer_id = referrer;
        referred_id = referred;
        payment_id = id;
        amount = reward;
      }

  credited_after :
      (u : String)
      → rewarded id db ≡ false
      → (add_referral_reward faults referrer referred id reward db).0 ≡ ok tt
      → balance_of u (add_referral_reward faults referrer referred id reward db).1.users
        ≡ changed_balance (str_eq referrer u) (λ b. b +ℤ reward) (balance_of u db.users)
  unfolding add_referral_reward
  credited_after u n h =
      ground (arith, balance_of-update_where referrer u (λ b. b +ℤ reward) db.users)

-- A call without an error adds the reward to the referrer's balance and to no other, once: a later
-- call for the same payment, by whatever users and reward, changes nothing.
pub reward_once :
    (faults faults' : Faults) (referrer referred referrer' referred' u : String) (id : ℕ)
    (reward reward' : ℤ) (db : Db)
    → rewarded id db ≡ false
    → let r = add_referral_reward faults referrer referred id reward db in
      r.0 ≡ ok tt
      → (balance_of u r.1.users
          ≡ changed_balance (str_eq referrer u) (λ b. b +ℤ reward) (balance_of u db.users))
        × ((add_referral_reward faults' referrer' referred' id reward' r.1).1 ≡ r.1)
reward_once faults faults' referrer referred referrer' referred' u id reward reward' db n h = (
  credited_after faults referrer referred id reward db u n h,
  again faults' referrer' referred' id reward' _
      (rewarded_after faults referrer referred id reward db h),
)
