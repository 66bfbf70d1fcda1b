-- ===== src/Database/Users.antt =====
-- gormUserRepo of internal/database/repo_gorm.go, and FindUserByPlatformID of user_helpers.go.
use xraytool_go.Prelude.{
  ℕ, suc, Bool, true, false, ◌||◌, Option, none, some, List, [], ◌∷◌, ◌++◌, String, first, exists,
  update_where, ◌==◌, str_eq, if◌then◌else◌, ◌≡◌, arith, eq_iff,
}
use xraytool_go.Prelude.Int.{ℤ, pos, ◌+ℤ◌, ltb_ℤ, eqb_ℤ}
use xraytool_go.GoLib.{GoLib}
use xraytool_go.Result.{Result, ok, err, not_found, duplicate}
use xraytool_go.Domain.{User, Value, int_value, float_value, text_value, get_value}
use xraytool_go.Database.Tables.{
  Db, Faults, find_user, adjust_balance as adjust_balance_stmt, count_rewards, credit_referrer,
  create_reward, commit, statement, transaction, ◌>>=◌, ◌>>◌, pure,
}

abbrev found {ℓ} : {A : Type ℓ} → Option A → Result A
found none = err not_found
found (some a) = ok a

unfoldable pub find_by_id : Faults → String → Db → Result User × Db
find_by_id faults id db =
    statement (faults find_user) (found (first (λ u. str_eq u.id id) db.users), db) db

-- A metadata value as a number and as a text, the two ways that a telegram id is stored.
abbrev holds_number : GoLib → ℤ → Option Value → Bool
holds_number go n (some (int_value m)) = eqb_ℤ n m
holds_number go n (some (float_value x)) = eqb_ℤ n (go.int_of_float x)
holds_number go n _ = false

abbrev holds_text : String → Option Value → Bool
holds_text s (some (text_value t)) = str_eq t s
holds_text s _ = false

-- The telegram branch, called with the id as a number and as its decimal text.
unfoldable pub find_by_telegram_id : GoLib → Faults → ℤ → String → Db → Result User × Db
find_by_telegram_id go faults number id db =
    statement (faults find_user)
      (
        found (
            first
              (λ u.
                holds_number go number (get_value "telegram_id" u.metadata)
                || holds_text id (get_value "telegram_id" u.metadata))
              db.users),
        db,
      )
      db

-- The web branch: the address in the metadata, or the user name.
unfoldable pub find_by_web_id : Faults → String → Db → Result User × Db
find_by_web_id faults id db =
    statement (faults find_user)
      (
        found (
            first (λ u. holds_text id (get_value "email" u.metadata) || str_eq u.username id)
              db.users),
        db,
      )
      db

-- `CASE WHEN balance + ? < 0 THEN 0 ELSE balance + ? END`
unfoldable pub credited : ℤ → ℤ → ℤ
credited amount balance = if ltb_ℤ (balance +ℤ amount) (pos 0) then pos 0 else balance +ℤ amount

unfoldable pub adjust_balance : Faults → String → ℤ → Db → Result (Unit {0}) × Db
adjust_balance faults user_id amount db =
    statement (faults adjust_balance_stmt)
      (
        ok tt,
        record db {
          users =
              update_where (λ u. str_eq u.id user_id)
                (λ u. record u { balance = credited amount u.balance }) db.users;
        },
      )
      db

-- The balance that a user id has, if a row has that id.
abbrev pub balance_of : String → List User → Option ℤ
balance_of id [] = none
balance_of id (u ∷ us) = if str_eq u.id id then some u.balance else balance_of id us

abbrev pub rewarded : ℕ → Db → Bool
rewarded payment_id db = exists (λ r. r.payment_id == payment_id) db.rewards

insert_reward : Faults → String → String → ℕ → ℤ → Db → Result (Unit {0}) × Db
insert_reward faults referrer_id referred_id payment_id reward db =
    statement (faults create_reward)
      (if rewarded payment_id db then (err duplicate, db) else (
        ok tt,
        record db {
          rewards =
              db.rewards
              ++ record {
                id = db.next_reward;
                referrer_id = referrer_id;
                referred_id = referred_id;
                payment_id = payment_id;
                amount = reward;
              }
                ∷ [];
          next_reward = suc db.next_reward;
        },
      ))
      db

-- `UPDATE users SET balance = balance + ?`
credit : Faults → String → ℤ → Db → Result (Unit {0}) × Db
credit faults referrer_id reward db =
    statement (faults credit_referrer)
      (
        ok tt,
        record db {
          users =
              update_where (λ u. str_eq u.id referrer_id)
                (λ u. record u { balance = u.balance +ℤ reward }) db.users;
        },
      )
      db

count_for_payment : Faults → ℕ → Db → Result Bool × Db
count_for_payment faults payment_id db =
    statement (faults count_rewards) (ok (rewarded payment_id db), db) db

add_reward_body : Faults → String → String → ℕ → ℤ → Db → Result (Unit {0}) × Db
unfolding insert_reward credit count_for_payment
add_reward_body faults referrer_id referred_id payment_id reward = do
  known ← count_for_payment faults payment_id
  if known
      then pure tt
      else credit faults referrer_id reward
        >> insert_reward faults referrer_id referred_id payment_id reward

-- AddReferralReward: one transaction, which does nothing if the payment has been rewarded.
unfoldable pub add_referral_reward : Faults → String → String → ℕ → ℤ → Db → Result (Unit {0}) × Db
unfolding add_reward_body
add_referral_reward faults referrer_id referred_id payment_id reward =
    transaction (faults commit) (add_reward_body faults referrer_id referred_id payment_id reward)

-- A change of the balances of one id, seen through `balance_of`.
abbrev pub changed_balance : Bool → (ℤ → ℤ) → Option ℤ → Option ℤ
changed_balance true f (some b) = some (f b)
changed_balance _ f o = o

pub balance_of-update_where :
    (id j : String) (f : ℤ → ℤ) (us : List User)
    → balance_of j (update_where (λ u. str_eq u.id id) (λ u. record u { balance = f u.balance }) us)
      ≡ changed_balance (str_eq id j) f (balance_of j us)
balance_of-update_where id j f [] = ground arith
balance_of-update_where id j f (u ∷ us) =
    ground (arith, balance_of-update_where id j f us, eq_iff u.id id, eq_iff u.id j, eq_iff id j)
