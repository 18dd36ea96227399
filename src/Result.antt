-- ===== src/Result.antt =====
-- Code that may panic: a result or the panic's message, and the arithmetic of the machine's integers.
-- The workspace (Cargo.toml) is built with `overflow-checks = true`, so arithmetic panics where it
-- leaves its type. An error is spelled like the source's message; `overflow`, `div_by_zero`,
-- `unwrap_none`, `index_out_of_bounds`, `unimplemented` and `unreachable` are Rust's own panics.
use sputnik_dao_contract.Base.{
  ℕ, ◌-◌, ◌/◌, ◌^◌, ◌≡◌, refl, ◌⊎◌, inl, inr, Option, none, some, ltb, leb, nat_beq, if◌then◌else◌,
}

pub data Error : Type 0 where
  overflow div_by_zero unwrap_none unimplemented unreachable index_out_of_bounds : Error
  private_method not_payable : Error
  err_no_proposal err_min_bond err_invalid_policy err_base_token_no_msg : Error
  err_staking_contract_cant_change err_invalid_staking_change err_permission_denied : Error
  err_wrong_action err_proposal_not_ready_for_vote err_already_voted : Error
  err_proposal_not_expired_or_failed err_proposal_not_in_progress : Error
  err_unexpected_callback_promises promise_not_ready : Error
  err_role_not_found err_missing_role : Error
  err_no_staking err_invalid_caller err_wrong_deposit err_not_registered : Error
  err_invalid_staking_contract : Error
  err_no_bounty err_bounty_wrong_bond err_bounty_all_claimed err_bounty_wrong_deadline : Error
  err_no_bounty_claims err_no_bounty_claim err_bounty_claim_completed : Error
  err_bounty_done_must_be_self : Error
  err_no_hash err_no_blob err_already_exists err_not_enough_deposit internal_fail : Error
  err_must_be_self_or_factory err_no_result err_no_input : Error
  no_user err_not_enough_storage err_not_enough_amount err_not_enough_time_passed : Error
  err_no_delegate err_not_enough_available_amount err_internal err_invalid_token : Error
  err_invalid_message err_callback_post_withdraw_invalid : Error
  err_deposit_less_than_min_storage err_storage_withdraw_too_much one_yocto_required : Error
  err_storage_unregister_not_empty : Error
  must_be_owner code_not_found contract_missing no_default_code must_be_updated_by_owner : Error
  not_created_by_factory wrong_factory code_hash_nonexist must_deposit_to_store : Error
  not_an_account_id no_callback_result : Error

pub data Result (A : Type 0) : Type 0 where
  ok : A → Result A
  err : Error → Result A

infixl 5 ◌>>=◌ ◌>>◌
abbrev pub ◌>>=◌ : {A B : Type 0} → Result A → (A → Result B) → Result B
err c >>= next = err c
ok a >>= next = next a

abbrev pub ◌>>◌ : {A B : Type 0} → Result A → Result B → Result B
m >> k = m >>= λ _. k

-- `expect`, `unwrap`
abbrev pub expect_or : {A : Type 0} → Option A → Error → Result A
expect_or none c = err c
expect_or (some a) c = ok a

abbrev pub u32_mod : ℕ
u32_mod = 2 ^ 32

abbrev pub u64_mod : ℕ
u64_mod = 2 ^ 64

abbrev pub u128_mod : ℕ
u128_mod = 2 ^ 128

-- A sum or a product that must stay below the bound of its type.
abbrev pub checked : ℕ → ℕ → Result ℕ
checked bound n = if ltb n bound then ok n else err overflow

abbrev pub checked_sub : ℕ → ℕ → Result ℕ
checked_sub a b = if leb b a then ok (a - b) else err overflow

abbrev pub checked_div : ℕ → ℕ → Result ℕ
checked_div a b = if nat_beq b 0 then err div_by_zero else ok (a / b)

pub Result-cases :
    {A : Type 0} (r : Result A) → ((a : A) × (r ≡ ok a)) ⊎ ((c : Error) × (r ≡ err c))
Result-cases (ok a) = inl (a, refl)
Result-cases (err c) = inr (c, refl)
