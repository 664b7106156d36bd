-- ===== src/Auth/Inversion.antt =====
-- routes/auth.ts: what the two transactions on refresh tokens have done when they commit.
use identity_platform.Prelude.{
  ℕ, Bool, true, false, ◌||◌, some, ◌≡◌, ◌⊎◌, inl, inr, [], ◌∷◌, ◌++◌, update, any, ◌==◌, arith,
  Bool-cases, Option-cases,
}
use identity_platform.Schema.{retry, RefreshToken, Store}
use identity_platform.Schema.Inserts.{NewRefreshToken, insert_refresh_token, refresh_token_row}
use identity_platform.Exec.{Env}
use identity_platform.Auth.Rotation.{
  replace_successor, rotate_token, replaceable, by_id, is_unused_successor, is_consumable, rotate,
  revoke, set_tokens,
}

pub insert_refresh_token_cases :
    (new : NewRefreshToken) (time : ℕ) (st : Store) (x : Unit {0}) (st' : Store)
    → insert_refresh_token new time st ≡ some (x, st')
    → (any (λ r. r.id == new.id || r.token_hash == new.token_hash) st.refresh_tokens ≡ false)
      × (st' ≡ set_tokens (st.refresh_tokens ++ refresh_token_row new time ∷ []) st)
unfolding insert_refresh_token
insert_refresh_token_cases new time st x st' e = ground arith

-- Consumed and inserted, or nothing was there to consume.
pub rotate_token_cases :
    (id operation_hash time : ℕ) (new : NewRefreshToken) (insert_time : ℕ) (st : Store) (b : Bool)
    (st' : Store)
    → rotate_token id operation_hash time new insert_time st ≡ some (b, st')
    → ((b ≡ false) × (st' ≡ st) × (any (is_consumable id time) st.refresh_tokens ≡ false))
      ⊎ ((b ≡ true)
          × (any (is_consumable id time) st.refresh_tokens ≡ true)
          × (any
                (λ r. r.id == new.id || r.token_hash == new.token_hash)
                (update
                  (is_consumable id time)
                  (rotate operation_hash time new.id)
                  st.refresh_tokens)
              ≡ false)
          × (st'
              ≡ set_tokens
                  (update
                      (is_consumable id time)
                      (rotate operation_hash time new.id)
                      st.refresh_tokens
                    ++ refresh_token_row new insert_time ∷ [])
                  st))
unfolding rotate_token insert_refresh_token
rotate_token_cases id operation_hash time new insert_time st b st' e =
    elim (Bool-cases (any (is_consumable id time) st.refresh_tokens)) [
      | inl hit ↦ inr (ground arith, hit, ground arith, ground arith)
      | inr miss ↦ inl (ground arith, ground arith, miss)
    ]

-- The successor that was replaced, and the tokens after it; or nothing was replaced.
pub replace_successor_cases :
    (env : Env) (user_id id operation_hash : ℕ) (new : NewRefreshToken) (time : ℕ) (st : Store)
    (b : Bool) (st' : Store)
    → replace_successor env user_id id operation_hash new time st ≡ some (b, st')
    → ((b ≡ false) × (st' ≡ st))
      ⊎ ((b ≡ true)
          × ((predecessor : RefreshToken) × (successor_id : ℕ) × (by_id id st ≡ some predecessor)
              × (replaceable env operation_hash time predecessor ≡ some successor_id)
              × (any (is_unused_successor successor_id user_id time) st.refresh_tokens ≡ true)
              × (any
                    (λ r. r.id == new.id || r.token_hash == new.token_hash)
                    (update
                      (is_unused_successor successor_id user_id time)
                      (revoke retry)
                      st.refresh_tokens)
                  ≡ false)
              × (st'
                  ≡ set_tokens
                      (update
                        (λ t. t.id == id)
                        (λ t. record t { replaced_by_token_id = some new.id })
                        (update
                            (is_unused_successor successor_id user_id time)
                            (revoke retry)
                            st.refresh_tokens
                          ++ refresh_token_row new time ∷ []))
                      st)))
unfolding replace_successor insert_refresh_token
replace_successor_cases env user_id id operation_hash new time st b st' e =
    elim (Option-cases (by_id id st)) [
      | inl missing ↦ inl (ground arith)
      | inr (p, found) ↦ elim (Option-cases (replaceable env operation_hash time p)) [
        | inl refused ↦ inl (ground arith)
        | inr (s, ok) ↦
            elim (Bool-cases (any (is_unused_successor s user_id time) st.refresh_tokens)) [
              | inl hit ↦ inr (ground arith, (p, s, found, ok, hit, ground arith, ground arith))
              | inr miss ↦ inl (ground arith)
            ]
      ]
    ]
