-- ===== src/Minicontrol/Client/Replies.antt =====
-- How `doLimited` and the tests on errors classify what the server answers.
use mini_control_action.Prelude.{
  take_all, ℕ, ◌+◌, ◌≤◌, ◌<◌, ◌≡◌, ◌≢◌, refl, sym, ap, some, [], ◌∷◌, ltb, ◌↔◌, ◌⊎◌, inl, inr,
  Bool-cases, ◌==◌, Option, none, Text, length, take, arith,
}
use mini_control_action.Errors.{ApiError, api, ok, err}
use mini_control_action.Minicontrol.{is_not_found}
use mini_control_action.Minicontrol.Client.{
  forgive, accept, decoded, Decoders, Request, Outcome, delete_request, delete_vm, default_limit,
  replied, Reply, ErrorBody, interpret, is_2xx, api_error,
}

decoded_not_api : {A : Type 0} (o : Option A) (e : ApiError) → decoded o ≢ err (api e)
decoded_not_api none e = λ h. absurd (cc)
decoded_not_api (some a) e = λ h. absurd (cc)

accept_not_api :
    {A : Type 0} (zero_value : A) (decode : Option (Text → Option A)) (content : Text)
    (e : ApiError)
    → accept zero_value decode content ≢ err (api e)
accept_not_api zero_value none content e = λ h. absurd (cc)
accept_not_api zero_value (some decode) [] e = λ h. absurd (cc)
accept_not_api zero_value (some decode) (c ∷ content) e = decoded_not_api (decode (c ∷ content)) e

-- The status says that the call has failed.
abbrev pub IsFailure : Reply → Type 0
IsFailure r = (r.status < 200) ⊎ (300 ≤ r.status)

module _ {A : Type 0} (decode_error : Text → Option ErrorBody) (max_body : ℕ) (zero_value : A)
    (decode : Option (Text → Option A)) (r : Reply) where
  -- A reply becomes an API error only if its status is outside 200-299, and the error carries that
  -- status; and it does become one if its body is within the limit.
  pub interpret-IsFailure :
      ((e : ApiError)
        → interpret decode_error max_body zero_value decode (replied r) ≡ err (api e)
        → IsFailure r × (e.status ≡ r.status))
      × (length r.content ≤ max_body
          → IsFailure r
          → (e : ApiError) × (interpret decode_error max_body zero_value decode (replied r)
              ≡ err (api e))
            × (e.status ≡ r.status))
  unfolding interpret api_error is_2xx
  interpret-IsFailure = (only_failures, failures)
    where
      only_failures :
          (e : ApiError)
          → interpret decode_error max_body zero_value decode (replied r) ≡ err (api e)
          → IsFailure r × (e.status ≡ r.status)
      only_failures e h =
          elim (Bool-cases (ltb max_body (length (take (max_body + 1) r.content)))) [
            | inl big ↦ absurd (ground (arith, big))
            | inr small ↦ elim (Bool-cases (is_2xx r.status)) [
              | inl good ↦ absurd (
                  accept_not_api zero_value decode (take (max_body + 1) r.content) e (ground arith))
              | inr bad ↦
                  let same : api_error decode_error (take (max_body + 1) r.content) r ≡ e =
                    ground arith in
                  (ground arith, ap (λ (x : ApiError). x.status) (sym same))
            ]
          ]

      failures :
          length r.content ≤ max_body
          → IsFailure r
          → (e : ApiError) × (interpret decode_error max_body zero_value decode (replied r)
              ≡ err (api e))
            × (e.status ≡ r.status)
      failures small bad =
          let whole : take (max_body + 1) r.content ≡ r.content =
            take_all (max_body + 1) r.content (omega arith) in
          (api_error decode_error r.content r, ground (arith, whole), refl)

forgive_iff :
    (decode_error : Text → Option ErrorBody) (max_body : ℕ) (r : Reply)
    → length r.content ≤ max_body
    → (forgive (interpret decode_error max_body tt none (replied r)) ≡ ok tt)
      ↔ (((200 ≤ r.status) × (r.status < 300)) ⊎ (r.status ≡ 404))
unfolding interpret is_not_found api_error is_2xx
forgive_iff decode_error max_body r small =
    let whole : take (max_body + 1) r.content ≡ r.content =
      take_all (max_body + 1) r.content (omega arith) in
    elim (Bool-cases (is_2xx r.status)) [
      | inl e ↦ (λ h. inl (ground arith, ground arith), λ h. ground (arith, whole))
      | inr e ↦ elim (Bool-cases (r.status == 404)) [
        | inl f ↦ (λ h. inr (ground arith), λ h. ground (arith, whole))
        | inr f ↦ (λ h. absurd (ground (arith, whole)), λ h. absurd (ground arith))
      ]
    ]

-- When the server has answered, within the limit of 4 MiB, `DeleteVM` reports success exactly for a
-- status of 200-299 and for 404: the VM is gone or was gone already.
pub delete_vm_ok_iff :
    (json : Decoders) (send : Request → Outcome) (id : Text) (r : Reply)
    → send (delete_request id) ≡ replied r
    → length r.content ≤ default_limit
    → (delete_vm json send id ≡ ok tt) ↔ (((200 ≤ r.status) × (r.status < 300)) ⊎ (r.status ≡ 404))
unfolding delete_vm
delete_vm_ok_iff json send id r sent small =
    rw sent (forgive_iff json.error_body default_limit r small)
