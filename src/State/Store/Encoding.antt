-- ===== src/State/Store/Encoding.antt =====
-- What `encoding/json` keeps of the records in the state file of internal/state/store.go: a string that
-- is valid UTF-8 comes back as it was, in any other each invalid byte is replaced.
use mini_control_action.Prelude.{
  ℕ, zero, suc, ◌≡◌, Bool, true, false, ◌&&◌, Option, none, some, List, [], ◌∷◌, All, Text, leb,
  ltb, if◌then◌else◌, Bool-cases, inl, inr,
}
use mini_control_action.State.{JobState, other, Record, Key, key_of, key_eq}
use mini_control_action.State.Store.Map.{put, remove}
use mini_control_action.State.Store.Sorting.{insert_by, sort_by}

abbrev within : ℕ → ℕ → ℕ → Bool
within low high c = leb low c && leb c high

-- What may follow a leading byte: the number of further bytes, and the range of the first of them.
abbrev lead : ℕ → Option (ℕ × ℕ × ℕ)
lead c =
    if ltb c 128
    then some (0, 128, 191)
    else if within 194 223 c
    then some (1, 128, 191)
    else if within 224 224 c
    then some (2, 160, 191)
    else if within 237 237 c
    then some (2, 128, 159)
    else if within 225 239 c
    then some (2, 128, 191)
    else if within 240 240 c
    then some (3, 144, 191)
    else if within 241 243 c
    then some (3, 128, 191)
    else if within 244 244 c
    then some (3, 128, 143)
    else none

-- utf8.ValidString, with the bytes that are still to come and the range of the first of them.
unfoldable rest_valid : ℕ → ℕ → ℕ → Text → Bool
rest_valid zero low high [] = true
rest_valid (suc n) low high [] = false
rest_valid zero low high (c ∷ s) = elim (lead c) as (λ o. Bool) [
  | none ↦ false
  | some (n, low', high') ↦ rest_valid n low' high' s
]
rest_valid (suc n) low high (c ∷ s) = let rest = rest_valid n 128 191 s in within low high c && rest

unfoldable pub is_utf8 : Text → Bool
unfolding rest_valid
is_utf8 s = rest_valid 0 128 191 s

abbrev state_text : JobState → Text
state_text (other s) = s
state_text _ = []

-- All strings of the record are valid UTF-8.
pub record IsClean (r : Record) : Type 0 where
  pub repo : is_utf8 r.repo ≡ true
  pub labels : All (λ l. is_utf8 l ≡ true) r.labels
  pub url : is_utf8 r.workflow_job_url ≡ true
  pub state : is_utf8 (state_text r.state) ≡ true
  pub vm_id : is_utf8 r.vm_id ≡ true
  pub key : is_utf8 r.idempotency_key ≡ true
  pub runner_name : is_utf8 r.runner_name ≡ true
  pub last_error : is_utf8 r.last_error ≡ true

-- What is documented of the decoder on what the encoder has written for a list of records.
pub record IsFaithful (decode : List Record → Option (List Record)) : Type 0 where
  pub clean : (rs : List Record) → All IsClean rs → decode rs ≡ some rs

module _ (P : Record → Type 0) where
  pub All-put : (r : Record) (rs : List Record) → P r → All P rs → All P (put r rs)
  unfolding put
  All-put r [] p h = (p, tt)
  All-put r (x ∷ xs) p h = elim (Bool-cases (key_eq (key_of x) (key_of r))) [
    | inl e ↦ rw e (p, h.1)
    | inr e ↦ rw e (h.0, All-put r xs p h.1)
  ]

  pub All-remove : (k : Key) (rs : List Record) → All P rs → All P (remove k rs)
  unfolding remove
  All-remove k [] h = tt
  All-remove k (x ∷ xs) h = elim (Bool-cases (key_eq (key_of x) k)) [
    | inl e ↦ rw e (All-remove k xs h.1)
    | inr e ↦ rw e (h.0, All-remove k xs h.1)
  ]

  module _ (less : Record → Record → Bool) where
    All-insert : (r : Record) (rs : List Record) → P r → All P rs → All P (insert_by less r rs)
    unfolding insert_by
    All-insert r [] p h = (p, tt)
    All-insert r (x ∷ xs) p h = elim (Bool-cases (less x r)) [
      | inl e ↦ rw e (h.0, All-insert r xs p h.1)
      | inr e ↦ rw e (p, h)
    ]

    pub All-sort_by : (rs : List Record) → All P rs → All P (sort_by less rs)
    unfolding sort_by
    All-sort_by [] h = tt
    All-sort_by (x ∷ xs) h = All-insert x (sort_by less xs) h.0 (All-sort_by xs h.1)
