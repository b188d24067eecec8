-- ===== src/Rest/Status.antt =====
-- What the kinds of `RestError` mean.
use eventbook.Prelude.{true, false, ◌≡◌, ◌⊎◌, refl, inl, inr, Result, ok, failure, arith}
use eventbook.Prelude.Int.{ℤ, pos, negsuc, ◌≤ℤ◌, ◌<ℤ◌}
use eventbook.Rest.{
  in_class, HttpResponse, HttpError, RestErrorKind, RestError, transport, rate_limited, not_found,
  client_error, server_error, unexpected_status, kind_of_status, answer_for,
}

-- The statuses that a kind stands for.
abbrev pub Stands : RestErrorKind → ℤ → Type 0
Stands transport status = ⊥
Stands rate_limited status = status ≡ pos 429
Stands not_found status = status ≡ pos 404
Stands client_error status =
    (pos 400 ≤ℤ status) × (status <ℤ pos 500) × ¬ (status ≡ pos 429) × ¬ (status ≡ pos 404)
Stands server_error status = (pos 500 ≤ℤ status) × (status <ℤ pos 600)
Stands unexpected_status status = (status <ℤ pos 400) ⊎ (pos 600 ≤ℤ status)

-- A response is handed on exactly when its status says success. An error names the transport's failure,
-- or the class of the status, and carries it.
abbrev pub Answers : Result HttpResponse HttpError → Result HttpResponse RestError → Type 0
Answers (failure e) (failure r) = (r.kind ≡ transport) × (r.transport_error ≡ e)
Answers (failure e) (ok response) = ⊥
Answers (ok response) (ok answer) =
    (answer ≡ response) × (pos 200 ≤ℤ response.status_code) × (response.status_code <ℤ pos 300)
Answers (ok response) (failure r) =
    (r.status_code ≡ response.status_code)
    × Stands r.kind response.status_code
    × ((response.status_code <ℤ pos 200) ⊎ (pos 300 ≤ℤ response.status_code))

kind_of_status-Stands : (status : ℤ) → Stands (kind_of_status status) status
unfolding kind_of_status
kind_of_status-Stands (pos n) = ground arith
kind_of_status-Stands (negsuc n) = ground arith

success_class :
    (status : ℤ)
    → ((in_class 200 300 status ≡ true) × (pos 200 ≤ℤ status) × (status <ℤ pos 300))
      ⊎ ((in_class 200 300 status ≡ false) × ((status <ℤ pos 200) ⊎ (pos 300 ≤ℤ status)))
success_class (pos n) = ground arith
success_class (negsuc n) = ground arith

-- For every response: the answer is the response exactly when its status is of the 200s. Otherwise it is
-- an error that names the failure of the transport, or the class of the status with the status.
pub answer_for-Answers :
    (response : Result HttpResponse HttpError) → Answers response (answer_for response)
unfolding answer_for
answer_for-Answers (failure e) = (refl, refl)
answer_for-Answers (ok response) = elim (success_class response.status_code) [
  | inl (e, lower, upper) ↦ rw (e, answer_for) (refl, lower, upper)
  | inr (e, outside) ↦
      rw (e, answer_for) (refl, kind_of_status-Stands response.status_code, outside)
]
