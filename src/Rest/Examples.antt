-- ===== src/Rest/Examples.antt =====
-- A response that says the limit of the rate was met.
use eventbook.Prelude.{[], ok}
use eventbook.Prelude.Int.{pos}
use eventbook.Rest.{HttpResponse, answer_for}
use eventbook.Rest.Status.{Answers, answer_for-Answers}

abbrev too_many : HttpResponse
too_many = record { status_code = pos 429; body = [] }

answer_for-Answers_example : Answers (ok too_many) (answer_for (ok too_many))
answer_for-Answers_example = answer_for-Answers (ok too_many)
