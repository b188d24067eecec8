-- ===== src/Rest.antt =====
-- include/eventbook/api/http.hpp, src/api/http.cpp, include/eventbook/api/rest_client.hpp and
-- src/api/rest_client.cpp: a GET of the venue's API. The transport is a parameter.
pub mod Status
mod Examples
use eventbook.Prelude.{
  ℕ, ◌++◌, leb, ltb, ◌==◌, Bool, ◌&&◌, List, [], ◌∷◌, if◌then◌else◌, Bytes, codes, Result, ok,
  failure,
}
use eventbook.Prelude.Int.{ℤ, pos, leb_ℤ, ltb_ℤ, eqb_ℤ}

pub data HttpMethod : Type 0 where
  get_method : HttpMethod

pub record HttpRequest : Type 0 where
  pub method : HttpMethod
  pub host : Bytes
  pub target : Bytes

pub record HttpResponse : Type 0 where
  pub status_code : ℤ
  pub body : Bytes

pub data HttpError : Type 0 where
  invalid_request resolve_failed connect_failed tls_context_failed tls_handshake_failed write_failed
        read_failed timeout :
      HttpError

-- `HttpTransport`, with what it is connected to.
pub record HttpTransport : Type 1 where
  pub World : Type 0
  pub send : World → HttpRequest → Result HttpResponse HttpError × World

pub data KalshiEnvironment : Type 0 where
  production demo : KalshiEnvironment

unfoldable pub host_for : KalshiEnvironment → Bytes
host_for production = codes "external-api.kalshi.com"
host_for demo = codes "external-api.demo.kalshi.co"

abbrev pub api_base_path : Bytes
api_base_path = codes "/trade-api/v2"

pub data RestErrorKind : Type 0 where
  transport rate_limited not_found client_error server_error unexpected_status : RestErrorKind

pub record RestError : Type 0 where
  pub kind : RestErrorKind
  pub transport_error : HttpError
  pub status_code : ℤ

-- lower ≤ status < upper.
abbrev pub in_class : ℕ → ℕ → ℤ → Bool
in_class lower upper status = leb_ℤ (pos lower) status && ltb_ℤ status (pos upper)

-- The kind of an error for a status that is no success.
unfoldable pub kind_of_status : ℤ → RestErrorKind
kind_of_status status =
    if eqb_ℤ status (pos 429)
    then rate_limited
    else if eqb_ℤ status (pos 404)
    then not_found
    else if in_class 400 500 status
    then client_error
    else if in_class 500 600 status
    then server_error
    else unexpected_status

unfoldable pub request_for : KalshiEnvironment → Bytes → Bytes → HttpRequest
unfolding host_for
request_for environment path query = record {
  method = get_method;
  host = host_for environment;
  target = (api_base_path ++ path) ++ query_part query;
}
  where
    query_part : Bytes → Bytes
    query_part [] = []
    query_part (c ∷ s) = b'?' ∷ c ∷ s

unfoldable pub answer_for : Result HttpResponse HttpError → Result HttpResponse RestError
unfolding kind_of_status
answer_for (failure e) =
    failure (record { kind = transport; transport_error = e; status_code = pos 0 })
answer_for (ok response) =
    if in_class 200 300 response.status_code
    then ok response
    else failure (record {
      kind = kind_of_status response.status_code;
      transport_error = invalid_request;
      status_code = response.status_code;
    })

unfoldable pub get :
    (http : HttpTransport)
    → KalshiEnvironment
    → Bytes
    → Bytes
    → http.World
    → Result HttpResponse RestError × http.World
unfolding request_for answer_for
get http environment path query world =
    let (response, world') = http.send world (request_for environment path query) in
    (answer_for response, world')
