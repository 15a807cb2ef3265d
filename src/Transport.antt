-- ===== src/Transport.antt =====
-- src/transport.rs: the bundled HTTP transport. The client is reqwest's, a parameter: it sends a
-- request, and the body of its response may fail to arrive.
pub mod Statuses
pub mod Calls
mod Tests
use drm3_rpc_pool.Prelude.{
  ℕ, String, Bool, ◌&&◌, not, List, [], ◌∷◌, ◌++◌, Result, ok, err, ltb, leb, if◌then◌else◌, concat,
  decimal,
}
use drm3_rpc_pool.Wire.{Bytes}

pub record Request : Type 0 where
  pub url : String
  pub headers : List (String × String)
  pub body : Bytes

pub record Response : Type 0 where
  pub status : ℕ
  pub bytes : Result Bytes String

-- `RequestBuilder::send`, at a reading of the clock; `lossy` is `String::from_utf8_lossy`.
pub record Client : Type 0 where
  pub send : ℕ → Request → Result Response String
  pub lossy : Bytes → String

-- `StatusCode::is_success`.
unfoldable pub is_success : ℕ → Bool
is_success status = leb 200 status && ltb status 300

-- The request that is built, one header after the other.
unfoldable pub request_of : String → List (String × String) → Bytes → Request
request_of url headers body = record {
  url = url;
  headers = ("Content-Type", "application/json") ∷ headers;
  body = body;
}

module _ (client : Client) where
  pub answer_of : Response → Result Bytes String
  answer_of response = elim response.bytes [
    | err e ↦ err (concat ("read error: " ∷ e ∷ []))
    | ok bytes ↦
        if not (is_success response.status)
        then err (concat ("http " ∷ decimal response.status ∷ " " ∷ client.lossy bytes ∷ []))
        else ok bytes
  ]

  pub outcome_of : Result Response String → Result Bytes String
  outcome_of (err e) = err (concat ("send error: " ∷ e ∷ []))
  outcome_of (ok response) = answer_of response

  unfoldable pub post_json_with_headers :
      ℕ → String → List (String × String) → Bytes → Result Bytes String
  unfolding answer_of outcome_of request_of
  post_json_with_headers reads url headers body =
      outcome_of (client.send reads (request_of url headers body))

  unfoldable pub post_json : ℕ → String → Bytes → Result Bytes String
  unfolding post_json_with_headers
  post_json reads url body = post_json_with_headers reads url [] body
