-- ===== src/Wasm/Fetch.antt =====
-- bindings/wasm/src/fetch_transport.rs: the transport over the platform's `fetch`. The JavaScript
-- objects and the platform's functions on them are parameters.
pub mod Statuses
mod Tests
use drm3_rpc_pool.Prelude.{
  ℕ, String, Bool, not, List, [], ◌∷◌, Option, none, some, Result, ok, err, ◌>>=◌, map_err,
  if◌then◌else◌, concat, decimal,
}
use drm3_rpc_pool.Wire.{Bytes}
use drm3_rpc_pool.Transport.{is_success}

-- Each function may throw an object. `set_header` sets a header of a request's `headers`, `settle`
-- awaits a promise, and `get_fetch` and `call1` may depend on the moment, a reading of the clock.
pub record Platform (Js : Type 0) : Type 0 where
  pub as_string : Js → Option String
  pub stringify : Js → Result Js Js
  pub new_request : String → Bytes → Result Js Js
  pub set_header : Js → String → String → Result Js Js
  pub get_fetch : ℕ → Result Js Js
  pub is_function : Js → Bool
  pub call1 : ℕ → Js → Js → Result Js Js
  pub is_promise : Js → Bool
  pub settle : Js → Result Js Js
  pub is_response : Js → Bool
  pub status : Js → ℕ
  pub array_buffer : Js → Result Js Js
  pub to_bytes : Js → Bytes
  pub lossy : Bytes → String

module _ {Js : Type 0} (platform : Platform Js) where
  -- `JSON::stringify(&e).ok().and_then(|s| s.as_string())`.
  stringified : Js → Option String
  stringified e = elim (platform.stringify e) [ ok s ↦ platform.as_string s | err e' ↦ none ]

  error_text : Js → String
  unfolding stringified
  error_text e = elim (platform.as_string e) [
    | some s ↦ s
    | none ↦ elim (stringified e) [ some s ↦ s | none ↦ "<non-string JS error>" ]
  ]

  js_err_to_string : String → Js → String
  unfolding error_text
  js_err_to_string prefix e = concat (prefix ∷ ": " ∷ error_text e ∷ [])

  -- A cast to a class of objects, with the error of its failure.
  dyn_into : (Js → Bool) → String → Js → Result Js String
  dyn_into is_class message v = if is_class v then ok v else err message

  global_fetch : ℕ → Js → Result Js String
  unfolding js_err_to_string dyn_into
  global_fetch reads request = do
    found ← map_err (js_err_to_string "no global fetch") (platform.get_fetch reads)
    fetch_fn ← dyn_into platform.is_function "global `fetch` is not callable" found
    result ← map_err (js_err_to_string "fetch call failed") (platform.call1 reads fetch_fn request)
    dyn_into platform.is_promise "fetch did not return a Promise" result

  set_headers : List (String × String) → Js → Result Js String
  unfolding js_err_to_string
  set_headers [] request = ok request
  set_headers ((name, value) ∷ rest) request = do
    request' ←
        map_err (js_err_to_string "auth header set failed") (platform.set_header request name value)
    set_headers rest request'

  -- Up to the response.
  pub fetch_response : ℕ → String → List (String × String) → Bytes → Result Js String
  unfolding js_err_to_string dyn_into global_fetch set_headers
  fetch_response reads url headers body = do
    built ← map_err (js_err_to_string "request build failed") (platform.new_request url body)
    typed ←
        map_err (js_err_to_string "header set failed")
          (platform.set_header built "Content-Type" "application/json")
    request ← set_headers headers typed
    promise ← global_fetch reads request
    value ← map_err (js_err_to_string "fetch rejected") (platform.settle promise)
    dyn_into platform.is_response "fetch result was not a Response" value

  pub body_of : Js → Result Bytes String
  unfolding js_err_to_string
  body_of response = do
    promise ← map_err (js_err_to_string "array_buffer() failed") (platform.array_buffer response)
    buffer ← map_err (js_err_to_string "reading body failed") (platform.settle promise)
    ok (platform.to_bytes buffer)

  -- The status decides what the body is: the answer, or the end of the error's text.
  pub read_status : ℕ → Bytes → Result Bytes String
  read_status status bytes =
      if not (is_success status)
      then err (concat ("http " ∷ decimal status ∷ " " ∷ platform.lossy bytes ∷ []))
      else ok bytes

  -- `FetchTransport::post_json_with_headers`.
  unfoldable pub fetch_post : ℕ → String → List (String × String) → Bytes → Result Bytes String
  unfolding fetch_response body_of read_status
  fetch_post reads url headers body = do
    response ← fetch_response reads url headers body
    bytes ← body_of response
    read_status (platform.status response) bytes
