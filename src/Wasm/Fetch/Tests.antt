-- ===== src/Wasm/Fetch/Tests.antt =====
-- The transport of bindings/wasm/src/fetch_transport.rs on a platform whose server is busy.
use drm3_rpc_pool.Prelude.{◌≤◌, ◌≡◌, refl, Bool, true, false, [], ◌∷◌, none, Result, ok, err, arith}
use drm3_rpc_pool.Prelude.Text.{decimal}
use drm3_rpc_pool.Transport.{is_success}
use drm3_rpc_pool.Transport.Statuses.{Reports}
use drm3_rpc_pool.Wasm.Fetch.{Platform, fetch_post}
use drm3_rpc_pool.Wasm.Fetch.Statuses.{fetched, fetch_post-Reports}

data Js : Type 0 where
  function_object request_object response_object body_buffer : Js
  promise : Js → Js

is_function : Js → Bool
is_function function_object = true
is_function _ = false

is_promise : Js → Bool
is_promise (promise v) = true
is_promise _ = false

is_response : Js → Bool
is_response response_object = true
is_response _ = false

settle : Js → Result Js Js
settle (promise v) = ok v
settle v = ok v

busy_platform : Platform Js
unfolding is_function is_promise is_response settle
busy_platform = record {
  as_string = λ e. none;
  stringify = λ e. err e;
  new_request = λ url body. ok request_object;
  set_header = λ request name value. ok request;
  get_fetch = λ reads. ok function_object;
  is_function = is_function;
  call1 = λ reads f request. ok (promise response_object);
  is_promise = is_promise;
  settle = settle;
  is_response = is_response;
  status = λ response. 503;
  array_buffer = λ response. ok (promise body_buffer);
  to_bytes = λ buffer. [];
  lossy = λ bytes. "busy";
}

fetch_post_message :
    fetch_post busy_platform 0 "https://a" (("X-Key", "1") ∷ []) [] ≡ err "http 503 busy"
unfolding fetch_post is_success decimal busy_platform
fetch_post_message = refl

status-le_max : (response : Js) → busy_platform.status response ≤ 65535
unfolding busy_platform
status-le_max response = omega arith

fetch_post-Reports_example :
    Reports
      (fetched busy_platform 0 "https://a" [] [])
      (fetch_post busy_platform 0 "https://a" [] [])
fetch_post-Reports_example = fetch_post-Reports busy_platform status-le_max 0 "https://a" [] []
