-- ===== src/Wasm/Fetch/Statuses.antt =====
-- What the pool reads in the errors of bindings/wasm/src/fetch_transport.rs, as in those of the
-- bundled transport.
use Prim.Native.Char.{Char, char, code}
use Prim.Native.String.{◌++◌ as str_append}
use text.Mathlib.TextLemmas.{cons-append}
use drm3_rpc_pool.Prelude.{
  ℕ, ◌≤◌, ◌≡◌, refl, inl, inr, String, Bool, false, List, [], ◌∷◌, Result, ok, err, ◌>>=◌, map_ok,
  map_err, Bool-cases, ◌==◌, arith,
}
use drm3_rpc_pool.Wire.{Bytes}
use drm3_rpc_pool.Pool.HttpStatus.{http_status_of}
use drm3_rpc_pool.Transport.{Response, is_success}
use drm3_rpc_pool.Transport.Statuses.{Reports, http_status_of-status}
use drm3_rpc_pool.Wasm.Fetch.{
  Platform, js_err_to_string, dyn_into, global_fetch, set_headers, fetch_response, body_of,
  read_status, fetch_post,
}

-- A failure that is no response with a status.
abbrev NoStatus {ℓ} : {A : Type ℓ} → Result A String → Type 0
NoStatus (ok a) = Unit {0}
NoStatus (err message) = http_status_of message ≡ 0

bind-NoStatus {ℓ κ} :
    {A : Type ℓ} {B : Type κ} (r : Result A String) (f : A → Result B String)
    → NoStatus r
    → ((a : A) → NoStatus (f a))
    → NoStatus (r >>= f)
bind-NoStatus (ok a) f h k = k a
bind-NoStatus (err m) f h k = h

-- A text that does not begin like a status.
http_status_of-other :
    (c : Char) (s t : String)
    → (code c == b'h') ≡ false
    → http_status_of (str_append (String.◌∷◌ c s) t) ≡ 0
unfolding http_status_of
http_status_of-other c s t other = rw (cons-append c s t, http_status_of, other) refl

http_status_of-header : (t : String) → http_status_of (str_append "header set failed" t) ≡ 0
unfolding http_status_of
http_status_of-header t =
    rw
      (
        cons-append (char b'h' tt) "eader set failed" t,
        cons-append (char b'e' tt) "ader set failed" t,
      )
      refl

module _ {Js : Type 0} (platform : Platform Js) where
  thrown-NoStatus :
      (prefix : String) (r : Result Js Js)
      → ((t : String) → http_status_of (str_append prefix t) ≡ 0)
      → NoStatus (map_err (js_err_to_string platform prefix) r)
  unfolding js_err_to_string
  thrown-NoStatus prefix (ok v) h = tt
  thrown-NoStatus prefix (err e) h = h _

  dyn_into-NoStatus :
      (is_class : Js → Bool) (message : String) (v : Js)
      → http_status_of message ≡ 0
      → NoStatus (dyn_into platform is_class message v)
  unfolding dyn_into
  dyn_into-NoStatus is_class message v h = elim (Bool-cases (is_class v)) [
    | inl cast ↦ rw cast tt
    | inr other ↦ rw other h
  ]

  global_fetch-NoStatus :
      (reads : ℕ) (request : Js) → NoStatus (global_fetch platform reads request)
  unfolding global_fetch http_status_of
  global_fetch-NoStatus reads request =
      bind-NoStatus _ _
        (thrown-NoStatus "no global fetch" (platform.get_fetch reads)
          (λ t. http_status_of-other (char b'n' tt) "o global fetch" t refl))
        (λ found.
          bind-NoStatus _ _ (dyn_into-NoStatus platform.is_function _ found refl) (λ fetch_fn.
            bind-NoStatus _ _
              (thrown-NoStatus "fetch call failed" (platform.call1 reads fetch_fn request)
                (λ t. http_status_of-other (char b'f' tt) "etch call failed" t refl))
              (λ result. dyn_into-NoStatus platform.is_promise _ result refl)))

  set_headers-NoStatus :
      (headers : List (String × String)) (request : Js)
      → NoStatus (set_headers platform headers request)
  unfolding set_headers
  set_headers-NoStatus [] request = tt
  set_headers-NoStatus ((name, value) ∷ rest) request =
      bind-NoStatus _ _
        (thrown-NoStatus "auth header set failed" (platform.set_header request name value)
          (λ t. http_status_of-other (char b'a' tt) "uth header set failed" t refl))
        (λ request'. set_headers-NoStatus rest request')

  fetch_response-NoStatus :
      (reads : ℕ) (url : String) (headers : List (String × String)) (body : Bytes)
      → NoStatus (fetch_response platform reads url headers body)
  unfolding fetch_response http_status_of
  fetch_response-NoStatus reads url headers body =
      bind-NoStatus _ _
        (thrown-NoStatus "request build failed" (platform.new_request url body)
          (λ t. http_status_of-other (char b'r' tt) "equest build failed" t refl))
        (λ built.
          bind-NoStatus _ _
            (thrown-NoStatus "header set failed"
              (platform.set_header built "Content-Type" "application/json") http_status_of-header)
            (λ typed. bind-NoStatus _ _ (set_headers-NoStatus headers typed) (λ request.
              bind-NoStatus _ _ (global_fetch-NoStatus reads request) (λ promise.
                bind-NoStatus _ _
                  (thrown-NoStatus "fetch rejected" (platform.settle promise)
                    (λ t. http_status_of-other (char b'f' tt) "etch rejected" t refl))
                  (λ value. dyn_into-NoStatus platform.is_response _ value refl)))))

  body_of-NoStatus : (response : Js) → NoStatus (body_of platform response)
  unfolding body_of
  body_of-NoStatus response =
      bind-NoStatus _ _
        (thrown-NoStatus "array_buffer() failed" (platform.array_buffer response)
          (λ t. http_status_of-other (char b'a' tt) "rray_buffer() failed" t refl))
        (λ promise.
          bind-NoStatus _ _
            (thrown-NoStatus "reading body failed" (platform.settle promise)
              (λ t. http_status_of-other (char b'r' tt) "eading body failed" t refl))
            (λ buffer. tt))

  -- What the platform got, as the bundled transport's client would say it.
  abbrev pub fetched : ℕ → String → List (String × String) → Bytes → Result Response String
  fetched reads url headers body =
      map_ok (λ r. record { status = platform.status r; bytes = body_of platform r })
        (fetch_response platform reads url headers body)

  read_status-Reports :
      (status : ℕ) (bytes : Bytes)
      → status ≤ 65535
      → Reports
          (ok (record { status = status; bytes = ok bytes }))
          (read_status platform status bytes)
  unfolding read_status is_success
  read_status-Reports status bytes fits = elim (Bool-cases (is_success status)) [
    | inl success ↦ rw success (_, refl, refl, ground (arith, success), ground (arith, success))
    | inr failure ↦ rw failure (
        inr (
          _,
          bytes,
          refl,
          refl,
          ground (arith, failure),
          http_status_of-status status (platform.lossy bytes) fits,
        ))
  ]

  read_response-Reports :
      (status : ℕ) (body : Result Bytes String)
      → NoStatus body
      → status ≤ 65535
      → Reports
          (ok (record { status = status; bytes = body }))
          (body >>= read_status platform status)
  read_response-Reports status (ok bytes) h fits = read_status-Reports status bytes fits
  read_response-Reports status (err e) h fits = inl ((e, refl), h)

  fetched-Reports :
      (got : Result Js String)
      → NoStatus got
      → ((response : Js) → platform.status response ≤ 65535)
      → Reports
          (map_ok (λ r. record { status = platform.status r; bytes = body_of platform r }) got)
          (got >>= (λ r. body_of platform r >>= read_status platform (platform.status r)))
  fetched-Reports (ok r) h fits =
      read_response-Reports (platform.status r) (body_of platform r) (body_of-NoStatus r) (fits r)
  fetched-Reports (err e) h fits = inl (tt, h)

  -- Where the statuses are 16-bit numbers, the transport over `fetch` keeps the bundled transport's
  -- contract: an answer is the body of a response with a status from 200 to 299, and from an error
  -- message the pool reads the status of the response, which is none of these, or 0 where no
  -- response or no body arrived.
  pub fetch_post-Reports :
      ((response : Js) → platform.status response ≤ 65535)
      → (reads : ℕ) (url : String) (headers : List (String × String)) (body : Bytes)
      → Reports (fetched reads url headers body) (fetch_post platform reads url headers body)
  unfolding fetch_post
  fetch_post-Reports fits reads url headers body =
      fetched-Reports (fetch_response platform reads url headers body)
        (fetch_response-NoStatus reads url headers body) fits
