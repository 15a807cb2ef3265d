-- ===== src/Transport/Tests.antt =====
-- Runs of the transport of src/transport.rs against a client of few answers.
use drm3_rpc_pool.Prelude.Sorting.{sort_by}
use drm3_rpc_pool.Config.{new_endpoint, for_method, supports}
use drm3_rpc_pool.Health.{default_policy, new_health, is_available_at}
use drm3_rpc_pool.Pool.State.{PoolEntry, Sys, read_clock, emit, modify_entry}
use drm3_rpc_pool.Pool.Dispatch.{returned, call, run_method}
use drm3_rpc_pool.Transport.Calls.{Exchanged, call-Exchanged}
use drm3_rpc_pool.Prelude.{
  true, some, none, get_elem?, str_eq, if◌then◌else◌, Bool-cases, inl, inr, ℕ, zero, suc, subst,
  ◌≤◌, ◌≡◌, refl, String, [], ◌∷◌, Result, ok, err, arith,
}
use drm3_rpc_pool.Prelude.Text.{decimal}
use drm3_rpc_pool.Wire.{Bytes, Serde, parse_rpc_response}
use drm3_rpc_pool.Transport.{
  is_success, Request, Response, Client, request_of, post_json_with_headers,
}
use drm3_rpc_pool.Transport.Statuses.{Reports, post_json_with_headers-Reports}

-- At first no connection, then a rate-limited endpoint.
abbrev reply_at : ℕ → Request → Result Response String
reply_at zero request = err "connection refused"
reply_at (suc n) request = ok (record { status = 429; bytes = ok (b'n' ∷ b'o' ∷ []) })

abbrev lossy_text : Bytes → String
lossy_text _ = "no"

abbrev limited_client : Client
limited_client = record { send = reply_at; lossy = lossy_text }

abbrev got_status : Result Response String → ℕ
got_status (err e) = 0
got_status (ok response) = response.status

reply_at-fits : (reads : ℕ) (request : Request) → got_status (reply_at reads request) ≤ 65535
reply_at-fits zero request = omega arith
reply_at-fits (suc n) request = omega arith

limited_client-fits :
    (reads : ℕ) (request : Request) (response : Response)
    → limited_client.send reads request ≡ ok response
    → response.status ≤ 65535
limited_client-fits reads request response got =
    subst (λ r. got_status r ≤ 65535) got (reply_at-fits reads request)

post_json_with_headers_message :
    post_json_with_headers limited_client 1 "https://a" [] [] ≡ err "http 429 no"
unfolding post_json_with_headers is_success decimal
post_json_with_headers_message = refl

post_json_with_headers-Reports_example :
    Reports
      (limited_client.send 1 (request_of "https://a" [] []))
      (post_json_with_headers limited_client 1 "https://a" [] [])
post_json_with_headers-Reports_example =
    post_json_with_headers-Reports limited_client limited_client-fits 1 "https://a" [] []

-- Two endpoints, of which the preferred one is rate limited.
abbrev busy_reply : ℕ → Request → Result Response String
busy_reply reads request =
    if str_eq request.url "a"
    then ok (record { status = 429; bytes = ok [] })
    else ok (record { status = 200; bytes = ok (7 ∷ []) })

abbrev mixed_client : Client
mixed_client = record { send = busy_reply; lossy = lossy_text }

mixed_client-fits :
    (reads : ℕ) (request : Request) (response : Response)
    → mixed_client.send reads request ≡ ok response
    → response.status ≤ 65535
mixed_client-fits reads request response got =
    subst (λ r. got_status r ≤ 65535) got
      (elim (Bool-cases (str_eq request.url "a")) [
        | inl same ↦ rw same (omega arith)
        | inr other ↦ rw other (omega arith)
      ])

abbrev serde : Serde ℕ
serde = record {
  to_vec = λ r. ok (r.id ∷ []);
  from_slice = λ bytes. ok (record { jsonrpc = none; id = none; result = some 7; error = none });
}

abbrev clock : ℕ → ℕ
clock n = n

abbrev entry_of : String → PoolEntry
entry_of url = record {
  endpoint = new_endpoint url;
  health = new_health default_policy;
  auth_headers = [];
  rate_limiter = none;
  in_flight = 0;
}

abbrev two : Sys
two = record {
  pool = record { entries = entry_of "a" ∷ entry_of "b" ∷ []; request_id = 1; max_retries = 0 };
  reads = 0;
  events = [];
}

answered :
    (call serde clock (post_json_with_headers mixed_client) "eth_call" 0 two).1 ≡ returned (ok 7)
unfolding call post_json_with_headers is_success supports is_available_at for_method sort_by
    parse_rpc_response run_method read_clock emit modify_entry
answered = refl

call-Exchanged_example :
    (i : ℕ) × (entry : PoolEntry) × (get_elem? two.pool.entries i ≡ some entry)
    × (supports entry.endpoint (for_method "eth_call") ≡ true)
    × (is_available_at entry.health (clock 0) ≡ true)
    × Exchanged serde mixed_client "eth_call" 0 entry 7
call-Exchanged_example =
    call-Exchanged serde mixed_client "eth_call" 0 clock mixed_client-fits two answered
