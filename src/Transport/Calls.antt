-- ===== src/Transport/Calls.antt =====
-- `RpcPool::call` of src/pool/mod.rs over the bundled transport of src/transport.rs.
use drm3_rpc_pool.Prelude.{ℕ, ◌≤◌, ◌<◌, ◌≡◌, true, String, ◌∷◌, some, get_elem?, ok}
use drm3_rpc_pool.Config.{for_method, supports}
use drm3_rpc_pool.Health.{is_available_at}
use drm3_rpc_pool.Wire.{Bytes, Serde, parse_rpc_response}
use drm3_rpc_pool.Pool.State.{PoolEntry, Sys}
use drm3_rpc_pool.Pool.Dispatch.{returned, call}
use drm3_rpc_pool.Pool.Dispatch.Steps.{request}
use drm3_rpc_pool.Pool.Dispatch.Promises.{call-Replied}
use drm3_rpc_pool.Transport.{Request, Response, Client, request_of, post_json_with_headers}
use drm3_rpc_pool.Transport.Statuses.{Reports, post_json_with_headers-Reports}

module _ {Value : Type 0} (serde : Serde Value) (client : Client) (method : String)
    (params : Value) where
  -- The HTTP exchange behind an answer.
  pub record Exchanged (entry : PoolEntry) (v : Value) : Type 0 where
    pub id : ℕ
    pub reads : ℕ
    pub body : Bytes
    pub response : Response
    pub bytes : Bytes
    pub serialized : serde.to_vec (request method params id) ≡ ok body
    pub exchanged :
        client.send reads (record {
          url = entry.endpoint.url;
          headers = ("Content-Type", "application/json") ∷ entry.auth_headers;
          body = body;
        })
        ≡ ok response
    pub low : 200 ≤ response.status
    pub high : response.status < 300
    pub arrived : response.bytes ≡ ok bytes
    pub parsed : parse_rpc_response serde bytes ≡ ok v

  module _ (clock : ℕ → ℕ)
      (fits : (reads : ℕ)
        → (request : Request) → (response : Response) → client.send reads request ≡ ok response
        → response.status ≤ 65535) where
    exchanged_request :
        (entry : PoolEntry) (reads : ℕ) (body bytes : Bytes)
        → post_json_with_headers client reads entry.endpoint.url entry.auth_headers body ≡ ok bytes
        → Reports
            (client.send reads (request_of entry.endpoint.url entry.auth_headers body))
            (ok bytes)
    exchanged_request entry reads body bytes replied = rw replied at (
        post_json_with_headers-Reports client fits reads entry.endpoint.url entry.auth_headers body)

    -- Over a client whose statuses are 16-bit numbers, an answer of `call` is what the parser reads in
    -- the body of an HTTP response with a status from 200 to 299; the request went to the URL of an
    -- entry of the pool, with the JSON content type and then that entry's headers, and its body is
    -- this method with these parameters; and the entry serves the method and was not in cooldown
    -- when the call began.
    pub call-Exchanged :
        (sys : Sys) {v : Value}
        → (call serde clock (post_json_with_headers client) method params sys).1 ≡ returned (ok v)
        → (i : ℕ) × (entry : PoolEntry) × (get_elem? sys.pool.entries i ≡ some entry)
          × (supports entry.endpoint (for_method method) ≡ true)
          × (is_available_at entry.health (clock sys.reads) ≡ true)
          × Exchanged entry v
    unfolding request_of
    call-Exchanged sys e =
        let (i, entry, at, served, available, r) =
          call-Replied serde clock (post_json_with_headers client) method params sys e in
        let (response, got, arrived, low, high) =
          exchanged_request entry r.reads r.body r.bytes r.replied in
        (
          i,
          entry,
          at,
          served,
          available,
          record {
            id = r.id;
            reads = r.reads;
            body = r.body;
            response = response;
            bytes = r.bytes;
            serialized = r.serialized;
            exchanged = got;
            low = low;
            high = high;
            arrived = arrived;
            parsed = r.handled;
          },
        )
