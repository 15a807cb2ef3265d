-- ===== src/Presets/Tests.antt =====
-- Lookups of src/presets.rs at concrete names, and the theorems at them.
use drm3_rpc_pool.Prelude.{◌≡◌, refl, map, All, true, ok, some, none}
use drm3_rpc_pool.Config.{RpcCapability, RpcPoolConfig, default_config, supports}
use drm3_rpc_pool.Config.Validate.{validate, is_whitespace}
use drm3_rpc_pool.Presets.{polygon, endpoints_for, config_for, peers_for}
use drm3_rpc_pool.Presets.Validity.{Ranked, config_for-peers_for}

unknown_name : endpoints_for "solana" ≡ none
unfolding endpoints_for is_whitespace
unknown_name = refl

abbrev matic : RpcPoolConfig
matic = record default_config { endpoints = polygon }

matic_found : config_for " Matic\n" ≡ some matic
unfolding config_for is_whitespace
matic_found = refl

config_for-peers_for_example :
    (validate matic ≡ ok tt)
    × Ranked 0 matic.endpoints
    × ((c : RpcCapability) → All (λ e. supports e c ≡ true) matic.endpoints)
    × ((peers : RpcPoolConfig) × (peers_for " Matic\n" ≡ some peers)
        × (validate peers ≡ ok tt)
        × (map (λ e. e.url) peers.endpoints ≡ map (λ e. e.url) matic.endpoints)
        × All (λ e. e.priority ≡ 0) peers.endpoints)
config_for-peers_for_example = config_for-peers_for " Matic\n" matic_found
