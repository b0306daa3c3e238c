-- ===== src/Registries/TunnelTests.antt =====
-- The theorems on the tunnel registry at a concrete tunnel.
use serctl.Common.{[], ◌∷◌, Bytes, refl, none, some, ok, get, ◌≡◌, List, lit, bytes_eq, true, false}
use serctl.Registries.TunnelStatus.{local_mode, closed, TunnelStatus, loopback}
use serctl.Registries.TunnelCalls.{TunnelSpec, TunnelReady, managed_tunnel_status, new_status}
use serctl.Registries.Tunnels.{ManagedTunnelOwner, ManagedTunnelRecord, can_open}
use serctl.Registries.TunnelSound.{IsSound}
use serctl.Registries.TunnelRuns.{
  begin_call, finish_call, cancel_call, TunnelCall, tunnel_calls, no_tunnels, tunnel_calls-IsSound,
  managed_tunnel_status-can_open,
}

-- a function in the place of `hex::encode`
abbrev test_hex : Bytes → Bytes
test_hex bytes = lit "0123456789abcdef0123456789abcdef"

abbrev test_owner : ManagedTunnelOwner
test_owner = record { profile_id = lit "prod"; generation = 3 }

abbrev test_id : Bytes
test_id = lit "00000000000000000000000000000001"

abbrev test_spec : TunnelSpec
test_spec = record { mode = local_mode; target_port = 80 }

abbrev test_answer : TunnelReady
test_answer = record { mode = local_mode; bind_host = loopback; bind_port = 4000 }

abbrev test_status : TunnelStatus
test_status = new_status test_hex test_owner test_id test_spec test_answer 99 none 5

abbrev test_calls : List TunnelCall
test_calls =
    begin_call test_hex 10 test_owner test_status
    ∷ cancel_call 7 test_owner test_id none
    ∷ finish_call 12 8 test_owner test_id closed
    ∷ []

abbrev closed_record : ManagedTunnelRecord
closed_record = record {
  owner = test_owner;
  status = record test_status { stage = closed; updated_unix_ms = 8 };
  is_cancelled = true;
  finished_at = some 12;
  finished_order = some 0;
  context_discovered = false;
}

status_made :
    managed_tunnel_status test_hex test_owner test_id test_spec test_answer 99 none 5
    ≡ ok test_status
unfolding managed_tunnel_status bytes_eq
status_made = refl

tunnel_closed : get test_id (tunnel_calls test_calls no_tunnels).records ≡ some closed_record
unfolding get tunnel_calls bytes_eq new_status
tunnel_closed = refl

tunnel_calls-IsSound_example : IsSound closed_record
tunnel_calls-IsSound_example = tunnel_calls-IsSound test_calls test_id closed_record tunnel_closed

managed_tunnel_status-can_open_example : can_open test_hex test_owner test_status ≡ ok tt
managed_tunnel_status-can_open_example =
    managed_tunnel_status-can_open test_hex test_owner test_id test_spec test_answer 99 none 5
      test_status status_made
