-- ===== src/Registries/Tests.antt =====
-- The theorems on the registries at concrete transfers.
use serctl.Registries.Progress.{
  context_required, push, transferring, native, finite_nonnegative, TransferProgress, is_some,
}
use serctl.Registries.TransferCaps.{
  begin_call, update_call, finish_call, cancel_call, TransferCall, calls, empty_transfers, call,
  calls-IsBounded,
}
use serctl.Common.{
  refl, none, some, false, [], Bytes, List, get, Map, IsMap, ℕ, lit, ◌⊎◌, ◌∷◌, ◌≡◌, ◌≤◌, arith,
  bytes_eq, has_control, true, ok, err, Bool,
}
use serctl.Registries.Transfers.{
  TransferRecord, TransferRegistry, order_of, is_finished, new_record, is_retained,
}
use serctl.Registries.TransferBounds.{IsBounded}
use serctl.Registries.TransferAdvance.{Advances, WasExpired, call-Advances}
use serctl.Registries.Caps.{enforce_cap, count}
use serctl.Registries.CapBounds.{enforce_cap-count}
use serctl.Registries.Snapshots.{snapshots, is_asked}
use serctl.Registries.Discovery.{answered, Stays, snapshots-discover_once}

abbrev test_progress : Bytes → ℕ → TransferProgress
test_progress id confirmed = record {
  schema_version = 1;
  event = lit "progress";
  transfer_id = id;
  operation_context_id = none;
  revision = 0;
  direction = push;
  stage = transferring;
  total_bytes = 100;
  confirmed_bytes = confirmed;
  durable_bytes = 0;
  window_bps = finite_nonnegative 0;
  average_bps = finite_nonnegative 0;
  eta_ms = none;
  backend = native;
  chunk_bytes = 10;
  window_bytes = 20;
  updated_unix_ms = 5;
}

abbrev test_calls : List TransferCall
test_calls =
    begin_call 10 (lit "prod") (test_progress (lit "a") 0)
    ∷ begin_call 11 (lit "prod") (test_progress (lit "b") 0)
    ∷ update_call (lit "prod") (test_progress (lit "a") 40)
    ∷ update_call (lit "prod") (test_progress (lit "a") 30)
    ∷ cancel_call 7 (lit "prod") (lit "b") none
    ∷ finish_call 12 (lit "prod") (test_progress (lit "a") 100)
    ∷ []

abbrev done_record : TransferRecord
done_record = record {
  profile = lit "prod";
  progress = record (test_progress (lit "a") 100) { revision = 2 };
  is_cancelled = false;
  finished_at = some 12;
  finished_order = some 0;
  context_discovered = false;
}

abbrev running_record : TransferRecord
running_record = record {
  profile = lit "prod";
  progress = record (test_progress (lit "a") 40) { revision = 1 };
  is_cancelled = false;
  finished_at = none;
  finished_order = none;
  context_discovered = false;
}

abbrev before_finish : TransferRegistry
before_finish =
    calls
      (begin_call 10 (lit "prod") (test_progress (lit "a") 0)
        ∷ update_call (lit "prod") (test_progress (lit "a") 40)
        ∷ [])
      empty_transfers

finished_once : get (lit "a") (calls test_calls empty_transfers).records ≡ some done_record
unfolding get calls has_control bytes_eq
finished_once = refl

running_before : get (lit "a") before_finish.records ≡ some running_record
unfolding get calls has_control bytes_eq
running_before = refl

abbrev finish_a : TransferCall
finish_a = finish_call 12 (lit "prod") (test_progress (lit "a") 100)

done_after : get (lit "a") (call finish_a before_finish).records ≡ some done_record
unfolding get call has_control calls bytes_eq
done_after = refl

calls-IsBounded_example : IsBounded (calls test_calls empty_transfers)
calls-IsBounded_example = calls-IsBounded test_calls

one_record : IsMap before_finish.records
unfolding calls has_control bytes_eq
one_record = (refl, tt)

call-Advances_example : Advances running_record done_record ⊎ WasExpired finish_a running_record
call-Advances_example =
    call-Advances finish_a before_finish (lit "a") running_record done_record one_record
      running_before done_after

-- With a cap of one, the older of two finished records is removed.
abbrev two_records : Map TransferRecord
two_records =
    (lit "b", record done_record { finished_order = some 3 })
    ∷ (lit "a", done_record)
    ∷ (lit "c", running_record)
    ∷ []

older_removed :
    enforce_cap order_of 1 is_finished 3 two_records
    ≡ ((lit "b", record done_record { finished_order = some 3 }) ∷ (lit "c", running_record) ∷ [])
unfolding enforce_cap is_finished order_of bytes_eq
older_removed = refl

two_records-IsMap : IsMap two_records
unfolding get bytes_eq
two_records-IsMap = (refl, (refl, (refl, tt)))

enforce_cap-count_example : count is_finished (enforce_cap order_of 1 is_finished 1 two_records) ≤ 1
unfolding count is_finished
enforce_cap-count_example =
    enforce_cap-count order_of 1 is_finished 1 two_records two_records-IsMap (omega arith)

abbrev bound_progress : TransferProgress
bound_progress = record (test_progress (lit "a") 0) {
  operation_context_id = some (lit "c");
  revision = 1;
}

abbrev bound_calls : List TransferCall
bound_calls = begin_call 10 (lit "prod") bound_progress ∷ []

abbrev any_answer : List TransferProgress → Bool
any_answer l = true

abbrev told_record : TransferRecord
told_record = record (new_record (lit "prod") bound_progress) { context_discovered = true }

-- A progress and a cancellation come between the two questions.
abbrev calls_between : List TransferCall
calls_between =
    update_call (lit "prod") (record bound_progress { confirmed_bytes = 40 })
    ∷ cancel_call 7 (lit "prod") (lit "a") (some (lit "c"))
    ∷ []

abbrev updated_record : TransferRecord
updated_record = record told_record {
  progress = record bound_progress { confirmed_bytes = 40; revision = 2 };
}

abbrev later_record : TransferRecord
later_record = record told_record {
  progress = record bound_progress {
    confirmed_bytes = 40;
    revision = 3;
    event = lit "cancel_requested";
    updated_unix_ms = 7;
  };
  is_cancelled = true;
}

abbrev told_registry : TransferRegistry
told_registry = answered any_answer 11 (lit "prod") none bound_calls

told :
    (snapshots any_answer 11 (lit "prod") none none true (calls bound_calls empty_transfers)).0
    ≡ ok (bound_progress ∷ [])
unfolding snapshots calls has_control bytes_eq
told = refl

told_then : get (lit "a") told_registry.records ≡ some told_record
unfolding get snapshots calls has_control bytes_eq
told_then = refl

updated_then :
    get
      (lit "a")
      (call
        (update_call (lit "prod") (record bound_progress { confirmed_bytes = 40 }))
        told_registry).records
    ≡ some updated_record
unfolding get snapshots call calls has_control bytes_eq
updated_then = refl

told_registry-Stays : Stays (lit "a") calls_between told_registry
told_registry-Stays =
    ((told_record, told_then, λ e. e), ((updated_record, updated_then, λ e. e), tt))

later_then : get (lit "a") (calls calls_between told_registry).records ≡ some later_record
unfolding get snapshots calls has_control bytes_eq
later_then = refl

asked : is_asked (lit "prod") none told_record ≡ true
unfolding is_asked bytes_eq
asked = refl

asked_later : is_asked (lit "prod") (some (lit "a")) later_record ≡ true
unfolding is_asked bytes_eq
asked_later = refl

bound : is_some (told_record.progress.operation_context_id) ≡ true
unfolding is_some
bound = refl

kept : is_retained 12 later_record ≡ true
unfolding is_retained
kept = refl

snapshots-discover_once_example :
    (snapshots any_answer 12
      (lit "prod")
      (some (lit "a"))
      none
      true
      (calls calls_between told_registry)).0
    ≡ err context_required
snapshots-discover_once_example =
    snapshots-discover_once any_answer any_answer 11 12 (lit "prod") none (some (lit "a"))
      bound_calls calls_between (bound_progress ∷ []) (lit "a") told_record later_record told
      told_then asked bound told_registry-Stays later_then asked_later kept
