-- ===== src/Types.antt =====
-- The types that the parts share: the status codes and allocations of include/hwfq.h, and the
-- sessions of src/hwfq_group_scheduler_internal.h and src/hwfq_internal.h.
use hwfq_scheduler.Base.{ℕ, ◌-◌, ◌^◌, Bool, false}

-- `UINT64_MAX` and `UINT32_MAX`
abbrev pub u64_max : ℕ
u64_max = 2 ^ 64 - 1

abbrev pub u32_max : ℕ
u32_max = 2 ^ 32 - 1

-- The return codes of include/hwfq.h that the code returns.
pub data Status : Type 0 where
  success invalid_arg no_memory not_found overbooked no_work has_backlog internal : Status

-- `hwfq_allocation_t`: the tag with the member of the union that it selects.
pub data Allocation : Type 0 where
  weight : ℕ → Allocation
  rate : ℕ → Allocation

-- `flow_session_context_t`, what the session of a flow carries. `user_data` is the caller's
-- pointer, 0 for NULL; `cleanup_fn` is not modelled.
pub record FlowSessionContext : Type 0 where
  pub tenant_id : ℕ
  pub flow_id : ℕ
  pub user_data : ℕ
  pub work_size : ℕ
  pub enqueue_time_ns : ℕ
  pub timeout_ns : ℕ

-- What the `user_data` of a session points to: NULL, a tenant (in the system scheduler) or the
-- context of a flow's session (in a tenant's scheduler).
pub data UserData : Type 0 where
  null : UserData
  tenant : ℕ → UserData
  flow : FlowSessionContext → UserData

-- `session_state_t`. `address` is where it is allocated, by which the code tells sessions apart;
-- the links of the list that holds it are the list itself, and `cleanup_fn`, which only the
-- destruction of a scheduler calls, is not modelled.
pub record Session : Type 0 where
  pub address : ℕ
  pub entry_id : ℕ
  pub start_time : ℕ
  pub finish_time : ℕ
  pub service_interval : ℕ
  pub group_index : ℕ
  pub bin_index : ℕ
  pub user_data : UserData
  pub work_size : ℕ
  pub enqueue_time_ns : ℕ

-- `effective_rate`, a double that the code only stores: unset, or
-- `(double)work * 1000000000.0 / (double)elapsed`.
pub data EffectiveRate : Type 0 where
  unset : EffectiveRate
  measured : (work elapsed : ℕ) → EffectiveRate

-- `hwfq_tenant_stats_t` and `hwfq_flow_stats_t`, which have the same fields.
pub record Stats : Type 0 where
  pub work_units_processed : ℕ
  pub operations_completed : ℕ
  pub total_wait_time_ns : ℕ
  pub total_service_time_ns : ℕ
  pub current_backlog : ℕ
  pub effective_rate : EffectiveRate

-- `rate_tracking_t` and `entry_rate_tracking_t`
pub record RateTracking : Type 0 where
  pub window_start_ns : ℕ
  pub window_work_units : ℕ

-- `entry_config_t`, less the link to the next configured entry: a group scheduler's list of
-- configured entries is a list of their ids.
pub record Entry : Type 0 where
  pub entry_id : ℕ
  pub configured : Bool
  pub allocation : Allocation
  pub calculated_rate : ℕ
  pub last_finish_time : ℕ
  pub stats : Stats
  pub rate_tracking : RateTracking

-- Structures after `memset(…, 0, …)`.
abbrev pub zero_stats : Stats
zero_stats = record {
  work_units_processed = 0;
  operations_completed = 0;
  total_wait_time_ns = 0;
  total_service_time_ns = 0;
  current_backlog = 0;
  effective_rate = unset;
}

abbrev pub zero_tracking : RateTracking
zero_tracking = record { window_start_ns = 0; window_work_units = 0 }

abbrev pub zero_entry : Entry
zero_entry = record {
  entry_id = 0;
  configured = false;
  allocation = weight 0;
  calculated_rate = 0;
  last_finish_time = 0;
  stats = zero_stats;
  rate_tracking = zero_tracking;
}
