-- ===== src/Persistence/PolicyStore/Closing.antt =====
-- A reconciliation case of src/persistence/policyStore.ts can be resolved.
use fuse_agent_control_plane.Base.{Bool, true, false}
use fuse_agent_control_plane.Domain.Lifecycles.{MandateState, closing, reconciliation_hold}

-- The states that a mandate with a hold can be released from.
abbrev pub is_releasable : MandateState → Bool
is_releasable reconciliation_hold = true
is_releasable closing = true
is_releasable _ = false
