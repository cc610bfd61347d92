-- ===== src/Engine/Dispatch/Frame.antt =====
-- What a delivery leaves alone: `dispatch` of internal/engine/dispatch.go writes the workers only.
use lib_systemplane.Prelude.{◌≡◌, arith}
use lib_systemplane.Engine.State.{Shared, ScopeState, Publication}
use lib_systemplane.Engine.Dispatch.{dispatch}

module _ {V : Type 0} (g : Shared) (p : Publication V) (sc : ScopeState V) where
  -- A delivery changes no field of the scope's state but its workers.
  pub dispatch-frame : dispatch g p sc ≡ record sc { workers = (dispatch g p sc).workers }
  unfolding dispatch
  dispatch-frame = ground arith
