-- ===== src/Examples/Locks.antt =====
-- The lock of a lane (retinue/single_run.py) at a concrete input.
use the_retinue.Base.{[], ◌∷◌, nat_eq, list_eq, drain_busy}
use the_retinue.SingleRun.{
  enters, leaves, fresh_lock, happen_all, IsExclusive, happen_all-IsExclusive,
}

happen_all-IsExclusive_example :
    IsExclusive (happen_all drain_busy (enters 1 ∷ enters 2 ∷ leaves 1 ∷ enters 2 ∷ []) fresh_lock)
happen_all-IsExclusive_example =
    happen_all-IsExclusive drain_busy (enters 1 ∷ enters 2 ∷ leaves 1 ∷ enters 2 ∷ [])
