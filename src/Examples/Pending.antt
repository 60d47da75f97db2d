-- ===== src/Examples/Pending.antt =====
-- A request that a task waits for, of src/rpc/req_rep.rs.
use mathlib.Core.List.{Mem}
use rpc_it_rs.Base.{
  ℕ, ◌≡◌, refl, arith, false, Option, none, some, List, [], ◌∷◌, ok, err, returns, Result, ◌%◌,
  ◌==◌, if◌then◌else◌,
}
use rpc_it_rs.Defs.{RangeType}
use rpc_it_rs.Waker.{option_waker, option_waker-IsAtomicWaker}
use rpc_it_rs.Rpc.Types.{Response, ErrorResponse, ResponseState, closed}
use rpc_it_rs.Rpc.ReqRep.{RequestContext, set_response, set_request_write_failed, mark_expired}
use rpc_it_rs.Rpc.ReqRep.Machine.{
  System, Event, allocates, receives, delivers, polls, expires, drops, new_system, run,
}
use rpc_it_rs.Rpc.ReqRep.Invariant.{IsConsistent}
use rpc_it_rs.Rpc.ReqRep.Safety.{IsSafe, run-new_system}
use rpc_it_rs.Rpc.ReqRep.Cells.{cell, Waits, Ends}
use rpc_it_rs.Rpc.ReqRep.Wakeup.{arrived, response_wakes, write_failure_wakes}
use rpc_it_rs.Rpc.ReqRep.Expiry.{mark_expired_wakes}

-- The request 9 is registered, with the task 7 on its waiter.
abbrev waiting : RequestContext (Option ℕ)
waiting = record {
  wait_list = (9, 0) ∷ [];
  expired = false;
  waiters = cell (some 7) ResponseState.none ∷ [];
  woken = [];
}

waiting-Waits : Waits option_waker waiting 9 0 7
waiting-Waits = record { before = none; registered = refl; listed = refl; alive = refl }

waiting-IsConsistent : IsConsistent waiting
waiting-IsConsistent = record { distinct = (refl, tt); fresh = (omega arith, tt); live = (tt, tt) }

abbrev one_byte : RangeType
one_byte = record { begin = 0; end = 1 }

abbrev race : List Event
race =
    allocates 9
    ∷ receives 9 (65 ∷ []) none one_byte
    ∷ drops 9
    ∷ delivers 0
    ∷ polls 9 7
    ∷ expires
    ∷ []

run-new_system_example :
    (s : System (Option ℕ)) × (run option_waker tt new_system race ≡ returns s) × IsSafe s
run-new_system_example = run-new_system option_waker {C = Unit {0}} tt race

response_wakes_example :
    (d : RequestContext (Option ℕ)) × (set_response option_waker waiting 9 (65 ∷ []) one_byte none
      ≡ (d, ok tt))
    × (d.woken ≡ 7 ∷ [])
    × Ends option_waker {C = Unit {0}} tt d 9 0 8
        (arrived option_waker {C = Unit {0}} tt (65 ∷ []) one_byte none)
response_wakes_example =
    response_wakes option_waker tt waiting 9 0 7 8 (65 ∷ []) one_byte none
      option_waker-IsAtomicWaker waiting-Waits

write_failure_wakes_example :
    let d = set_request_write_failed option_waker waiting 9 in
    (d.woken ≡ 7 ∷ []) × Ends option_waker {C = Unit {0}} tt d 9 0 8 (err closed)
write_failure_wakes_example =
    write_failure_wakes option_waker tt waiting 9 0 7 8 option_waker-IsAtomicWaker waiting-Waits

mark_expired_wakes_example :
    let d = mark_expired option_waker waiting in
    Mem 7 d.woken × Ends option_waker {C = Unit {0}} tt d 9 0 8 (err closed)
mark_expired_wakes_example =
    mark_expired_wakes option_waker tt waiting 9 0 7 8 option_waker-IsAtomicWaker
      waiting-IsConsistent waiting-Waits

-- A typed response is one byte, of which an even one is no value.
abbrev even_fails : Response (Unit {0}) → Result ℕ (Unit {0})
even_fails resp = elim resp.raw [ [] ↦ err tt | b ∷ bs ↦ (if b % 2 == 0 then err tt else ok b) ]

abbrev no_error : ErrorResponse (Unit {0}) → Result (Unit {0}) (Unit {0})
no_error resp = ok tt
