-- ===== src/Server.antt =====
-- solo-machine/src/server: the gRPC services. A request is read into arguments, a service of
-- solo-machine-core is called with them, and its error becomes a status.
pub mod Config
pub mod Chain
pub mod Ibc
pub mod Paging
pub mod RoundTrip
pub mod Rejection
use ibc_solo_machine.Base.{Result, ok, err, panic, Error}
use ibc_solo_machine.Exec.{World, Exec}

-- The codes of `tonic::Status`; a message is the error that it prints.
pub data Status : Type 0 where
  invalid_argument internal : Error → Status
  not_found : Status

-- `Result<Response<A>, Status>`, or a panic.
pub data Reply (A : Type 0) : Type 0 where
  response : A → Reply A
  refused : Status → Reply A
  crashed : Reply A

module _ {A : Type 0} where
  -- `map_err(|err| Status::internal(err.to_string()))`
  abbrev pub or_internal : Result A → Reply A
  or_internal (ok a) = response a
  or_internal (err e) = refused (internal e)
  or_internal panic = crashed

module _ {A B : Type 0} where
  -- A request whose reading fails is an invalid argument, before the service is called.
  unfoldable pub respond : Result A → (A → Exec B) → World → Reply B × World
  respond (ok a) service w = (or_internal (service a w).0, (service a w).1)
  respond (err e) service w = (refused (invalid_argument e), w)
  respond panic service w = (crashed, w)

  -- The operator `?` on a reply.
  abbrev pub then_reply : Reply A → (A → Reply B) → Reply B
  then_reply (response a) rest = rest a
  then_reply (refused s) rest = refused s
  then_reply crashed rest = crashed

  abbrev pub map_reply : (A → B) → Reply A → Reply B
  map_reply f (response a) = response (f a)
  map_reply f (refused s) = refused s
  map_reply f crashed = crashed
