-- ===== src/Local.antt =====
-- transport/local/client.go: the local slave as a downstream.
pub mod Serves
pub mod Startup
use modbus_gateway.Base.{false, Outcome, ok, err, panic}
use modbus_gateway.Pdu.{Pdu}
use modbus_gateway.DataModel.{ModelError}
use modbus_gateway.Storage.{Storage}
use modbus_gateway.Slave.{LocalSlave, Handled, process}
use modbus_gateway.Transport.{GoError, RequestHandler}

module _ {S : Type 0} where
  -- What `Process` returned, and the slave after it.
  abbrev pub returned : LocalSlave S → Handled S → Outcome GoError Pdu × LocalSlave S
  returned s (ok (resp, s')) = (ok resp, s')
  returned s (err e) = (err (record { is_deadline_exceeded = false; text = "" }), s)
  returned s panic = (panic, s)

  -- `Send`.
  unfoldable pub send : Storage S → RequestHandler (LocalSlave S)
  send ops s id req = returned s (process ops s req)

  -- `Connect` does nothing. `Close` closes a storage that has a `Close` without a result; the
  -- storages have one that returns an error, so that it does nothing either.
  abbrev pub connect : LocalSlave S → LocalSlave S
  connect s = s

  abbrev pub close : LocalSlave S → LocalSlave S
  close s = s
