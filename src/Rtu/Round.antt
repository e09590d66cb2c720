-- ===== src/Rtu/Round.antt =====
-- transport/rtu/server.go and transport/rtu-over-tcp/server.go: what one round of their loops comes
-- to.
use modbus_gateway.Base.{List}
use modbus_gateway.Rtu.Adu.{ApplicationDataUnit}
use modbus_gateway.Reads.{Incoming}

-- The round waits for bytes, ends the loop, panics, goes to the next round with what is left, or has
-- a request.
pub data Round : Type 0 where
  pending stopped crashed : Round
  again : List Incoming → Round
  request : ApplicationDataUnit → List Incoming → Round
