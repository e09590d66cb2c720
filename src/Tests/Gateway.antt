-- ===== src/Tests/Gateway.antt =====
-- internal/gateway and main.go on a concrete configuration.
use modbus_gateway.Base.{true, ℕ, ◌≡◌, refl, List, [], ◌∷◌, arith, Option, some, ok, err}
use modbus_gateway.Pdu.{Pdu}
use modbus_gateway.Transport.{RequestHandler}
use modbus_gateway.Gateway.SlaveIds.{Text, parse_slave_ids}
use modbus_gateway.Gateway.SlaveIds.InRange.{Ids, parse_slave_ids-Ids}
use modbus_gateway.Gateway.SlaveIds.Render.{single, range, render, ids_of, parse_slave_ids-render}
use modbus_gateway.Gateway.Routing.{Gateway, setup}

-- The text "1, 4-6".
abbrev ids_text : Text
ids_text = b'1' ∷ b',' ∷ b' ' ∷ b'4' ∷ b'-' ∷ b'6' ∷ []

parse_ids_text : parse_slave_ids ids_text ≡ ok (1 ∷ 4 ∷ 5 ∷ 6 ∷ [])
unfolding parse_slave_ids
parse_ids_text = refl

parse_slave_ids-Ids_example : Ids (parse_slave_ids ids_text)
parse_slave_ids-Ids_example = parse_slave_ids-Ids ids_text

parse_slave_ids-render_example :
    parse_slave_ids (render (single 17 ∷ range 1 3 ∷ [])) ≡ ok (ids_of (single 17 ∷ range 1 3 ∷ []))
parse_slave_ids-render_example =
    parse_slave_ids-render (single 17 ∷ range 1 3 ∷ [])
      (omega arith, ((omega arith, omega arith), tt))

-- A downstream that echoes requests and counts them, and one that fails.
abbrev echo : RequestHandler ℕ
echo s id req = (ok req, s)

abbrev broken : RequestHandler ℕ
broken s id req = (err (record { is_deadline_exceeded = true; text = "" }), s)

abbrev downstreams : List (Option (RequestHandler ℕ) × Text)
downstreams = (some broken, b'9' ∷ []) ∷ (some echo, ids_text) ∷ []

set_up : (g : Gateway (RequestHandler ℕ)) × (setup downstreams ≡ ok g)
unfolding setup parse_slave_ids
set_up = (_, refl)

abbrev read : Pdu
read = record { function_code = 1; payload = 0 ∷ 0 ∷ 0 ∷ 1 ∷ [] }
