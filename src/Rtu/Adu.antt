-- ===== src/Rtu/Adu.antt =====
-- modbus/rtu/adu.go: the RTU frame, its encoding and its checks.
pub mod RoundTrip
pub mod Accepts
use modbus_gateway.Base.{
  ℕ, ◌+◌, ◌-◌, ◌*◌, ◌/◌, ◌%◌, bit_or, List, [], ◌∷◌, ◌++◌, get_or, length, take, drop, Bytes, ltb,
  ◌==◌, not, if◌then◌else◌, Outcome, ok, err, ◌>>=◌, ◌>>◌, fail_if,
}
use modbus_gateway.Crc.{Crc, value, checksum}
use modbus_gateway.Pdu.{Pdu}

abbrev pub min_size : ℕ
min_size = 4

abbrev pub max_size : ℕ
max_size = 256

-- `ApplicationDataUnit`.
pub record ApplicationDataUnit : Type 0 where
  pub slave_id : ℕ
  pub pdu : Pdu
  pub crc : Crc

-- The errors of this file, by what they report.
pub data AduError : Type 0 where
  too_short : ℕ → AduError
  crc_mismatch : ℕ → ℕ → AduError
  too_long : ℕ → AduError
  slave_mismatch : ℕ → ℕ → AduError

-- `Decode`. The indices lie in `raw`, since its length is at least 4.
unfoldable pub decode : Bytes → Outcome AduError ApplicationDataUnit
decode raw = do
  let length_raw = length raw
  fail_if (ltb length_raw min_size) (too_short length_raw)
  let crc = checksum (take (length_raw - 2) raw)
  let sum = bit_or (get_or raw (length_raw - 1) 0 * 256) (get_or raw (length_raw - 2) 0)
  fail_if (not (sum == value crc)) (crc_mismatch sum (value crc))
  ok (record {
    slave_id = get_or raw 0 0;
    pdu = record { function_code = get_or raw 1 0; payload = take (length_raw - 4) (drop 2 raw) };
    crc = crc;
  })

-- `Encode`.
unfoldable pub encode : ApplicationDataUnit → Outcome AduError Bytes
encode adu = do
  let size = length adu.pdu.payload + 4
  fail_if (ltb max_size size) (too_long size)
  let body = adu.slave_id ∷ adu.pdu.function_code ∷ adu.pdu.payload
  let sum = value (checksum body)
  ok (body ++ (sum % 256 ∷ sum / 256 % 256 ∷ []))

-- `Verify`: of a response against the request.
unfoldable pub verify : ApplicationDataUnit → ApplicationDataUnit → Outcome AduError (Unit {0})
verify req resp = do
  let size = length resp.pdu.payload + 4
  fail_if (ltb size min_size) (too_short size)
  fail_if (not (req.slave_id == resp.slave_id)) (slave_mismatch resp.slave_id req.slave_id)
  ok tt
