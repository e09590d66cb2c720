-- ===== src/Serial/Client/Answered.antt =====
-- transport/rtu/client.go: what `Send` returns, and when it panics.
use modbus_gateway.Base.{
  ltb→lt, ◌==◌, ltb, Bool-cases, inl, inr, subst, ℕ, ◌+◌, ◌<◌, ◌≡◌, ◌≢◌, ◌↔◌, ◌⊎◌, refl, sym, ◌∙◌,
  [], ◌++◌, length, get_or, Bytes, Bool, true, false, IsByte, All, All-append, arith, if◌then◌else◌,
  Outcome, ok, err, panic, ◌>>=◌, Option, some, none,
}
use modbus_gateway.Pdu.{Pdu, IsPdu}
use modbus_gateway.Rtu.Adu.{too_long, ApplicationDataUnit, decode, encode, verify}
use modbus_gateway.Rtu.Adu.RoundTrip.{frame, encode-frame}
use modbus_gateway.Rtu.Framer.{FrameError, Reading, calculate_response_length}
use modbus_gateway.Rtu.Framer.Bounds.{Bounded, read_response-Bounded}
use modbus_gateway.Rtu.Framer.Lengths.{IsCounted, calculate_response_length-panic}
use modbus_gateway.RtuOverTcp.Client.{request_adu}
use modbus_gateway.RtuOverTcp.Client.Answered.{UnreadBytes}
use modbus_gateway.Serial.Port.{opened, context_done, SerialPort, connect, start_close_timer}
use modbus_gateway.Serial.Client.{
  connected, after_delay, finish, Line, ClientError, write_failed, after_write, on_port, transport,
  response, send,
}

-- The write of the request succeeds, on a port that is open or opens.
abbrev pub Reaches : SerialPort → Line → Type 0
Reaches p line =
    (line.access.is_done ≡ false)
    × ((line.access.opens ≡ true) ⊎ ((unread : Bytes) × (p.port ≡ some unread)))
    × (line.writes ≡ true)

finish-returns :
    (p : SerialPort) (id code : ℕ) (r : Reading) → Bounded id code r.0 → (finish p r).result ≢ panic
finish-returns p id code (ok raw, rest) b = λ h. cc
finish-returns p id code (err e, rest) b = λ h. cc
finish-returns p id code (panic, rest) b = λ h. b

after_delay-returns :
    (p : SerialPort) (line : Line) (unread adu : Bytes) (d : Bool)
    → All IsByte (unread ++ line.received)
    → (after_delay p line unread adu d).result ≢ panic
after_delay-returns p line unread adu true b = λ h. cc
after_delay-returns p line unread adu false b =
    finish-returns p (get_or adu 0 0) (get_or adu 1 0) _ (
      read_response-Bounded (get_or adu 0 0) (get_or adu 1 0)
        (record { bytes = unread ++ line.received; stop = line.stop }) b)

after_write-panic :
    (p : SerialPort) (line : Line) (unread adu : Bytes) (expected : Outcome FrameError ℕ)
    → All IsByte (unread ++ line.received)
    → ((after_write p line unread adu expected).result ≡ panic) ↔ (expected ≡ panic)
after_write-panic p line unread adu (ok n) b =
    ((λ h. absurd (after_delay-returns p line unread adu line.done_waiting b h)), λ h. cc)
after_write-panic p line unread adu (err e) b =
    ((λ h. absurd (after_delay-returns p line unread adu line.done_waiting b h)), λ h. cc)
after_write-panic p line unread adu panic b = ((λ h. refl), λ h. refl)

on_port-panic :
    (p : SerialPort) (line : Line) (unread adu : Bytes)
    → All IsByte unread
    → All IsByte line.received
    → ((on_port p line adu (some unread)).result ≡ panic)
      ↔ ((line.writes ≡ true) × (calculate_response_length {E = FrameError} adu ≡ panic))
on_port-panic p line unread adu bu br = go line.writes
  where
    all : All IsByte (unread ++ line.received)
    all = All-append IsByte unread line.received bu br

    o : Outcome FrameError ℕ
    o = calculate_response_length adu

    go :
        (w : Bool)
        → ((if w
              then after_write p line unread adu o
              else record { result = err write_failed; after = p }).result
            ≡ panic)
          ↔ ((w ≡ true) × (o ≡ panic))
    go true = (
      (λ h. (refl, (after_write-panic p line unread adu o all).0 h)),
      λ h. (after_write-panic p line unread adu o all).1 h.1,
    )
    go false = ((λ h. cc), λ h. cc)

start_close_timer-port : (p : SerialPort) (now : ℕ) → (start_close_timer p now).port ≡ p.port
unfolding start_close_timer
start_close_timer-port p now = go (p.idle_timeout == 0)
  where
    go :
        (b : Bool)
        → (if b then p else record p { close_timer = some (now + p.idle_timeout) }).port ≡ p.port
    go true = refl
    go false = refl

connected-panic :
    (p : SerialPort) (line : Line) (unread adu : Bytes)
    → p.port ≡ some unread
    → All IsByte unread
    → All IsByte line.received
    → ((connected line adu (p, none)).result ≡ panic)
      ↔ ((line.writes ≡ true) × (calculate_response_length {E = FrameError} adu ≡ panic))
connected-panic p line unread adu e bu br =
    let active = start_close_timer (record p { last_activity = line.now }) line.now in
    let is_open : active.port ≡ some unread = start_close_timer-port _ line.now ∙ e in
    subst
      (λ x.
        ((on_port active line adu x).result ≡ panic)
        ↔ ((line.writes ≡ true) × (calculate_response_length {E = FrameError} adu ≡ panic)))
      (sym is_open) (on_port-panic active line unread adu bu br)

transport-panic :
    (p : SerialPort) (line : Line) (adu : Bytes)
    → UnreadBytes p.port
    → All IsByte line.received
    → ((transport p line adu).result ≡ panic)
      ↔ (Reaches p line × (calculate_response_length {E = FrameError} adu ≡ panic))
unfolding transport connect
transport-panic p line adu bu br = go line.access.is_done line.access.opens p.port refl bu
  where
    calc : Type 0
    calc = calculate_response_length {E = FrameError} adu ≡ panic

    go :
        (d o : Bool) (x : Option Bytes)
        → p.port ≡ x
        → UnreadBytes x
        → ((connected line adu (if d then (p, some context_done) else opened p o x)).result ≡ panic)
          ↔ (((d ≡ false)
                × ((o ≡ true) ⊎ ((unread : Bytes) × (x ≡ some unread)))
                × (line.writes ≡ true))
              × (calculate_response_length {E = FrameError} adu ≡ panic))
    go true o x e b = ((λ h. cc), λ h. cc (h.0.0))
    go false o (some unread) e b =
        let (there, back) = connected-panic p line unread adu e b br in
        ((λ h. let (w, c) = there h in ((refl, inr (unread, refl), w), c)), λ h. back (h.0.2, h.1))
    go false true none e b =
        let (there, back) = connected-panic (record p { port = some [] }) line [] adu refl tt br in
        ((λ h. let (w, c) = there h in ((refl, inl refl, w), c)), λ h. back (h.0.2, h.1))
    go false false none e b = ((λ h. cc), λ h. absurd (closed h.0.1))
      where
        closed : ((false ≡ true) ⊎ ((unread : Bytes) × (none ≡ some unread))) → ⊥
        closed (inl e) = cc
        closed (inr (unread, e)) = cc

response-returns : (adu : ApplicationDataUnit) (raw : Bytes) → response adu raw ≢ panic
unfolding response decode verify
response-returns adu raw h = ground arith

then-response :
    (adu : ApplicationDataUnit) (o : Outcome ClientError Bytes)
    → ((o >>= response adu) ≡ panic) ↔ (o ≡ panic)
then-response adu (ok raw) = ((λ h. absurd (response-returns adu raw h)), λ h. cc)
then-response adu (err e) = ((λ h. cc), λ h. cc)
then-response adu panic = ((λ h. refl), λ h. refl)

encode_long :
    (a : ApplicationDataUnit)
    → ltb 256 (length a.pdu.payload + 4) ≡ true
    → encode a ≡ err (too_long (length a.pdu.payload + 4))
unfolding encode
encode_long a h = rw h refl

-- Of a request of bytes, whatever arrives, `Send` panics exactly if it has written the request, a
-- read or a read with a write, and the data of the request is shorter than two bytes.
pub send-panic :
    (p : SerialPort) (line : Line) (id : ℕ) (req : Pdu)
    → UnreadBytes p.port
    → All IsByte line.received
    → IsByte id
    → IsPdu req
    → ((send p line id req).result ≡ panic)
      ↔ (Reaches p line × IsCounted req.function_code × (length req.payload < 2))
unfolding send
send-panic p line id req bu br hid hreq = elim (Bool-cases (ltb 256 (length req.payload + 4))) [
  | inl long ↦
      rw (encode_long adu long) ((λ h. cc), λ h. absurd (omega (arith, h.2, ltb→lt _ _ long)))
  | inr fits ↦
      let e : encode adu ≡ ok (frame adu) =
        encode-frame adu (record { slave_byte = hid; pdu_bytes = hreq }) (ground arith) in
      let (there, back) = then-response adu (transport p line (frame adu)).result in
      let (sends, sends_back) = transport-panic p line (frame adu) bu br in
      let (short, short_back) = calculate_response_length-panic adu in
      rw e (
        (λ h. (let (r, c) = sends (there h) in let (n, l) = short c in (r, n, l))),
        λ h. back (sends_back (h.0, short_back (h.1, h.2))),
      )
]
  where
    adu : ApplicationDataUnit
    adu = request_adu id req
