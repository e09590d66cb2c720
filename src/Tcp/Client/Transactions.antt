-- ===== src/Tcp/Client/Transactions.antt =====
-- transport/tcp/client.go: the transactions of a client's calls, and an answer that comes late.
use modbus_gateway.Base.{
  sym, ◌∙◌, ap, ℕ, ◌+◌, ◌^◌, ◌%◌, ◌≤◌, ◌<◌, ◌≡◌, ◌≢◌, refl, ◌⊎◌, inl, inr, ◌++◌, Bytes, Bool, true,
  false, ◌==◌, if◌then◌else◌, arith, Outcome, ok, err, panic, Option, some, none,
}
use modbus_gateway.Pdu.{Pdu}
use modbus_gateway.Tcp.Adu.{
  transaction_mismatch, ApplicationDataUnit, AduError, decode, encode, verify,
}
use modbus_gateway.Tcp.Client.{
  io_failed, verify_failed, connect_failed, Client, Network, ClientError, Sent, connect,
  request_adu, read_frame, response, finish, exchange, send, connect_client, close_client,
}

-- Calls on a client, by the number of those of `Send` among them. Each call holds the lock.
pub data Calls (c : Client) : ℕ → Client → Type 0 where
  no_calls : Calls c 0 c
  sends :
      (n : ℕ) (mid : Client) (net : Network) (id : ℕ) (req : Pdu)
      → Calls c n mid
      → Calls c (n + 1) (send mid net id req).client
  connects :
      (n : ℕ) (mid : Client) (dials : Bool) → Calls c n mid → Calls c n (connect_client mid dials).1
  closes : (n : ℕ) (mid : Client) → Calls c n mid → Calls c n (close_client mid)

finish-transaction :
    (tid : ℕ) (adu : ApplicationDataUnit) (raw : Bytes) (o : Option (Bytes × Bytes))
    → (finish tid adu raw o).client.transaction_id ≡ tid
unfolding finish
finish-transaction tid adu raw none = refl
finish-transaction tid adu raw (some (frame, rest)) = refl

exchange-transaction :
    (net : Network) (tid : ℕ) (adu : ApplicationDataUnit) (unread : Bytes)
    (o : Outcome AduError Bytes)
    → (exchange net tid adu unread o).client.transaction_id ≡ tid
unfolding exchange
exchange-transaction net tid adu unread (err e) = refl
exchange-transaction net tid adu unread panic = refl
exchange-transaction net tid adu unread (ok raw) = go net.deadline_set net.writes
  where
    go :
        (d w : Bool)
        → (let failed : Sent = record {
          result = err ClientError.io_failed;
          client = record { transaction_id = tid; unread = none };
          written = none;
        } in
            if d
            then (if w then finish tid adu raw (read_frame (unread ++ net.received)) else failed)
            else failed).client.transaction_id
          ≡ tid
    go true true = finish-transaction tid adu raw (read_frame (unread ++ net.received))
    go true false = refl
    go false w = refl

-- A call goes on to the next transaction, or it found no connection.
send-transaction :
    (c : Client) (net : Network) (id : ℕ) (req : Pdu)
    → ((send c net id req).client.transaction_id ≡ (c.transaction_id + 1) % 2 ^ 32)
      ⊎ ((send c net id req).client ≡ c)
unfolding send
send-transaction c net id req = go (connect c.unread net.connects)
  where
    go :
        (o : Option Bytes)
        → let tid = (c.transaction_id + 1) % 2 ^ 32 in
          let sent : Sent = elim o [
            | none ↦ record { result = err connect_failed; client = c; written = none }
            | some unread ↦
                let adu = request_adu tid id req in exchange net tid adu unread (encode adu)
          ] in
          (sent.client.transaction_id ≡ tid) ⊎ (sent.client ≡ c)
    go none = inr refl
    go (some unread) =
        let tid = (c.transaction_id + 1) % 2 ^ 32 in
        let adu = request_adu tid id req in
        inl (exchange-transaction net tid adu unread (encode adu))

connect_client-transaction :
    (c : Client) (dials : Bool) → (connect_client c dials).1.transaction_id ≡ c.transaction_id
unfolding connect_client
connect_client-transaction c dials = go (connect c.unread dials)
  where
    go :
        (o : Option Bytes)
        → let after : Option ClientError × Client = elim o [
          | some unread ↦ (none, record c { unread = some unread })
          | none ↦ (some connect_failed, c)
        ] in
          after.1.transaction_id ≡ c.transaction_id
    go none = refl
    go (some unread) = refl

close_client-transaction : (c : Client) → (close_client c).transaction_id ≡ c.transaction_id
unfolding close_client
close_client-transaction c = refl

-- The transaction behind some calls, from the one before them.
Calls-transaction :
    (c c' : Client) (n : ℕ)
    → Calls c n c'
    → c.transaction_id < 2 ^ 32
    → (k : ℕ) × (k ≤ n) × (c'.transaction_id ≡ (c.transaction_id + k) % 2 ^ 32)
Calls-transaction c c' n no_calls h = (0, omega arith, omega arith)
Calls-transaction c c' n (sends m mid net id req calls) h =
    let (k, l, e) = Calls-transaction c mid m calls h in
    elim (send-transaction mid net id req) [
      | inl next ↦ (k + 1, omega arith, omega arith)
      | inr same ↦ (k, omega arith, ap Client.transaction_id same ∙ e)
    ]
Calls-transaction c c' n (connects m mid dials calls) h =
    let (k, l, e) = Calls-transaction c mid m calls h in
    (k, l, connect_client-transaction mid dials ∙ e)
Calls-transaction c c' n (closes m mid calls) h =
    let (k, l, e) = Calls-transaction c mid m calls h in (k, l, close_client-transaction mid ∙ e)

response-mismatch :
    (adu late : ApplicationDataUnit) (frame : Bytes)
    → decode frame ≡ ok late
    → late.transaction_id ≢ adu.transaction_id
    → response adu frame
      ≡ err (verify_failed (transaction_mismatch late.transaction_id adu.transaction_id))
unfolding response verify
response-mismatch adu late frame d differs =
    let off : (late.transaction_id == adu.transaction_id) ≡ false = ground arith in
    rw d (rw off refl)

exchange-late :
    (net : Network) (tid : ℕ) (adu late : ApplicationDataUnit) (unread frame rest : Bytes)
    (resp : Pdu) (o : Outcome AduError Bytes)
    → read_frame (unread ++ net.received) ≡ some (frame, rest)
    → decode frame ≡ ok late
    → late.transaction_id ≢ adu.transaction_id
    → (exchange net tid adu unread o).result ≢ ok resp
unfolding exchange finish
exchange-late net tid adu late unread frame rest resp (err e) f d differs h = cc
exchange-late net tid adu late unread frame rest resp panic f d differs h = cc
exchange-late net tid adu late unread frame rest resp (ok raw) f d differs h =
    go net.deadline_set net.writes h
  where
    go :
        (d w : Bool)
        → let failed : Sent = record {
          result = err io_failed;
          client = record { transaction_id = tid; unread = none };
          written = none;
        } in
          (if d
            then (if w then finish tid adu raw (read_frame (unread ++ net.received)) else failed)
            else failed).result
          ≢ ok resp
    go true true h =
        let refused = response-mismatch adu late frame d differs in
        let read = ap (λ o. (finish tid adu raw o).result) f in cc
    go true false h = cc
    go false w h = cc

-- A client as a call of `Send` left it, and the same client behind further calls, fewer than 65535 of
-- them of `Send`: if the next call has the answer to the earlier call's request next on its
-- connection, it does not return it as its response, since the transactions differ.
pub send-late :
    (first last : Client) (net : Network) (id n : ℕ) (req : Pdu) (unread frame rest : Bytes)
    (late : ApplicationDataUnit) (resp : Pdu)
    → first.transaction_id < 2 ^ 32
    → Calls first n last
    → n < 65535
    → connect last.unread net.connects ≡ some unread
    → read_frame (unread ++ net.received) ≡ some (frame, rest)
    → decode frame ≡ ok late
    → late.transaction_id ≡ first.transaction_id % 65536
    → (send last net id req).result ≢ ok resp
unfolding send exchange finish
send-late first last net id n req unread frame rest late resp w calls near c f d is_late h =
    let (k, l, e) = Calls-transaction first last n calls w in
    let tid = (last.transaction_id + 1) % 2 ^ 32 in
    let adu = request_adu tid id req in
    let differs : late.transaction_id ≢ tid % 65536 = λ q. omega arith in
    let sent : Option Bytes → Sent = λ o. elim o [
      | none ↦ record { result = err connect_failed; client = last; written = none }
      | some bytes ↦ exchange net tid adu bytes (encode adu)
    ] in
    let connected = ap (λ o. (sent o).result) c in
    exchange-late net tid adu late unread frame rest resp (encode adu) f d
      (unfold request_adu in differs) (sym connected ∙ h)
