-- ===== src/Protocol/Conn/Payload.antt =====
-- The payloads of a packet in protocol/fpproto.c: process_alloc, process_areq and
-- fpproto_perform_rx_callbacks. A packet is the list of its bytes, a pointer its offset; the
-- A-REQ data that emulation adds at the controller is left out.
pub mod Laws
use flexplane.Base.{
  ℕ, zero, suc, ◌+◌, ◌-◌, ◌*◌, ◌/◌, ◌%◌, ◌^◌, Bool, true, false, ◌||◌, List, [], ◌∷◌, ltb, leb,
  ◌==◌, Option, none, some, if◌then◌else◌, get_or, take, drop,
}
use flexplane.Base.Checked.{Checked, ok, bug, bug_on, ◌>>=◌, ◌>>◌}
use flexplane.Protocol.Conn.{Config, Conn, handle_alloc, handle_areq, call, inc}

-- `ntohs` of the two bytes at an offset.
abbrev pub net16 : List ℕ → ℕ → ℕ
net16 pkt i = 256 * get_or pkt i 0 + get_or pkt (i + 1) 0

abbrev pub net32 : List ℕ → ℕ → ℕ
net32 pkt i = 65536 * net16 pkt i + net16 pkt (i + 2)

-- The first n 16-bit numbers at an offset.
abbrev pub net16s : List ℕ → ℕ → ℕ → List ℕ
net16s pkt i zero = []
net16s pkt i (suc n) = net16 pkt i ∷ net16s pkt (i + 2) n

-- The length of the payload, or `none` for the result -1.
unfoldable pub process_alloc : Config → Conn → List ℕ → ℕ → ℕ → Option ℕ × Conn
process_alloc cfg conn pkt curp data_end =
    let incomplete = record conn {
      stat = record conn.stat { rx_incomplete_alloc = inc conn.stat.rx_incomplete_alloc };
    } in
    let payload_type = net16 pkt curp in
    let alloc_n_dst = payload_type / 256 % 16 in
    let alloc_n_tslots = 2 * (payload_type % 64) in
    let n_bytes = 4 + 2 * alloc_n_dst + alloc_n_tslots * cfg.alloc_bytes_per_tslot in
    let tslots = drop (curp + 4 + 2 * alloc_n_dst) pkt in
    if ltb data_end (curp + 2)
    then (none, incomplete)
    else if ltb data_end (curp + 2 + n_bytes)
    then (none, incomplete)
    else (
      some n_bytes,
      call conn (
          handle_alloc (16 * net16 pkt (curp + 2)) (net16s pkt (curp + 4) alloc_n_dst)
            (take (alloc_n_tslots * cfg.alloc_bytes_per_tslot) tslots) alloc_n_tslots),
    )

unfoldable pub process_areq : Conn → List ℕ → ℕ → ℕ → Option ℕ × Conn
process_areq conn pkt curp data_end =
    let incomplete = record conn {
      stat = record conn.stat { rx_incomplete_areq = inc conn.stat.rx_incomplete_areq };
    } in
    let n_dst = net16 pkt curp % 64 in
    if ltb data_end (curp + 2)
    then (none, incomplete)
    else if ltb data_end (curp + 2 + 4 * n_dst)
    then (none, incomplete)
    else (some (2 + 4 * n_dst), call conn (handle_areq (net16s pkt (curp + 2) (2 * n_dst)) n_dst))

abbrev pub ptype_padding : ℕ
ptype_padding = 0

abbrev pub ptype_reset : ℕ
ptype_reset = 1

abbrev pub ptype_areq : ℕ
ptype_areq = 2

abbrev pub ptype_alloc : ℕ
ptype_alloc = 3

abbrev pub ptype_ack : ℕ
ptype_ack = 4

abbrev pub ptype_emu_alloc : ℕ
ptype_emu_alloc = 5

abbrev pub ptype_emu_areq : ℕ
ptype_emu_areq = 6

-- `curp += payload_length`
abbrev pub advance : ℕ → Option ℕ → Option ℕ
advance curp none = none
advance curp (some n) = some (curp + n)

-- One pass of the loop from `handle_payload`: the offset after the payload, or `none` where the
-- function returns false.
unfoldable pub handle_payload : Config → Conn → List ℕ → ℕ → ℕ → Option ℕ × Conn
handle_payload cfg conn pkt curp data_end =
    let payload_type = get_or pkt curp 0 / 16 in
    let alloc = process_alloc cfg conn pkt curp data_end in
    let areq = process_areq conn pkt curp data_end in
    if payload_type == ptype_ack
    then (some (curp + 6), conn)
    else if payload_type == ptype_reset
    then (some (curp + 8), conn)
    else if (payload_type == ptype_alloc) || (payload_type == ptype_emu_alloc)
    then (advance curp alloc.0, alloc.1)
    else if (payload_type == ptype_areq) || (payload_type == ptype_emu_areq)
    then (advance curp areq.0, areq.1)
    else if payload_type == ptype_padding
    then (some data_end, conn)
    else (
      none,
      record conn {
        stat = record conn.stat { rx_unknown_payload = inc conn.stat.rx_unknown_payload };
      },
    )

-- The loop; each pass but the last moves on by a byte or more. Running out of fuel is a bug.
unfoldable pub handle_payloads : ℕ → Config → Conn → List ℕ → ℕ → ℕ → Checked (Bool × Conn)
handle_payloads zero cfg conn pkt curp data_end = bug
handle_payloads (suc fuel) cfg conn pkt curp data_end =
    let handled = handle_payload cfg conn pkt curp data_end in
    elim handled.0 [
      | none ↦ ok (false, handled.1)
      | some next ↦ elim (ltb next data_end) [
        | true ↦ handle_payloads fuel cfg handled.1 pkt next data_end
        | false ↦ ok (true, handled.1)
      ]
    ]

unfoldable pub fpproto_perform_rx_callbacks : Config → Conn → List ℕ → ℕ → Checked (Bool × Conn)
fpproto_perform_rx_callbacks cfg conn pkt len = do
  bug_on (len == 8)
  handle_payloads len cfg conn pkt 8 len
