-- ===== src/Protocol/Conn/Payload/Laws.antt =====
-- The loop over the payloads of a packet.
use flexplane.Base.{
  ℕ, zero, suc, ◌+◌, ◌*◌, ◌/◌, ◌%◌, ◌≤◌, ◌<◌, ◌≡◌, refl, ◌⊎◌, Bool, true, false, ◌||◌, List, ltb,
  ◌==◌, Option, none, some, Bool-cases, inl, inr, get_or, arith,
}
use mathlib.Core.Path.{subst}
use flexplane.Base.Checked.{ok}
use flexplane.Protocol.Conn.{Config, Conn}
use flexplane.Protocol.Conn.Payload.{
  net16, advance, process_alloc, process_areq, handle_payload, handle_payloads,
  fpproto_perform_rx_callbacks,
}

-- An offset after curp, or the end.
abbrev IsProgress : ℕ → ℕ → Option ℕ → Type 0
IsProgress curp data_end none = Unit
IsProgress curp data_end (some next) = (next < data_end) → (curp < next)

-- A payload of two bytes or more.
abbrev IsLong : Option ℕ × Conn → Type 0
IsLong (none, c) = Unit
IsLong (some n, c) = 2 ≤ n

process_alloc-IsLong :
    (cfg : Config) (c : Conn) (pkt : List ℕ) (curp data_end : ℕ)
    → IsLong (process_alloc cfg c pkt curp data_end)
unfolding process_alloc
process_alloc-IsLong cfg c pkt curp data_end =
    let payload_type = net16 pkt curp in
    let dsts = 2 * (payload_type / 256 % 16) in
    let tslots = 2 * (payload_type % 64) * cfg.alloc_bytes_per_tslot in
    elim (Bool-cases (ltb data_end (curp + 2))) [
      | inl no_type ↦ rw no_type tt
      | inr typed ↦ elim (Bool-cases (ltb data_end (curp + 2 + (4 + dsts + tslots)))) [
        | inl short ↦ rw (typed, short) tt
        | inr long ↦ rw (typed, long) (omega arith)
      ]
    ]

process_areq-IsLong :
    (c : Conn) (pkt : List ℕ) (curp data_end : ℕ) → IsLong (process_areq c pkt curp data_end)
unfolding process_areq
process_areq-IsLong c pkt curp data_end = elim (Bool-cases (ltb data_end (curp + 2))) [
  | inl no_type ↦ rw no_type tt
  | inr typed ↦ elim (Bool-cases (ltb data_end (curp + 2 + 4 * (net16 pkt curp % 64)))) [
    | inl short ↦ rw (typed, short) tt
    | inr long ↦ rw (typed, long) (omega arith)
  ]
]

advance-IsProgress :
    (r : Option ℕ × Conn) (curp data_end : ℕ)
    → IsLong r
    → IsProgress curp data_end (advance curp r.0)
advance-IsProgress (none, c) curp data_end long = tt
advance-IsProgress (some n, c) curp data_end long = λ _. omega arith

handle_payload-IsProgress :
    (cfg : Config) (c : Conn) (pkt : List ℕ) (curp data_end : ℕ)
    → IsProgress curp data_end (handle_payload cfg c pkt curp data_end).0
unfolding handle_payload
handle_payload-IsProgress cfg c pkt curp data_end =
    let t = get_or pkt curp 0 / 16 in
    let alloc = advance-IsProgress _ curp data_end (process_alloc-IsLong cfg c pkt curp data_end) in
    let areq = advance-IsProgress _ curp data_end (process_areq-IsLong c pkt curp data_end) in
    elim (Bool-cases (t == 4)) [
      | inl ack ↦ rw ack (λ _. omega arith)
      | inr e4 ↦ elim (Bool-cases (t == 1)) [
        | inl reset ↦ rw (e4, reset) (λ _. omega arith)
        | inr e1 ↦ elim (Bool-cases ((t == 3) || (t == 5))) [
          | inl is_alloc ↦ rw (e4, e1, is_alloc) alloc
          | inr e3 ↦ elim (Bool-cases ((t == 2) || (t == 6))) [
            | inl is_areq ↦ rw (e4, e1, e3, is_areq) areq
            | inr e2 ↦ elim (Bool-cases (t == 0)) [
              | inl padding ↦ rw (e4, e1, e3, e2, padding) (λ h. absurd (omega (arith, h)))
              | inr unknown ↦ rw (e4, e1, e3, e2, unknown) tt
            ]
          ]
        ]
      ]
    ]

Option-cases : (o : Option ℕ) → (o ≡ none) ⊎ ((n : ℕ) × (o ≡ some n))
Option-cases none = inl refl
Option-cases (some n) = inr (n, refl)

handle_payloads-returns :
    (fuel : ℕ) (cfg : Config) (c : Conn) (pkt : List ℕ) (curp data_end : ℕ)
    → curp < data_end
    → data_end ≤ curp + fuel
    → (r : Bool × Conn) × (handle_payloads fuel cfg c pkt curp data_end ≡ ok r)
unfolding handle_payloads
handle_payloads-returns zero cfg c pkt curp data_end h k = absurd (omega arith)
handle_payloads-returns (suc fuel) cfg c pkt curp data_end h k =
    let handled = handle_payload cfg c pkt curp data_end in
    let progress = handle_payload-IsProgress cfg c pkt curp data_end in
    elim (Option-cases handled.0) [
      | inl stop ↦ ((false, handled.1), rw (handle_payloads, stop) refl)
      | inr (next, on) ↦ elim (Bool-cases (ltb next data_end)) [
        | inr last ↦ ((true, handled.1), rw (handle_payloads, on, last) refl)
        | inl more ↦
            let moved : IsProgress curp data_end (some next) =
              subst (IsProgress curp data_end) on progress in
            let (r, e) =
              handle_payloads-returns fuel cfg handled.1 pkt next data_end (ground arith)
                (ground (arith, moved (ground arith))) in
            (r, rw (handle_payloads, on, more) e)
      ]
    ]

-- For a packet of more than 8 bytes, whatever they are, `fpproto_perform_rx_callbacks` raises no
-- bug and does not run out of fuel.
pub fpproto_perform_rx_callbacks-returns :
    (cfg : Config) (c : Conn) (pkt : List ℕ) (len : ℕ)
    → 8 < len
    → (r : Bool × Conn) × (fpproto_perform_rx_callbacks cfg c pkt len ≡ ok r)
unfolding fpproto_perform_rx_callbacks
fpproto_perform_rx_callbacks-returns cfg c pkt len h =
    let longer : (len == 8) ≡ false = ground arith in
    let (r, e) = handle_payloads-returns len cfg c pkt 8 len h (omega arith) in (r, rw longer e)
