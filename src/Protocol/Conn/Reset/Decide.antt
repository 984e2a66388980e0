-- ===== src/Protocol/Conn/Reset/Decide.antt =====
-- The choice between two resets in protocol/fpproto.c: do_proto_reset and reset_payload_handler.
use flexplane.Base.{
  ℕ, ◌^◌, ◌<◌, ◌≡◌, refl, Bool, true, false, not, ◌&&◌, ◌==◌, Bool-cases, inl, inr, if◌then◌else◌,
  add64, sub64, ones64, arith,
}
use flexplane.Base.Checked.{ok}
use flexplane.Protocol.Platform.{time_before64}
use flexplane.Protocol.Window.{wnd_head, wnd_reset}
use flexplane.Protocol.Window.Inv.{IsValid, wnd_reset-IsValid}
use flexplane.Protocol.Conn.{Config, Conn, handle_reset, call, inc}
use flexplane.Protocol.Conn.Outwnd.Free.{free_unacked-IsFreed}
use flexplane.Protocol.Conn.Reset.{
  base_seqno_from_timestamp, egress_seqno_offset, ingress_seqno_offset, tstamp_in_window,
  do_proto_reset, accept_reset, reset_payload_handler, fpproto_force_reset,
}

-- The connection after a reset with the given time.
abbrev pub IsResetTo : ℕ → Bool → Conn → Type 0
IsResetTo time in_sync c = IsValid c.outwnd × (c.last_reset_time ≡ time) × (c.in_sync ≡ in_sync)

pub do_proto_reset-IsResetTo :
    (cfg : Config) (c : Conn) (time : ℕ) (in_sync : Bool)
    → IsValid c.outwnd
    → (c' : Conn) × (do_proto_reset cfg c time in_sync ≡ ok c') × IsResetTo time in_sync c'
unfolding do_proto_reset
do_proto_reset-IsResetTo cfg c time in_sync v =
    let (freed, done, _) = free_unacked-IsFreed c v in
    let head = sub64 (add64 (base_seqno_from_timestamp time) (egress_seqno_offset cfg)) 1 in
    let small : head < 2 ^ 64 = omega arith in
    let base_seqno = base_seqno_from_timestamp time in
    let reset : Conn = record freed {
      last_reset_time = time;
      outwnd = wnd_reset head;
      in_max_seqno = sub64 (add64 base_seqno (ingress_seqno_offset cfg)) 1;
      inwnd = ones64;
      consecutive_bad_pkts = 0;
      next_timeout_seqno = add64 (wnd_head (wnd_reset head)) 1;
      next_skip_ack_seqno = add64 (wnd_head (wnd_reset head)) 1;
      in_sync = in_sync;
      stat = record freed.stat { proto_resets = inc freed.stat.proto_resets };
    } in
    (reset, rw done refl, (wnd_reset-IsValid head small, refl, refl))

accept_reset-IsResetTo :
    (cfg : Config) (c : Conn) (time : ℕ)
    → IsValid c.outwnd
    → (c' : Conn) × (accept_reset cfg c time ≡ ok c') × IsResetTo time cfg.is_endpoint c'
unfolding accept_reset
accept_reset-IsResetTo cfg c time v =
    let (c', done, r) = do_proto_reset-IsResetTo cfg c time cfg.is_endpoint v in
    (call c' handle_reset, rw done refl, r)

pub fpproto_force_reset-IsResetTo :
    (cfg : Config) (c : Conn) (now : ℕ)
    → IsValid c.outwnd
    → (c' : Conn) × (fpproto_force_reset cfg c now ≡ ok c') × IsResetTo now false c'
unfolding fpproto_force_reset
fpproto_force_reset-IsResetTo cfg c now v =
    do_proto_reset-IsResetTo cfg
      (record c { stat = record c.stat { forced_reset = inc c.stat.forced_reset } }) now false v

-- The table of the source's comment: which of the two timestamps is kept, or the time now.
pub chosen_reset : Conn → ℕ → ℕ → ℕ
chosen_reset c tstamp now =
    let last = c.last_reset_time in
    let newest = if time_before64 tstamp last then last else tstamp in
    if tstamp_in_window last now c.rst_win_ns
    then (if tstamp_in_window tstamp now c.rst_win_ns then newest else last)
    else (if tstamp_in_window tstamp now c.rst_win_ns then tstamp else now)

-- With a valid window `reset_payload_handler` raises no bug and leaves a valid window. The last
-- reset's time becomes the later of the two timestamps if both are recent, the recent one if only
-- one is, and the time now if none is, but stays as it is if both are equal. The packet goes on
-- only if the connection is then at the packet's timestamp.
pub reset_payload_handler_lem :
    (cfg : Config) (c : Conn) (tstamp now : ℕ)
    → IsValid c.outwnd
    → (c' : Conn) × (drop : Bool) × (reset_payload_handler cfg c tstamp now ≡ ok (c', drop))
      × IsValid c'.outwnd
      × (c'.last_reset_time
          ≡ (if tstamp == c.last_reset_time then tstamp else chosen_reset c tstamp now))
      × (drop ≡ false → c'.last_reset_time ≡ tstamp)
unfolding reset_payload_handler chosen_reset
reset_payload_handler_lem cfg c tstamp now v =
    let last = c.last_reset_time in
    let z = record c.stat { reset_payloads = inc c.stat.reset_payloads } in
    elim (Bool-cases (tstamp == last)) [
      | inl same ↦
          let equal : last ≡ tstamp = ground arith in
          (
            record c {
              stat =
                  if cfg.is_endpoint && not c.in_sync
                  then z
                  else record z { redundant_reset = inc z.redundant_reset };
              in_sync = cfg.is_endpoint;
            },
            false,
            rw same refl,
            v,
            rw same equal,
            λ e. equal,
          )
      | inr other ↦ elim (Bool-cases (tstamp_in_window last now c.rst_win_ns)) [
        | inl last_recent ↦ elim (Bool-cases (tstamp_in_window tstamp now c.rst_win_ns)) [
          | inl recent ↦ elim (Bool-cases (time_before64 tstamp last)) [
            | inl earlier ↦ (
              record c {
                stat = record z {
                  reset_both_recent_last_reset_wins = inc z.reset_both_recent_last_reset_wins;
                };
              },
              true,
              rw (other, last_recent, recent, earlier) refl,
              v,
              rw (other, last_recent, recent, earlier) refl,
              λ e. cc e,
            )
            | inr later ↦
                let (c', done, (v', kept, _)) =
                  accept_reset-IsResetTo cfg
                    (record c {
                      stat = record z {
                        reset_both_recent_payload_wins = inc z.reset_both_recent_payload_wins;
                      };
                    })
                    tstamp v in
                (
                  c',
                  false,
                  rw (other, last_recent, recent, later, done) refl,
                  v',
                  rw (other, last_recent, recent, later) kept,
                  λ e. kept,
                )
          ]
          | inr old ↦ (
            record c {
              stat = record z {
                reset_last_recent_payload_old = inc z.reset_last_recent_payload_old;
              };
            },
            true,
            rw (other, last_recent, old) refl,
            v,
            rw (other, last_recent, old) refl,
            λ e. cc e,
          )
        ]
        | inr last_old ↦ elim (Bool-cases (tstamp_in_window tstamp now c.rst_win_ns)) [
          | inl recent ↦
              let (c', done, (v', kept, _)) =
                accept_reset-IsResetTo cfg
                  (record c {
                    stat = record z {
                      reset_last_old_payload_recent = inc z.reset_last_old_payload_recent;
                    };
                  })
                  tstamp v in
              (
                c',
                false,
                rw (other, last_old, recent, done) refl,
                v',
                rw (other, last_old, recent) kept,
                λ e. kept,
              )
          | inr old ↦
              let (c', done, (v', kept, _)) =
                accept_reset-IsResetTo cfg
                  (record c { stat = record z { reset_both_old = inc z.reset_both_old } }) now v in
              (
                c',
                true,
                rw (other, last_old, old, done) refl,
                v',
                rw (other, last_old, old) kept,
                λ e. cc e,
              )
        ]
      ]
    ]
