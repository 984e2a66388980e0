-- ===== src/Tsq/Packet.antt =====
-- kernel-mod/sch_timeslot.c: what the classifiers read of a packet. The numbers of protocols are
-- those of Ethernet and IP.
use flexplane.Base.{ℕ, ◌-◌, ◌+◌, ◌*◌, ◌/◌, ◌%◌, ◌^◌, ◌==◌, if◌then◌else◌, Option, List, get_or, u16}

-- The fields of the kernel's `struct flow_keys` that are read, ports in host order.
pub record FlowKeys : Type 0 where
  pub ip_proto : ℕ
  pub port_src : ℕ
  pub port_dst : ℕ

-- The fields of `struct sk_buff` and of the packet's headers that are read, in host order.
-- `dissected` is what skb_flow_dissect gives, `ip6_daddr` the first 32 bits of the address.
pub record SkBuff : Type 0 where
  pub protocol : ℕ
  pub h_dest : List ℕ
  pub dissected : Option FlowKeys
  pub tos : ℕ
  pub ip_daddr : ℕ
  pub ip6_daddr : ℕ
  pub pkt_len : ℕ

abbrev pub eth_p_all : ℕ
eth_p_all = 0x0003

abbrev pub eth_p_ip : ℕ
eth_p_ip = 0x0800

abbrev pub eth_p_arp : ℕ
eth_p_arp = 0x0806

abbrev pub eth_p_ipv6 : ℕ
eth_p_ipv6 = 0x86DD

abbrev pub eth_p_1588 : ℕ
eth_p_1588 = 0x88F7

abbrev pub ipproto_igmp : ℕ
ipproto_igmp = 2

abbrev pub ipproto_tcp : ℕ
ipproto_tcp = 6

abbrev pub ipproto_udp : ℕ
ipproto_udp = 17

-- Big-endian bytes.
unfoldable pub get_dst_mac : SkBuff → ℕ
get_dst_mac skb =
    let byte = λ (i : ℕ). get_or skb.h_dest i 0 in
    (byte 0 * 2 ^ 8 + byte 1) * 2 ^ 32
    + (byte 2 * 2 ^ 24 + byte 3 * 2 ^ 16 + byte 4 * 2 ^ 8 + byte 5)

unfoldable pub get_priority : SkBuff → ℕ
get_priority skb = if skb.protocol == eth_p_ip then skb.tos / 4 else 0

abbrev pub flow_shift : ℕ
flow_shift = 0

abbrev pub flow_mask : ℕ
flow_mask = 2 ^ flow_shift - 1

abbrev pub num_nodes : ℕ
num_nodes = 64

unfoldable pub fp_map_ip_to_id : ℕ → ℕ
fp_map_ip_to_id ipaddr = u16 (ipaddr % num_nodes)
