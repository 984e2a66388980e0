-- ===== src/Protocol/Conn/Outwnd/Free.antt =====
-- free_unacked of protocol/fpproto.c.
use flexplane.Base.{
  ℕ, Bool, ltb, zero, suc, ◌+◌, ◌-◌, ◌%◌, ◌^◌, ◌≤◌, ◌<◌, ◌≡◌, refl, sym, ap, ◌∙◌, false, Bool-cases,
  inl, inr, Option, none, some, List, [], ◌∷◌, ◌++◌, append_nil, append_assoc, length, not, ◌&&◌,
  ◌==◌, ==-refl, if◌then◌else◌, true, length-append, sub64, arith,
}
use flexplane.Base.Checked.{ok}
use flexplane.Base.Table.{update, update_lem}
use flexplane.Base.Count.{count_below-le, count_below_none}
use flexplane.Protocol.BitArray.{bit_at}
use flexplane.Protocol.Window.{FpWindow, wnd_pos, wnd_is_marked, wnd_at_or_before}
use flexplane.Protocol.Window.Inv.{IsValid, wnd_pos-eq-mod, wnd_is_marked-eq-bit_at}
use flexplane.Protocol.Window.Mark.{wnd_clear_lem}
use flexplane.Protocol.Window.Before.{IsNearestBefore, wnd_at_or_before_lem}
use flexplane.Protocol.Conn.{Conn, Call, PktDesc, pktdesc_free, call}
use flexplane.Protocol.Conn.Outwnd.{outwnd_pop, clear_next_unacked, free_unacked}

num_marked-le : (w : FpWindow) → IsValid w → w.num_marked ≤ 256
num_marked-le w v = rw v.counted (count_below-le 256 (bit_at w.marked))

-- A window without a marked number counts none.
num_marked-zero :
    (w : FpWindow)
    → IsValid w
    → ((t : ℕ) → t < 2 ^ 64 → sub64 w.head t < 192 → wnd_is_marked w t ≡ false)
    → w.num_marked ≡ 0
num_marked-zero w v unmarked =
    v.counted
    ∙ count_below_none 256 (bit_at w.marked) (λ p p_lt. elim (Bool-cases (bit_at w.marked p)) [
      | inr clear ↦ clear
      | inl set ↦
          let back = (w.head % 256 + 256 - p) % 256 in
          let near : back < 192 = v.in_window p p_lt set in
          let t = sub64 w.head back in
          let small = v.head_small in
          let place : t % 256 ≡ p = omega arith in
          let dist : sub64 w.head t < 192 = omega arith in
          sym (ap (bit_at w.marked) place)
          ∙ sym (wnd_is_marked-eq-bit_at w t)
          ∙ unmarked t (omega arith) dist
    ])

-- No number after s is marked.
abbrev IsClearAfter : FpWindow → ℕ → Type 0
IsClearAfter w s =
    (t : ℕ) → t < 2 ^ 64 → sub64 w.head t < sub64 w.head s → wnd_is_marked w t ≡ false

-- The calls to free the packets of the marked numbers among the `n` that lie `k` and more before
-- the newest, newest first.
unfoldable pub frees : (ℕ → Bool) → (ℕ → Option PktDesc) → ℕ → ℕ → ℕ → List Call
frees marked pkts head k zero = []
frees marked pkts head k (suc n) =
    let rest = frees marked pkts head (suc k) n in
    let t = sub64 head k in if marked t then pktdesc_free (pkts (wnd_pos t)) ∷ rest else rest

-- The calls for all that wait `k` and more before the newest.
abbrev pub frees_of : Conn → ℕ → List Call
frees_of c k = frees (wnd_is_marked c.outwnd) c.unacked_pkts c.outwnd.head k (192 - k)

-- What the release of the packets that lie `k` and more before the newest leaves: these packets
-- are freed, each once.
abbrev IsFreedFrom : ℕ → Conn → Conn → Type 0
IsFreedFrom k c c' =
    IsValid c'.outwnd
    × (c'.outwnd.head ≡ c.outwnd.head)
    × (c'.outwnd.num_marked ≡ 0)
    × (length c'.calls ≡ length c.calls + c.outwnd.num_marked)
    × (c'.calls ≡ c.calls ++ frees_of c k)

-- All packets of the window are freed, newest first, one call for each number that is marked.
abbrev pub IsFreed : Conn → Conn → Type 0
IsFreed c c' =
    IsValid c'.outwnd
    × (c'.outwnd.head ≡ c.outwnd.head)
    × (c'.outwnd.num_marked ≡ 0)
    × (length c'.calls ≡ length c.calls + c.outwnd.num_marked)
    × (c'.calls ≡ c.calls ++ frees_of c 0)

module _ (marked : ℕ → Bool) (pkts : ℕ → Option PktDesc) (head : ℕ) where
  -- Numbers that are not marked add no call.
  frees_skip :
      (d k n j m : ℕ)
      → ((i : ℕ) → i < d → marked (sub64 head (k + i)) ≡ false)
      → j ≡ k + d
      → m ≡ d + n
      → frees marked pkts head k m ≡ frees marked pkts head j n
  unfolding frees
  frees_skip zero k n j m clear e e' =
      ap (frees marked pkts head k) (let f : m ≡ n = omega (arith, e') in f)
      ∙ ap (λ (x : ℕ). frees marked pkts head x n) (let f : k ≡ j = omega (arith, e) in f)
  frees_skip (suc d) k n j m clear e e' =
      let first : marked (sub64 head k) ≡ false =
        ap (λ (x : ℕ). marked (sub64 head x)) (let f : k ≡ k + 0 = omega arith in f)
        ∙ clear 0 (omega arith) in
      ap (frees marked pkts head k) (let f : m ≡ suc (d + n) = omega (arith, e') in f)
      ∙ ap
          (λ b.
            if b
            then pktdesc_free (pkts (wnd_pos (sub64 head k)))
              ∷ frees marked pkts head (suc k) (d + n)
            else frees marked pkts head (suc k) (d + n))
          first
      ∙ frees_skip d (suc k) n j (d + n)
          (λ i lt.
            ap (λ (x : ℕ). marked (sub64 head x)) (let f : suc k + i ≡ k + suc i = omega arith in f)
            ∙ clear (suc i) (omega (arith, lt)))
          (omega (arith, e)) refl

  -- A number that is marked adds the call for its packet.
  frees_some :
      (k n : ℕ)
      → marked (sub64 head k) ≡ true
      → frees marked pkts head k (suc n)
        ≡ pktdesc_free (pkts (wnd_pos (sub64 head k))) ∷ frees marked pkts head (suc k) n
  unfolding frees
  frees_some k n is =
      ap
        (λ b.
          if b
          then pktdesc_free (pkts (wnd_pos (sub64 head k))) ∷ frees marked pkts head (suc k) n
          else frees marked pkts head (suc k) n)
        is

-- The calls depend on the marks and the packets of their numbers.
frees_same :
    (marked marked' : ℕ → Bool) (pkts pkts' : ℕ → Option PktDesc) (head n k : ℕ)
    → ((i : ℕ)
        → k ≤ i
        → i < k + n
        → (marked' (sub64 head i) ≡ marked (sub64 head i))
          × (pkts' (wnd_pos (sub64 head i)) ≡ pkts (wnd_pos (sub64 head i))))
    → frees marked' pkts' head k n ≡ frees marked pkts head k n
unfolding frees
frees_same marked marked' pkts pkts' head zero k same = refl
frees_same marked marked' pkts pkts' head (suc n) k same =
    let rest =
      frees_same marked marked' pkts pkts' head n (suc k)
        (λ i ge lt. same i (omega (arith, ge)) (omega (arith, lt))) in
    let here = same k (omega arith) (omega arith) in one (here.0) (here.1) rest
  where
    one :
        {b b' : Bool} {x x' : Option PktDesc} {l l' : List Call}
        → b' ≡ b
        → x' ≡ x
        → l' ≡ l
        → (if b' then pktdesc_free x' ∷ l' else l') ≡ (if b then pktdesc_free x ∷ l else l)
    one eb ex el = rw (eb, ex, el) refl

-- The calls after one packet is taken out, and before.
module _ (w w' : FpWindow) (pkts : ℕ → Option PktDesc) (s d : ℕ) where
  freed_one :
      (cs cs' later rest all : List Call) (x : Call)
      → cs' ≡ (cs ++ x ∷ []) ++ later
      → later ≡ rest
      → all ≡ x ∷ rest
      → cs' ≡ cs ++ all
  freed_one cs cs' later rest all x e later_is all_is =
      e
      ∙ ap (λ l. (cs ++ x ∷ []) ++ l) later_is
      ∙ append_assoc cs (x ∷ []) rest
      ∙ ap (λ l. cs ++ l) (sym all_is)

  calls_before :
      w.head < 2 ^ 64
      → s < 2 ^ 64
      → sub64 w.head s + d < 192
      → wnd_is_marked w (sub64 s d) ≡ true
      → ((k : ℕ) → k < d → wnd_is_marked w (sub64 s k) ≡ false)
      → frees (wnd_is_marked w) pkts w.head (sub64 w.head s) (192 - sub64 w.head s)
        ≡ pktdesc_free (pkts (wnd_pos (sub64 s d)))
          ∷ frees
              (wnd_is_marked w)
              pkts
              w.head
              (suc (sub64 w.head s + d))
              (192 - suc (sub64 w.head s + d))
  calls_before head_small small near is between =
      let j = sub64 w.head s in
      let place : sub64 w.head (j + d) ≡ sub64 s d = omega (arith, head_small, small, near) in
      frees_skip (wnd_is_marked w) pkts w.head d j (suc (192 - suc (j + d))) (j + d) (192 - j)
        (λ i lt.
          ap (wnd_is_marked w) (
            let e : sub64 w.head (j + i) ≡ sub64 s i = omega (arith, head_small, small, near, lt) in
            e)
          ∙ between i lt)
        refl (omega (arith, near))
      ∙ frees_some (wnd_is_marked w) pkts w.head (j + d) (192 - suc (j + d))
          (ap (wnd_is_marked w) place ∙ is)
      ∙ ap
          (λ (t : ℕ).
            pktdesc_free (pkts (wnd_pos t))
            ∷ frees (wnd_is_marked w) pkts w.head (suc (j + d)) (192 - suc (j + d)))
          place

  calls_after :
      w'.head ≡ w.head
      → w.head < 2 ^ 64
      → s < 2 ^ 64
      → sub64 w.head s + d < 192
      → ((t : ℕ)
          → t < 2 ^ 64
          → sub64 w.head t < 192
          → wnd_is_marked w' t ≡ (not (sub64 s d == t) && wnd_is_marked w t))
      → frees
          (wnd_is_marked w')
          (update pkts (wnd_pos (sub64 s d)) none)
          w'.head
          (sub64 w'.head (sub64 s d))
          (192 - sub64 w'.head (sub64 s d))
        ≡ frees
            (wnd_is_marked w)
            pkts
            w.head
            (suc (sub64 w.head s + d))
            (192 - suc (sub64 w.head s + d))
  calls_after head head_small small near marks =
      let j = sub64 w.head s + d in
      let u = sub64 s d in
      let place : sub64 w.head j ≡ u = omega (arith, head_small, small, near) in
      let back : sub64 w.head u ≡ j = omega (arith, head_small, small, near) in
      let pkts' = update pkts (wnd_pos u) none in
      let cleared : wnd_is_marked w' (sub64 w.head (j + 0)) ≡ false =
        ap (wnd_is_marked w') (let e : sub64 w.head (j + 0) ≡ u = omega (arith, place) in e)
        ∙ marks u (omega arith) (omega (arith, back, near))
        ∙ ap (λ b. not b && wnd_is_marked w u) (==-refl u) in
      ap (λ (h : ℕ). frees (wnd_is_marked w') pkts' h (sub64 h u) (192 - sub64 h u)) head
      ∙ ap (λ (i : ℕ). frees (wnd_is_marked w') pkts' w.head i (192 - i)) back
      ∙ frees_skip (wnd_is_marked w') pkts' w.head 1 j (192 - suc j) (suc j) (192 - j)
          (λ i lt.
            ap (λ (x : ℕ). wnd_is_marked w' (sub64 w.head (j + x)))
              (let e : i ≡ 0 = omega (arith, lt) in e)
            ∙ cleared)
          (omega arith) (omega (arith, near))
      ∙ frees_same (wnd_is_marked w) (wnd_is_marked w') pkts pkts' w.head (192 - suc j) (suc j)
          (λ i ge lt.
            let t = sub64 w.head i in
            let apart : (u == t) ≡ false = ground (arith, place, ge, lt, near, head_small) in
            let places : (wnd_pos u == wnd_pos t) ≡ false =
              rw (wnd_pos-eq-mod u, wnd_pos-eq-mod t)
                (ground (arith, place, ge, lt, near, head_small)) in
            (
              marks t (omega arith) (omega (arith, ge, lt, near, head_small))
                  ∙ ap (λ b. not b && wnd_is_marked w t) apart,
              update_lem pkts (wnd_pos u) (wnd_pos t) none
                  ∙ ap (λ b. if b then none else pkts (wnd_pos t)) places,
            ))

clear_after_none :
    (w : FpWindow) (s : ℕ)
    → IsValid w
    → s < 2 ^ 64
    → sub64 w.head s < 192
    → IsClearAfter w s
    → IsNearestBefore w s none
    → w.num_marked ≡ 0
clear_after_none w s v small near after before = num_marked-zero w v (λ t ht near_t.
    elim (Bool-cases (ltb (sub64 w.head t) (sub64 w.head s))) [
      | inl later ↦ after t ht (ground arith)
      | inr earlier ↦
          let k = sub64 w.head t - sub64 w.head s in
          let head_small = v.head_small in
          let le : sub64 w.head s ≤ sub64 w.head t = ground arith in
          let same : sub64 s k ≡ t = omega arith in
          sym (ap (wnd_is_marked w) same) ∙ before k (omega arith)
    ])

-- That a fuel is enough.
abbrev DoesFree : ℕ → Type 0
DoesFree fuel =
    (c : Conn) (s : ℕ)
    → IsValid c.outwnd
    → s < 2 ^ 64
    → sub64 c.outwnd.head s < 192
    → c.outwnd.num_marked < fuel
    → IsClearAfter c.outwnd s
    → (c' : Conn) × (clear_next_unacked fuel c s ≡ ok c') × IsFreedFrom (sub64 c.outwnd.head s) c c'

none_left :
    (w : FpWindow) (pkts : ℕ → Option PktDesc) (s : ℕ)
    → w.head < 2 ^ 64
    → s < 2 ^ 64
    → sub64 w.head s < 192
    → IsNearestBefore w s none
    → frees (wnd_is_marked w) pkts w.head (sub64 w.head s) (192 - sub64 w.head s) ≡ []
unfolding frees
none_left w pkts s head_small small near nearest =
    let j = sub64 w.head s in
    frees_skip (wnd_is_marked w) pkts w.head (192 - j) j 0 (j + (192 - j)) (192 - j)
      (λ i lt.
        ap (wnd_is_marked w) (
          let e : sub64 w.head (j + i) ≡ sub64 s i = omega (arith, head_small, small, near, lt) in
          e)
        ∙ nearest i (omega (arith, lt)))
      refl (omega arith)

free_step :
    (fuel : ℕ)
    → DoesFree fuel
    → (c : Conn) (s : ℕ) → IsValid c.outwnd
    → s < 2 ^ 64
    → sub64 c.outwnd.head s < 192
    → c.outwnd.num_marked < suc fuel
    → IsClearAfter c.outwnd s
    → (r : Option ℕ) → wnd_at_or_before c.outwnd s ≡ ok r
    → IsNearestBefore c.outwnd s r
    → (c' : Conn) × (clear_next_unacked (suc fuel) c s ≡ ok c')
      × IsFreedFrom (sub64 c.outwnd.head s) c c'
unfolding clear_next_unacked outwnd_pop
free_step fuel ih c s v small near enough after none found nearest =
    let empty = clear_after_none c.outwnd s v small near after nearest in
    let no_calls = none_left c.outwnd c.unacked_pkts s v.head_small small near nearest in
    (
      c,
      rw found refl,
      (
        v,
        refl,
        empty,
        omega (arith, empty),
        sym (append_nil c.calls) ∙ ap (λ l. c.calls ++ l) (sym no_calls),
      ),
    )
free_step fuel ih c s v small near enough after (some d) found (near_u, marked, between) =
    let w = c.outwnd in
    let u = sub64 s d in
    let head_small = v.head_small in
    let dist : sub64 w.head u < 192 = omega arith in
    let (w', cleared, v', same_head, fewer, marks) =
      wnd_clear_lem w u v (omega arith) dist marked in
    let c2 : Conn =
      call (record c { outwnd = w'; unacked_pkts = update c.unacked_pkts (wnd_pos u) none })
        (pktdesc_free (c.unacked_pkts (wnd_pos u))) in
    let dist' : sub64 w'.head u < 192 = rw same_head dist in
    let after' : IsClearAfter w' u = λ t ht before_u.
      elim (Bool-cases (ltb (sub64 w.head t) (sub64 w.head s))) [
        | inl later ↦
            rw (marks t ht (omega (arith, same_head, dist, before_u)))
              (ground (arith, after t ht (ground arith)))
        | inr earlier ↦
            let k = sub64 w.head t - sub64 w.head s in
            let same : sub64 s k ≡ t = ground (arith, before_u) in
            rw (marks t ht (omega (arith, same_head, dist, before_u)))
              (ground (arith, ap (wnd_is_marked w) same, between k (ground (arith, before_u))))
      ] in
    let (c3, e, (v3, head3, none3, count3, calls3)) =
      ih c2 u v' (omega arith) dist' (omega arith) after' in
    (
      c3,
      rw (found, cleared) e,
      (
        v3,
        head3 ∙ same_head,
        none3,
        omega (
          arith,
          count3,
          fewer,
          length-append c.calls (pktdesc_free (c.unacked_pkts (wnd_pos u)) ∷ []),
        ),
        freed_one w w' c.unacked_pkts s d c.calls c3.calls _ _ _ _ calls3
            (calls_after w w' c.unacked_pkts s d same_head head_small small near_u marks)
            (calls_before w w' c.unacked_pkts s d head_small small near_u marked between),
      ),
    )

clear_next_unacked-DoesFree : (fuel : ℕ) → DoesFree fuel
clear_next_unacked-DoesFree zero c s v small near enough after = absurd (omega arith)
clear_next_unacked-DoesFree (suc fuel) c s v small near enough after =
    let (r, found, nearest) = wnd_at_or_before_lem c.outwnd s v small near in
    free_step fuel (clear_next_unacked-DoesFree fuel) c s v small near enough after r found nearest

-- With a valid window `free_unacked` raises no bug and empties the window without moving it. Its
-- calls free the packet of each number that was marked, once and from the newest on, and nothing
-- else.
pub free_unacked-IsFreed :
    (c : Conn) → IsValid c.outwnd → (c' : Conn) × (free_unacked c ≡ ok c') × IsFreed c c'
unfolding free_unacked
free_unacked-IsFreed c v =
    let le = num_marked-le c.outwnd v in
    let small = v.head_small in
    let newest : sub64 c.outwnd.head c.outwnd.head ≡ 0 = omega arith in
    let (c', done, (valid, head, no_mark, count, calls)) =
      clear_next_unacked-DoesFree 257 c c.outwnd.head v small (omega arith) (omega arith)
        (λ t ht later. absurd (omega (arith, later))) in
    (
      c',
      done,
      (valid, head, no_mark, count, calls ∙ ap (λ (k : ℕ). c.calls ++ frees_of c k) newest),
    )
