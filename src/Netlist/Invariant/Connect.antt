-- ===== src/Netlist/Invariant/Connect.antt =====
-- Writing the channel field of two ports, as `createChannel` and `removeChannel` do.
use fpt2022_artifact.Common.{ℕ, ◌≡◌, true}
use fpt2022_artifact.Common.{◌||◌, Option, if◌then◌else◌, ◌==◌, arith}
use fpt2022_artifact.Common.Sets.{mem}
use fpt2022_artifact.Slab.{Slab, IsSound, at, put}
use fpt2022_artifact.Slab.Laws.{put-IsSound}
use fpt2022_artifact.Slab.Laws.{at-put}
use fpt2022_artifact.Netlist.Types.{Port, port_zero}
use fpt2022_artifact.Netlist.Channels.{connect}

-- Two ports have their channel field written, in either order.
pub at-connect :
    (c : Option ℕ) (src dst p : ℕ) (ps : Slab Port)
    → IsSound port_zero Port.next_free ps
    → mem src ps.live ≡ true
    → mem dst ps.live ≡ true
    → at port_zero (put src (connect c) (put dst (connect c) ps)) p
      ≡ (if (src == p) || (dst == p) then connect c (at port_zero ps p) else at port_zero ps p)
unfolding put
at-connect c src dst p ps w hs hd =
    let outer =
      at-put port_zero Port.next_free src p (connect c) (put dst (connect c) ps)
        (put-IsSound port_zero Port.next_free dst (connect c) ps hd w) hs in
    let inner = at-put port_zero Port.next_free dst p (connect c) ps w hd in ground arith

pub connect-IsSound :
    (c : Option ℕ) (src dst : ℕ) (ps : Slab Port)
    → IsSound port_zero Port.next_free ps
    → mem src ps.live ≡ true
    → mem dst ps.live ≡ true
    → IsSound port_zero Port.next_free (put src (connect c) (put dst (connect c) ps))
unfolding put
connect-IsSound c src dst ps w hs hd =
    put-IsSound port_zero Port.next_free src (connect c) (put dst (connect c) ps) hs
      (put-IsSound port_zero Port.next_free dst (connect c) ps hd w)
