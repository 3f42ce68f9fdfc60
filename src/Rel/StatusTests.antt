-- ===== src/Rel/StatusTests.antt =====
-- The calls that read a peer of the reliable layer, on small states.
use keemash_core.Base.{◌≡◌, refl, true, false}
use keemash_core.Proto.{invalid_state}
use keemash_core.Rel.{peer_at}
use keemash_core.Rel.Samples.{root_side, node_side, bytes_of}
use keemash_core.Rel.Status.{stats, peer_ready, peer_capabilities, unacked_on, send}
use keemash_core.Rel.Reading.{Reads, Agree, reading-Agree}

stats-unknown : (stats root_side 9).1.seen ≡ false
unfolding stats
stats-unknown = refl

stats-known : (stats root_side 2).1.seen ≡ true
unfolding stats
stats-known = refl

stats-redirects : (peer_at (stats node_side 7).0 0).remote_mac ≡ 7
unfolding stats
stats-redirects = refl

send-unknown : (send root_side 9 1 bytes_of 1).1 ≡ invalid_state
unfolding send
send-unknown = refl

reading-Agree_example :
    (Reads node_side 7 (stats node_side 7).0
      × (Reads node_side 7 (peer_ready node_side 7).0
          × (Reads node_side 7 (peer_capabilities node_side 7).0
              × Reads node_side 7 (unacked_on node_side 7 3).0)))
    × Agree
        (stats node_side 7).1
        (peer_ready node_side 7).1
        (peer_capabilities node_side 7).1
        (unacked_on node_side 7 3).1
reading-Agree_example = reading-Agree node_side 7 3
