-- ===== src/Node/Discovery/Laws.antt =====
-- Bootstrap.go: what the discovery messages are, and that the first phase ends.
use peernet_core.Prelude.{
  ℕ, suc, ◌≤◌, ◌≡◌, refl, ap, ◌∙◌, List, [], ◌∷◌, ◌++◌, map, append_assoc, append-nil, Option, none,
  some, String, ok,
}
use peernet_core.Ip.{Bytes}
use peernet_core.Crypto.{Crypto}
use peernet_core.Packet.{packet_encrypt}
use peernet_core.Network.Discovery.{ipv4_broadcast_port}
use peernet_core.Node.{Node, World, Datagram, M, bind_step}
use peernet_core.Node.Peerlist.{peerlist_count}
use peernet_core.Node.Sending.{network_send, encrypt, with_raw}
use peernet_core.Node.Sending.Laws.{encrypt_lem}
use peernet_core.Node.Commands.{plain, command_announcement}
use peernet_core.Node.Bootstrap.Laws.{Returns}
use peernet_core.Node.Discovery.{announce_to, send_broadcasts, broadcast_ipv4_send}

module _ (c : Crypto) (w : World c) where
  open c use {PublicKey}

  -- The message to one broadcast address.
  abbrev pub to_address : ℕ → List ℕ → Bytes → Datagram
  to_address k raw ip = record { network = k; ip = ip; port = ipv4_broadcast_port; raw = raw }

  send_broadcasts_lem :
      (k : ℕ) (raw : List ℕ) (ips : List Bytes) (n : Node PublicKey)
      → send_broadcasts c w k raw ips n
        ≡ some (none, record n { wire = n.wire ++ map (to_address k raw) ips })
  unfolding send_broadcasts network_send
  send_broadcasts_lem k raw [] n = rw (append-nil n.wire) refl
  send_broadcasts_lem k raw (ip ∷ ips) n =
      let n₁ = record n { wire = n.wire ++ to_address k raw ip ∷ [] } in
      send_broadcasts_lem k raw ips n₁
      ∙ ap (λ l. some (none, record n { wire = l }))
          (append_assoc n.wire (to_address k raw ip ∷ []) (map (to_address k raw) ips))

  -- `BroadcastIPv4Send`, when the key is set and the announcement can be encrypted, writes it once
  -- to each of the network's broadcast addresses, in order, over that network, and returns no
  -- error, whatever the writes return.
  pub broadcast_ipv4_send_lem :
      (k : ℕ) (key : PublicKey) (raw : List ℕ) (n : Node PublicKey)
      → w.broadcast_key ≡ some key
      → packet_encrypt c (w.rand n.draws) w.private_key key (plain command_announcement) ≡ ok raw
      → broadcast_ipv4_send c w k n
        ≡ some (
          none,
          record n {
            wire = n.wire ++ map (to_address k raw) (n.adapters.networks k).broadcast_ipv4;
            draws = suc n.draws;
          },
        )
  unfolding broadcast_ipv4_send announce_to
  broadcast_ipv4_send_lem k key raw n set made =
      let n₁ = record n { draws = suc n.draws } in
      let f : List ℕ → M PublicKey (Option String) =
        λ raw m. send_broadcasts c w k raw (m.adapters.networks k).broadcast_ipv4 m in
      ap (λ o. announce_to c w o f n) set
      ∙ bind_step (encrypt c w key (plain command_announcement)) (λ r. with_raw r f) n
          (encrypt_lem c w key (plain command_announcement) raw n made)
      ∙ send_broadcasts_lem k raw (n.adapters.networks k).broadcast_ipv4 n₁

  module _ (meanwhile : ℕ → M PublicKey (Unit {0})) (returns : (k : ℕ) → Returns (meanwhile k))
      (broadcast multicast : PublicKey) (set4 : w.broadcast_key ≡ some broadcast)
      (set6 : w.multicast_key ≡ some multicast) where
    -- In the round with k more to come, somebody gets into the peer list.
    abbrev pub Arrives : ℕ → Type 0
    Arrives k = (n n' : Node PublicKey) → meanwhile k n ≡ some (tt, n') → 1 ≤ peerlist_count c n'
