-- ===== src/Text/Address/Laws.antt =====
-- Bootstrap.go: which addresses `parseAddress` accepts.
use peernet_core.Prelude.{
  err, ℕ, ◌≤◌, ◌≡◌, subst, ◌||◌, length, Option, none, some, Outcome, ok, ltb, ◌==◌, arith,
  Bool-cases, panic, ◌≢◌, inl, inr,
}
use peernet_core.Prelude.Int.{ℤ, pos, negsuc}
use peernet_core.Ip.{Bytes, AreBytes}
use peernet_core.Connection.{UdpAddr}
use peernet_core.Text.{Text}
use peernet_core.Text.Number.{Parsed, parsed, syntax_error, range_error, atoi}
use peernet_core.Text.HostPort.{HostPort, host_port, bad_address, split_host_port}
use peernet_core.Text.Address.{with_ip, with_host, parse_kind, parse_ip, with_port, parse_address}
use peernet_core.Text.Address.Length.{Yields, HasBytes, parse_kind-HasBytes}

-- An address of sixteen bytes with a port that a datagram can go to.
abbrev pub IsRemote : UdpAddr → Type 0
IsRemote addr = (length addr.ip ≡ 16) × AreBytes addr.ip × (1 ≤ addr.port) × (addr.port ≤ 65535)

abbrev OkRemote : Outcome UdpAddr → Type 0
OkRemote (ok addr) = IsRemote addr
OkRemote (err e) = Unit {0}
OkRemote panic = ¬ Unit {0}

with_ip-OkRemote :
    (port : ℕ) (r : Option Bytes)
    → 1 ≤ port
    → port ≤ 65535
    → Yields (HasBytes 16) r
    → OkRemote (with_ip port r)
unfolding with_ip
with_ip-OkRemote port none lo hi h = tt
with_ip-OkRemote port (some ip) lo hi (len, h) = (len, h, lo, hi)

with_port-OkRemote : (host : Text) (p : Parsed ℤ) → OkRemote (with_port host p)
unfolding with_port parse_ip
with_port-OkRemote host syntax_error = tt
with_port-OkRemote host (range_error _) = tt
with_port-OkRemote host (parsed (negsuc _)) = tt
with_port-OkRemote host (parsed (pos port)) = elim (Bool-cases ((port == 0) || ltb 65535 port)) [
  | inl bad ↦ rw bad tt
  | inr good ↦ rw good (
      with_ip-OkRemote port (parse_kind host host) (ground (arith, good)) (ground (arith, good))
        (parse_kind-HasBytes host host))
]

with_host-OkRemote : (h : HostPort) → OkRemote (with_host h)
unfolding with_host
with_host-OkRemote (bad_address why) = tt
with_host-OkRemote (host_port host port) = with_port-OkRemote host (atoi port)

-- `parseAddress` of any text does not panic, and what it returns without an error is an IP of
-- sixteen bytes, IPv4 addresses in their IPv6 form, and a port from 1 to 65535.
pub parse_address-IsRemote :
    (s : Text)
    → (parse_address s ≢ panic) × ((addr : UdpAddr) → parse_address s ≡ ok addr → IsRemote addr)
unfolding parse_address
parse_address-IsRemote s = (
  λ e. subst OkRemote e (with_host-OkRemote (split_host_port s)) tt,
  λ addr e. subst OkRemote e (with_host-OkRemote (split_host_port s)),
)
