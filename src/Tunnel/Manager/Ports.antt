-- ===== src/Tunnel/Manager/Ports.antt =====
-- The ports of the listeners in user space.
use go_ios.Common.{
  ℕ, ◌+◌, ◌≡◌, refl, ◌∙◌, Bool, true, ◌||◌, Option, none, some, List, [], ◌∷◌, inl, inr, Bool-cases,
  length, All, arith,
}
use go_ios.Common.Maps.{Bytes_eq, lookup}
use go_ios.Tunnel.Manager.{
  Tunnel, Tunnels, DeviceEntry, Failures, TunnelManager, assign_port, start_tunnel, record_outcome,
  try_device, visit, visit_all, should_skip_device, is_filtered, exists, is_connected, stop_tunnel,
  stop_gone, stop_all, finish_update, update_tunnels,
}

-- the ports of the attempts, the newest first: one above the other, from the one behind `base` on
abbrev pub Consecutive : ℕ → List DeviceEntry → Type 0
Consecutive base [] = Unit
Consecutive base (d ∷ ds) = (d.userspace_tun_port ≡ base + (length ds + 1)) × Consecutive base ds

pub record PortsFit (m : TunnelManager) : Type 0 where
  pub userspace : m.userspace_tun ≡ true
  pub upcoming : m.port_offset ≡ length m.attempted + 1
  pub ports : Consecutive m.base_port m.attempted

abbrev pub Unlisted : DeviceEntry → Type 0
Unlisted d = d.userspace_tun_port ≡ 0

abbrev pub AreUnlisted : Option (List DeviceEntry) → Type 0
AreUnlisted none = Unit
AreUnlisted (some devices) = All Unlisted devices

-- what the closing of tunnels leaves alone
record SamePorts (m m' : TunnelManager) : Type 0 where
  userspace : m'.userspace_tun ≡ m.userspace_tun
  offset : m'.port_offset ≡ m.port_offset
  base : m'.base_port ≡ m.base_port
  attempted : m'.attempted ≡ m.attempted

SamePorts-PortsFit : {m m' : TunnelManager} → SamePorts m m' → PortsFit m → PortsFit m'
SamePorts-PortsFit s p = record {
  userspace = s.userspace ∙ p.userspace;
  upcoming = rw (s.offset, s.attempted) p.upcoming;
  ports = rw (s.base, s.attempted) p.ports;
}

stop_gone-PortsFit :
    (devices : List DeviceEntry) (ts : Tunnels) (m : TunnelManager)
    → PortsFit m
    → PortsFit (stop_gone devices ts m)
unfolding stop_gone stop_tunnel
stop_gone-PortsFit devices [] m p = p
stop_gone-PortsFit devices ((u, t) ∷ ts) m p =
    let same : SamePorts m (stop_tunnel t m) = record {
      userspace = refl;
      offset = refl;
      base = refl;
      attempted = refl;
    } in
    elim (Bool-cases (is_connected devices u)) [
      | inl e ↦ rw (stop_gone, e) (stop_gone-PortsFit devices ts m p)
      | inr e ↦
          rw (stop_gone, e)
            (stop_gone-PortsFit devices ts (stop_tunnel t m) (SamePorts-PortsFit same p))
    ]

stop_all-PortsFit : (ts : Tunnels) (m : TunnelManager) → PortsFit m → PortsFit (stop_all ts m)
unfolding stop_all stop_tunnel
stop_all-PortsFit [] m p = p
stop_all-PortsFit ((u, t) ∷ ts) m p =
    let same : SamePorts m (stop_tunnel t m) = record {
      userspace = refl;
      offset = refl;
      base = refl;
      attempted = refl;
    } in
    stop_all-PortsFit ts (stop_tunnel t m) (SamePorts-PortsFit same p)

module _ {V : Type 0} (clock : ℕ → ℕ) (product_version : ℕ → DeviceEntry → Option V)
    (starter : ℕ → DeviceEntry → V → Bool → Option Tunnel) where
  record_outcome-PortsFit :
      (d : DeviceEntry) (o : Option Tunnel) (local : Tunnels) (m : TunnelManager)
      → m.userspace_tun ≡ true
      → m.port_offset ≡ length m.attempted + 1 + 1
      → d.userspace_tun_port ≡ m.base_port + (length m.attempted + 1)
      → Consecutive m.base_port m.attempted
      → PortsFit (record_outcome clock product_version starter d o local m).1
  unfolding record_outcome
  record_outcome-PortsFit d none local m u e p c = record {
    userspace = u;
    upcoming = omega (arith, e);
    ports = (p, c);
  }
  record_outcome-PortsFit d (some t) local m u e p c = record {
    userspace = u;
    upcoming = omega (arith, e);
    ports = (p, c);
  }

  try_device-PortsFit :
      (d : DeviceEntry) (local : Tunnels) (m : TunnelManager)
      → Unlisted d
      → PortsFit m
      → PortsFit (try_device clock product_version starter d local m).1
  unfolding try_device assign_port
  try_device-PortsFit d local m z p =
      let d' = record d { userspace_tun_port = m.base_port + m.port_offset } in
      let m' = record m { port_offset = m.port_offset + 1 } in
      let given : assign_port d m ≡ (d', m') = rw (assign_port, p.userspace, z) refl in
      let fits =
        record_outcome-PortsFit d' (start_tunnel clock product_version starter d' m') local m'
          p.userspace (omega (arith, p.upcoming)) (omega (arith, p.upcoming)) p.ports in
      rw (try_device, given) fits

  visit-PortsFit :
      (failed : Failures) (d : DeviceEntry) (local : Tunnels) (m : TunnelManager)
      → Unlisted d
      → PortsFit m
      → PortsFit (visit clock product_version starter failed d local m).1
  unfolding visit
  visit-PortsFit failed d local m z p =
      let n = record m { readings = m.readings + 1 } in
      let same : SamePorts m n = record {
        userspace = refl;
        offset = refl;
        base = refl;
        attempted = refl;
      } in
      let q = SamePorts-PortsFit same p in
      elim (Bool-cases
        (is_filtered m.udid_filter d.serial_number || exists (lookup d.serial_number local))) [
          | inl e ↦ rw (visit, e) p
          | inr e ↦ elim (Bool-cases (should_skip_device d failed (clock m.readings))) [
            | inl s ↦ rw (visit, e, s) q
            | inr s ↦ rw (visit, e, s) (try_device-PortsFit d local n z q)
          ]
        ]

  visit_all-PortsFit :
      (failed : Failures) (ds : List DeviceEntry) (local : Tunnels) (m : TunnelManager)
      → All Unlisted ds
      → PortsFit m
      → PortsFit (visit_all clock product_version starter failed ds local m).1
  unfolding visit_all
  visit_all-PortsFit failed [] local m z p = p
  visit_all-PortsFit failed (d ∷ ds) local m z p =
      let r = visit clock product_version starter failed d local m in
      visit_all-PortsFit failed ds r.0 r.1 z.1 (visit-PortsFit failed d local m z.0 p)

  -- In user space, where the devices are listed without a port: if the attempts so far had the ports
  -- behind the base port, one above the other in the order of the attempts, and the next port is the
  -- one behind them, so it is after an update, whether an attempt succeeds or not and whether there is
  -- a list.
  pub update_tunnels-PortsFit :
      (o : Option (List DeviceEntry)) (m : TunnelManager)
      → AreUnlisted o
      → PortsFit m
      → PortsFit (update_tunnels clock product_version starter o m).0
  unfolding update_tunnels finish_update
  update_tunnels-PortsFit none m z p = stop_all-PortsFit m.tunnels m p
  update_tunnels-PortsFit (some devices) m z p =
      let r = visit_all clock product_version starter m.failed_devices devices m.tunnels m in
      let after = stop_gone devices r.0 r.1 in
      let same : SamePorts after (finish_update devices after) = record {
        userspace = refl;
        offset = refl;
        base = refl;
        attempted = refl;
      } in
      SamePorts-PortsFit same (
        stop_gone-PortsFit devices r.0 r.1
          (visit_all-PortsFit m.failed_devices devices m.tunnels m z p))
