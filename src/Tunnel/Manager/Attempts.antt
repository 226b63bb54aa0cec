-- ===== src/Tunnel/Manager/Attempts.antt =====
-- The loop of an update over the devices keeps the order of the table.
use go_ios.Common.{
  ℕ, ◌+◌, ◌≡◌, refl, sym, ap, ◌∙◌, Bool, Option, none, some, ◌∷◌, inl, inr, Bool-cases,
  Option-cases, length, arith,
}
use go_ios.Common.Bytes.{Bytes}
use go_ios.Common.Maps.{Bytes_eq, bytes_same, lookup, insert, lookup-insert}
use go_ios.Common.Keyed.{Member, insert-Keyed}
use go_ios.Tunnel.Manager.{
  Tunnel, Tunnels, DeviceEntry, Failures, TunnelManager, assign_port, start_tunnel, with_version,
  record_outcome, try_device, visit, should_skip_device, is_filtered,
}
use go_ios.Tunnel.Manager.Order.{
  Inv, Covers, IsKept, All-map, insert-IsOwn, insert-IsKept, lookup-insert_here,
}

-- the manager's table and what it did with tunnels, which most writes leave alone
pub record SameTable (m m' : TunnelManager) : Type 0 where
  pub tunnels : m'.tunnels ≡ m.tunnels
  pub started : m'.started ≡ m.started
  pub stopped : m'.stopped ≡ m.stopped

pub SameTable-Inv : {m m' : TunnelManager} → SameTable m m' → Inv m → Inv m'
SameTable-Inv {m} {m'} s v = record {
  keyed = rw s.tunnels v.keyed;
  own = λ u t found. v.own u t (ap (lookup u) (sym s.tunnels) ∙ found);
  known = λ u t found. rw s.started (v.known u t (ap (lookup u) (sym s.tunnels) ∙ found));
  kept = rw (s.tunnels, s.started, s.stopped) v.kept;
}

pub SameTable-Covers :
    {m m' : TunnelManager} (local : Tunnels) → SameTable m m' → Covers local m → Covers local m'
SameTable-Covers local s c = record {
  keyed = c.keyed;
  own = c.own;
  above = λ u t found. c.above u t (ap (lookup u) (sym s.tunnels) ∙ found);
}

-- The copy and the manager after a round.
pub record Goes (r : Tunnels × TunnelManager) : Type 0 where
  pub order : Inv r.1
  pub covers : Covers r.0 r.1

insert-above :
    (u : Bytes) (t : Tunnel) (local ts : Tunnels)
    → ((v : Bytes) (s : Tunnel) → lookup v ts ≡ some s → lookup v local ≡ some s)
    → (v : Bytes) (s : Tunnel) → lookup v (insert u t ts) ≡ some s
    → lookup v (insert u t local) ≡ some s
insert-above u t local ts above v s found =
    ground (arith, lookup-insert u v t ts, lookup-insert u v t local, above v s)

not_above :
    (u : Bytes) (local : Tunnels) (m : TunnelManager)
    → Covers local m
    → lookup u local ≡ none
    → lookup u m.tunnels ≡ none
not_above u local m c free = elim (Option-cases (lookup u m.tunnels)) [
  | inl e ↦ e
  | inr (t, e) ↦ cc (c.above u t e, free)
]

insert-known :
    (u : Bytes) (t : Tunnel) (m : TunnelManager)
    → Inv m
    → (v : Bytes) (s : Tunnel) → lookup v (insert u t m.tunnels) ≡ some s
    → Member s (t ∷ m.started)
insert-known u t m i v s found = elim (Bool-cases (bytes_same u v)) [
  | inl e ↦
      let same : some t ≡ some s = sym (lookup-insert u v t m.tunnels ∙ rw e refl) ∙ found in
      inl (cc same)
  | inr e ↦ inr (i.known v s (sym (lookup-insert u v t m.tunnels ∙ rw e refl) ∙ found))
]

pub assign_port-SameTable : (d : DeviceEntry) (m : TunnelManager) → SameTable m (assign_port d m).1
unfolding assign_port
assign_port-SameTable d m = ground arith

pub assign_port_serial :
    (d : DeviceEntry) (m : TunnelManager) → (assign_port d m).0.serial_number ≡ d.serial_number
unfolding assign_port
assign_port_serial d m = ground arith

module _ {V : Type 0} (clock : ℕ → ℕ) (product_version : ℕ → DeviceEntry → Option V)
    (starter : ℕ → DeviceEntry → V → Bool → Option Tunnel) where
  -- A tunnel that is started is the device's: what the three ways to start one put into `Udid`.
  abbrev pub StartsOwn : Type 0
  StartsOwn =
      (n : ℕ) (d : DeviceEntry) (v : V) (userspace : Bool) (t : Tunnel)
      → starter n d v userspace ≡ some t
      → t.udid ≡ d.serial_number

  start_tunnel-own :
      StartsOwn
      → (d : DeviceEntry) (m : TunnelManager) (t : Tunnel)
      → start_tunnel clock product_version starter d m ≡ some t
      → t.udid ≡ d.serial_number
  unfolding start_tunnel
  start_tunnel-own owns d m t h = from (product_version (length m.attempted) d) h
    where
      from :
          (v : Option V)
          → with_version clock product_version starter (length m.attempted) d m.userspace_tun v
            ≡ some t
          → t.udid ≡ d.serial_number
      from none e = cc e
      from (some v) e = owns (length m.attempted) d v m.userspace_tun t e

  record_outcome-Goes :
      (d : DeviceEntry) (o : Option Tunnel) (local : Tunnels) (m : TunnelManager)
      → ((t : Tunnel) → o ≡ some t → t.udid ≡ d.serial_number)
      → lookup d.serial_number local ≡ none
      → Inv m
      → Covers local m
      → Goes (record_outcome clock product_version starter d o local m)
  unfolding record_outcome
  record_outcome-Goes d none local m own free v c =
      let same : SameTable m (record_outcome clock product_version starter d none local m).1 =
        record { tunnels = refl; started = refl; stopped = refl } in
      record { order = SameTable-Inv same v; covers = SameTable-Covers local same c }
  record_outcome-Goes d (some t) local m own free v c =
      let u = d.serial_number in
      let mine = own t refl in
      record {
        order = record {
          keyed = insert-Keyed u t m.tunnels v.keyed;
          own = insert-IsOwn u t mine m.tunnels v.own;
          known = insert-known u t m v;
          kept = (
            inl (lookup-insert_here u t mine m.tunnels),
            All-map (IsKept m.tunnels m.stopped) (IsKept (insert u t m.tunnels) m.stopped) m.started
                (insert-IsKept u t mine m.tunnels m.stopped (not_above u local m c free)) v.kept,
          );
        };
        covers = record {
          keyed = insert-Keyed u t local c.keyed;
          own = insert-IsOwn u t mine local c.own;
          above = insert-above u t local m.tunnels c.above;
        };
      }

  try_device-Goes :
      StartsOwn
      → (d : DeviceEntry) (local : Tunnels) (m : TunnelManager)
      → lookup d.serial_number local ≡ none
      → Inv m
      → Covers local m
      → Goes (try_device clock product_version starter d local m)
  unfolding try_device
  try_device-Goes owns d local m free v c =
      let r = assign_port d m in
      let same = assign_port-SameTable d m in
      record_outcome-Goes r.0 (start_tunnel clock product_version starter r.0 r.1) local r.1
        (start_tunnel-own owns r.0 r.1) (ap (λ u. lookup u local) (assign_port_serial d m) ∙ free)
        (SameTable-Inv same v) (SameTable-Covers local same c)

  -- A round of the loop.
  pub visit-Goes :
      StartsOwn
      → (failed : Failures) (d : DeviceEntry) (local : Tunnels) (m : TunnelManager) → Inv m
      → Covers local m
      → Goes (visit clock product_version starter failed d local m)
  unfolding visit
  visit-Goes owns failed d local m v c =
      let same : SameTable m (record m { readings = m.readings + 1 }) = record {
        tunnels = refl;
        started = refl;
        stopped = refl;
      } in
      let v' = SameTable-Inv same v in
      let c' = SameTable-Covers local same c in
      elim (Option-cases (lookup d.serial_number local)) [
        | inr (t, e) ↦ elim (Bool-cases (is_filtered m.udid_filter d.serial_number)) [
          | inl f ↦ rw (visit, f) (record { order = v; covers = c })
          | inr f ↦ rw (visit, f, e) (record { order = v; covers = c })
        ]
        | inl e ↦ elim (Bool-cases (is_filtered m.udid_filter d.serial_number)) [
          | inl f ↦ rw (visit, f) (record { order = v; covers = c })
          | inr f ↦ elim (Bool-cases (should_skip_device d failed (clock m.readings))) [
            | inl s ↦ rw (visit, f, e, s) (record { order = v'; covers = c' })
            | inr s ↦
                rw (visit, f, e, s)
                  (try_device-Goes owns d local (record m { readings = m.readings + 1 }) e v' c')
          ]
        ]
      ]
