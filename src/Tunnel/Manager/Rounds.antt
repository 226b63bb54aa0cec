-- ===== src/Tunnel/Manager/Rounds.antt =====
-- What the loop of an update, and the closing of the tunnels behind it, make of each device.
use go_ios.Common.{
  ℕ, ◌+◌, ◌≡◌, refl, sym, ap, ◌∙◌, Bool, true, false, ◌||◌, Option, none, some, List, [], ◌∷◌, inl,
  inr, Bool-cases, Option-cases, if◌then◌else◌,
}
use go_ios.Common.Bytes.{Bytes}
use go_ios.Common.Maps.{Bytes_eq, bytes_same, bytes_same_iff, lookup, lookup-insert}
use go_ios.Tunnel.Manager.{
  Tunnel, Tunnels, DeviceEntry, Failures, TunnelManager, assign_port, start_tunnel, record_outcome,
  try_device, visit, visit_all, should_skip_device, is_filtered, is_connected, stop_tunnel,
  stop_gone, stop_all,
}
use go_ios.Tunnel.Manager.Order.{Inv, Covers}
use go_ios.Tunnel.Manager.Attempts.{
  SameTable, Goes, StartsOwn, visit-Goes, assign_port-SameTable, assign_port_serial,
}

-- what the table has for a device
abbrev pub view : TunnelManager → Bytes → Option Tunnel
view m u = lookup u m.tunnels

-- The copy stays equal to the table, what it had stays, and only the devices that were visited may
-- get a tunnel.
pub record Extends (visited : Bytes → Bool) (local : Tunnels) (r : Tunnels × TunnelManager)
    : Type 0 where
  pub same : (u : Bytes) → view r.1 u ≡ lookup u r.0
  pub old : (u : Bytes) (t : Tunnel) → lookup u local ≡ some t → lookup u r.0 ≡ some t
  pub others : (u : Bytes) → visited u ≡ false → lookup u r.0 ≡ lookup u local

module _ {V : Type 0} (clock : ℕ → ℕ) (product_version : ℕ → DeviceEntry → Option V)
    (starter : ℕ → DeviceEntry → V → Bool → Option Tunnel) where
  stays :
      (visited : Bytes → Bool) (local : Tunnels) (m m' : TunnelManager)
      → SameTable m m'
      → ((u : Bytes) → view m u ≡ lookup u local)
      → Extends visited local (local, m')
  stays visited local m m' s same = record {
    same = λ u. ap (lookup u) s.tunnels ∙ same u;
    old = λ u t found. found;
    others = λ u unvisited. refl;
  }

  record_outcome-Extends :
      (d : DeviceEntry) (o : Option Tunnel) (local : Tunnels) (m : TunnelManager)
      → lookup d.serial_number local ≡ none
      → ((u : Bytes) → view m u ≡ lookup u local)
      → Extends
          (bytes_same d.serial_number)
          local
          (record_outcome clock product_version starter d o local m)
  unfolding record_outcome
  record_outcome-Extends d none local m free same =
      let r = record_outcome clock product_version starter d none local m in
      stays (bytes_same d.serial_number) local m r.1
        (record { tunnels = refl; started = refl; stopped = refl }) same
  record_outcome-Extends d (some t) local m free same =
      let k = d.serial_number in
      record {
        same = λ u.
            lookup-insert k u t m.tunnels
            ∙ ap (λ o. if bytes_same k u then some t else o) (same u)
            ∙ sym (lookup-insert k u t local);
        old = λ u s found. elim (Bool-cases (bytes_same k u)) [
          | inl e ↦ cc (found, free, (bytes_same_iff k u).0 e)
          | inr e ↦ lookup-insert k u t local ∙ rw e found
        ];
        others = λ u unvisited. lookup-insert k u t local ∙ rw unvisited refl;
      }

  pub visit-Extends :
      (failed : Failures) (d : DeviceEntry) (local : Tunnels) (m : TunnelManager)
      → ((u : Bytes) → view m u ≡ lookup u local)
      → Extends
          (bytes_same d.serial_number)
          local
          (visit clock product_version starter failed d local m)
  unfolding visit try_device
  visit-Extends failed d local m same =
      let v = bytes_same d.serial_number in
      let n = record m { readings = m.readings + 1 } in
      let unread : SameTable m n = record { tunnels = refl; started = refl; stopped = refl } in
      elim (Bool-cases (is_filtered m.udid_filter d.serial_number)) [
        | inl f ↦
            rw (visit, f)
              (stays v local m m (record { tunnels = refl; started = refl; stopped = refl }) same)
        | inr f ↦ elim (Option-cases (lookup d.serial_number local)) [
          | inr (t, e) ↦
              rw (visit, f, e)
                (stays v local m m (record { tunnels = refl; started = refl; stopped = refl }) same)
          | inl e ↦ elim (Bool-cases (should_skip_device d failed (clock m.readings))) [
            | inl s ↦ rw (visit, f, e, s) (stays v local m n unread same)
            | inr s ↦
                let p = assign_port d n in
                let serial = assign_port_serial d n in
                let started =
                  record_outcome-Extends p.0 (start_tunnel clock product_version starter p.0 p.1)
                    local p.1 (ap (λ u. lookup u local) serial ∙ e)
                    (λ u. ap (lookup u) (assign_port-SameTable d n).tunnels ∙ same u) in
                rw (visit, f, e, s) (rw serial at started)
          ]
        ]
      ]

  -- All rounds of the loop.
  pub visit_all-Extends :
      StartsOwn clock product_version starter
      → (failed : Failures) (ds : List DeviceEntry) (local : Tunnels) (m : TunnelManager)
      → ((u : Bytes) → view m u ≡ lookup u local)
      → Inv m
      → Covers local m
      → Extends (is_connected ds) local (visit_all clock product_version starter failed ds local m)
        × Goes (visit_all clock product_version starter failed ds local m)
  unfolding visit_all is_connected
  visit_all-Extends owns failed [] local m same v c = (
    record { same = same; old = λ u t found. found; others = λ u unvisited. refl },
    record { order = v; covers = c },
  )
  visit_all-Extends owns failed (d ∷ ds) local m same v c =
      let r = visit clock product_version starter failed d local m in
      let one = visit-Extends failed d local m same in
      let goes = visit-Goes clock product_version starter owns failed d local m v c in
      let (rest, end) = visit_all-Extends owns failed ds r.0 r.1 one.same goes.order goes.covers in
      (
        record {
          same = rest.same;
          old = λ u t found. rest.old u t (one.old u t found);
          others = λ u unvisited.
              let (here, there) =
                neither (bytes_same d.serial_number u) (is_connected ds u) unvisited in
              rest.others u there ∙ one.others u here;
        },
        end,
      )
    where
      neither : (a b : Bool) → (a || b) ≡ false → (a ≡ false) × (b ≡ false)
      neither true b h = cc
      neither false b h = (refl, h)

pub stop_all-gone : (ts : Tunnels) (m : TunnelManager) → stop_all ts m ≡ stop_gone [] ts m
unfolding stop_all stop_gone is_connected
stop_all-gone [] m = refl
stop_all-gone ((u, t) ∷ ts) m = stop_all-gone ts (stop_tunnel t m)
