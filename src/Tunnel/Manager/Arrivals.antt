-- ===== src/Tunnel/Manager/Arrivals.antt =====
-- A device that can have a tunnel gets one.
use go_ios.Common.{
  ℕ, ◌+◌, ◌*◌, ◌-◌, ◌≤◌, ◌≡◌, refl, sym, ap, ◌∙◌, Bool, true, false, ◌||◌, Option, none, some, List,
  [], ◌∷◌, inl, inr, Bool-cases, Option-cases, length, le→ltb_false, arith,
}
use go_ios.Common.Bytes.{Bytes}
use go_ios.Common.Maps.{Bytes_eq, bytes_same, lookup, lookup-insert, same_refl}
use go_ios.Common.Keyed.{Member}
use go_ios.Tunnel.Manager.{
  Tunnel, Tunnels, DeviceEntry, FailedDevice, Failures, TunnelManager, assign_port, start_tunnel,
  record_outcome, try_device, visit, visit_all, should_skip_device, is_filtered, exists,
  is_connected, network, second, failed_device_backoff, update_tunnels, finish_update, find_tunnel,
}
use go_ios.Tunnel.Manager.Order.{Inv, Covers}
use go_ios.Tunnel.Manager.Attempts.{StartsOwn, visit-Goes, assign_port_serial}
use go_ios.Tunnel.Manager.Backoff.{failed_device_backoff_bounds}
use go_ios.Tunnel.Manager.Rounds.{view, visit-Extends, visit_all-Extends}
use go_ios.Tunnel.Manager.Gone.{Covers-AreOwn, stop_gone_connected}
use go_ios.Tunnel.Manager.Views.{table-Covers, find_tunnel-view, update_tunnels-Changes}

-- what a round leaves of the filter and the clock
record Later (m m' : TunnelManager) : Type 0 where
  filter : m'.udid_filter ≡ m.udid_filter
  readings : m.readings ≤ m'.readings

assign_port-Later : (d : DeviceEntry) (m : TunnelManager) → Later m (assign_port d m).1
unfolding assign_port
assign_port-Later d m = ground arith

connected-Member :
    (d : DeviceEntry) (ds : List DeviceEntry) → Member d ds → is_connected ds d.serial_number ≡ true
unfolding is_connected
connected-Member d [] h = absurd h
connected-Member d (x ∷ ds) (inl e) = rw (← e, same_refl d.serial_number) refl
connected-Member d (x ∷ ds) (inr h) =
    let c = connected-Member d ds h in
    elim (Bool-cases (bytes_same x.serial_number d.serial_number)) [
      | inl e ↦ rw (is_connected, e) refl
      | inr e ↦ rw (is_connected, e, c) refl
    ]

module _ {V : Type 0} (clock : ℕ → ℕ) (product_version : ℕ → DeviceEntry → Option V)
    (starter : ℕ → DeviceEntry → V → Bool → Option Tunnel)
    (owns : StartsOwn clock product_version starter) (failed : Failures) where
  record_outcome-Later :
      (d : DeviceEntry) (o : Option Tunnel) (local : Tunnels) (m : TunnelManager)
      → Later m (record_outcome clock product_version starter d o local m).1
  unfolding record_outcome
  record_outcome-Later d none local m = record { filter = refl; readings = omega arith }
  record_outcome-Later d (some t) local m = record { filter = refl; readings = omega arith }

  visit-Later :
      (d : DeviceEntry) (local : Tunnels) (m : TunnelManager)
      → Later m (visit clock product_version starter failed d local m).1
  unfolding visit try_device
  visit-Later d local m =
      let n = record m { readings = m.readings + 1 } in
      let p = assign_port d n in
      let a = assign_port-Later d n in
      let l =
        record_outcome-Later p.0 (start_tunnel clock product_version starter p.0 p.1) local p.1 in
      elim (Bool-cases
        (is_filtered m.udid_filter d.serial_number || exists (lookup d.serial_number local))) [
          | inl e ↦ rw (visit, e) (record { filter = refl; readings = omega arith })
          | inr e ↦ elim (Bool-cases (should_skip_device d failed (clock m.readings))) [
            | inl s ↦ rw (visit, e, s) (record { filter = refl; readings = omega arith })
            | inr s ↦
                rw (visit, e, s)
                  (record {
                    filter = l.filter ∙ a.filter;
                    readings = omega (arith, l.readings, a.readings);
                  })
          ]
        ]

  module _ (d : DeviceEntry) (first : ℕ) (usb : bytes_same d.connection_type network ≡ false)
      (rested : (f : FailedDevice)
        → lookup d.serial_number failed ≡ some f
        → (n : ℕ) → first ≤ n
        → f.last_attempt + 300 * second ≤ clock n)
      (works : (n : ℕ) (e : DeviceEntry) (userspace : Bool)
        → e.serial_number ≡ d.serial_number
        → (v : V) × (t : Tunnel) × (product_version n e ≡ some v)
          × (starter n e v userspace ≡ some t)) where
    not_skipped : (n : ℕ) → first ≤ n → should_skip_device d failed (clock n) ≡ false
    unfolding should_skip_device
    not_skipped n h = elim (Option-cases (lookup d.serial_number failed)) [
      | inl e ↦ rw (should_skip_device, usb, e) refl
      | inr (f, e) ↦
          let bound = (failed_device_backoff_bounds f.fail_count).2 in
          rw (should_skip_device, usb, e)
            (le→ltb_false (clock n - f.last_attempt) (failed_device_backoff f.fail_count)
              (omega (arith, rested f e n h, bound)))
    ]

    starts :
        (e : DeviceEntry) (m : TunnelManager)
        → e.serial_number ≡ d.serial_number
        → (t : Tunnel) × (start_tunnel clock product_version starter e m ≡ some t)
    unfolding start_tunnel
    starts e m s =
        let (v, t, p, q) = works (length m.attempted) e m.userspace_tun s in
        (t, rw (start_tunnel, p) q)

    record_outcome-some :
        (e : DeviceEntry) (o : Option Tunnel) (local : Tunnels) (m : TunnelManager) (t : Tunnel)
        → e.serial_number ≡ d.serial_number
        → o ≡ some t
        → lookup d.serial_number (record_outcome clock product_version starter e o local m).0
          ≡ some t
    unfolding record_outcome
    record_outcome-some e none local m t s h = cc h
    record_outcome-some e (some x) local m t s h =
        lookup-insert e.serial_number d.serial_number x local ∙ rw (s, same_refl d.serial_number) h

    visit-Arrives :
        (local : Tunnels) (m : TunnelManager)
        → is_filtered m.udid_filter d.serial_number ≡ false
        → first ≤ m.readings
        → (t : Tunnel) × (lookup d.serial_number
              (visit clock product_version starter failed d local m).0
            ≡ some t)
    unfolding visit try_device
    visit-Arrives local m unfiltered h = elim (Option-cases (lookup d.serial_number local)) [
      | inr (t, e) ↦ (t, rw (visit, unfiltered, e) e)
      | inl e ↦
          let n = record m { readings = m.readings + 1 } in
          let p = assign_port d n in
          let serial = assign_port_serial d n in
          let (t, s) = starts p.0 p.1 serial in
          (
            t,
            rw (visit, unfiltered, e, not_skipped m.readings h)
                (record_outcome-some p.0 (start_tunnel clock product_version starter p.0 p.1) local
                  p.1 t serial s),
          )
    ]

    visit_all-Arrives :
        (ds : List DeviceEntry) (local : Tunnels) (m : TunnelManager)
        → Member d ds
        → ((u : Bytes) → view m u ≡ lookup u local)
        → Inv m
        → Covers local m
        → is_filtered m.udid_filter d.serial_number ≡ false
        → first ≤ m.readings
        → (t : Tunnel) × (lookup d.serial_number
              (visit_all clock product_version starter failed ds local m).0
            ≡ some t)
    unfolding visit_all
    visit_all-Arrives [] local m h same i c unfiltered from = absurd h
    visit_all-Arrives (x ∷ ds) local m h same i c unfiltered from =
        let r = visit clock product_version starter failed x local m in
        let one = visit-Extends clock product_version starter failed x local m same in
        let goes = visit-Goes clock product_version starter owns failed x local m i c in
        let l = visit-Later x local m in
        elim h [
          | inl e ↦
              let (t, here) = visit-Arrives local m unfiltered from in
              let there : lookup d.serial_number r.0 ≡ some t =
                ap
                  (λ (y : DeviceEntry).
                    lookup d.serial_number (visit clock product_version starter failed y local m).0)
                  (sym e)
                ∙ here in
              (
                t,
                (visit_all-Extends clock product_version starter owns failed ds r.0 r.1 one.same
                      goes.order goes.covers).0.old
                    d.serial_number t there,
              )
          | inr later ↦
              visit_all-Arrives ds r.0 r.1 later one.same goes.order goes.covers
                (ap (λ u. is_filtered u d.serial_number) l.filter ∙ unfiltered)
                (omega (arith, l.readings))
        ]

module _ {V : Type 0} (clock : ℕ → ℕ) (product_version : ℕ → DeviceEntry → Option V)
    (starter : ℕ → DeviceEntry → V → Bool → Option Tunnel)
    (owns : StartsOwn clock product_version starter) (d : DeviceEntry) where
  -- On a manager in order: a device in the list that the filter lets through and that is not connected
  -- over the network has a tunnel after the update, which `FindTunnel` gives, where its last failure,
  -- if it had one, is five minutes old by every reading of the clock from now on, its version is read
  -- and the starter can start a tunnel for it. The starter must put the device's serial number into a
  -- tunnel.
  pub update_tunnels-Arrives :
      (devices : List DeviceEntry) (m : TunnelManager)
      → bytes_same d.connection_type network ≡ false
      → ((f : FailedDevice)
          → lookup d.serial_number m.failed_devices ≡ some f
          → (n : ℕ) → m.readings ≤ n
          → f.last_attempt + 300 * second ≤ clock n)
      → ((n : ℕ) (e : DeviceEntry) (userspace : Bool)
          → e.serial_number ≡ d.serial_number
          → (v : V) × (t : Tunnel) × (product_version n e ≡ some v)
            × (starter n e v userspace ≡ some t))
      → Member d devices
      → Inv m
      → is_filtered m.udid_filter d.serial_number ≡ false
      → (t : Tunnel) × (find_tunnel d.serial_number
            (update_tunnels clock product_version starter (some devices) m).0
          ≡ some t)
  unfolding update_tunnels finish_update
  update_tunnels-Arrives devices m usb rested works listed v unfiltered =
      let c = table-Covers m v in
      let failed = m.failed_devices in
      let r = visit_all clock product_version starter failed devices m.tunnels m in
      let (t, arrived) =
        visit_all-Arrives clock product_version starter owns failed d m.readings usb rested works
          devices m.tunnels m listed (λ u. refl) v c unfiltered (omega arith) in
      let (extends, goes) =
        visit_all-Extends clock product_version starter owns failed devices m.tunnels m (λ u. refl)
          v c in
      let after = (update_tunnels clock product_version starter (some devices) m).0 in
      let order : Inv after =
        (update_tunnels-Changes clock product_version starter owns (some devices) m v).0 in
      (
        t,
        find_tunnel-view d.serial_number after order
            ∙ stop_gone_connected devices r.0 r.1 d.serial_number
                (Covers-AreOwn r.0 r.1 goes.covers) (connected-Member d devices listed)
            ∙ extends.same d.serial_number
            ∙ arrived,
      )
