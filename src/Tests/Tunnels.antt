-- ===== src/Tests/Tunnels.antt =====
-- ios/tunnel at a concrete agent, device and stream.
use go_ios.Common.{
  ℕ, ◌+◌, ◌-◌, ◌*◌, ◌^◌, ◌≤◌, ◌≡◌, refl, sym, ◌∙◌, subst, Bool, true, false, Option, none, some,
  List, [], ◌∷◌, ◌++◌, length, take, drop, take-append, drop-append, ◌==◌, min, inl, if◌then◌else◌,
  arith,
}
use go_ios.Common.Bytes.{Bytes}
use go_ios.Common.Text.{codes}
use go_ios.Common.Maps.{Bytes_eq, lookup, insert, delete}
use go_ios.Common.Result.{Result, ok, err}
use go_ios.Tunnel.Manager.{
  Tunnel, DeviceEntry, TunnelManager, new_tunnel_manager, failed_device_backoff, second, network,
  update_tunnels, remove_tunnel, find_tunnel, visit, visit_all, try_device, should_skip_device,
  assign_port, start_tunnel, record_outcome, finish_update, stop_gone, is_connected, prune,
}
use go_ios.Tunnel.Manager.Order.{Inv, new_tunnel_manager-Inv}
use go_ios.Tunnel.Manager.Steps.{
  at, visiting, begins, lists, visits, starts, goes_on, Lives-IsOrderly,
}
use go_ios.Tunnel.Manager.Backoff.{failed_device_backoff_bounds}
use go_ios.Tunnel.Manager.Rounds.{view}
use go_ios.Tunnel.Manager.Views.{Call, update, remove, Runs, run, run-Runs}
use go_ios.Tunnel.Manager.Arrivals.{update_tunnels-Arrives}
use go_ios.Tunnel.Manager.Ports.{PortsFit, update_tunnels-PortsFit}
use go_ios.Tunnel.Agent.{
  ClientError, tunnel_missing, method_get, method_delete, tunnel_prefix, url_scheme, tunnel_url,
  tunnel_info_for_device, stop_tunnel_for_device, refresh_tunnel_for_device,
}
use go_ios.Tunnel.Agent.Requests.{
  IsUdid, IsReadable, answer, serve, public, seen, reported, requests-tunnel,
}
use go_ios.Tunnel.Agent.Refresh.{IsRunning, enough, Refreshes, refresh_tunnel_for_device_ends}

-- Each reading is a second after the last, and every attempt succeeds.
abbrev clock : ℕ → ℕ
clock n = n * second

abbrev version : ℕ → DeviceEntry → Option ℕ
version n d = some 18

abbrev tunnel_for : DeviceEntry → Tunnel
tunnel_for d = record {
  address = codes "fd00::1";
  rsd_port = 49152;
  udid = d.serial_number;
  userspace_tun = false;
  userspace_tun_port = 0;
  closer = 7;
}

abbrev starter : ℕ → DeviceEntry → ℕ → Bool → Option Tunnel
starter n d v userspace = some (tunnel_for d)

abbrev closing : List Tunnel → Tunnel → Option Bytes
closing closed t = none

starter-own :
    (n : ℕ) (d : DeviceEntry) (v : ℕ) (userspace : Bool) (t : Tunnel)
    → starter n d v userspace ≡ some t
    → t.udid ≡ d.serial_number
starter-own n d v userspace t e = cc e

abbrev phone : DeviceEntry
phone = record {
  serial_number = codes "00008030";
  connection_type = codes "USB";
  userspace_tun_port = 0;
}

abbrev fresh : Bool → TunnelManager
fresh userspace = new_tunnel_manager userspace [] 0 60105

fresh-Inv : (userspace : Bool) → Inv (fresh userspace)
fresh-Inv userspace = new_tunnel_manager-Inv userspace [] 0 60105

abbrev visited : TunnelManager
visited =
    (visit clock version starter (fresh false).failed_devices phone (fresh false).tunnels
      (fresh false)).1

Lives-IsOrderly_example : Inv visited
Lives-IsOrderly_example =
    Lives-IsOrderly clock version starter closing starter-own false [] 0 60105
      (at visited (
        visiting (phone ∷ []) []
          (visit clock version starter (fresh false).failed_devices phone (fresh false).tunnels
            (fresh false)).0
          (fresh false).failed_devices))
      (goes_on _ _
        (goes_on _ _ (goes_on _ _ starts (begins (fresh false)))
          (lists (fresh false) (fresh false).tunnels (fresh false).failed_devices (phone ∷ [])))
        (visits (fresh false) (phone ∷ []) [] phone (fresh false).tunnels
          (fresh false).failed_devices _ refl))

abbrev calls : List Call
calls = update (some (phone ∷ [])) ∷ (remove phone.serial_number ∷ [])

run-Runs_example :
    Runs calls (view (fresh false)) (view (run clock version starter closing calls (fresh false)))
    × Inv (run clock version starter closing calls (fresh false))
    × ((u : Bytes)
        → find_tunnel u (run clock version starter closing calls (fresh false))
          ≡ view (run clock version starter closing calls (fresh false)) u)
run-Runs_example =
    run-Runs clock version starter closing starter-own calls (fresh false) (fresh-Inv false)

update_tunnels-Arrives_example :
    (t : Tunnel) × (find_tunnel phone.serial_number
        (update_tunnels clock version starter (some (phone ∷ [])) (fresh false)).0
      ≡ some t)
unfolding new_tunnel_manager lookup network
update_tunnels-Arrives_example =
    update_tunnels-Arrives clock version starter starter-own phone (phone ∷ []) (fresh false) refl
      (λ f e n h. cc e) (λ n e userspace same. (18, tunnel_for e, refl, refl)) (inl refl)
      (fresh-Inv false) refl

failed_device_backoff_bounds_example :
    (failed_device_backoff 5 ≡ min (30 * 2 ^ (5 - 1)) 300 * second)
    × (30 * second ≤ failed_device_backoff 5)
    × (failed_device_backoff 5 ≤ 300 * second)
    × (failed_device_backoff 5 ≤ failed_device_backoff (5 + 1))
failed_device_backoff_bounds_example = failed_device_backoff_bounds 5

update_tunnels-PortsFit_example :
    PortsFit (update_tunnels clock version starter (some (phone ∷ (phone ∷ []))) (fresh true)).0
unfolding new_tunnel_manager
update_tunnels-PortsFit_example =
    update_tunnels-PortsFit clock version starter (some (phone ∷ (phone ∷ []))) (fresh true)
      (refl, (refl, tt)) (record { userspace = refl; upcoming = refl; ports = tt })

-- a JSON library: numbers in front, and the two texts behind the length of the first
abbrev flag : Bool → ℕ
flag true = 1
flag false = 0

abbrev printed : Tunnel → Bytes
printed t =
    t.rsd_port
    ∷ (flag t.userspace_tun ∷ (t.userspace_tun_port ∷ (length t.address ∷ (t.address ++ t.udid))))

abbrev read_back : Bytes → Option Tunnel
read_back (p ∷ (u ∷ (q ∷ (n ∷ s)))) = some (record {
  address = take n s;
  rsd_port = p;
  udid = drop n s;
  userspace_tun = u == 1;
  userspace_tun_port = q;
  closer = 0;
})
read_back _ = none

flag-eq : (b : Bool) → (flag b == 1) ≡ b
flag-eq true = refl
flag-eq false = refl

read_back-printed : (t : Tunnel) → read_back (printed t) ≡ some (public t)
read_back-printed t =
    rw
      (
        take-append t.address t.udid (length t.address) refl,
        drop-append t.address t.udid (length t.address) refl,
        flag-eq t.userspace_tun,
      )
      refl

abbrev running : TunnelManager
running = (update_tunnels clock version starter (some (phone ∷ [])) (fresh false)).0

running-Inv : Inv running
unfolding run
running-Inv =
    (run-Runs clock version starter closing starter-own (update (some (phone ∷ [])) ∷ [])
      (fresh false) (fresh-Inv false)).1

-- an agent's address, and the HTTP and text libraries on what the clients and the agent send
abbrev agent_address : Bytes
agent_address = codes "127.0.0.1:60105"

abbrev after_host : Bytes → Bytes
after_host url = drop 22 url

after_host-tunnel_url : (u : Bytes) → after_host (tunnel_url agent_address u) ≡ tunnel_prefix ++ u
unfolding tunnel_url url_scheme
after_host-tunnel_url u = refl

abbrev without_line_end : Bytes → Bytes
without_line_end [] = []
without_line_end (c ∷ []) = if c == 10 then [] else c ∷ []
without_line_end (c ∷ (d ∷ s)) = c ∷ without_line_end (d ∷ s)

phone-IsUdid : IsUdid phone.serial_number
phone-IsUdid = (λ e. cc e, (refl, (refl, (refl, (refl, (refl, (refl, (refl, (refl, tt)))))))))

running-tunnel : view running phone.serial_number ≡ some (tunnel_for phone)
unfolding update_tunnels new_tunnel_manager visit_all visit try_device should_skip_device network
    assign_port start_tunnel record_outcome finish_update stop_gone is_connected prune lookup insert
    delete
running-tunnel = refl

tunnel_for-IsReadable : IsReadable (tunnel_for phone)
tunnel_for-IsReadable = record {
  address = ground arith;
  udid = ground arith;
  rsd_port = omega arith;
  userspace_tun_port = omega arith;
}

running-IsReadable : (t : Tunnel) → view running phone.serial_number ≡ some t → IsReadable t
running-IsReadable t e =
    subst (λ (o : Option Tunnel). elim o [ none ↦ Unit | some v ↦ IsReadable v ])
      (sym running-tunnel ∙ e) tunnel_for-IsReadable

requests-tunnel_example :
    ((answer closing printed without_line_end after_host running method_get
        (tunnel_url agent_address phone.serial_number)).0
      ≡ running)
    × (tunnel_info_for_device without_line_end read_back
          (serve closing printed without_line_end after_host running)
          agent_address
          phone.serial_number
        ≡ seen (view running phone.serial_number))
    × ((answer closing printed without_line_end after_host running method_delete
          (tunnel_url agent_address phone.serial_number)).0
        ≡ (remove_tunnel closing phone.serial_number running).0)
    × (stop_tunnel_for_device without_line_end
          (serve closing printed without_line_end after_host running)
          agent_address
          phone.serial_number
        ≡ reported without_line_end (remove_tunnel closing phone.serial_number running).1)
    × (tunnel_info_for_device without_line_end read_back
          (serve closing printed without_line_end after_host
            (answer closing printed without_line_end after_host running method_delete
              (tunnel_url agent_address phone.serial_number)).0)
          agent_address
          phone.serial_number
        ≡ err tunnel_missing)
requests-tunnel_example =
    requests-tunnel closing printed without_line_end after_host agent_address
      (λ u n. after_host-tunnel_url u) read_back (λ t h. read_back-printed t) phone.serial_number
      running phone-IsUdid running-Inv running-IsReadable

-- The first question takes a millisecond, and each other round 501. With 900 ms the third round
-- is the last one, and the tunnel is back at the third question.
abbrev millisecond : ℕ
millisecond = 10 ^ 6

abbrev readings : ℕ → ℕ
readings n = (501 * n - 500) * millisecond

abbrev answers : ℕ → Result ClientError Tunnel
answers n = if n == 2 then ok (tunnel_for phone) else err tunnel_missing

readings-IsRunning : IsRunning readings
readings-IsRunning = record { starts = omega arith; sleeps = λ n. omega arith }

refresh_tunnel_for_device_ends_example :
    (r : Result ClientError Tunnel) × (refresh_tunnel_for_device readings answers
        (enough (900 * millisecond))
        (900 * millisecond)
        (ok tt)
      ≡ some r)
    × Refreshes readings answers readings-IsRunning (900 * millisecond) (ok tt) r
refresh_tunnel_for_device_ends_example =
    refresh_tunnel_for_device_ends readings answers readings-IsRunning (900 * millisecond) (ok tt)
