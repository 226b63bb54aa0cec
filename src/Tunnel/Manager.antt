-- ===== src/Tunnel/Manager.antt =====
-- ios/tunnel/tunnel_api.go: the manager of the running tunnels, with `Tunnel` of tunnel.go. What the
-- manager did is listed, newest first: the devices that it tried, the tunnels that were started and
-- those that were closed. The calls of the system and of the packages around it are parameters:
-- `clock n` is what the reading number n of the clock gives, in nanoseconds, `product_version n` and
-- `starter n` are what the attempt number n gives (`GetProductVersion` and the interface
-- `tunnelStarter`), and `closing` is what a tunnel's closer returns, after those closed so far.
pub mod Order
pub mod Attempts
pub mod Removals
pub mod Steps
pub mod Backoff
pub mod Gone
pub mod Views
pub mod Arrivals
pub mod Ports
pub mod Rounds
use go_ios.Common.{
  ℕ, ◌+◌, ◌-◌, ◌*◌, ◌^◌, Bool, true, false, not, ◌&&◌, ◌||◌, Option, none, some, List, [], ◌∷◌, ltb,
  ◌==◌, length, if◌then◌else◌,
}
use go_ios.Common.Bytes.{Bytes}
use go_ios.Common.Text.{codes}
use go_ios.Common.Maps.{Bytes_eq, bytes_same, lookup, insert, delete}
use go_ios.Common.Result.{Result, ok, err}

-- `closer` names what the tunnel's closer frees.
pub record Tunnel : Type 0 where
  pub address : Bytes
  pub rsd_port : ℕ
  pub udid : Bytes
  pub userspace_tun : Bool
  pub userspace_tun_port : ℕ
  pub closer : ℕ

-- what the manager reads and writes of a `DeviceEntry`
pub record DeviceEntry : Type 0 where
  pub serial_number : Bytes
  pub connection_type : Bytes
  pub userspace_tun_port : ℕ

pub record FailedDevice : Type 0 where
  pub last_attempt : ℕ
  pub fail_count : ℕ

abbrev pub Tunnels : Type 0
Tunnels = List (Bytes × Tunnel)

abbrev pub Failures : Type 0
Failures = List (Bytes × FailedDevice)

pub record TunnelManager : Type 0 where
  pub tunnels : Tunnels
  pub failed_devices : Failures
  pub first_update_completed : Bool
  pub userspace_tun : Bool
  pub port_offset : ℕ
  pub udid_filter : Bytes
  pub base_port : ℕ
  pub closed_once : Bool
  pub readings : ℕ
  pub attempted : List DeviceEntry
  pub started : List Tunnel
  pub stopped : List Tunnel

pub data TunnelError : Type 0 where
  tunnel_not_found no_device_list : TunnelError
  not_closed : Bytes → TunnelError

abbrev pub second : ℕ
second = 10 ^ 9

unfoldable pub new_tunnel_manager : Bool → Bytes → ℕ → ℕ → TunnelManager
new_tunnel_manager userspace_tun udid_filter base_port http_api_port = record {
  tunnels = [];
  failed_devices = [];
  first_update_completed = false;
  userspace_tun = userspace_tun;
  port_offset = 1;
  udid_filter = udid_filter;
  base_port = if base_port == 0 then http_api_port else base_port;
  closed_once = false;
  readings = 0;
  attempted = [];
  started = [];
  stopped = [];
}

unfoldable pub failed_device_backoff : ℕ → ℕ
failed_device_backoff fail_count =
    let shift = if ltb 4 (fail_count - 1) then 4 else fail_count - 1 in
    let seconds = 30 * 2 ^ shift in (if ltb 300 seconds then 300 else seconds) * second

abbrev pub exists {ℓ} : {A : Type ℓ} → Option A → Bool
exists none = false
exists (some a) = true

abbrev pub backs_off : ℕ → Option FailedDevice → Bool
backs_off now none = false
backs_off now (some f) = ltb (now - f.last_attempt) (failed_device_backoff f.fail_count)

unfoldable pub network : Bytes
network = codes "Network"

unfoldable pub should_skip_device : DeviceEntry → Failures → ℕ → Bool
should_skip_device d failed now =
    bytes_same d.connection_type network || backs_off now (lookup d.serial_number failed)

-- `m.udidFilter != "" && udid != m.udidFilter`
abbrev pub is_filtered : Bytes → Bytes → Bool
is_filtered [] udid = false
is_filtered (c ∷ udid_filter) udid = not (bytes_same udid (c ∷ udid_filter))

abbrev pub fail_count_of : Option FailedDevice → ℕ
fail_count_of none = 0
fail_count_of (some f) = f.fail_count

-- the port of a listener in user space, for a device that has none
unfoldable pub assign_port : DeviceEntry → TunnelManager → DeviceEntry × TunnelManager
assign_port d m =
    if m.userspace_tun && (d.userspace_tun_port == 0)
    then (
      record d { userspace_tun_port = m.base_port + m.port_offset },
      record m { port_offset = m.port_offset + 1 },
    )
    else (d, m)

-- whether a device in the list has the serial number
unfoldable pub is_connected : List DeviceEntry → Bytes → Bool
is_connected [] udid = false
is_connected (d ∷ ds) udid = bytes_same d.serial_number udid || is_connected ds udid

-- the failures of devices that are not connected any more are dropped
unfoldable pub prune : List DeviceEntry → Failures → Failures
prune devices [] = []
prune devices ((udid, f) ∷ fs) =
    let rest = prune devices fs in if is_connected devices udid then (udid, f) ∷ rest else rest

-- `stopTunnel`, but for what the closer returns, which every caller drops
unfoldable pub stop_tunnel : Tunnel → TunnelManager → TunnelManager
stop_tunnel t m = record m { tunnels = delete t.udid m.tunnels; stopped = t ∷ m.stopped }

unfoldable pub stop_all : Tunnels → TunnelManager → TunnelManager
stop_all [] m = m
stop_all ((udid, t) ∷ ts) m = stop_all ts (stop_tunnel t m)

unfoldable pub stop_gone : List DeviceEntry → Tunnels → TunnelManager → TunnelManager
stop_gone devices [] m = m
stop_gone devices ((udid, t) ∷ ts) m =
    stop_gone devices ts (if is_connected devices udid then m else stop_tunnel t m)

unfoldable pub finish_update : List DeviceEntry → TunnelManager → TunnelManager
finish_update devices m = record m {
  failed_devices = prune devices m.failed_devices;
  first_update_completed = true;
}

-- `maps.Values`
abbrev pub values : Tunnels → List Tunnel
values [] = []
values ((udid, t) ∷ ts) = t ∷ values ts

unfoldable pub list_tunnels : TunnelManager → List Tunnel
list_tunnels m = values m.tunnels

-- the tunnel of the device, or none for the zero `Tunnel`
unfoldable pub first_with : Bytes → List Tunnel → Option Tunnel
first_with udid [] = none
first_with udid (t ∷ ts) = if bytes_same t.udid udid then some t else first_with udid ts

unfoldable pub find_tunnel : Bytes → TunnelManager → Option Tunnel
find_tunnel udid m = first_with udid (list_tunnels m)

module _ {V : Type 0} (clock : ℕ → ℕ) (product_version : ℕ → DeviceEntry → Option V)
    (starter : ℕ → DeviceEntry → V → Bool → Option Tunnel) where
  abbrev pub with_version : ℕ → DeviceEntry → Bool → Option V → Option Tunnel
  with_version n d userspace_tun none = none
  with_version n d userspace_tun (some v) = starter n d v userspace_tun

  unfoldable pub start_tunnel : DeviceEntry → TunnelManager → Option Tunnel
  start_tunnel d m =
      let n = length m.attempted in with_version n d m.userspace_tun (product_version n d)

  -- what the loop over the devices makes of an attempt
  unfoldable pub record_outcome :
      DeviceEntry → Option Tunnel → Tunnels → TunnelManager → Tunnels × TunnelManager
  record_outcome d none local m = (
    local,
    record m {
      failed_devices =
          insert d.serial_number
            (record {
              last_attempt = clock m.readings;
              fail_count = fail_count_of (lookup d.serial_number m.failed_devices) + 1;
            })
            m.failed_devices;
      readings = m.readings + 1;
      attempted = d ∷ m.attempted;
    },
  )
  record_outcome d (some t) local m = (
    insert d.serial_number t local,
    record m {
      failed_devices = delete d.serial_number m.failed_devices;
      tunnels = insert d.serial_number t m.tunnels;
      attempted = d ∷ m.attempted;
      started = t ∷ m.started;
    },
  )

  unfoldable pub try_device : DeviceEntry → Tunnels → TunnelManager → Tunnels × TunnelManager
  try_device d local m =
      let (d', m') = assign_port d m in record_outcome d' (start_tunnel d' m') local m'

  -- one round of the loop; `local` and `failed` are the copies that the update began with
  unfoldable pub visit : Failures → DeviceEntry → Tunnels → TunnelManager → Tunnels × TunnelManager
  visit failed d local m =
      if is_filtered m.udid_filter d.serial_number || exists (lookup d.serial_number local)
      then (local, m)
      else if should_skip_device d failed (clock m.readings)
      then (local, record m { readings = m.readings + 1 })
      else try_device d local (record m { readings = m.readings + 1 })

  unfoldable pub visit_all :
      Failures → List DeviceEntry → Tunnels → TunnelManager → Tunnels × TunnelManager
  visit_all failed [] local m = (local, m)
  visit_all failed (d ∷ ds) local m =
      let (local', m') = visit failed d local m in visit_all failed ds local' m'

  unfoldable pub update_tunnels :
      Option (List DeviceEntry) → TunnelManager → TunnelManager × Result TunnelError (Unit {0})
  update_tunnels none m = (stop_all m.tunnels m, err no_device_list)
  update_tunnels (some devices) m =
      let (local, m') = visit_all m.failed_devices devices m.tunnels m in
      (finish_update devices (stop_gone devices local m'), ok tt)

module _ (closing : List Tunnel → Tunnel → Option Bytes) where
  abbrev pub closed_as : Option Bytes → Result TunnelError (Unit {0})
  closed_as none = ok tt
  closed_as (some e) = err (not_closed e)

  remove_found :
      Bytes → Option Tunnel → TunnelManager → TunnelManager × Result TunnelError (Unit {0})
  remove_found udid none m = (m, err tunnel_not_found)
  remove_found udid (some t) m = (
    record m { tunnels = delete udid m.tunnels; stopped = t ∷ m.stopped },
    closed_as (closing m.stopped t),
  )

  unfoldable pub remove_tunnel :
      Bytes → TunnelManager → TunnelManager × Result TunnelError (Unit {0})
  unfolding remove_found
  remove_tunnel udid m = remove_found udid (lookup udid m.tunnels) m

  -- the tunnels are closed one after the other, and stay in the table; the errors are joined
  close_each : List Tunnel → TunnelManager → TunnelManager × List Bytes
  close_each [] m = (m, [])
  close_each (t ∷ ts) m =
      let (m', errors) = close_each ts (record m { stopped = t ∷ m.stopped }) in
      (m', elim (closing m.stopped t) [ none ↦ errors | some e ↦ e ∷ errors ])

  unfoldable pub close : TunnelManager → TunnelManager × List Bytes
  unfolding close_each
  close m =
      if m.closed_once
      then (m, [])
      else close_each (list_tunnels m) (record m { closed_once = true })
