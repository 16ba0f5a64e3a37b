-- ===== src/Hosts/Interface.antt =====
-- hosts/host.go: the values that a host reports, and the interface `Host` over a state `H`.
use pharos_host_upgrades.Prelude.{String, Bool, false}
use pharos_host_upgrades.Effects.{MaybeError, Time, Prog}
use pharos_host_upgrades.Hosts.Config.{Config}

pub record Info : Type 0 where
  pub operating_system : String
  pub operating_system_release : String
  pub kernel : String
  pub kernel_release : String
  pub boot_time : Time

-- The zero value of `Info`.
abbrev pub no_info : Info
no_info = record {
  operating_system = "";
  operating_system_release = "";
  kernel = "";
  kernel_release = "";
  boot_time = 0;
}

pub record Status : Type 0 where
  pub reboot_required : Bool
  pub reboot_required_since : Time
  pub reboot_required_message : String
  pub upgrade_log : String

-- The zero value of `Status`.
abbrev pub no_status : Status
no_status = record {
  reboot_required = false;
  reboot_required_since = 0;
  reboot_required_message = "";
  upgrade_log = "";
}

-- The methods of `Host`. `Probe` and `Config` write the host's fields.
pub record Host (H : Type 0) : Type 0 where
  pub probe : H → Prog ((Info × Bool) × H)
  pub config : H → Config → Prog (MaybeError × H)
  pub upgrade : H → Prog (Status × MaybeError)
  pub reboot : H → Prog MaybeError
