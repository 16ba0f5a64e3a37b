-- ===== src/Hosts/Ubuntu.antt =====
-- hosts/ubuntu/host.go, which is hosts/debian/host.go but for the name, the pattern and the messages.
use pharos_host_upgrades.Prelude.{ℕ, Bool}
use pharos_host_upgrades.Effects.{MaybeError, Prog}
use pharos_host_upgrades.External.{External}
use pharos_host_upgrades.Hosts.Apt
use pharos_host_upgrades.Hosts.Apt.{AptHost, Flavor}
use pharos_host_upgrades.Hosts.Config.{Config}
use pharos_host_upgrades.Hosts.Interface.{Info, Status, Host}

abbrev pub ubuntu : Flavor
ubuntu = record {
  operating_system = "Ubuntu";
  pattern = "Ubuntu (\\S+)( LTS)?";
  label = "hosts/ubuntu";
}

module _ (ext : External) where
  unfoldable pub probe : AptHost → Prog ((Info × Bool) × AptHost)
  unfolding Apt.probe
  probe host = Apt.probe ext ubuntu host

  unfoldable pub configure : AptHost → Config → Prog (MaybeError × AptHost)
  unfolding Apt.configure
  configure host config = Apt.configure ext ubuntu host config

  unfoldable pub upgrade : Bool → ℕ → AptHost → Prog (Status × MaybeError)
  unfolding Apt.upgrade
  upgrade cgo rounds host = Apt.upgrade ext ubuntu cgo rounds host

  unfoldable pub reboot : AptHost → Prog MaybeError
  unfolding Apt.reboot
  reboot host = Apt.reboot ext ubuntu host

  -- The implementation of `hosts.Host`.
  unfoldable pub host_methods : Bool → ℕ → Host AptHost
  unfolding probe configure upgrade reboot
  host_methods cgo rounds = record {
    probe = probe;
    config = configure;
    upgrade = upgrade cgo rounds;
    reboot = reboot;
  }
