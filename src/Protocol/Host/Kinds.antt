-- ===== src/Protocol/Host/Kinds.antt =====
-- Every kind of host against the rules of the lock.
use pharos_host_upgrades.Prelude.{ℕ, Bool}
use pharos_host_upgrades.Effects.{Prog}
use pharos_host_upgrades.Effects.Logic.{Within, Within-bind}
use pharos_host_upgrades.External.{External}
use pharos_host_upgrades.Hosts.Apt
use pharos_host_upgrades.Hosts.Ubuntu
use pharos_host_upgrades.Hosts.Centos
use pharos_host_upgrades.Hosts.Config.{Config}
use pharos_host_upgrades.Hosts.Kinds
use pharos_host_upgrades.Hosts.Kinds.{AnyHost, ubuntu, centos, debian}
use pharos_host_upgrades.Protocol.{IsQuiet, IsApart}
use pharos_host_upgrades.Protocol.MainCalls.{FollowsLock}
use pharos_host_upgrades.Protocol.Host.Apt.{apt-FollowsLock, ubuntu-FollowsLock}
use pharos_host_upgrades.Protocol.Host.Centos.{centos-FollowsLock}

rewrap-Quiet :
    {A S : Type 0} (kind : S → AnyHost) (m : Prog (A × S))
    → Within IsQuiet m
    → Within IsQuiet (Kinds.rewrap kind m)
rewrap-Quiet kind m w = Within-bind IsQuiet m _ w (λ (a, s). tt)

module _ (ext : External) (cgo : Bool) (rounds : ℕ) where
  abbrev debian_follows : FollowsLock (Apt.host_methods ext Apt.debian cgo rounds)
  debian_follows = apt-FollowsLock ext Apt.debian cgo rounds

  abbrev ubuntu_follows : FollowsLock (Ubuntu.host_methods ext cgo rounds)
  ubuntu_follows = ubuntu-FollowsLock ext cgo rounds

  abbrev centos_follows : FollowsLock (Centos.host_methods ext cgo rounds)
  centos_follows = centos-FollowsLock ext cgo rounds

  probe-Quiet : (h : AnyHost) → Within IsQuiet (Kinds.probe ext cgo rounds h)
  unfolding Kinds.probe
  probe-Quiet (ubuntu h) = rewrap-Quiet ubuntu _ (ubuntu_follows.probe_quiet h)
  probe-Quiet (centos h) = rewrap-Quiet centos _ (centos_follows.probe_quiet h)
  probe-Quiet (debian h) = rewrap-Quiet debian _ (debian_follows.probe_quiet h)

  configure-Quiet :
      (h : AnyHost) (config : Config) → Within IsQuiet (Kinds.configure ext cgo rounds h config)
  unfolding Kinds.configure
  configure-Quiet (ubuntu h) config = rewrap-Quiet ubuntu _ (ubuntu_follows.config_quiet h config)
  configure-Quiet (centos h) config = rewrap-Quiet centos _ (centos_follows.config_quiet h config)
  configure-Quiet (debian h) config = rewrap-Quiet debian _ (debian_follows.config_quiet h config)

  upgrade-Apart : (h : AnyHost) → Within IsApart (Kinds.upgrade ext cgo rounds h)
  unfolding Kinds.upgrade
  upgrade-Apart (ubuntu h) = ubuntu_follows.upgrade_apart h
  upgrade-Apart (centos h) = centos_follows.upgrade_apart h
  upgrade-Apart (debian h) = debian_follows.upgrade_apart h

  reboot-Apart : (h : AnyHost) → Within IsApart (Kinds.reboot ext cgo rounds h)
  unfolding Kinds.reboot
  reboot-Apart (ubuntu h) = ubuntu_follows.reboot_apart h
  reboot-Apart (centos h) = centos_follows.reboot_apart h
  reboot-Apart (debian h) = debian_follows.reboot_apart h

  -- The three kinds of host follow the rules of the lock: probe and configuration do not concern
  -- it, upgrade and reboot do not touch the DaemonSet, and none of them receives a start or looks at
  -- the context of a run.
  pub any_host-FollowsLock : FollowsLock (Kinds.host_methods ext cgo rounds)
  unfolding Kinds.host_methods
  any_host-FollowsLock = record {
    probe_quiet = probe-Quiet;
    config_quiet = configure-Quiet;
    upgrade_apart = upgrade-Apart;
    reboot_apart = reboot-Apart;
  }
