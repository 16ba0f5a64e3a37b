-- ===== src/Hosts/Kinds.antt =====
-- hosts.go: the kinds of host, dispatched as Go's interface does, and the probe of each in turn.
pub mod FirstMatch
use pharos_host_upgrades.Prelude.{ℕ, Bool, List, [], ◌∷◌, if◌then◌else◌}
use pharos_host_upgrades.Effects.{MaybeError, Result, ok, err, errorf, Prog, ret, ◌>>=◌}
use pharos_host_upgrades.External.{External}
use pharos_host_upgrades.Hosts.Apt
use pharos_host_upgrades.Hosts.Ubuntu
use pharos_host_upgrades.Hosts.Centos
use pharos_host_upgrades.Hosts.Config.{Config}
use pharos_host_upgrades.Hosts.Interface.{Info, Status, Host}

pub data AnyHost : Type 0 where
  ubuntu : Apt.AptHost → AnyHost
  centos : Centos.CentosHost → AnyHost
  debian : Apt.AptHost → AnyHost

-- A method that writes its host, under the constructor of its kind.
abbrev pub rewrap : {A S : Type 0} → (S → AnyHost) → Prog (A × S) → Prog (A × AnyHost)
rewrap kind m = m >>= λ (a, s). ret (a, kind s)

module _ (ext : External) (cgo : Bool) (rounds : ℕ) where
  abbrev debian_host : Host Apt.AptHost
  debian_host = Apt.host_methods ext Apt.debian cgo rounds

  abbrev ubuntu_host : Host Apt.AptHost
  ubuntu_host = Ubuntu.host_methods ext cgo rounds

  abbrev centos_host : Host Centos.CentosHost
  centos_host = Centos.host_methods ext cgo rounds

  unfoldable pub probe : AnyHost → Prog ((Info × Bool) × AnyHost)
  probe (ubuntu h) = rewrap ubuntu (ubuntu_host.probe h)
  probe (centos h) = rewrap centos (centos_host.probe h)
  probe (debian h) = rewrap debian (debian_host.probe h)

  unfoldable pub configure : AnyHost → Config → Prog (MaybeError × AnyHost)
  configure (ubuntu h) config = rewrap ubuntu (ubuntu_host.config h config)
  configure (centos h) config = rewrap centos (centos_host.config h config)
  configure (debian h) config = rewrap debian (debian_host.config h config)

  unfoldable pub upgrade : AnyHost → Prog (Status × MaybeError)
  upgrade (ubuntu h) = ubuntu_host.upgrade h
  upgrade (centos h) = centos_host.upgrade h
  upgrade (debian h) = debian_host.upgrade h

  unfoldable pub reboot : AnyHost → Prog MaybeError
  reboot (ubuntu h) = ubuntu_host.reboot h
  reboot (centos h) = centos_host.reboot h
  reboot (debian h) = debian_host.reboot h

  -- `hosts.Host` at the sum of the kinds.
  unfoldable pub host_methods : Host AnyHost
  unfolding probe configure upgrade reboot
  host_methods = record { probe = probe; config = configure; upgrade = upgrade; reboot = reboot }

-- The hosts that `probeHost` tries.
abbrev pub probe_hosts : List AnyHost
probe_hosts = ubuntu Apt.new ∷ centos Centos.new ∷ debian Apt.new ∷ []

-- The loop of `probeHost`, over any implementation of the interface.
unfoldable pub probe_first : {H : Type 0} → Host H → List H → Prog (Result (H × Info))
probe_first methods [] = ret (err (errorf "No hosts matched"))
probe_first methods (h ∷ hs) = do
  ((info, matched), h') ← methods.probe h
  if matched then ret (ok (h', info)) else probe_first methods hs
