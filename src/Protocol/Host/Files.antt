-- ===== src/Protocol/Host/Files.antt =====
-- The files of hosts/config.go, proc/stat.go and systemd/hostname.go against the rules of the lock.
use pharos_host_upgrades.Prelude.{ℕ, String, ◌==◌, not, none, some, Entries}
use pharos_host_upgrades.Effects.{MaybeError, Result, ok, err, wrap, is_not_exist, ret}
use pharos_host_upgrades.Effects.Logic.{Within, Within-bind, Within-if}
use pharos_host_upgrades.External.{External}
use pharos_host_upgrades.Proc
use pharos_host_upgrades.Systemd.Hostname
use pharos_host_upgrades.Hosts.Config
use pharos_host_upgrades.Hosts.Config.{Config}
use pharos_host_upgrades.Protocol.{IsQuiet}

pub get_host_info-Quiet : Within IsQuiet Hostname.get_host_info
unfolding Hostname.get_host_info
get_host_info-Quiet = (tt, elim [ err e ↦ tt | ok conn ↦ (tt, λ answer. (tt, λ _. done answer)) ])
  where
    done :
        (answer : Result Hostname.Properties)
        → Within IsQuiet {A = Result Hostname.HostInfo} (elim answer [
          | err e ↦ ret (err (wrap "hostname1.GetProperties: " e))
          | ok properties ↦ ret (ok (Hostname.from_properties Hostname.no_host_info properties))
        ])
    done (err e) = tt
    done (ok p) = tt

module _ (ext : External) where
  pub read_stat-Quiet : Within IsQuiet (Proc.read_stat ext)
  unfolding Proc.read_stat
  read_stat-Quiet = (
    tt,
    elim [
      | err e ↦ tt
      | ok f ↦ (
        tt,
        λ lines. let (failure, stat) = Proc.scan_lines ext Proc.no_stat lines in done failure stat,
      )
    ],
  )
    where
      done :
          (failure : MaybeError) (stat : Proc.Stat)
          → Within IsQuiet {A = Result Proc.Stat}
              (elim failure [ some e ↦ ret (err e) | none ↦ ret (ok stat) ])
      done none stat = tt
      done (some e) stat = tt

  module _ (config : Config) (name : String) where
    pub file_exists-Quiet : Within IsQuiet (Config.file_exists ext config name)
    unfolding Config.file_exists
    file_exists-Quiet = (
      tt,
      elim [
        | err e ↦ Within-if IsQuiet (is_not_exist e) _ _ tt tt
        | ok info ↦ Within-if IsQuiet (not info.is_regular) _ _ tt tt
      ],
    )

    pub stat_host_file-Quiet : Within IsQuiet (Config.stat_host_file ext config name)
    unfolding Config.stat_host_file
    stat_host_file-Quiet =
        (tt, elim [ err e ↦ Within-if IsQuiet (is_not_exist e) _ _ tt tt | ok info ↦ tt ])

    pub read_host_file-Quiet : Within IsQuiet (Config.read_host_file ext config name)
    unfolding Config.read_host_file
    read_host_file-Quiet = Within-if IsQuiet (config.mount == "") _ _ tt (
      tt,
      elim [
        | err e ↦ tt
        | ok f ↦ (
          tt,
          elim [ err e ↦ (tt, λ _. tt) | ok contents ↦ (tt, elim [ some e ↦ tt | none ↦ tt ]) ],
        )
      ],
    )

    fill_host_file-Quiet :
        (mounted temp contents : String) (f : ℕ)
        → Within IsQuiet (Config.fill_host_file ext name mounted temp contents f)
    unfolding Config.fill_host_file
    fill_host_file-Quiet mounted temp contents f = (
      tt,
      elim [
        | some e ↦ tt
        | none ↦ (tt, elim [ some e ↦ tt | none ↦ (tt, elim [ some e ↦ tt | none ↦ tt ]) ])
      ],
    )

    pub write_host_file-Quiet :
        (contents : String) (mode : ℕ)
        → Within IsQuiet (Config.write_host_file ext config name contents mode)
    unfolding Config.write_host_file
    write_host_file-Quiet contents mode =
        Within-if IsQuiet (config.mount == "") _ _ tt
          (tt, elim [ err e ↦ tt | ok f ↦ fill_host_file-Quiet _ _ contents f ])

    copy_opened-Quiet : (f : ℕ) → Within IsQuiet (Config.copy_opened ext config name f)
    unfolding Config.copy_opened
    copy_opened-Quiet source = Within-if IsQuiet (config.mount == "") _ _ tt (
      tt,
      elim [
        | err e ↦ tt
        | ok f ↦ (tt, elim [ err e ↦ tt | ok text ↦ fill_host_file-Quiet _ _ text f ])
      ],
    )

    pub copy_host_file-Quiet : Within IsQuiet (Config.copy_host_file ext config name)
    unfolding Config.copy_host_file
    copy_host_file-Quiet = (
      tt,
      elim [
        | err e ↦ tt
        | ok source ↦
            Within-bind IsQuiet (Config.copy_opened ext config name source) _
              (copy_opened-Quiet source) (λ _. (tt, λ _. tt))
      ],
    )

    pub generate_file-Quiet :
        (text : String) (values : Entries)
        → Within IsQuiet (Config.generate_file ext config name text values)
    unfolding Config.generate_file
    generate_file-Quiet text values = (
      tt,
      elim [
        | some e ↦ tt
        | none ↦ (
          tt,
          elim [
            | err e ↦ tt
            | ok contents ↦ write_host_file-Quiet contents Config.file_mode_default
          ],
        )
      ],
    )
