-- ===== src/Systemd/Hostname.antt =====
-- systemd/hostname.go: what hostname1 says of the host.
use pharos_host_upgrades.Prelude.{String, Option, none, some, List, [], ◌∷◌, ◌==◌, if◌then◌else◌}
use pharos_host_upgrades.Effects.{
  Result, ok, err, wrap, Property, text, hostname1_new, hostname1_properties, hostname1_close, Prog,
  ret, ◌>>=◌, ◌>>◌, ask_system,
}

abbrev pub Properties : Type 0
Properties = List (String × Property)

unfoldable pub find_property : String → Properties → Option Property
find_property k [] = none
find_property k ((j, p) ∷ ps) = if j == k then some p else find_property k ps

-- `setString`: the new value of `*s`
unfoldable pub set_string : String → Properties → String → String
unfolding find_property
set_string s m k = elim (find_property k m) [ some (text v) ↦ v | _ ↦ s ]

pub record HostInfo : Type 0 where
  pub kernel_name : String
  pub hostname : String
  pub operating_system_pretty_name : String
  pub kernel_version : String
  pub kernel_release : String

abbrev pub no_host_info : HostInfo
no_host_info = record {
  kernel_name = "";
  hostname = "";
  operating_system_pretty_name = "";
  kernel_version = "";
  kernel_release = "";
}

unfoldable pub from_properties : HostInfo → Properties → HostInfo
unfolding set_string
from_properties i properties = record {
  kernel_name = set_string i.kernel_name properties "KernelName";
  hostname = set_string i.hostname properties "Hostname";
  operating_system_pretty_name =
      set_string i.operating_system_pretty_name properties "OperatingSystemPrettyName";
  kernel_version = set_string i.kernel_version properties "KernelVersion";
  kernel_release = set_string i.kernel_release properties "KernelRelease";
}

unfoldable pub get_host_info : Prog (Result HostInfo)
unfolding from_properties
get_host_info = do
  connected ← ask_system hostname1_new
  elim connected [
    | err e ↦ ret (err (wrap "hostname1.New: " e))
    | ok conn ↦ do
      answer ← ask_system (hostname1_properties conn)
      ask_system (hostname1_close conn)
      elim answer [
        | err e ↦ ret (err (wrap "hostname1.GetProperties: " e))
        | ok properties ↦ ret (ok (from_properties no_host_info properties))
      ]
  ]
