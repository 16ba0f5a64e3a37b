-- ===== src/Kubectl.antt =====
-- kubectl/exec.go and kubectl/drain.go
use pharos_host_upgrades.Prelude.{String, ◌<>◌, none, some, List, [], ◌∷◌}
use pharos_host_upgrades.Effects.{
  MaybeError, errorf, failed, output, exited, not_started, run_command, Prog, ret, ◌>>=◌,
  ask_process,
}

-- `strings.Join(args, " ")`
unfoldable pub spaced : List String → String
spaced [] = ""
spaced (arg ∷ []) = arg
spaced (arg ∷ more ∷ args) = arg <> " " <> spaced (more ∷ args)

unfoldable pub kubectl : List String → Prog MaybeError
unfolding spaced
kubectl args = do
  result ← ask_process (run_command "kubectl" args)
  elim result [
    | output _ ↦ ret none
    | exited state stderr ↦
        ret (some (errorf ("kubectl " <> spaced args <> ": " <> state <> ": " <> stderr)))
    | not_started cause ↦ ret (some (failed cause))
  ]

unfoldable pub drain : String → Prog MaybeError
unfolding kubectl
drain node =
    kubectl ("drain" ∷ "--delete-local-data" ∷ "--ignore-daemonsets" ∷ "--force" ∷ node ∷ [])
