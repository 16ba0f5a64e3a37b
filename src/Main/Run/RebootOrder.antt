-- ===== src/Main/Run/RebootOrder.antt =====
-- main.go and kube.go: what comes before a reboot with --drain.
use pharos_host_upgrades.Prelude.{
  ℕ, String, ◌≡◌, refl, Bool, true, ◌&&◌, Option, none, some, [], ◌∷◌, Option-cases, inl, inr,
}
use pharos_host_upgrades.Effects.{
  wrap, Result, MaybeError, ok, err, NodeObject, output, exited, not_started, Time, ret,
}
use pharos_host_upgrades.Effects.Logic.{Safe, Safe-bind, Safe-if}
use pharos_host_upgrades.External.{External}
use pharos_host_upgrades.Kube.Node
use pharos_host_upgrades.Kube.Node.{Node, annotate, annotation_of, change_node, is_some}
use pharos_host_upgrades.Kube.Node.Annotations.{annotation_of-annotate}
use pharos_host_upgrades.Kubectl
use pharos_host_upgrades.Hosts.Interface.{Host, Status}
use pharos_host_upgrades.Hosts.Kinds
use pharos_host_upgrades.Hosts.Apt
use pharos_host_upgrades.Hosts.Ubuntu
use pharos_host_upgrades.Hosts.Centos
use pharos_host_upgrades.Main.Config.{Options}
use pharos_host_upgrades.Main.Kube
use pharos_host_upgrades.Main.Kube.{Kube, kube_reboot_annotation}
use pharos_host_upgrades.Main.Conditions.{rebooting, make_reboot_condition_rebooting}
use pharos_host_upgrades.Main.Run
use pharos_host_upgrades.Main.Run.Prepared.{
  Prepared, nothing_done, IsPrepared, IsDrained, stored-IsPrepared, drain_first, Anyhow, Then,
  retried-Then,
}

abbrev Always : Prepared → Type 0
Always m = Unit {0}

module _ (name : String) where
  change_node-marks :
      (node : Node) (value : String) (m : Prepared)
      → IsDrained m
      → Safe
          (drain_first name)
          (change_node node (λ obj. annotate obj kube_reboot_annotation value))
          m
          (Then IsDrained IsPrepared)
  unfolding change_node
  change_node-marks node value m drained = (
    tt,
    elim [
      | err e ↦ λ _. (drained, λ h. cc)
      | ok obj ↦ λ _. (
        tt,
        elim [
          | err e ↦ λ _. (drained, λ h. cc)
          | ok _ ↦ λ _.
              rw
                (
                  annotation_of-annotate obj kube_reboot_annotation value kube_reboot_annotation,
                  stored-IsPrepared m drained,
                )
                (refl, λ _. refl)
        ],
      )
    ],
  )

  change_node-any :
      (node : Node) (change : NodeObject → NodeObject) (m : Prepared)
      → Always m
      → Safe (drain_first name) (change_node node change) m (Then Always Always)
  unfolding change_node
  change_node-any node change m _ = (
    tt,
    elim [
      | err e ↦ λ _. (tt, λ _. tt)
      | ok obj ↦ λ _. (tt, elim [ err e ↦ λ _. (tt, λ _. tt) | ok _ ↦ λ _. (tt, λ _. tt) ])
    ],
  )

  change_node_status-keeps :
      (node : Node) (change : NodeObject → NodeObject) (m : Prepared)
      → IsPrepared m
      → Safe (drain_first name) (Node.change_node_status node change) m (Then IsPrepared IsPrepared)
  unfolding Node.change_node_status
  change_node_status-keeps node change m p = (
    tt,
    elim [
      | err e ↦ λ _. (p, λ _. p)
      | ok obj ↦ λ _. (tt, elim [ err e ↦ λ _. (p, λ _. p) | ok _ ↦ λ _. (p, λ _. p) ])
    ],
  )

  drain-drains :
      (m : Prepared)
      → Safe (drain_first name) (Kubectl.drain name) m (λ e m'. e ≡ none → IsDrained m')
  unfolding Kubectl.drain Kubectl.kubectl
  drain-drains m = (
    (refl, refl),
    elim [ output _ ↦ λ _ _. refl | exited a b ↦ λ _ h. cc | not_started c ↦ λ _ h. cc ],
  )

-- The node that is drained.
abbrev pub drained_node : Option Kube → String
drained_node none = ""
drained_node (some k) = k.options.node

module _ (ext : External) where
  drain_node-drains :
      (k : Option Kube) (m : Prepared)
      → Safe
          (drain_first (drained_node k))
          (Kube.drain_node ext k)
          m
          (λ e m'. e ≡ none → IsDrained m' × ((node : Node) × (Kube.node_of k ≡ some node)))
  unfolding Kube.drain_node Node.set_annotation
  drain_node-drains none m = λ h. cc
  drain_node-drains (some k) m = elim (Option-cases k.node) [
    | inl e ↦ rw (e, Kube.drain_node) (λ h. cc)
    | inr (node, e) ↦
        rw (e, Kube.drain_node)
          (Safe-bind (drain_first k.options.node)
            (Node.set_annotation ext.retry node Kube.kube_drain_annotation "true") _ m
            (Then Always Always) _
            (retried-Then k.options.node Always Always ext.retry
              (change_node node (λ obj. annotate obj Kube.kube_drain_annotation "true"))
              (change_node-any k.options.node node
                (λ obj. annotate obj Kube.kube_drain_annotation "true"))
              m tt)
            (elim [
              | some f ↦ λ _ _ h. cc
              | none ↦ λ m' _.
                  Safe-bind (drain_first k.options.node) (Kubectl.drain k.options.node) _ m'
                    (λ f m''. f ≡ none → IsDrained m'') _ (drain-drains k.options.node m')
                    (elim [
                      | some f ↦ λ _ _ h. cc
                      | none ↦ λ m'' drained _. (drained refl, (node, refl))
                    ])
            ]))
  ]

  module _ (name : String) where
    write_mark-marks :
        (node : Node) (t : Time) (value : String) (m : Prepared)
        → IsDrained m
        → Safe
            (drain_first name)
            (Kube.write_mark ext node t value)
            m
            (λ e m'. e ≡ none → IsPrepared m')
    unfolding Kube.write_mark Node.set_annotation Node.write_conditions
        make_reboot_condition_rebooting
    write_mark-marks node t value m drained =
        Safe-bind (drain_first name)
          (Node.set_annotation ext.retry node kube_reboot_annotation value) _ m
          (Then IsDrained IsPrepared) _
          (retried-Then name IsDrained IsPrepared ext.retry
            (change_node node (λ obj. annotate obj kube_reboot_annotation value))
            (change_node-marks name node value) m drained)
          (elim [
            | some e ↦ λ _ _ h. cc
            | none ↦ λ m' marked. (
              tt,
              λ heartbeat _.
                  Safe-bind (drain_first name)
                    (Node.write_conditions ext.retry node (rebooting t heartbeat ∷ [])) _ m'
                    (Then IsPrepared IsPrepared) _
                    (retried-Then name IsPrepared IsPrepared ext.retry
                      (Node.change_node_status node
                        (λ obj. Node.set_conditions obj (rebooting t heartbeat ∷ [])))
                      (change_node_status-keeps name node
                        (λ obj. Node.set_conditions obj (rebooting t heartbeat ∷ [])))
                      m' (marked.1 refl))
                    (elim [ some e ↦ λ _ _ h. cc | none ↦ λ m'' p _. p.0 ]),
            )
          ])

    mark_reboot-marks :
        (k : Option Kube) (node : Node) (t : Time) (m : Prepared)
        → Kube.node_of k ≡ some node
        → IsDrained m
        → Safe (drain_first name) (Kube.mark_reboot ext k t) m (λ e m'. e ≡ none → IsPrepared m')
    unfolding Kube.mark_reboot
    mark_reboot-marks k node t m found drained =
        rw (found, Kube.mark_reboot) (marshalled (ext.marshal_time t))
      where
        marshalled :
            (r : Result String)
            → Safe
                (drain_first name)
                {A = MaybeError}
                (elim r [
                  | err e ↦ ret (some (wrap "Failed to marshal reboot annotation: " e))
                  | ok value ↦ Kube.write_mark ext node t value
                ])
                m
                (λ e m'. e ≡ none → IsPrepared m')
        marshalled (err e) = λ h. cc
        marshalled (ok value) = write_mark-marks node t value m drained

    reboot-prepared :
        (cgo : Bool) (n : ℕ) (host : Kinds.AnyHost) (m : Prepared)
        → IsPrepared m
        → Safe (drain_first name) (Kinds.reboot ext cgo n host) m Anyhow
    unfolding Kinds.reboot Ubuntu.host_methods Apt.host_methods Centos.host_methods
    reboot-prepared cgo n (Kinds.ubuntu h) m p =
        (tt, elim [ err e ↦ λ _. tt | ok conn ↦ λ _. (p, λ _ _. (tt, λ _ _. tt)) ])
    reboot-prepared cgo n (Kinds.centos h) m p =
        (tt, elim [ err e ↦ λ _. tt | ok conn ↦ λ _. (p, λ _ _. (tt, λ _ _. tt)) ])
    reboot-prepared cgo n (Kinds.debian h) m p =
        (tt, elim [ err e ↦ λ _. tt | ok conn ↦ λ _. (p, λ _ _. (tt, λ _ _. tt)) ])

  module _ (cgo : Bool) (n : ℕ) (options : Options) (rounds : ℕ)
      (draining : options.drain ≡ true) where
    abbrev methods : Host Kinds.AnyHost
    methods = Kinds.host_methods ext cgo n

    prepare_reboot-prepares :
        (k : Option Kube) (m : Prepared)
        → Safe
            (drain_first (drained_node k))
            (Run.prepare_reboot ext methods options rounds k)
            m
            (λ e m'. e ≡ none → IsPrepared m')
    unfolding Run.prepare_reboot
    prepare_reboot-prepares k m =
        rw (draining, Run.prepare_reboot)
          (Safe-bind (drain_first (drained_node k)) (Kube.drain_node ext k) _ m
            (λ e m'. e ≡ none → IsDrained m' × ((node : Node) × (Kube.node_of k ≡ some node))) _
            (drain_node-drains k m)
            (elim [
              | some e ↦ λ _ _ h. cc
              | none ↦ λ m' done. (
                tt,
                λ t _.
                    Safe-bind (drain_first (drained_node k)) (Kube.mark_reboot ext k t) _ m'
                      (λ e m''. e ≡ none → IsPrepared m'') _
                      (mark_reboot-marks (drained_node k) k (done refl).1.0 t m' (done refl).1.1
                        (done refl).0)
                      (elim [ some e ↦ λ _ _ h. cc | none ↦ λ m'' p _. p refl ]),
              )
            ]))

    -- With --drain, a host of any of the three kinds is rebooted only after `kubectl drain` of the
    -- configured node has succeeded and, after that, an update of a node with a reboot annotation was
    -- stored and none without it. No other command is run. The surroundings may answer anything.
    pub reboot_if_required-drain_first :
        (host : Kinds.AnyHost) (k : Option Kube) (status : Status)
        → Safe
            (drain_first (drained_node k))
            (Run.reboot_if_required ext methods options rounds host k status)
            nothing_done
            Anyhow
    unfolding Run.reboot_if_required Kinds.host_methods
    reboot_if_required-drain_first host k status =
        Safe-if (drain_first (drained_node k)) (options.reboot && status.reboot_required) _ _
          nothing_done Anyhow
          (λ _.
            Safe-bind (drain_first (drained_node k))
              (Run.prepare_reboot ext methods options rounds k) _ nothing_done
              (λ e m'. e ≡ none → IsPrepared m') Anyhow (prepare_reboot-prepares k nothing_done)
              (elim [
                | some e ↦ λ _ _. tt
                | none ↦ λ m' p.
                    Safe-bind (drain_first (drained_node k)) (Kinds.reboot ext cgo n host) _ m'
                      Anyhow Anyhow (reboot-prepared (drained_node k) cgo n host m' (p refl))
                      (elim [ some e ↦ λ _ _. tt | none ↦ λ _ _. tt ])
              ]))
          (λ _. tt)
