-- ===== src/Hosts/Kinds/FirstMatch.antt =====
-- hosts.go: the choice of `probeHost`.
use mathlib.Core.List.{Memᴰ, append-nil}
use mathlib.Core.Logic.{◌↔◌}
use pharos_host_upgrades.Prelude.{
  Bool, true, false, List, [], ◌∷◌, ◌++◌, ◌≡◌, refl, sym, ap, subst, if◌then◌else◌,
}
use pharos_host_upgrades.Effects.{Result, ok, err, errorf, ret}
use pharos_host_upgrades.Effects.Returns.{Returns, Returns-bind, bind-Returns}
use pharos_host_upgrades.Hosts.Interface.{Info, Host}
use pharos_host_upgrades.Hosts.Kinds.{probe_first}

module _ {H : Type 0} (methods : Host H) where
  -- The probe of a host can end so, with the host that it leaves.
  abbrev pub Probes : H → Info → Bool → H → Type 0
  Probes h info matched h' = Returns (methods.probe h) ((info, matched), h')

  -- The probe of every one of the hosts can end without a match.
  abbrev pub Missed : List H → Type 0
  Missed hosts = (h : H) → Memᴰ h hosts → (info : Info) × (h' : H) × Probes h info false h'

  -- The first host that matches, after hosts that did not, or an error if none of them matched.
  abbrev pub Picks : List H → Result (H × Info) → Type 0
  Picks hosts (ok (h', info)) =
      (before : List H) × (h : H) × (after : List H) × (hosts ≡ before ++ h ∷ after)
      × Missed before
      × Probes h info true h'
  Picks hosts (err e) = Missed hosts × (e ≡ errorf "No hosts matched")

  Missed-cons :
      (h : H) (hosts : List H) (info : Info) (h' : H)
      → Probes h info false h'
      → Missed hosts
      → Missed (h ∷ hosts)
  Missed-cons h hosts info h' probed missed g (Memᴰ.head same) =
      subst (λ x. (i : Info) × (x' : H) × Probes x i false x') (sym same) (info, h', probed)
  Missed-cons h hosts info h' probed missed g (Memᴰ.tail m) = missed g m

  Picks-cons :
      (h : H) (hosts : List H) (info : Info) (h' : H) (r : Result (H × Info))
      → Probes h info false h'
      → Picks hosts r
      → Picks (h ∷ hosts) r
  Picks-cons h hosts info h' (ok (g', found)) probed (before, g, after, split, missed, matched) = (
    h ∷ before,
    g,
    after,
    ap (λ l. h ∷ l) split,
    Missed-cons h before info h' probed missed,
    matched,
  )
  Picks-cons h hosts info h' (err e) probed (missed, same) =
      (Missed-cons h hosts info h' probed missed, same)

  probe_first-Picks :
      (hosts : List H) (r : Result (H × Info))
      → Returns (probe_first methods hosts) r
      → Picks hosts r
  unfolding probe_first
  probe_first-Picks [] r returns = subst (Picks []) returns ((λ h m. elim m [ ]), refl)
  probe_first-Picks (h ∷ hosts) r returns =
      let (((info, matched), h'), probed, rest) = Returns-bind (methods.probe h) _ r returns in
      probed_one info matched h' probed rest (probe_first-Picks hosts r)
    where
      probed_one :
          (info : Info) (matched : Bool) (h' : H)
          → Probes h info matched h'
          → Returns (if matched then ret (ok (h', info)) else probe_first methods hosts) r
          → (Returns (probe_first methods hosts) r → Picks hosts r)
          → Picks (h ∷ hosts) r
      probed_one info true h' probed same later =
          subst (Picks (h ∷ hosts)) same ([], h, hosts, refl, (λ g m. elim m [ ]), probed)
      probed_one info false h' probed rest later = Picks-cons h hosts info h' r probed (later rest)

  -- Hosts that miss are passed over.
  passed_over :
      (before rest : List H) (r : Result (H × Info))
      → Missed before
      → Returns (probe_first methods rest) r
      → Returns (probe_first methods (before ++ rest)) r
  unfolding probe_first
  passed_over [] rest r missed returns = returns
  passed_over (h ∷ before) rest r missed returns =
      let (info, h', probed) = missed h (Memᴰ.head refl) in
      bind-Returns (methods.probe h) _ ((info, false), h') r probed
        (passed_over before rest r (λ g m. missed g (Memᴰ.tail m)) returns)

  Picks-probe_first :
      (hosts : List H) (r : Result (H × Info))
      → Picks hosts r
      → Returns (probe_first methods hosts) r
  unfolding probe_first
  Picks-probe_first hosts (ok (h', info)) (before, h, after, split, missed, probed) =
      subst (λ l. Returns (probe_first methods l) (ok (h', info))) (sym split)
        (passed_over before (h ∷ after) (ok (h', info)) missed
          (bind-Returns (methods.probe h) _ ((info, true), h') (ok (h', info)) probed refl))
  Picks-probe_first hosts (err e) (missed, same) =
      subst (λ l. Returns (probe_first methods l) (err e)) (append-nil hosts)
        (passed_over hosts [] (err e) missed (ap err (sym same)))

  -- `probeHost` can return the first host whose probe matches, as its probe leaves it and with what
  -- its probe found, and an error if no probe matches, and nothing else.
  pub probe_first_lem :
      (hosts : List H) (r : Result (H × Info))
      → Returns (probe_first methods hosts) r ↔ Picks hosts r
  probe_first_lem hosts r = (probe_first-Picks hosts r, Picks-probe_first hosts r)
