-- ===== src/Systemd/Exec/Outcome.antt =====
-- systemd/exec.go: how the run of a unit ends.
use pharos_host_upgrades.Prelude.{
  ℕ, String, ◌<>◌, ◌≡◌, refl, sym, ◌∙◌, ap, subst, Bool, Option, none, some,
}
use pharos_host_upgrades.Effects.{MaybeError, ok, err}
use pharos_host_upgrades.Effects.Logic.{Safe, Safe-bind, Safe-weaken}
use pharos_host_upgrades.Systemd.Exec.{
  ExecOptions, ExecResult, SystemdExec, connect, exec_body, close_conn, close_reader, close, exec,
}
use pharos_host_upgrades.Systemd.Exec.Bus.{Bus, unconnected, finished, closed, open_conn, bus}
use pharos_host_upgrades.Systemd.Exec.Steps.{Finishes, exec_connected-Finishes}
use pharos_host_upgrades.Systemd.Journal

-- How `Exec` ends: no connection is open, and without an error the result has the status `done`,
-- which is what systemd reported of the job.
abbrev pub Settles : ExecResult × MaybeError → Bus → Type 0
Settles r b =
    (open_conn b ≡ none) × (r.1 ≡ none → (r.0.status ≡ "done") × (b ≡ closed (some "done")))

module _ (unit : String) where
  exec_body-Finishes :
      (cgo : Bool) (rounds : ℕ) (se : SystemdExec)
      → se.unit ≡ unit
      → se.conn ≡ none
      → Safe (bus unit) (exec_body cgo rounds se) unconnected (Finishes unit)
  unfolding exec_body connect
  exec_body-Finishes cgo rounds se named unattached = (
    refl,
    elim [
      | err e ↦ λ _. (sym unattached, λ n. absurd (cc))
      | ok conn ↦ λ _.
          exec_connected-Finishes unit cgo rounds conn (record se { conn = some conn }) named refl
    ],
  )

  -- The bus once the connection is closed, if there is one.
  abbrev Closes : Bus → Bus → Type 0
  Closes b b' =
      (open_conn b' ≡ none) × ((conn : ℕ) → b ≡ finished conn "done" → b' ≡ closed (some "done"))

  close_conn-Closes :
      (conn : Option ℕ) (b : Bus)
      → open_conn b ≡ conn
      → Safe (bus unit) (close_conn conn) b (λ _ b'. Closes b b')
  unfolding close_conn
  close_conn-Closes none b at = (at, λ conn e. let shown = sym at ∙ ap open_conn e in absurd (cc))
  close_conn-Closes (some conn) b at = (at, λ _ _. (refl, λ conn' e. rw e refl))

  close_reader-kept :
      (reader : Option ℕ) (b : Bus) → Safe (bus unit) (close_reader reader) b (λ _ b'. b' ≡ b)
  unfolding close_reader Journal.close
  close_reader-kept none b = refl
  close_reader-kept (some journal) b = (tt, λ _ _. refl)

  close-Closes :
      (se : SystemdExec) (b : Bus)
      → open_conn b ≡ se.conn
      → Safe (bus unit) (close se) b (λ _ b'. Closes b b')
  unfolding close
  close-Closes se b at =
      Safe-bind (bus unit) (close_conn se.conn) _ b (λ _ b'. Closes b b') (λ _ b'. Closes b b')
        (close_conn-Closes se.conn b at)
        λ _ b' closes.
          Safe-weaken (bus unit) (close_reader se.journal_reader) b'
            (λ _ b'' same. subst (Closes b) (sym same) closes)
            (close_reader-kept se.journal_reader b')

-- `Exec` connects, resets, starts and waits for its unit in this order and once each, over one
-- connection that it closes on every path, calls nothing else but the journal, and returns no error
-- only if systemd reported that the job is done.
pub exec-Settles :
    (cgo : Bool) (rounds : ℕ) (name : String) (options : ExecOptions)
    → Safe (bus (name <> ".service")) (exec cgo rounds name options) unconnected Settles
unfolding exec
exec-Settles cgo rounds name options =
    let unit = name <> ".service" in
    let se : SystemdExec = record {
      unit = unit;
      options = record options { unit = unit };
      conn = none;
      journal_reader = none;
    } in
    Safe-bind (bus unit) (exec_body cgo rounds se) _ unconnected (Finishes unit) Settles
      (exec_body-Finishes unit cgo rounds se refl refl)
      λ r b (attached, done).
        Safe-bind (bus unit) (close r.1) _ b (λ _ b'. Closes unit b b') Settles
          (close-Closes unit r.1 b attached)
          λ _ b' closes. (closes.0, λ n. ((done n).0, closes.1 (done n).1.0 (done n).1.1))
