-- ===== src/Scan/Owner.antt =====
-- From the sockets on the machine to the process of an inode: `GetProcesses`, then `Rescan`.
use go_netflow.Base.{
  ◌≡◌, refl, sym, ap, ◌∙◌, subst, Bool, true, false, ◌&&◌, Option, none, some, List, [], ◌∷◌,
  if◌then◌else◌, arith,
}
use go_netflow.Base.Bytes.{Bytes}
use go_netflow.Base.Dict.{Dict}
use go_netflow.Base.Outcome.{returns}
use go_netflow.Traffic.{Process}
use go_netflow.Controller.{Controller, rescan}
use go_netflow.Controller.Refresh.{IsController, cell, merge}
use go_netflow.Controller.Owners.{contains, Holds, process_by_inode, process_by_inode-rescan}
use go_netflow.Scan.{Proc, matches, get_processes}
use go_netflow.Scan.Laws.{IsProper, Once, holding, sockets_of, get_processes_lem}

abbrev inodes_of : Option Process → List Bytes
inodes_of none = []
inodes_of (some po) = po.inodes

guarded :
    (b : Bool) (o : Option Process) (po : Process) → (if b then o else none) ≡ some po → o ≡ some po
guarded true o po h = h
guarded false o po h = absurd (ground (arith, h))

module _ (fs : Proc) (name_filter : Bytes) where
  holding_inodes :
      (pid : Bytes) (inodes : List Bytes) (po : Process)
      → holding fs name_filter pid inodes ≡ some po
      → po.inodes ≡ inodes
  holding_inodes pid [] po h = absurd (ground (arith, h))
  holding_inodes pid (i ∷ inodes) po h = sym (ap inodes_of h)

  holding-contains :
      (inode pid : Bytes) (inodes : List Bytes)
      → contains inode inodes ≡ true
      → (po : Process) × (holding fs name_filter pid inodes ≡ some po)
        × (contains inode po.inodes ≡ true)
  holding-contains inode pid [] h = absurd (ground (arith, h))
  holding-contains inode pid (i ∷ inodes) h = (_, refl, h)

  -- On a machine with distinct pids and proper links, an inode that is a socket of one pid only,
  -- which matches the filter: `GetProcesses` succeeds, and after a `Rescan` with its processes the
  -- inode leads to the process of that pid, the one known before or the one found.
  pub rescan-get_processes :
      (pm : Controller) (pids : List Bytes) (inode pid : Bytes)
      → IsProper fs
      → fs.pids ≡ some pids
      → Once pids
      → IsController pm
      → contains pid pids ≡ true
      → matches fs name_filter pid ≡ true
      → contains inode (sockets_of fs pid) ≡ true
      → ((q : Bytes) → contains inode (sockets_of fs q) ≡ true → q ≡ pid)
      → (ppm : Dict Process) × (po : Process) × (get_processes fs name_filter ≡ returns (some ppm))
        × (holding fs name_filter pid (sockets_of fs pid) ≡ some po)
        × (process_by_inode (rescan pm (some ppm)) inode ≡ merge (cell pm pid) po)
  rescan-get_processes pm pids inode pid proper e once v listed fits shown only =
      let (ppm, scanned, distinct, entries) = get_processes_lem fs name_filter pids proper e once in
      let (po, held, has) = holding-contains inode pid (sockets_of fs pid) shown in
      let holder : Holds inode ppm pid po = (entries pid ∙ rw (listed, fits) held, has) in
      let alone : (q : Bytes) (qo : Process) → Holds inode ppm q qo → q ≡ pid = λ q qo h.
        let here =
          guarded (contains q pids && matches fs name_filter q) _ qo (sym (entries q) ∙ h.0) in
        only q (
          subst (λ is. contains inode is ≡ true) (holding_inodes q (sockets_of fs q) qo here)
            h.1) in
      (ppm, po, scanned, held, process_by_inode-rescan pm ppm inode pid po v distinct holder alone)
