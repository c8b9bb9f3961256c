-- ===== src/Kube/Recovery/Archiver.antt =====
-- The choice of the plugin that archives the write-ahead log, in findBarmanCloudWALArchiver of
-- pkg/kubecluster/composite/clonedcluster/clonedcluster.go.
use backup_tool.Base.{
  ◌≡◌, ◌≢◌, ◌⊎◌, inl, inr, true, false, Option, Option-cases, none, some, List, [], ◌∷◌, In, All,
  list_eq, list_beq_iff, arith,
}
use backup_tool.Base.Text.{Chars}
use backup_tool.Kube.Databases.{PluginConfiguration, Cluster}
use backup_tool.Kube.Recovery.{is_true, find_archiver_from, find_barman_cloud_wal_archiver}

abbrev pub IsMarked : PluginConfiguration → Type 0
IsMarked p = is_true p.is_wal_archiver ≡ true

module _ (barman : Chars) where
  -- No plugin of the list both has the name and is marked as the archiver.
  abbrev pub NoneMarked : List PluginConfiguration → Type 0
  NoneMarked = All (λ q. q.name ≡ barman → is_true q.is_wal_archiver ≡ false)

  find_archiver_from-none :
      (plugins : List PluginConfiguration) (fallback : Option PluginConfiguration)
      → find_archiver_from barman plugins fallback ≡ none
      → (fallback ≡ none) × All (λ q. q.name ≢ barman) plugins
  unfolding find_archiver_from
  find_archiver_from-none [] fallback e = (e, tt)
  find_archiver_from-none (q ∷ qs) none e = ground (
    arith,
    list_beq_iff q.name barman,
    find_archiver_from-none qs none,
    find_archiver_from-none qs (some q),
  )
  find_archiver_from-none (q ∷ qs) (some p) e =
      ground (arith, list_beq_iff q.name barman, find_archiver_from-none qs (some p))

  find_archiver_from-some :
      (plugins : List PluginConfiguration) (fallback : Option PluginConfiguration)
      (p : PluginConfiguration)
      → find_archiver_from barman plugins fallback ≡ some p
      → (((In p plugins) × (p.name ≡ barman)) ⊎ (fallback ≡ some p))
        × (IsMarked p ⊎ NoneMarked plugins)
  unfolding find_archiver_from
  find_archiver_from-some [] fallback p e = (inr e, inr tt)
  find_archiver_from-some (q ∷ qs) none p e = ground (
    arith,
    list_beq_iff q.name barman,
    find_archiver_from-some qs none p,
    find_archiver_from-some qs (some q) p,
  )
  find_archiver_from-some (q ∷ qs) (some g) p e =
      ground (arith, list_beq_iff q.name barman, find_archiver_from-some qs (some g) p)

  -- What findBarmanCloudWALArchiver is to return for a list of plugins.
  abbrev pub IsArchiver : List PluginConfiguration → Option PluginConfiguration → Type 0
  IsArchiver plugins none = All (λ q. q.name ≢ barman) plugins
  IsArchiver plugins (some p) =
      (In p plugins) × (p.name ≡ barman) × (IsMarked p ⊎ NoneMarked plugins)

  -- findBarmanCloudWALArchiver returns nothing just where no plugin of the cluster has the
  -- barman-cloud name. What it returns is a plugin of the cluster with that name, and one that is
  -- marked as the WAL archiver, unless no plugin with that name is.
  pub find_barman_cloud_wal_archiver-IsArchiver :
      (c : Cluster) → IsArchiver c.plugins (find_barman_cloud_wal_archiver barman c)
  unfolding find_barman_cloud_wal_archiver
  find_barman_cloud_wal_archiver-IsArchiver c =
      let found = find_archiver_from barman c.plugins none in
      elim (Option-cases found) [
        | inl e ↦ rw e (find_archiver_from-none c.plugins none e).1
        | inr (p, e) ↦ rw e (ground (arith, find_archiver_from-some c.plugins none p))
      ]
