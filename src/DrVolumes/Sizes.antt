-- ===== src/DrVolumes/Sizes.antt =====
-- The sizes of DR volumes (drvolume.go).
use backup_tool.Base.{
  ℕ, zero, suc, ◌⊎◌, ◌+◌, ◌*◌, ◌≡◌, ◌≢◌, refl, subst, sym, ap, ◌∙◌, inl, inr, some, List, [], ◌∷◌,
  arith, if◌then◌else◌, ◌==◌, nat_eq,
}
use backup_tool.Base.Text.{Chars}
use backup_tool.Errors.{Errors, ok}
use backup_tool.Exec.{pure, raise, wrapping, ◌>>=◌}
use backup_tool.Exec.Inversion.{bind-ok, wrapping-ok}
use backup_tool.DrVolumes.{
  Pvc, DrVolume, DrVolumeCreateOptions, VolumeClients, lookup_cnpg_cluster_size, sum_clusters,
  lookup_cnpg_clusters_size, lookup_dr_volume_size, dr_volume_size, new_dr_volume,
}

abbrev pub sum : List ℕ → ℕ
sum [] = 0
sum (n ∷ ns) = n + sum ns

module _ (E : Errors) {W : Type 0} (k : VolumeClients E.Error W) (namespace : Chars) where
  -- The sizes of clusters, looked up one after the other.
  pub data LooksUp : List Chars → W → List ℕ → W → Type 0 where
    done : {w : W} → LooksUp [] w [] w
    next :
        {c : Chars} {cs : List Chars} {n : ℕ} {ns : List ℕ} {w w' w'' : W}
        → lookup_cnpg_cluster_size E k namespace c w ≡ (ok n, w')
        → LooksUp cs w' ns w''
        → LooksUp (c ∷ cs) w (n ∷ ns) w''

  sums :
      (cs : List Chars) (total n : ℕ) (w w' : W)
      → sum_clusters E k namespace cs total w ≡ (ok n, w')
      → (ns : List ℕ) × LooksUp cs w ns w' × (n ≡ total + sum ns)
  unfolding sum_clusters
  sums [] total n w w' h =
      let e : total ≡ n = cc h in
      let e' : w ≡ w' = cc h in ([], subst (λ v. LooksUp [] w [] v) e' done, omega (arith, e))
  sums (c ∷ cs) total n w w' h =
      let (size, w₁, first, rest) =
        bind-ok
          (wrapping E "failed to get the cluster size" (lookup_cnpg_cluster_size E k namespace c))
          (λ size. sum_clusters E k namespace cs (total + size)) w n w' h in
      let (ns, later, e) = sums cs (total + size) n w₁ w' rest in
      (
        size ∷ ns,
        next
            (wrapping-ok E "failed to get the cluster size"
              (lookup_cnpg_cluster_size E k namespace c) w size w₁ first)
            later,
        omega (arith, e),
      )

  looked_up :
      (cs : List Chars) (n : ℕ) (w w' : W)
      → lookup_dr_volume_size E k namespace cs w ≡ (ok n, w')
      → (ns : List ℕ) × LooksUp cs w ns w' × (n ≡ sum ns) × (n ≢ 0)
  unfolding lookup_dr_volume_size lookup_cnpg_clusters_size
  looked_up [] n w w' h = absurd (ground (arith, h))
  looked_up (c ∷ cs) n w w' h =
      let (total, w₁, first, rest) =
        bind-ok
          (wrapping E "failed to get the CNPG cluster sizes"
            (lookup_cnpg_clusters_size E k namespace (c ∷ cs)))
          (λ total.
            if total == 0 then raise (E.errorf "calculated storage size of 0") else pure total)
          w n w' h in
      let (ns, later, e) = sums (c ∷ cs) 0 total w w₁ (
        wrapping-ok E "failed to get the CNPG cluster sizes"
          (lookup_cnpg_clusters_size E k namespace (c ∷ cs)) w total w₁ first) in
      let e₁ : total ≡ n = ground (arith, rest) in
      let e₂ : w₁ ≡ w' = ground (arith, rest) in
      (
        ns,
        subst (λ v. LooksUp (c ∷ cs) w ns v) e₂ later,
        omega (arith, e, e₁),
        ground (arith, rest),
      )

  -- Where no size is configured, a volume's size is twice the sum of the sizes of the clusters, as
  -- they are looked up in order; and that is not 0.
  pub dr_volume_size-doubles :
      (cs : List Chars) (n : ℕ) (w w' : W)
      → dr_volume_size E k namespace 0 cs w ≡ (ok n, w')
      → (ns : List ℕ) × LooksUp cs w ns w' × (n ≡ sum ns * 2) × (n ≢ 0)
  unfolding dr_volume_size
  dr_volume_size-doubles cs n w w' h =
      let (size, w₁, first, rest) =
        bind-ok
          (wrapping E "failed to calculate the volume size"
            (lookup_dr_volume_size E k namespace cs))
          (λ size. pure (size * 2)) w n w' h in
      let (ns, later, e, positive) = looked_up cs size w w₁ (
        wrapping-ok E "failed to calculate the volume size" (lookup_dr_volume_size E k namespace cs)
          w size w₁ first) in
      let e₁ : size * 2 ≡ n = cc rest in
      let e₂ : w₁ ≡ w' = cc rest in
      (
        ns,
        subst (λ v. LooksUp cs w ns v) e₂ later,
        omega (arith, e, e₁),
        omega (arith, positive, e₁),
      )

  -- What a DR volume that was made was made of: a PVC that was asked for with a size that is not 0,
  -- which is the configured one if that is not 0, and else twice the sum of the sizes of the clusters.
  pub record IsMade (name : Chars) (configured : ℕ) (opts : DrVolumeCreateOptions) (w : W)
      (pvc : Pvc) (w' : W) : Type 0 where
    pub size : ℕ
    pub after_size : W
    pub positive : size ≢ 0
    pub sized :
        ((configured ≢ 0) × (size ≡ configured) × (after_size ≡ w))
        ⊎ ((configured ≡ 0)
            × ((ns : List ℕ) × LooksUp opts.cnpg_cluster_names w ns after_size
                × (size ≡ sum ns * 2)))
    pub asked :
        k.ensure_pvc_exists namespace name size opts.volume_storage_class after_size ≡ (ok pvc, w')

  configured_size :
      (configured : ℕ) (cs : List Chars) (w : W)
      → dr_volume_size E k namespace (suc configured) cs w ≡ (ok (suc configured), w)
  unfolding dr_volume_size
  configured_size configured cs w = ground arith

  sized_by :
      (configured : ℕ) (cs : List Chars) (n : ℕ) (w w' : W)
      → dr_volume_size E k namespace configured cs w ≡ (ok n, w')
      → (n ≢ 0)
        × (((configured ≢ 0) × (n ≡ configured) × (w' ≡ w))
            ⊎ ((configured ≡ 0) × ((ns : List ℕ) × LooksUp cs w ns w' × (n ≡ sum ns * 2))))
  sized_by zero cs n w w' h =
      let (ns, later, e, positive) = dr_volume_size-doubles cs n w w' h in
      (positive, inr (refl, (ns, later, e)))
  sized_by (suc configured) cs n w w' h =
      let e = configured_size configured cs w in
      let size : suc configured ≡ n = cc (e, h) in
      let same : w ≡ w' = cc (e, h) in
      (omega (arith, size), inl ((λ z. omega (arith, z)), sym size, sym same))

  -- A DR volume that is made has the PVC that EnsurePVCExists answered with when it was asked for a
  -- size that is not 0: the configured size if there is one, and else twice the sum of the sizes of the
  -- clusters, as they were looked up in order.
  pub new_dr_volume-IsMade :
      (name : Chars) (configured : ℕ) (opts : DrVolumeCreateOptions) (w w' : W) (drv : DrVolume)
      → new_dr_volume E k namespace name configured opts w ≡ (ok drv, w')
      → (pvc : Pvc) × (drv.pvc ≡ some pvc) × IsMade name configured opts w pvc w'
  unfolding new_dr_volume
  new_dr_volume-IsMade name configured opts w w' drv h =
      let (size, w₁, first, rest) =
        bind-ok (dr_volume_size E k namespace configured opts.cnpg_cluster_names)
          (λ size.
            wrapping E "failed to ensure backup volume exists"
              (k.ensure_pvc_exists namespace name size opts.volume_storage_class)
            >>= λ pvc. pure (record { pvc = some pvc }))
          w drv w' h in
      let (pvc, w₂, asked, made) =
        bind-ok
          (wrapping E "failed to ensure backup volume exists"
            (k.ensure_pvc_exists namespace name size opts.volume_storage_class))
          (λ (pvc : Pvc). pure (let r : DrVolume = record { pvc = some pvc } in r)) w₁ drv w'
          rest in
      let (positive, sized) = sized_by configured opts.cnpg_cluster_names size w w₁ first in
      let same : w₂ ≡ w' = cc made in
      (
        pvc,
        ground (arith, made),
        record {
          size = size;
          after_size = w₁;
          positive = positive;
          sized = sized;
          asked =
              wrapping-ok E "failed to ensure backup volume exists"
                (k.ensure_pvc_exists namespace name size opts.volume_storage_class) w₁ pvc w'
                (asked ∙ ap (λ v. (ok pvc, v)) same);
        },
      )
