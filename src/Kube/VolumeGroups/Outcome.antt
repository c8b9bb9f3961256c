-- ===== src/Kube/VolumeGroups/Outcome.antt =====
-- How the clone of a group of volumes ends (clonepvcgroup.go).
use backup_tool.Base.{
  ℕ, ◌≡◌, refl, sym, subst, ◌∙◌, ap, Option, none, some, List, [], ◌∷◌, ◌⊎◌, inl, inr, In, length,
  arith,
}
use backup_tool.Base.Text.{Chars}
use backup_tool.Errors.{Errors, Result, ok, err}
use backup_tool.Kube.Api.{
  Kind, Resource, History, note_created, created, asked, pvc, group_snapshot,
}
use backup_tool.Kube.Leaks.{
  Tracks, NoLeak, Tracks-asked, Tracks-hold, Tracks-drop, Tracks-weaken, NoLeak-refl,
}
use backup_tool.Kube.VolumeGroups.{
  ClonePvcGroupOptions, GroupSnapshot, Member, ClonePvcGroupResult, GroupClients, group_id,
  make_clones, settle_clones, settle_group, with_members, with_ready_group, with_group,
  with_sources, clone_pvc_group,
}
use backup_tool.Kube.VolumeGroups.Tracking.{
  OneEach, clone_ids, WithClones, delete_clones-Tracks, make_clones-Tracks,
}
use backup_tool.Disaster.Config.{LabelSelector}

module _ (E : Errors) (k : GroupClients E.Error) (namespace : Chars) where
  -- What the snapshot controller promises: a wait for a group snapshot answers with that snapshot,
  -- and a group has one member for each of its volumes.
  pub record IsFaithful : Type 0 where
    pub same_group :
        (name : Chars) (timeout : ℕ) (h : History) (g : GroupSnapshot)
        → k.wait_for_ready_group_snapshot namespace name timeout h ≡ ok g
        → g.name ≡ name
    pub one_each :
        (name : Chars) (count timeout : ℕ) (h : History) (ms : List Member)
        → k.wait_for_ready_members namespace name count timeout h ≡ ok ms
        → OneEach ms

  -- What the clone of a group may end with, from the history `h`: an error and no result, where
  -- nothing that was created since is not asked to be deleted; or a result and no error, where the
  -- group snapshot and the clones of the result are all that is left.
  pub data GroupEnding (h : History)
      : Option ClonePvcGroupResult × Option E.Error × History → Type 0 where
    gave_up : (e : E.Error) (h' : History) → NoLeak h h' → GroupEnding h (none, some e, h')
    made :
        (result : ClonePvcGroupResult) (h' : History)
        → Tracks
            (λ r.
              (r ≡ group_id namespace result.group.name)
              ⊎ In r (clone_ids namespace result.cloned_pvcs))
            h
            h'
        → GroupEnding h (some result, none, h')

  module _ (held : Resource → Type 0) (h₀ : History) where
    -- Up to the clean-up of the group snapshot.
    data IsTried (name : Chars)
        : Option ClonePvcGroupResult × Option E.Error × History → Type 0 where
      failed : (e : E.Error) (h : History) → Tracks held h₀ h → IsTried name (none, some e, h)
      cloned :
          (result : ClonePvcGroupResult) (h : History)
          → result.group.name ≡ name
          → WithClones namespace held h₀ result.cloned_pvcs h
          → IsTried name (some result, none, h)

    settle_clones-IsTried :
        (opts : ClonePvcGroupOptions) (ready : GroupSnapshot)
        (tried : Option E.Error × List (Chars × Chars) × History)
        → WithClones namespace held h₀ tried.1 tried.2
        → IsTried ready.name (settle_clones E k namespace opts ready tried)
    unfolding settle_clones
    settle_clones-IsTried opts ready (none, clones, h) t = cloned _ h refl t
    settle_clones-IsTried opts ready (some x, clones, h) t =
        failed _ _ (delete_clones-Tracks namespace held h₀ E k clones none h t)

    with_members-IsTried :
        (opts : ClonePvcGroupOptions) (ready : GroupSnapshot) (r : Result E.Error (List Member))
        (h : History)
        → ((ms : List Member) → r ≡ ok ms → OneEach ms)
        → Tracks held h₀ h
        → IsTried ready.name (with_members E k namespace opts ready r h)
    unfolding with_members
    with_members-IsTried opts ready (err e) h one t = failed _ h t
    with_members-IsTried opts ready (ok ms) h one t =
        settle_clones-IsTried opts ready (make_clones E k namespace opts ms h)
          (make_clones-Tracks namespace held h₀ E k opts ms h (one ms refl) t)

    with_ready_group-IsTried :
        (opts : ClonePvcGroupOptions) (expected : ℕ) (name : Chars)
        (r : Result E.Error GroupSnapshot) (h : History)
        → IsFaithful
        → ((g : GroupSnapshot) → r ≡ ok g → g.name ≡ name)
        → Tracks held h₀ h
        → IsTried name (with_ready_group E k namespace opts expected r h)
    unfolding with_ready_group
    with_ready_group-IsTried opts expected name (err e) h faithful same t = failed _ h t
    with_ready_group-IsTried opts expected name (ok ready) h faithful same t =
        subst (λ n. IsTried n (with_ready_group E k namespace opts expected (ok ready) h))
          (same ready refl)
          (with_members-IsTried opts ready
            (k.wait_for_ready_members namespace ready.name expected opts.wait_for_snapshot_timeout
              h)
            (asked group_snapshot ready.name ∷ h)
            (λ ms e. faithful.one_each ready.name expected opts.wait_for_snapshot_timeout h ms e)
            (Tracks-asked held h₀ h t group_snapshot ready.name))

  -- The deferred deletion of the group snapshot, on what was tried.
  settle_group-GroupEnding :
      (opts : ClonePvcGroupOptions) (group : GroupSnapshot) (h₀ : History)
      (tried : Option ClonePvcGroupResult × Option E.Error × History)
      → IsTried (λ r. ⊥ ⊎ (r ≡ group_id namespace group.name)) h₀ group.name tried
      → GroupEnding h₀ (settle_group E k namespace opts group tried)
  unfolding settle_group
  settle_group-GroupEnding opts group h₀ _ (failed e h t) =
      gave_up _ _ (Tracks-drop (λ r. ⊥) h₀ h (group_id namespace group.name) t)
  settle_group-GroupEnding opts group h₀ _ (cloned result h same t) = made result h (
      Tracks-weaken
        (λ r.
          (⊥ ⊎ (r ≡ group_id namespace group.name)) ⊎ In r (clone_ids namespace result.cloned_pvcs))
        h₀ h _
        (λ r i. elim i [
          | inl (inl f) ↦ absurd f
          | inl (inr e) ↦ inl (e ∙ ap (group_id namespace) (sym same))
          | inr j ↦ inr j
        ])
        t)

  with_group-GroupEnding :
      (opts : ClonePvcGroupOptions) (expected : ℕ) (r : Result E.Error GroupSnapshot) (h : History)
      → IsFaithful
      → GroupEnding h (
          with_group E k namespace opts expected r (
            note_created group_snapshot opts.group_snapshot_name
              (λ g. group_id namespace g.name)
              r
              h))
  unfolding with_group
  with_group-GroupEnding opts expected (err e) h faithful =
      gave_up _ _
        (Tracks-asked (λ r. ⊥) h h (NoLeak-refl h) group_snapshot opts.group_snapshot_name)
  with_group-GroupEnding opts expected (ok group) h faithful =
      let id = group_id namespace group.name in
      let h₁ : History = created id ∷ h in
      let timeout = opts.wait_for_snapshot_timeout in
      settle_group-GroupEnding opts group h _ (
        with_ready_group-IsTried (λ r. ⊥ ⊎ (r ≡ id)) h opts expected group.name
          (k.wait_for_ready_group_snapshot namespace group.name timeout h₁)
          (asked group_snapshot group.name ∷ h₁) faithful
          (λ g e. faithful.same_group group.name timeout h₁ g e)
          (Tracks-asked (λ r. ⊥ ⊎ (r ≡ id)) h h₁ (Tracks-hold (λ r. ⊥) h h id (NoLeak-refl h))
            group_snapshot group.name))

  -- A call that creates nothing starts no other account.
  since_asked :
      (held : Resource → Type 0) (kind : Kind) (name : Chars) (h h' : History)
      → Tracks held (asked kind name ∷ h) h'
      → Tracks held h h'
  since_asked held kind name h h' t r other i = elim (t r other i) [
    | inl (inl e) ↦ absurd (ground (arith, e))
    | inl (inr old) ↦ inl old
    | inr rest ↦ inr rest
  ]

  GroupEnding-asked :
      (kind : Kind) (name : Chars) (h : History)
      (ended : Option ClonePvcGroupResult × Option E.Error × History)
      → GroupEnding (asked kind name ∷ h) ended
      → GroupEnding h ended
  GroupEnding-asked kind name h _ (gave_up e h' t) =
      gave_up e h' (since_asked (λ r. ⊥) kind name h h' t)
  GroupEnding-asked kind name h _ (made result h' t) =
      made result h' (since_asked _ kind name h h' t)

  with_sources-GroupEnding :
      (selector : LabelSelector) (opts : ClonePvcGroupOptions) (r : Result E.Error (List Chars))
      (h : History)
      → IsFaithful
      → GroupEnding h (with_sources E k namespace selector opts r (asked pvc [] ∷ h))
  unfolding with_sources
  with_sources-GroupEnding selector opts (err e) h faithful =
      gave_up _ _ (Tracks-asked (λ r. ⊥) h h (NoLeak-refl h) pvc [])
  with_sources-GroupEnding selector opts (ok []) h faithful =
      gave_up _ _ (Tracks-asked (λ r. ⊥) h h (NoLeak-refl h) pvc [])
  with_sources-GroupEnding selector opts (ok (source ∷ sources)) h faithful =
      GroupEnding-asked pvc [] h _ (
        with_group-GroupEnding opts (length (source ∷ sources))
          (k.group_snapshot_volumes namespace selector opts.group_snapshot_name opts.snapshot_class
            (asked pvc [] ∷ h))
          (asked pvc [] ∷ h) faithful)

  -- Where the snapshot controller makes one member for each volume and answers with the group that
  -- is asked for: a clone of a group that fails returns no result and leaves nothing, whichever step
  -- fails; one that succeeds leaves the group snapshot and the clones that it returns, and no more.
  pub clone_pvc_group-GroupEnding :
      (selector : LabelSelector) (opts : ClonePvcGroupOptions) (h : History)
      → IsFaithful
      → GroupEnding h (clone_pvc_group E k namespace selector opts h)
  unfolding clone_pvc_group
  clone_pvc_group-GroupEnding selector opts h =
      with_sources-GroupEnding selector opts (k.list_pvcs namespace selector h) h
