-- ===== src/Kube/VolumeGroups/Tracking.antt =====
-- What the parts of the clone of a group (clonepvcgroup.go) leave on the cluster.
use backup_tool.Base.{
  ◌≡◌, ◌≢◌, refl, ◌∙◌, Bool-cases, Option-cases, Option, none, List, [], ◌∷◌, map, ◌⊎◌, inl, inr,
  In, All, All-zip, ◌==◌, list_eq, arith,
}
use backup_tool.Base.Dict.{Dict, lookup, insert, lookup-insert_ne}
use backup_tool.Base.Text.{Chars}
use backup_tool.Errors.{Errors, Result-cases}
use backup_tool.Kube.Api.{Resource, History, deleted}
use backup_tool.Exec.Ensures.{Ends, Ensures-wrapping}
use backup_tool.Kube.Leaks.{Tracks, Tracks-drop, Tracks-weaken}
use backup_tool.Kube.Volumes.{pvc_id}
use backup_tool.Kube.Volumes.Tracking.{await_pod-Tracks, WithPvc, create-Ensures}
use backup_tool.Kube.VolumeGroups.{
  ClonePvcGroupOptions, Member, GroupClients, source_of, clone_names, clone_pvc_from_member,
  clone_members, delete_clones, bind_clones, make_clones,
}

-- Each member has a source of its own.
abbrev pub OneEach : List Member → Type 0
OneEach [] = Unit
OneEach (m ∷ ms) = All (λ m'. source_of m' ≢ source_of m) ms × OneEach ms

-- No member's source has a clone yet.
abbrev pub Fresh : Dict Chars Chars → List Member → Type 0
Fresh clones = All (λ m. lookup (source_of m) clones ≡ none)

Fresh-insert :
    (m : Member) (name : Chars) (clones : Dict Chars Chars) (ms : List Member)
    → All (λ m'. source_of m' ≢ source_of m) ms
    → Fresh clones ms
    → Fresh (insert (source_of m) name clones) ms
Fresh-insert m name clones ms =
    All-zip _ _ _ ms
      (λ m' other fresh. lookup-insert_ne (source_of m') (source_of m) name clones other ∙ fresh)

none-Fresh : (ms : List Member) → Fresh [] ms
unfolding lookup
none-Fresh [] = tt
none-Fresh (m ∷ ms) = (refl, none-Fresh ms)

module _ (namespace : Chars) where
  abbrev pub clone_ids : Dict Chars Chars → List Resource
  clone_ids = map (λ (p : Chars × Chars). pvc_id namespace p.1)

  -- The clone of a source that has none yet is held beside the others.
  insert-keeps :
      (source name : Chars) (clones : Dict Chars Chars) (r : Resource)
      → lookup source clones ≡ none
      → In r (clone_ids clones) ⊎ (r ≡ pvc_id namespace name)
      → In r (clone_ids (insert source name clones))
  unfolding lookup insert
  insert-keeps source name [] r fresh (inl i) = absurd i
  insert-keeps source name [] r fresh (inr e) = inl e
  insert-keeps source name ((j, w) ∷ clones) r fresh i = elim (Bool-cases (source == j)) [
    | inl same ↦ absurd (ground (arith, fresh, same))
    | inr other ↦
        let rest = insert-keeps source name clones r (rw other at fresh) in
        rw other (elim i [
          | inl (inl e) ↦ inl e
          | inl (inr old) ↦ inr (rest (inl old))
          | inr e ↦ inr (rest (inr e))
        ])
  ]

  module _ (held : Resource → Type 0) (h₀ : History) where
    -- With the clones that were made.
    abbrev pub WithClones : Dict Chars Chars → History → Type 0
    WithClones clones = Tracks (λ r. held r ⊎ In r (clone_ids clones)) h₀

    module _ (E : Errors) (k : GroupClients E.Error) where
      -- The clean-up after an error leaves no clone.
      pub delete_clones-Tracks :
          (clones : Dict Chars Chars) (cleanup_err : Option E.Error) (h : History)
          → WithClones clones h
          → Tracks held h₀ (delete_clones E k namespace clones cleanup_err h).1
      unfolding delete_clones
      delete_clones-Tracks [] cleanup_err h t =
          Tracks-weaken (λ r. held r ⊎ ⊥) h₀ h held
            (λ r i. elim i [ inl kept ↦ kept | inr f ↦ absurd f ]) t
      delete_clones-Tracks ((source, name) ∷ clones) cleanup_err h t =
          delete_clones-Tracks clones _ (deleted (pvc_id namespace name) ∷ h) (
            Tracks-drop (λ r. held r ⊎ In r (clone_ids clones)) h₀ h (pvc_id namespace name)
              (Tracks-weaken (λ r. held r ⊎ In r (clone_ids ((source, name) ∷ clones))) h₀ h
                (λ r. (held r ⊎ In r (clone_ids clones)) ⊎ (r ≡ pvc_id namespace name))
                (λ r i. elim i [
                  | inl kept ↦ inl (inl kept)
                  | inr (inl e) ↦ inr e
                  | inr (inr j) ↦ inl (inr j)
                ])
                t))

      module _ (opts : ClonePvcGroupOptions) where
        member-Ends :
            (clones : Dict Chars Chars) (m : Member) (h : History)
            → WithClones clones h
            → Ends
                (λ name.
                  WithPvc E k.volumes namespace (λ r. held r ⊎ In r (clone_ids clones)) h₀ name)
                (WithClones clones)
                (clone_pvc_from_member E k namespace opts m h)
        unfolding clone_pvc_from_member
        member-Ends clones m h t = elim (Bool-cases (source_of m == [])) [
          | inl e ↦ rw e t
          | inr e ↦ rw e (
              (Ensures-wrapping E "failed to create volume from member snapshot" _ (
                  create-Ensures E k.volumes namespace (λ r. held r ⊎ In r (clone_ids clones)) h₀
                    (source_of m) (source_of m) opts.dest_storage_class_name m.snapshot)).ends
                h t)
        ]

        -- Each clone that the loop makes is in its result, also where it fails.
        clone_members-Tracks :
            (ms : List Member) (clones : Dict Chars Chars) (h : History)
            → OneEach ms
            → Fresh clones ms
            → WithClones clones h
            → let (_, clones', h') = clone_members E k namespace opts ms clones h in
              WithClones clones' h'
        unfolding clone_members
        clone_members-Tracks [] clones h one fresh t = t
        clone_members-Tracks (m ∷ ms) clones h one fresh t =
            let answer = member-Ends clones m h t in
            let (r, h₁) = clone_pvc_from_member E k namespace opts m h in
            elim (Result-cases r) [
              | inl (name, made) ↦
                  rw (made, clone_members)
                    (clone_members-Tracks ms (insert (source_of m) name clones) h₁ one.1
                      (Fresh-insert m name clones ms one.0 fresh.1)
                      (Tracks-weaken
                        (λ r. (held r ⊎ In r (clone_ids clones)) ⊎ (r ≡ pvc_id namespace name)) h₀
                        h₁ (λ r. held r ⊎ In r (clone_ids (insert (source_of m) name clones)))
                        (λ r i. elim i [
                          | inl (inl kept) ↦ inl kept
                          | inl (inr j) ↦
                              inr (insert-keeps (source_of m) name clones r fresh.0 (inl j))
                          | inr e ↦ inr (insert-keeps (source_of m) name clones r fresh.0 (inr e))
                        ])
                        (rw made at answer)))
              | inr (e, refused) ↦ rw (refused, clone_members) (rw refused at answer)
            ]

        bind_clones-Tracks :
            (clones : Dict Chars Chars) (h : History)
            → WithClones clones h
            → WithClones clones (bind_clones E k namespace opts clones h).1
        unfolding bind_clones
        bind_clones-Tracks clones h t = elim (Bool-cases opts.force_bind) [
          | inl e ↦ rw e (
              await_pod-Tracks E k.volumes namespace (λ r. held r ⊎ In r (clone_ids clones)) h₀
                opts.force_bind_timeout opts.cleanup_timeout
                (k.volumes.create_pod namespace (clone_names clones) h) h t)
          | inr e ↦ rw e t
        ]

        pub make_clones-Tracks :
            (ms : List Member) (h : History)
            → OneEach ms
            → Tracks held h₀ h
            → let (_, clones, h') = make_clones E k namespace opts ms h in WithClones clones h'
        unfolding make_clones
        make_clones-Tracks ms h one t =
            let start = Tracks-weaken held h₀ h (λ r. held r ⊎ ⊥) (λ r kept. inl kept) t in
            let made = clone_members-Tracks ms [] h one (none-Fresh ms) start in
            let (e, clones, h₁) = clone_members E k namespace opts ms [] h in
            elim (Option-cases e) [
              | inl done ↦ rw (done, make_clones) (bind_clones-Tracks clones h₁ made)
              | inr (x, failed) ↦ rw (failed, make_clones) made
            ]
