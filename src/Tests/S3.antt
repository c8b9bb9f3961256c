-- ===== src/Tests/S3.antt =====
-- A versioned bucket and a small directory, at concrete inputs.
use backup_tool.Base.{
  ◌≤◌, ◌≡◌, ◌≢◌, refl, inl, inr, none, some, List, [], ◌∷◌, list_eq, list_beq, arith,
}
use backup_tool.Base.Dict.{lookup, insert, NodupKeys}
use backup_tool.Base.Text.{codes}
use backup_tool.Errors.{ok}
use backup_tool.Tests.{numbered}
use backup_tool.S3.Objects.{RemoteObject, ObjectVersion, DeleteMarkerEntry, relative_key}
use backup_tool.S3.Select.{select_objects_as_of}
use backup_tool.S3.Select.Spec.{object_at, IsSelected, select_sound, select_complete}
use backup_tool.S3.Disk.{regular, directory, Disk, folder, Io}
use backup_tool.S3.Download.{Client, download_object, transfer}
use backup_tool.S3.Download.Single.{IsFaultless, download_object-keeps_existing}
use backup_tool.S3.Download.Mirror.{IsDownloaded, PrunesFaultlessly, transfer-IsDownloaded}

-- "a" was written twice, the second time after the instant; "b" was deleted before it.
abbrev first_version : ObjectVersion
first_version = record {
  key = some (codes "p/a");
  last_modified = some 10;
  size = some 3;
  version_id = some (codes "v1");
}

abbrev all_versions : List ObjectVersion
all_versions =
    record {
      key = some (codes "p/a");
      last_modified = some 30;
      size = some 4;
      version_id = some (codes "v2");
    }
    ∷ first_version
    ∷ record {
      key = some (codes "p/b");
      last_modified = some 5;
      size = some 1;
      version_id = some (codes "w1");
    }
    ∷ []

abbrev all_markers : List DeleteMarkerEntry
all_markers = record { key = some (codes "p/b"); last_modified = some 12 } ∷ []

abbrev object_a : RemoteObject
object_a = record {
  key = codes "p/a";
  rel_path = codes "a";
  version_id = some (codes "v1");
  size = 3;
  last_modified = 10;
}

finds_a :
    object_at (codes "p/a") (select_objects_as_of all_versions all_markers (codes "p/") 20)
    ≡ some object_a
unfolding select_objects_as_of relative_key lookup insert list_beq
finds_a = refl

misses_b :
    object_at (codes "p/b") (select_objects_as_of all_versions all_markers (codes "p/") 20) ≡ none
unfolding select_objects_as_of relative_key lookup insert list_beq
misses_b = refl

select_sound_example : IsSelected all_versions all_markers (codes "p/") 20 (codes "p/a") object_a
select_sound_example =
    select_sound all_versions all_markers (codes "p/") 20 (codes "p/a") object_a finds_a

a_is_named : relative_key (codes "p/") (codes "p/a") ≢ []
unfolding relative_key
a_is_named = λ e. absurd (ground (arith, e))

select_complete_example :
    (o : RemoteObject) × (object_at
        (codes "p/a")
        (select_objects_as_of all_versions all_markers (codes "p/") 20)
      ≡ some o)
    × (10 ≤ o.last_modified)
select_complete_example =
    select_complete all_versions all_markers (codes "p/") 20 (codes "p/a") first_version
      (inr (inl refl)) refl (ground arith) (λ e f. ground (arith, e, f), tt) a_is_named

-- A package os in which nothing fails.
abbrev pub faultless : Io numbered
faultless = record {
  join = λ p. p;
  root_fault = none;
  stat_fault = λ _. none;
  mkdir_fault = λ _. none;
  create_fault = λ _. none;
  copy = λ _ bytes. (bytes, none);
  close_fault = λ _. none;
  chtimes_fault = λ _. none;
  remove_fault = λ _. none;
  walk_fault = λ _. none;
  created_at = λ _. 99;
}

abbrev pub bucket : Client numbered
bucket = record {
  get_bucket_versioning = ok (codes "Enabled");
  object_pages = [];
  version_pages = ok (all_versions, all_markers) ∷ [];
  get_object = λ _ _. ok (record { bytes = 1 ∷ 2 ∷ 3 ∷ []; fault = none });
}

-- A directory with a stale file and a subdirectory.
abbrev stale_disk : Disk
stale_disk = record {
  root = folder;
  nodes = (codes "old", regular (7 ∷ []) 3) ∷ (codes "sub", directory 0 1) ∷ [];
}

nodup : NodupKeys stale_disk.nodes
unfolding lookup list_beq
nodup = (refl, (refl, tt))

old_is_there : lookup (codes "old") stale_disk.nodes ≡ some (regular (7 ∷ []) 3)
unfolding lookup list_beq
old_is_there = refl

abbrev object_old : RemoteObject
object_old = record {
  key = codes "p/old";
  rel_path = codes "old";
  version_id = none;
  size = 400;
  last_modified = 500;
}

download_object-keeps_existing_example :
    download_object faultless bucket object_old stale_disk ≡ (none, stale_disk)
download_object-keeps_existing_example =
    download_object-keeps_existing faultless bucket object_old stale_disk (regular (7 ∷ []) 3) refl
      old_is_there

nothing_fails : IsFaultless faultless bucket
nothing_fails = record {
  stats = λ p. refl;
  makes_dirs = λ p. refl;
  creates = λ p. refl;
  copies = λ p bytes. refl;
  closes = λ p. refl;
  sets_times = λ p. refl;
}

prunes : PrunesFaultlessly faultless
prunes = record { root_stats = refl; walks = λ p. refl; removes = λ p. refl }

a_is_free : lookup (codes "a") stale_disk.nodes ≡ none
unfolding lookup list_beq
a_is_free = refl

transfer-IsDownloaded_example :
    IsDownloaded faultless bucket nothing_fails
      (λ _. 1 ∷ 2 ∷ 3 ∷ [])
      (object_a ∷ [])
      stale_disk
      (transfer faultless bucket (object_a ∷ []) stale_disk)
transfer-IsDownloaded_example =
    transfer-IsDownloaded faultless bucket nothing_fails (λ _. 1 ∷ 2 ∷ 3 ∷ []) prunes
      (object_a ∷ []) stale_disk refl nodup (tt, tt) ((refl, refl), tt)
