-- ===== src/Tests/Upload.antt =====
-- An upload of two files into a bucket that is a dictionary, at concrete inputs.
use backup_tool.Base.{ℕ, ◌≡◌, refl, Option, none, some, List, [], ◌∷◌, ◌++◌, list_eq, list_beq}
use backup_tool.Base.Dict.{Dict, lookup, insert, erase, lookup-insert, lookup-erase}
use backup_tool.Base.Text.{Chars, codes}
use backup_tool.Tests.{numbered}
use backup_tool.S3.Objects.{RemoteObject}
use backup_tool.S3.Disk.{regular, Disk, folder}
use backup_tool.S3.Upload.{LocalFile, Source, Store, push}
use backup_tool.S3.Upload.Mirror.{IsFaultlessSource, Keeps, IsUploaded, push-IsUploaded}

abbrev bare : Source numbered
bare = record {
  root_fault = none;
  walk_fault = λ _. none;
  info_fault = λ _. none;
  rel_fault = λ _. none;
  open_missing = λ _. 2;
  open_fault = λ _. none;
  read_fault = λ _. none;
  seek_fault = λ _. none;
  close_fault = λ _. none;
  type_by_extension = λ _. [];
  detect_type = λ _. codes "application/octet-stream";
  join = λ prefix rel. prefix ++ codes "/" ++ rel;
}

abbrev dict_store : Store numbered (Dict Chars (List ℕ))
dict_store = record {
  put_object = λ k bytes t b. (none, insert k bytes b);
  delete_object = λ k b. (none, erase k b);
  object_pages = λ b. [];
}

abbrev read : Chars → Dict Chars (List ℕ) → Option (List ℕ)
read k b = lookup k b

bare_is_faultless : IsFaultlessSource bare
bare_is_faultless = record {
  opens = λ p. refl;
  reads = λ p. refl;
  seeks = λ p. refl;
  closes = λ p. refl;
}

dict_keeps : Keeps dict_store read
dict_keeps = record {
  puts = λ k bytes t b. refl;
  reads_put = λ j k bytes t b. lookup-insert j k bytes b;
  deletes = λ k b. refl;
  reads_deleted = λ j k b. lookup-erase j k b;
}

abbrev disk : Disk
disk = record { root = folder; nodes = (codes "x", regular (1 ∷ 2 ∷ []) 9) ∷ [] }

abbrev file_x : LocalFile
file_x = record { rel_path = codes "x"; size = 2; mod_time = 9 }

abbrev old_object : RemoteObject
old_object = record {
  key = codes "p/old";
  rel_path = codes "old";
  version_id = none;
  size = 1;
  last_modified = 1;
}

abbrev before : Dict Chars (List ℕ)
before = (codes "p/old", 7 ∷ []) ∷ []

x_is_there : lookup (codes "x") disk.nodes ≡ some (regular (1 ∷ 2 ∷ []) 9)
unfolding lookup list_beq
x_is_there = refl

push-IsUploaded_example :
    IsUploaded bare bare_is_faultless dict_store read dict_keeps
      (codes "p")
      disk
      (λ _. 1 ∷ 2 ∷ [])
      (file_x ∷ [])
      (old_object ∷ [])
      before
      (push bare dict_store (codes "p") disk (file_x ∷ []) (old_object ∷ []) before)
unfolding list_beq
push-IsUploaded_example =
    push-IsUploaded bare bare_is_faultless dict_store read dict_keeps (codes "p") disk
      (λ _. 1 ∷ 2 ∷ []) (file_x ∷ []) (old_object ∷ []) before ((9, x_is_there), tt) (tt, tt)
      (refl, tt)
