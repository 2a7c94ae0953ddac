-- ===== src/Sstable/Open/Files.antt =====
-- The files and the indexes that NewSsTable of sstable/sstable.go finds, after one more file.
use golang_db.Base.{if◌then◌else◌}
use golang_db.Base.{
  ℕ, ◌≡◌, ◌≢◌, refl, sym, ap, List, [], ◌∷◌, ◌++◌, none, Bool, false, ok, >>=-eq-ok,
}
use golang_db.Base.Bytes.{Bytes, str_eq-ne}
use golang_db.Base.Dict
use golang_db.Base.Dict.{Dict, lookup-put, lookup-put_self}
use golang_db.Memtable.{Entry}
use golang_db.Sstable.Blocks.{IndexEntry}
use golang_db.Sstable.Index.{build_index_from_file}
use golang_db.Sstable.Table.{
  SsFile, SsTable, log_path, opened_contents, new_file, write_to_file, write,
}
use golang_db.Sstable.Open.{Config, Disk, with_defaults, open_file, get_all_files, build_indexes}

lookup-put_free :
    (path new contents : Bytes) (files : Dict Bytes)
    → Dict.lookup new files ≡ none
    → Dict.lookup path files ≢ none
    → Dict.lookup path (Dict.put new contents files) ≡ Dict.lookup path files
lookup-put_free path new contents files free there =
    rw
      (
        lookup-put path new contents files,
        str_eq-ne new path (λ (e : new ≡ path). there (rw (sym e) free)),
      )
      refl

open_file-put :
    (disk disk' : Disk) (path new contents : Bytes) (file : SsFile)
    → disk'.files ≡ Dict.put new contents disk.files
    → Dict.lookup new disk.files ≡ none
    → open_file disk path ≡ ok file
    → open_file disk' path ≡ ok file
unfolding open_file
open_file-put disk disk' path new contents file e free h =
    let there : Dict.lookup path disk.files ≢ none = λ n. let k = rw (n, open_file) at h in cc in
    rw (e, open_file, lookup-put_free path new contents disk.files free there) h

open_file-put_self :
    (disk : Disk) (path contents : Bytes) (files : Dict Bytes)
    → disk.files ≡ Dict.put path contents files
    → open_file disk path ≡ ok (record { name = path; contents = contents })
unfolding open_file
open_file-put_self disk path contents files e =
    rw (e, open_file, lookup-put_self path contents files) refl

pub get_all_files-put :
    (disk disk' : Disk) (new contents : Bytes) (paths : List Bytes) (files : List SsFile)
    → disk'.files ≡ Dict.put new contents disk.files
    → Dict.lookup new disk.files ≡ none
    → get_all_files disk paths ≡ ok files
    → get_all_files disk' (paths ++ new ∷ [])
      ≡ ok (files ++ record { name = new; contents = contents } ∷ [])
unfolding get_all_files
get_all_files-put disk disk' new contents [] files e free h =
    let none_open : files ≡ [] = cc in
    rw (open_file-put_self disk' new contents disk.files e, none_open) refl
get_all_files-put disk disk' new contents (path ∷ paths) files e free h =
    let (file, h₁, k) = >>=-eq-ok (open_file disk path) _ h in
    let (rest, h₂, h₃) = >>=-eq-ok (get_all_files disk paths) _ k in
    let all : files ≡ file ∷ rest = cc in
    rw
      (
        open_file-put disk disk' path new contents file e free h₁,
        get_all_files-put disk disk' new contents paths rest e free h₂,
        all,
      )
      refl

pub build_indexes-append :
    (files : List SsFile) (file : SsFile) (index_offset : ℕ) (index : List IndexEntry)
    (offsets : List ℕ) (blocks : List (List IndexEntry))
    → build_indexes files ≡ ok (offsets, blocks)
    → build_index_from_file file.contents ≡ ok (index_offset, index)
    → build_indexes (files ++ file ∷ []) ≡ ok (offsets ++ index_offset ∷ [], blocks ++ index ∷ [])
unfolding build_indexes
build_indexes-append [] file index_offset index offsets blocks h k =
    let e₁ : offsets ≡ [] = cc in let e₂ : blocks ≡ [] = cc in rw (k, e₁, e₂) refl
build_indexes-append (f ∷ files) file index_offset index offsets blocks h k =
    let ((o, i), h₁, g) = >>=-eq-ok (build_index_from_file f.contents) _ h in
    let ((os, is), h₂, h₃) = >>=-eq-ok (build_indexes files) _ g in
    let e₁ : offsets ≡ o ∷ os = cc in
    let e₂ : blocks ≡ i ∷ is = cc in
    rw (h₁, build_indexes-append files file index_offset index os is h₂ k, e₁, e₂) refl

abbrev new_handle : Bytes → Bytes → SsFile
new_handle name contents = record { name = name; contents = contents }

pub new_file-free :
    (st : SsTable)
    → Dict.lookup (log_path st.data_files_directory st.manifest.next_file_id) st.on_disk ≡ none
    → (new_file st).0
      ≡ record { name = log_path st.data_files_directory st.manifest.next_file_id; contents = [] }
unfolding new_file opened_contents
new_file-free st free =
    let path = log_path st.data_files_directory st.manifest.next_file_id in
    let empty : opened_contents st.on_disk path ≡ [] = rw (opened_contents, free) refl in
    ap (λ (contents : Bytes). new_handle path contents) empty

pub write_to_file-name :
    (st : SsTable) (file : SsFile) (entries : List Entry)
    → (write_to_file st file entries).0.name ≡ file.name
unfolding write_to_file
write_to_file-name st file entries = refl

pub with_defaults-indexed :
    (config : Config) → config.skip_index ≡ false → (with_defaults config).skip_index ≡ false
unfolding with_defaults
with_defaults-indexed config h = h

pub write-index_blocks :
    (st : SsTable) (file : SsFile) (entries : List Entry)
    → st.skip_index ≡ false
    → (write st file entries).index_blocks
      ≡ st.index_blocks ++ (write_to_file st file entries).2 ∷ []
unfolding write
write-index_blocks st file entries indexed =
    ap
      (λ (skip : Bool).
        if skip then st.index_blocks else st.index_blocks ++ (write_to_file st file entries).2 ∷ [])
      indexed
