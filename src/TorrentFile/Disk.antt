-- ===== src/TorrentFile/Disk.antt =====
-- torrentfile/torrentfile.go: how DownloadToFile writes a file, on a disk as os describes it.
use bittorrent_over_scion.Common.{
  ℕ, ◌≡◌, refl, sym, ap, ◌∙◌, List, Option, some, Result, ok, err, halt, resume, pure,
}
use bittorrent_over_scion.Common.Ensures.{Ensures}
use bittorrent_over_scion.TorrentFile.Files.{FileCalls, DownloadCalls, store, save}

-- What the documents of os say of a file: Create makes it empty, Write without an error has written
-- all of the bytes behind what is there, and Close changes no content.
pub record IsDisk (files : FileCalls) : Type 0 where
  pub contents : files.System → List ℕ → Option (List ℕ)
  pub writes :
      (path bytes : List ℕ) (file : files.File) (s : files.System) (n : ℕ)
      → (files.create path s).0 ≡ ok file
      → (files.write file bytes (files.create path s).1).0 ≡ ok n
      → contents (files.write file bytes (files.create path s).1).1 path ≡ some bytes
  pub closes : (file : files.File) (s : files.System) → contents (files.close file s).1 ≡ contents s

module _ {Addr Node : Type 0} (files : FileCalls) (calls : DownloadCalls files Addr Node)
    (disk : IsDisk files) where
  -- After the write, the file is closed.
  written :
      (r : Result ℕ) (s : files.System) (u : Unit {0})
      → (resume r s (λ n. pure tt)).0 ≡ ok u
      → (n : ℕ) × (r ≡ ok n) × ((resume {B = Unit {0}} r s (λ n. pure tt)).1 ≡ s)
  written (ok n) s u e = (n, refl, refl)
  written (err x) s u e = cc
  written (halt h) s u e = cc

  saved :
      (path buf : List ℕ) (r : Result files.File) (s s₁ : files.System) (u : Unit {0})
      → files.create path s ≡ (r, s₁)
      → (resume r s₁ (store files calls buf)).0 ≡ ok u
      → disk.contents (resume r s₁ (store files calls buf)).1 path ≡ some buf
  unfolding store
  saved path buf (err x) s s₁ u made e = cc
  saved path buf (halt h) s s₁ u made e = cc
  saved path buf (ok file) s s₁ u made e =
      let (n, wrote, left) = written (files.write file buf s₁).0 (files.write file buf s₁).1 u e in
      ap (λ f. f path) (disk.closes file _)
      ∙ ap (λ t. disk.contents t path) left
      ∙ ap (λ x. disk.contents (files.write file buf x.1).1 path) (sym made)
      ∙ disk.writes path buf file s n (ap (λ x. x.0) made)
          (ap (λ x. (files.write file buf x.1).0) made ∙ wrote)

  pub save-Ensures :
      (path buf : List ℕ)
      → Ensures (λ s. Unit {0}) (save files calls path buf) (λ u s. disk.contents s path ≡ some buf)
  unfolding save
  save-Ensures path buf = record {
    after = λ s p u e. saved path buf (files.create path s).0 s (files.create path s).1 u refl e;
  }
