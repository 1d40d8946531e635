-- ===== src/Server/Allocator/Files.antt =====
-- server/src/allocator.rs: how `swap` renames the files of direct entries.
use clipboard_history.Prelude.{
  ℕ, ◌≡◌, inl, inr, refl, sym, ◌∙◌, ap, none, some, [], ok, arith, Bool-cases,
}
use clipboard_history.Prelude.Files.{Bytes}
use clipboard_history.Core.Protocol.{RingKind}
use clipboard_history.Core.Entry.{Entry, uninitialized, bucketed, file}
use clipboard_history.Core.FileName.{direct_file_name}
use clipboard_history.Server.Store.{Allocator, DirectFile, Directory, link, bytes_eq, rename_direct}
use clipboard_history.Server.Store.Laws.{syscall-ok, link_found, bytes_eq_iff}
use clipboard_history.Server.Allocator.{rename, exchange, swap_files}

-- A direct entry has its file.
abbrev pub HasFile : Allocator → RingKind → ℕ → Entry → Type 0
HasFile s k i file = (f : DirectFile) × (s.direct_dir (direct_file_name k i) ≡ some f)
HasFile s k i uninitialized = Unit {0}
HasFile s k i (bucketed e) = Unit {0}

rename_ok :
    (from to : Bytes) (s : Allocator) (f : DirectFile)
    → s.faults ≡ []
    → s.direct_dir from ≡ some f
    → rename from to s
      ≡ (ok tt, record s { direct_dir = link to (some f) (link from none s.direct_dir) })
unfolding rename
rename_ok from to s f h e = ground (arith, syscall-ok rename_direct s h)

exchange_ok :
    (from to : Bytes) (s : Allocator) (f g : DirectFile)
    → s.faults ≡ []
    → s.direct_dir from ≡ some f
    → s.direct_dir to ≡ some g
    → exchange from to s
      ≡ (ok tt, record s { direct_dir = link to (some f) (link from (some g) s.direct_dir) })
unfolding exchange
exchange_ok from to s f g h e e' = ground (arith, syscall-ok rename_direct s h)

-- The file of a direct entry has got the new name.
abbrev pub Arrived : Entry → Bytes → Bytes → Directory → Directory → Type 0
Arrived file from to dir dir' = dir' to ≡ dir from
Arrived uninitialized from to dir dir' = Unit {0}
Arrived (bucketed e) from to dir dir' = Unit {0}

-- The directory after the two entries have changed places: each file has the other's name.
abbrev pub FilesMoved : RingKind → ℕ → Entry → RingKind → ℕ → Entry → Directory → Directory → Type 0
FilesMoved k1 i1 e1 k2 i2 e2 dir dir' =
    Arrived e1 (direct_file_name k1 i1) (direct_file_name k2 i2) dir dir'
    × Arrived e2 (direct_file_name k2 i2) (direct_file_name k1 i1) dir dir'

abbrev FilesSwapped : RingKind → ℕ → Entry → RingKind → ℕ → Entry → Allocator → Type 0
FilesSwapped k1 i1 e1 k2 i2 e2 s =
    (dir : Directory) × (swap_files k1 i1 e1 k2 i2 e2 s ≡ (ok tt, record s { direct_dir = dir }))
    × FilesMoved k1 i1 e1 k2 i2 e2 s.direct_dir dir

module _ (k1 : RingKind) (i1 : ℕ) (k2 : RingKind) (i2 : ℕ) (s : Allocator)
    (calm : s.faults ≡ []) where
  abbrev name1 : Bytes
  name1 = direct_file_name k1 i1

  abbrev name2 : Bytes
  name2 = direct_file_name k2 i2

  renamed_first :
      (f : DirectFile)
      → s.direct_dir name1 ≡ some f
      → (dir : Directory) × (rename name1 name2 s ≡ (ok tt, record s { direct_dir = dir }))
        × (dir name2 ≡ s.direct_dir name1)
  renamed_first f h = (
    link name2 (some f) (link name1 none s.direct_dir),
    rename_ok name1 name2 s f calm h,
    (link_found name2 name2 (some f) (link name1 none s.direct_dir)).0 refl ∙ sym h,
  )

  renamed_second :
      (f : DirectFile)
      → s.direct_dir name2 ≡ some f
      → (dir : Directory) × (rename name2 name1 s ≡ (ok tt, record s { direct_dir = dir }))
        × (dir name1 ≡ s.direct_dir name2)
  renamed_second f h = (
    link name1 (some f) (link name2 none s.direct_dir),
    rename_ok name2 name1 s f calm h,
    (link_found name1 name1 (some f) (link name2 none s.direct_dir)).0 refl ∙ sym h,
  )

  both_files : HasFile s k1 i1 file → HasFile s k2 i2 file → FilesSwapped k1 i1 file k2 i2 file s
  unfolding swap_files
  both_files (f, hf) (g, hg) = (
    link name2 (some f) (link name1 (some g) s.direct_dir),
    exchange_ok name1 name2 s f g calm hf hg,
    (
      (link_found name2 name2 (some f) (link name1 (some g) s.direct_dir)).0 refl ∙ sym hf,
      elim (Bool-cases (bytes_eq name2 name1)) [
        | inl same ↦
            let e : name2 ≡ name1 = (bytes_eq_iff name2 name1).0 same in
            (link_found name2 name1 (some f) (link name1 (some g) s.direct_dir)).0 e
            ∙ sym hf
            ∙ ap s.direct_dir (sym e)
        | inr apart ↦
            (link_found name2 name1 (some f) (link name1 (some g) s.direct_dir)).1
              (λ e. absurd (ground (arith, (bytes_eq_iff name2 name1).1 e)))
            ∙ (link_found name1 name1 (some g) s.direct_dir).0 refl
            ∙ sym hg
      ],
    ),
  )

  pub swap_files_ok :
      (e1 e2 : Entry) → HasFile s k1 i1 e1 → HasFile s k2 i2 e2 → FilesSwapped k1 i1 e1 k2 i2 e2 s
  unfolding swap_files
  swap_files_ok file file h1 h2 = both_files h1 h2
  swap_files_ok file uninitialized (f, h) h2 =
      let (dir, step, moved) = renamed_first f h in (dir, step, (moved, tt))
  swap_files_ok file (bucketed w) (f, h) h2 =
      let (dir, step, moved) = renamed_first f h in (dir, step, (moved, tt))
  swap_files_ok uninitialized file h1 (f, h) =
      let (dir, step, moved) = renamed_second f h in (dir, step, (tt, moved))
  swap_files_ok (bucketed w) file h1 (f, h) =
      let (dir, step, moved) = renamed_second f h in (dir, step, (tt, moved))
  swap_files_ok uninitialized uninitialized h1 h2 = (s.direct_dir, refl, (tt, tt))
  swap_files_ok uninitialized (bucketed w) h1 h2 = (s.direct_dir, refl, (tt, tt))
  swap_files_ok (bucketed w) uninitialized h1 h2 = (s.direct_dir, refl, (tt, tt))
  swap_files_ok (bucketed v) (bucketed w) h1 h2 = (s.direct_dir, refl, (tt, tt))
