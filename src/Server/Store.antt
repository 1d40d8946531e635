-- ===== src/Server/Store.antt =====
-- server/src/allocator.rs: what an `Allocator` owns, and the steps that its methods are made of. A
-- method may fail half way and keeps what it has changed, so a step returns its result beside the
-- new state. Each system call takes the next of `faults`; `true` makes it fail, and calls beyond
-- the list succeed.
pub mod Laws
use clipboard_history.Prelude.{
  ℕ, ◌+◌, Bool, true, false, Option, none, some, List, [], ◌∷◌, Result, ok, err, get_or, set,
  length, ◌==◌, ◌&&◌, if◌then◌else◌,
}
use clipboard_history.Prelude.Files.{Bytes}
use clipboard_history.Core.Protocol.{RingKind, favorites, main}
use clipboard_history.Core.Entry.{Entry}
use clipboard_history.Core.Ring.{Ring}
use clipboard_history.Server.RingWriter

-- A direct allocation: its bytes and its `user.mime_type` attribute.
pub record DirectFile : Type 0 where
  pub content : Bytes
  pub mime : Bytes

abbrev pub bytes_eq : Bytes → Bytes → Bool
bytes_eq [] [] = true
bytes_eq [] (y ∷ ys) = false
bytes_eq (x ∷ xs) [] = false
bytes_eq (x ∷ xs) (y ∷ ys) = x == y && bytes_eq xs ys

-- The directory `direct`, by file name.
abbrev pub Directory : Type 0
Directory = Bytes → Option DirectFile

abbrev pub link : Bytes → Option DirectFile → Directory → Directory
link name f dir other = if bytes_eq name other then f else dir other

-- `struct Allocator` with its `Rings`, `AllocatorData` and `Buckets`.
pub record Allocator : Type 0 where
  pub favorites_ring : Ring
  pub main_ring : Ring
  pub files : List Bytes
  pub slot_counts : List ℕ
  pub free_lists : List (List ℕ)
  pub direct_dir : Directory
  pub faults : List Bool

-- The contexts of the errors, one for each failing call.
pub data Context : Type 0 where
  write_entry update_head create_receiver receive_data copy_bucket write_nul truncate_bucket :
      Context
  set_mime link_direct rename_direct unlink_direct : Context
  accept_socket register_ring receive_from send_to close_client unregister_ring : Context
  poll_signals poll_low_mem : Context

pub data CliError : Type 0 where
  io : Context → CliError
  multiple : CliError → CliError → CliError
  -- `CliError::Internal`
  internal : CliError
  -- a panic
  panicked : CliError

abbrev pub M : Type 0 → Type 0
M A = Allocator → Result A CliError × Allocator

abbrev pub pure : {A : Type 0} → A → M A
pure a s = (ok a, s)

abbrev pub throw : {A : Type 0} → CliError → M A
throw e s = (err e, s)

abbrev pub continue :
    {A B : Type 0} → (A → M B) → Result A CliError × Allocator → Result B CliError × Allocator
continue f (ok a, s) = f a s
continue f (err e, s) = (err e, s)

infixl 5 ◌>>=◌ ◌>>◌
abbrev pub ◌>>=◌ : {A B : Type 0} → M A → (A → M B) → M B
◌>>=◌ m f s = continue f (m s)

abbrev pub ◌>>◌ : {B : Type 0} → M (Unit {0}) → M B → M B
m >> k = m >>= λ _. k

-- `map_err` with an action that runs on the error.
abbrev pub recover :
    {A : Type 0} → (CliError → M A) → Result A CliError × Allocator → Result A CliError × Allocator
recover handler (ok a, s) = (ok a, s)
recover handler (err e, s) = handler e s

abbrev pub on_error : {A : Type 0} → M A → (CliError → M A) → M A
on_error m handler s = recover handler (m s)

abbrev pub gets : {A : Type 0} → (Allocator → A) → M A
gets f s = (ok (f s), s)

abbrev pub modify : (Allocator → Allocator) → M (Unit {0})
modify f s = (ok tt, f s)

unfoldable pub syscall : Context → M (Unit {0})
syscall c s = elim s.faults [
  | [] ↦ (ok tt, s)
  | false ∷ rest ↦ (ok tt, record s { faults = rest })
  | true ∷ rest ↦ (err (io c), record s { faults = rest })
]

abbrev pub pick {ℓ} : {A : Type ℓ} → RingKind → A → A → A
pick favorites x y = x
pick main x y = y

-- `self.rings[kind]`
abbrev pub ring_at : RingKind → Allocator → Ring
ring_at kind s = pick kind s.favorites_ring s.main_ring

abbrev pub put_ring : RingKind → Ring → Allocator → Allocator
put_ring kind r s = record s {
  favorites_ring = pick kind r s.favorites_ring;
  main_ring = pick kind s.main_ring r;
}

-- `self.rings[kind].writer.write(entry, at)?`
unfoldable pub write : RingKind → Entry → ℕ → M (Unit {0})
write kind entry at = do
  syscall write_entry
  modify (λ s. put_ring kind (RingWriter.write entry at (ring_at kind s)) s)

-- `self.rings[kind].writer.set_write_head(head)?`
unfoldable pub set_write_head : RingKind → ℕ → M (Unit {0})
set_write_head kind head = do
  syscall update_head
  modify (λ s. put_ring kind (RingWriter.set_write_head head (ring_at kind s)) s)
