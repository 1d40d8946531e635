-- ===== src/Server/Store/Laws.antt =====
-- What the steps of the allocator do where every system call succeeds.
use clipboard_history.Prelude.{
  ℕ, ◌≡◌, ◌≢◌, ◌↔◌, refl, ap, true, ◌&&◌, Option, none, some, [], ◌∷◌, ok, arith, ltb, ◌==◌,
  if◌then◌else◌,
}
use clipboard_history.Core.Protocol.{RingKind, favorites, main, same_kind}
use clipboard_history.Core.Entry.{Entry}
use clipboard_history.Core.Entry.Words.{IsEntry}
use clipboard_history.Core.Ring
use clipboard_history.Core.Ring.{Ring}
use clipboard_history.Server.RingWriter
use clipboard_history.Server.RingWriter.Laws.{get-write, len-write}
use clipboard_history.Server.Store.{
  M, CliError, continue, recover, on_error, ◌>>=◌, ◌>>◌, Allocator, DirectFile, Directory, link,
  Context, bytes_eq, syscall, ring_at, put_ring, write_entry, update_head, write, set_write_head,
}
use clipboard_history.Prelude.Files.{Bytes}

-- A step that succeeds hands its result and its state to the next.
pub >>=-ok :
    {A B : Type 0} (m : M A) (f : A → M B) (s : Allocator) {a : A} {s' : Allocator}
    → m s ≡ (ok a, s')
    → (m >>= f) s ≡ f a s'
>>=-ok m f s h = ap (continue f) h

pub >>-ok :
    {B : Type 0} (m : M (Unit {0})) (k : M B) (s : Allocator) {s' : Allocator}
    → m s ≡ (ok tt, s')
    → (m >> k) s ≡ k s'
>>-ok m k s h = ap (continue (λ _. k)) h

pub on_error-ok :
    {A : Type 0} (m : M A) (handler : CliError → M A) (s : Allocator) {a : A} {s' : Allocator}
    → m s ≡ (ok a, s')
    → on_error m handler s ≡ (ok a, s')
on_error-ok m handler s h = ap (recover handler) h

-- The state behind `write`.
abbrev pub after_write : RingKind → Entry → ℕ → Allocator → Allocator
after_write kind e at s = put_ring kind (RingWriter.write e at (ring_at kind s)) s

abbrev pub after_set_head : RingKind → ℕ → Allocator → Allocator
after_set_head kind head s = put_ring kind (RingWriter.set_write_head head (ring_at kind s)) s

pub syscall-ok : (c : Context) (s : Allocator) → s.faults ≡ [] → syscall c s ≡ (ok tt, s)
unfolding syscall
syscall-ok c s h = ground arith

pub write-after_write :
    (k : RingKind) (e : Entry) (at : ℕ) (s : Allocator)
    → s.faults ≡ []
    → write k e at s ≡ (ok tt, after_write k e at s)
unfolding write
write-after_write k e at s h = ground (arith, syscall-ok write_entry s h)

pub set_write_head-after_set_head :
    (k : RingKind) (head : ℕ) (s : Allocator)
    → s.faults ≡ []
    → set_write_head k head s ≡ (ok tt, after_set_head k head s)
unfolding set_write_head
set_write_head-after_set_head k head s h = ground (arith, syscall-ok update_head s h)

pub bytes_eq_iff : (x y : Bytes) → (bytes_eq x y ≡ true) ↔ (x ≡ y)
bytes_eq_iff [] [] = (λ _. refl, λ _. refl)
bytes_eq_iff [] (y ∷ ys) = (λ h. absurd (ground arith), λ h. absurd (ground arith))
bytes_eq_iff (x ∷ xs) [] = (λ h. absurd (ground arith), λ h. absurd (ground arith))
bytes_eq_iff (x ∷ xs) (y ∷ ys) =
    (λ h. ground (arith, bytes_eq_iff xs ys), λ h. ground (arith, bytes_eq_iff xs ys))

-- The entry at a position, as the requests see it.
abbrev pub entry_of : Allocator → RingKind → ℕ → Option Entry
entry_of s kind i = Ring.get (ring_at kind s) i

pub same_kind_self : (k : RingKind) → same_kind k k ≡ true
same_kind_self favorites = refl
same_kind_self main = refl

pub same_kind_iff : (k l : RingKind) → (same_kind k l ≡ true) ↔ (k ≡ l)
same_kind_iff favorites favorites = (λ _. refl, λ _. refl)
same_kind_iff favorites main = (λ h. absurd (ground arith), λ h. absurd (ground arith))
same_kind_iff main favorites = (λ h. absurd (ground arith), λ h. absurd (ground arith))
same_kind_iff main main = (λ _. refl, λ _. refl)

pub entry_of-after_write :
    (k : RingKind) (e : Entry) (at : ℕ) (s : Allocator) (l : RingKind) (j : ℕ)
    → IsEntry e
    → entry_of (after_write k e at s) l j ≡ (
        if same_kind k l && at == j
        then (if ltb j (ring_at k s).len then some e else none)
        else entry_of s l j)
entry_of-after_write favorites e at s favorites j h = get-write e at s.favorites_ring j h
entry_of-after_write favorites e at s main j h = refl
entry_of-after_write main e at s favorites j h = refl
entry_of-after_write main e at s main j h = get-write e at s.main_ring j h

pub len-after_write :
    (k : RingKind) (e : Entry) (at : ℕ) (s : Allocator) (l : RingKind)
    → (ring_at l (after_write k e at s)).len ≡ (ring_at l s).len
len-after_write favorites e at s favorites = len-write e at s.favorites_ring
len-after_write favorites e at s main = refl
len-after_write main e at s favorites = refl
len-after_write main e at s main = len-write e at s.main_ring

-- A name that is linked is found again, and so is every other name.
pub link_found :
    (n m : Bytes) (f : Option DirectFile) (dir : Directory)
    → (n ≡ m → link n f dir m ≡ f) × (n ≢ m → link n f dir m ≡ dir m)
link_found n m f dir = (λ e. rw ((bytes_eq_iff n m).1 e), λ ne. ground (arith, bytes_eq_iff n m))
