-- ===== src/X11/Requests.antt =====
-- x11/src/main.rs: what the watcher asks of the X server and of the Ringboard server, and the atoms that
-- it knows. A request to the X server is taken to succeed.
use clipboard_history.Prelude.{ℕ, Bool, List}
use clipboard_history.Prelude.Files.{Bytes}

-- `x11rb::NONE`
abbrev pub none_id : ℕ
none_id = 0

-- `Atoms`, with `AtomEnum::ATOM` and `BASE_TRANSFER_ATOM`.
pub record Atoms : Type 0 where
  pub window_name : ℕ
  pub utf8_string : ℕ
  pub clipboard : ℕ
  pub targets : ℕ
  pub incr : ℕ
  pub text : ℕ
  pub string : ℕ
  pub text_plain : ℕ
  pub text_plain_utf8 : ℕ
  pub text_plain_us_ascii : ℕ
  pub text_plain_unicode : ℕ
  pub atom_type : ℕ
  pub base_transfer_atom : ℕ

pub data Effect : Type 0 where
  -- the requestor, the target and the property
  selection_notify : ℕ → ℕ → ℕ → Effect
  -- the window, the property, the type and the value
  change_property8 : ℕ → ℕ → ℕ → Bytes → Effect
  change_property32 : ℕ → ℕ → ℕ → List ℕ → Effect
  -- whether changes of the window's properties are reported
  watch_properties : ℕ → Bool → Effect
  -- the window, the selection, the target and the property
  convert_selection : ℕ → ℕ → ℕ → ℕ → Effect
  -- the window and the selection
  set_selection_owner : ℕ → ℕ → Effect
  -- the window and the property, which is deleted
  get_property : ℕ → ℕ → Effect
  -- requests to the Ringboard server: an entry to the front, and a new one with its type and data
  move_entry : ℕ → Effect
  add_entry : Bytes → Bytes → Effect
