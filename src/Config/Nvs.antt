-- ===== src/Config/Nvs.antt =====
-- The key-value store that `Preferences` offers over one namespace, as an interface: what the
-- code calls, and what it relies on. A value that is put is stored (the flash is not full), while
-- the store is open for writing; a getter of an open store finds what was stored last.
use text.Mathlib.Text.{◌==◌}
use spool_gate.Base.{
  ℕ, Bool, true, false, ◌≡◌, ◌≢◌, Option, none, some, Text, String, if◌then◌else◌,
}

pub data Value : Type 0 where
  str : Text → Value
  flag : Bool → Value
  byte : ℕ → Value

pub data Mode : Type 0 where
  closed read_only read_write : Mode

abbrev pub is_some : Option Value → Bool
is_some none = false
is_some (some v) = true

pub record Store : Type 1 where
  pub State : Type 0
  pub begin : Bool → State → State  -- the flag is `readOnly`
  pub end : State → State
  pub is_key : String → State → Bool
  pub put : String → Value → State → State
  pub get : String → State → Option Value
  pub clear : State → State
  -- What is in the flash, and how the store is open.
  pub content : State → String → Option Value
  pub mode : State → Mode
  pub mode-begin :
      (ro : Bool) (s : State) → mode (begin ro s) ≡ (if ro then read_only else read_write)
  pub mode-put : (k : String) (v : Value) (s : State) → mode (put k v s) ≡ mode s
  pub mode-clear : (s : State) → mode (clear s) ≡ mode s
  pub content-begin : (ro : Bool) (s : State) (k : String) → content (begin ro s) k ≡ content s k
  pub content-end : (s : State) (k : String) → content (end s) k ≡ content s k
  pub content-put :
      (k : String) (v : Value) (s : State) (j : String)
      → mode s ≡ read_write
      → content (put k v s) j ≡ (if k == j then some v else content s j)
  pub content-clear : (s : State) (k : String) → mode s ≡ read_write → content (clear s) k ≡ none
  pub get-content : (k : String) (s : State) → mode s ≢ closed → get k s ≡ content s k
  pub is_key-content :
      (k : String) (s : State) → mode s ≢ closed → is_key k s ≡ is_some (content s k)

-- `getString(key, default)` and its like: the default serves for a key that is missing or of
-- another type.
abbrev pub text_or : Text → Option Value → Text
text_or d (some (str t)) = t
text_or d _ = d

abbrev pub flag_or : Bool → Option Value → Bool
flag_or d (some (flag b)) = b
flag_or d _ = d

abbrev pub byte_or : ℕ → Option Value → ℕ
byte_or d (some (byte n)) = n
byte_or d _ = d

module _ (nvs : Store) where
  abbrev pub get_text : String → Text → nvs.State → Text
  get_text k d s = text_or d (nvs.get k s)

  abbrev pub get_flag : String → Bool → nvs.State → Bool
  get_flag k d s = flag_or d (nvs.get k s)

  abbrev pub get_byte : String → ℕ → nvs.State → ℕ
  get_byte k d s = byte_or d (nvs.get k s)
