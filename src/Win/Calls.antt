-- ===== src/Win/Calls.antt =====
-- pkgs/win/iphlpapi.go and netioapi.go: the calls of iphlpapi.dll, by the words that they pass.
use net_hive.Prelude.{
  ℕ, zero, suc, ◌+◌, ◌≡◌, sym, ap, ◌∙◌, Option, none, some, List, [], ◌∷◌, ◌==◌, if◌then◌else◌,
  take,
}

-- A function of the DLL: from the words of its call to the word that it returns.
abbrev pub Function : Type 0 → Type 0
Function W = List ℕ → W → ℕ × W

pub record IphlpApi : Type 1 where
  pub World : Type 0
  pub initialize_unicast_ip_address_entry : Function World
  pub get_unicast_ip_address_table : Function World
  pub delete_unicast_ip_address_entry : Function World
  pub free_mib_table : Function World

abbrev pub errno : {W : Type 0} → ℕ × W → Option ℕ × W
errno (r, w) = if r == 0 then (none, w) else (some r, w)

-- `SyscallOnlyReturnError`, which passes all of `args`: the error, or `none` for `nil`.
unfoldable pub syscall_only_return_error : {W : Type 0} → Function W → List ℕ → W → Option ℕ × W
syscall_only_return_error trap args w = errno (trap args w)

-- `Rows`: the addresses of the rows from that of the first on, as many as the table says.
unfoldable pub rows_from : ℕ → ℕ → ℕ → List ℕ
rows_from first size zero = []
rows_from first size (suc n) = first ∷ rows_from (first + size) size n

module _ (D : IphlpApi) where
  open D use {World}

  -- The wrappers of the four functions, at the address of a row, of a table, or of any memory.
  abbrev pub initialize_entry : ℕ → World → Option ℕ × World
  initialize_entry row =
      syscall_only_return_error D.initialize_unicast_ip_address_entry (1 ∷ row ∷ [])

  abbrev pub get_address_table : ℕ → World → Option ℕ × World
  get_address_table table =
      syscall_only_return_error D.get_unicast_ip_address_table (2 ∷ 0 ∷ table ∷ [])

  abbrev pub delete_entry : ℕ → World → Option ℕ × World
  delete_entry row = syscall_only_return_error D.delete_unicast_ip_address_entry (1 ∷ row ∷ [])

  -- Its result is thrown away.
  abbrev pub free_memory : ℕ → World → World
  free_memory memory w = (D.free_mib_table (1 ∷ memory ∷ []) w).1

  -- The methods `Init` and `Delete` of a row, and `Init` and `Free` of a table.
  unfoldable pub init_row : ℕ → World → Option ℕ × World
  init_row row = initialize_entry row

  unfoldable pub delete_row : ℕ → World → Option ℕ × World
  delete_row row = delete_entry row

  unfoldable pub init_table : ℕ → World → Option ℕ × World
  init_table table = get_address_table table

  unfoldable pub free : ℕ → World → World
  free table = free_memory table

  -- The documented parameters: the row, the family and the address of a pointer, the row, and the
  -- memory. A function sees no word behind its own.
  pub record SeesOwn : Type 0 where
    pub initialize :
        (args : List ℕ) (w : World)
        → D.initialize_unicast_ip_address_entry args w
          ≡ D.initialize_unicast_ip_address_entry (take 1 args) w
    pub get_table :
        (args : List ℕ) (w : World)
        → D.get_unicast_ip_address_table args w ≡ D.get_unicast_ip_address_table (take 2 args) w
    pub delete :
        (args : List ℕ) (w : World)
        → D.delete_unicast_ip_address_entry args w
          ≡ D.delete_unicast_ip_address_entry (take 1 args) w
    pub free_table :
        (args : List ℕ) (w : World) → D.free_mib_table args w ≡ D.free_mib_table (take 1 args) w

  -- No call reaches the structure that it is for. If the functions of iphlpapi.dll see only their
  -- documented parameters, then each of the four calls does the same at any two addresses.
  pub calls_miss :
      SeesOwn
      → (p q : ℕ) (w : World)
      → (init_row p w ≡ init_row q w)
        × (init_table p w ≡ init_table q w)
        × (delete_row p w ≡ delete_row q w)
        × (free p w ≡ free q w)
  unfolding init_row init_table delete_row free syscall_only_return_error
  calls_miss own p q w = (
    ap errno (own.initialize (1 ∷ p ∷ []) w ∙ sym (own.initialize (1 ∷ q ∷ []) w)),
    ap errno (own.get_table (2 ∷ 0 ∷ p ∷ []) w ∙ sym (own.get_table (2 ∷ 0 ∷ q ∷ []) w)),
    ap errno (own.delete (1 ∷ p ∷ []) w ∙ sym (own.delete (1 ∷ q ∷ []) w)),
    ap (λ r. r.1) (own.free_table (1 ∷ p ∷ []) w ∙ sym (own.free_table (1 ∷ q ∷ []) w)),
  )
