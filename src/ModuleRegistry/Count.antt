-- ===== src/ModuleRegistry/Count.antt =====
-- The count of a module's references.
use text.Mathlib.TextPositions.{eq_refl}
use text.Mathlib.Text.{◌==◌ as str_eq}
use ps5x_windows.Base.{
  ℕ, zero, suc, ◌+◌, ◌-◌, ◌%◌, ◌^◌, ◌<◌, ◌≡◌, refl, ap, ◌∙◌, Option, none, some, List, [], ◌∷◌,
  ◌++◌, Bool, true, false, String, ◌==◌, ltb, lookup, insert, erase, lookup-insert, arith,
  Bool-cases, inl, inr, if◌then◌else◌,
}
use ps5x_windows.KernelRuntime.Ports.{find_name, erase_name, set_name}
use ps5x_windows.ModuleRegistry.Table.{
  ExecutableInfo, ModuleDesc, RegistryState, new_module, module_at, count_up, count_module,
  add_module, register, listed, remove, needed, drop_module, count_down, unload_module, unload,
}

insert-insert :
    (k : ℕ) (v w : ModuleDesc) (m : List (ℕ × ModuleDesc))
    → insert k w (insert k v m) ≡ insert k w m
insert-insert k v w [] = ground arith
insert-insert k v w ((j, u) ∷ m) = elim (Bool-cases (j == k)) [
  | inl here ↦ ground (arith, here)
  | inr later ↦ rw (later, later) (ap (λ r. (j, u) ∷ r) (insert-insert k v w m))
]

lookup-insert_same :
    (k : ℕ) (v : ModuleDesc) (m : List (ℕ × ModuleDesc)) → lookup k (insert k v m) ≡ some v
lookup-insert_same k v m = ground (arith, lookup-insert k k v m)

erase-insert :
    (k : ℕ) (v : ModuleDesc) (m : List (ℕ × ModuleDesc))
    → lookup k m ≡ none
    → erase k (insert k v m) ≡ m
erase-insert k v [] h = ground arith
erase-insert k v ((j, u) ∷ m) h = elim (Bool-cases (j == k)) [
  | inl here ↦ absurd (ground (arith, here))
  | inr later ↦
      rw (later, later) (ap (λ r. (j, u) ∷ r) (erase-insert k v m (ground (arith, later))))
]

erase_name_absent :
    (name : String) (m : List (String × ℕ)) → find_name name m ≡ none → erase_name name m ≡ m
unfolding find_name erase_name
erase_name_absent name [] h = refl
erase_name_absent name ((n, v) ∷ m) h = elim (Bool-cases (str_eq n name)) [
  | inl here ↦ absurd (ground (arith, here))
  | inr later ↦ rw later (ap (λ r. (n, v) ∷ r) (erase_name_absent name m (ground (arith, later))))
]

erase_name-set_name :
    (name : String) (v : ℕ) (m : List (String × ℕ))
    → find_name name m ≡ none
    → erase_name name (set_name name v m) ≡ m
unfolding set_name erase_name
erase_name-set_name name v m h =
    rw (eq_refl name)
      (ap (erase_name name) (erase_name_absent name m h) ∙ erase_name_absent name m h)

remove-append :
    (id : ℕ) (order : List ℕ) → listed id order ≡ false → remove id (order ++ (id ∷ [])) ≡ order
unfolding listed remove
remove-append id [] h = ground arith
remove-append id (i ∷ is) h = elim (Bool-cases (i == id)) [
  | inl here ↦ absurd (ground (arith, here))
  | inr later ↦ rw later (ap (λ r. i ∷ r) (remove-append id is (ground (arith, later))))
]

-- A new module has no dependencies, and its own would not count.
needed-insert :
    (id : ℕ) (m : ModuleDesc) (ms : List (ℕ × ModuleDesc))
    → needed id ms ≡ false
    → needed id (insert id m ms) ≡ false
unfolding needed
needed-insert id m [] h = ground arith
needed-insert id m ((i, x) ∷ ms) h = elim (Bool-cases (i == id)) [
  | inl here ↦ ground (arith, here)
  | inr later ↦ ground (arith, later, needed-insert id m ms)
]

find_name-set_name :
    (name : String) (v : ℕ) (m : List (String × ℕ)) → find_name name (set_name name v m) ≡ some v
unfolding find_name set_name
find_name-set_name name v m = rw (eq_refl name) refl

-- Register of one executable, several times.
unfoldable pub register_times :
    (k : ℕ) (name path : String) → ExecutableInfo → Bool → (now : ℕ) → RegistryState → RegistryState
register_times zero name path elf is_main now s = s
register_times (suc k) name path elf is_main now s =
    register_times k name path elf is_main now (register name path elf is_main now s).1

abbrev unload_more :
    Bool × RegistryState → (RegistryState → Option RegistryState) → Option RegistryState
unload_more (false, s) next = none
unload_more (true, s) next = next s

-- Unload of a module several times; `none` where one of them fails.
unfoldable pub unload_times : (k id : ℕ) → RegistryState → Option RegistryState
unload_times zero id s = some s
unload_times (suc k) id s = unload_more (unload id s) (λ t. unload_times k id t)

module _ (name path : String) (elf : ExecutableInfo) (is_main : Bool) (now : ℕ)
    (s : RegistryState) where
  -- The new module with its count, and the registry that has it.
  abbrev held : ℕ → ModuleDesc
  held c = record (new_module s.next_id name path elf is_main now) { ref_count = c }

  abbrev holding : ℕ → RegistryState
  holding c = record (add_module name path elf is_main now s) {
    modules = insert s.next_id (held c) s.modules;
  }

  register_again :
      (c : ℕ)
      → suc c < 2 ^ 32
      → (register name path elf is_main now (holding c)).1 ≡ holding (suc c)
  unfolding register count_module module_at count_up add_module
  register_again c few =
      let known = find_name-set_name name s.next_id s.by_name in
      let here = lookup-insert_same s.next_id (held c) s.modules in
      let over = insert-insert s.next_id (held c) (held (suc c)) s.modules in
      let wrap : (c + 1) % 2 ^ 32 ≡ suc c = omega (arith, few) in
      rw (register, known, count_module, module_at, here, count_up, wrap, over) refl

  register_times_lem :
      (k c : ℕ)
      → c + k < 2 ^ 32
      → register_times k name path elf is_main now (holding c) ≡ holding (c + k)
  unfolding register_times
  register_times_lem zero c few = ap holding (omega arith)
  register_times_lem (suc k) c few =
      ap (register_times k name path elf is_main now) (register_again c (omega (arith, few)))
      ∙ register_times_lem k (suc c) (omega (arith, few))
      ∙ ap holding (omega arith)

  unload_held : (c : ℕ) → unload s.next_id (holding (suc (suc c))) ≡ (true, holding (suc c))
  unfolding unload unload_module count_down add_module
  unload_held c =
      let here = lookup-insert_same s.next_id (held (suc (suc c))) s.modules in
      let over =
        insert-insert s.next_id (held (suc (suc c))) (count_down (held (suc (suc c)))) s.modules in
      let more : ltb 1 (suc (suc c)) ≡ true = ground arith in
      let less : suc (suc c) - 1 ≡ suc c = omega arith in
      rw (unload, here, unload_module, more, over) (ap (λ n. (true, holding n)) less)

  unload_times_lem : (k : ℕ) → unload_times k s.next_id (holding (suc k)) ≡ some (holding 1)
  unfolding unload_times
  unload_times_lem zero = refl
  unload_times_lem (suc k) =
      ap (λ r. unload_more r (λ t. unload_times k s.next_id t)) (unload_held k) ∙ unload_times_lem k

  abbrev pub forgotten : RegistryState
  forgotten = record s {
    next_id = (s.next_id + 1) % 2 ^ 32;
    main_module = if is_main then s.next_id else s.main_module;
    unloads = elf ∷ s.unloads;
  }

  unload_last :
      find_name name s.by_name ≡ none
      → lookup s.next_id s.modules ≡ none
      → listed s.next_id s.load_order ≡ false
      → needed s.next_id s.modules ≡ false
      → unload s.next_id (holding 1) ≡ (true, forgotten)
  unfolding unload unload_module drop_module add_module new_module
  unload_last free fresh unlisted alone =
      let here = lookup-insert_same s.next_id (held 1) s.modules in
      let none_needs = needed-insert s.next_id (held 1) s.modules alone in
      let gone = erase-insert s.next_id (held 1) s.modules fresh in
      let unnamed = erase_name-set_name name s.next_id s.by_name free in
      let order = remove-append s.next_id s.load_order unlisted in
      rw (unload, here, none_needs, gone, unnamed, order) refl

-- Register of a name that is not registered, where the next id is free, not in the load order and
-- nothing depends on it: it gives that id; k further calls of Register with the same arguments,
-- where k + 1 < 2 ^ 32, and k calls of Unload, each of which succeeds, give the registry as it was
-- after the first; one more Unload succeeds, hands the executable to the loader and leaves the
-- modules, the names and the load order as they were before, while the next id has advanced and a
-- main module stays named.
pub unload-register :
    (k : ℕ) (name path : String) (elf : ExecutableInfo) (is_main : Bool) (now : ℕ)
    (s : RegistryState)
    → suc k < 2 ^ 32
    → find_name name s.by_name ≡ none
    → lookup s.next_id s.modules ≡ none
    → listed s.next_id s.load_order ≡ false
    → needed s.next_id s.modules ≡ false
    → (t : RegistryState) × (register name path elf is_main now s ≡ (s.next_id, t))
      × (unload_times k s.next_id (register_times k name path elf is_main now t) ≡ some t)
      × (unload s.next_id t ≡ (true, forgotten name path elf is_main now s))
unfolding register add_module new_module
unload-register k name path elf is_main now s few free fresh unlisted alone = (
  add_module name path elf is_main now s,
  rw (register, free) refl,
  ap (unload_times k s.next_id) (
        register_times_lem name path elf is_main now s k 1 (omega (arith, few))
        ∙ ap (holding name path elf is_main now s) (omega arith))
      ∙ unload_times_lem name path elf is_main now s k,
  unload_last name path elf is_main now s free fresh unlisted alone,
)
